-- ===== src/Tests.antt =====
-- The theorems at concrete inputs.
mod Mutation
mod RuntimeTrust
mod Lifecycle
mod Stores
mod Codec
mod Cron
mod Retention
mod Claims
