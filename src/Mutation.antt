-- ===== src/Mutation.antt =====
-- Application mutations: packages/core/src/mutation-safety.ts, durable-mutation.ts and
-- in-memory-durable-mutation-repository.ts.
pub mod Status
pub mod Types
pub mod Aggregate
pub mod Fingerprint
pub mod Repository
pub mod Stores
