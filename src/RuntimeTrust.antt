-- ===== src/RuntimeTrust.antt =====
-- packages/runtime-trust-authority: the admission of a runtime issuer to the authority.
pub mod Types
pub mod Policy
pub mod State
pub mod Limiter
pub mod Challenges
pub mod Sessions
pub mod Codec
pub mod Admission
