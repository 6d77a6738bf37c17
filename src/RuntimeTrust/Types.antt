-- ===== src/RuntimeTrust/Types.antt =====
-- packages/runtime-trust-contracts/src/types.ts, constants.ts and errors.ts, and
-- packages/runtime-trust-authority/src/types.ts: the data of the runtime trust protocol. A `Buffer` is
-- the list of its bytes, and a connection's socket, compared by identity, is a number.
use zima_control.Common.{
  ℕ, String, ◌≡◌, ◌↔◌, refl, true, List, [], ◌∷◌, Option, none, some, Eq, nat_beq, nth_or,
  code_beq_iff, string_eq, nat_eq, option_eq,
}

pub data RuntimeTrustErrorCode : Type 0 where
  invalid_identity invalid_key invalid_signature revoked_key rebind_required expired replay
        wrong_authority wrong_binding unsupported_protocol unsupported_algorithm malformed_envelope
        stale_trust_snapshot session_invalidated session_conflict peer_not_authorized
        trust_state_not_admissible transport_failure uncertain_trust :
      RuntimeTrustErrorCode

abbrev pub error_code : RuntimeTrustErrorCode → ℕ
error_code invalid_identity = 0
error_code invalid_key = 1
error_code invalid_signature = 2
error_code revoked_key = 3
error_code rebind_required = 4
error_code expired = 5
error_code replay = 6
error_code wrong_authority = 7
error_code wrong_binding = 8
error_code unsupported_protocol = 9
error_code unsupported_algorithm = 10
error_code malformed_envelope = 11
error_code stale_trust_snapshot = 12
error_code session_invalidated = 13
error_code session_conflict = 14
error_code peer_not_authorized = 15
error_code trust_state_not_admissible = 16
error_code transport_failure = 17
error_code uncertain_trust = 18

abbrev pub error_all : List RuntimeTrustErrorCode
error_all =
    invalid_identity ∷ invalid_key ∷ invalid_signature ∷ revoked_key ∷ rebind_required ∷ expired
    ∷ replay ∷ wrong_authority ∷ wrong_binding ∷ unsupported_protocol ∷ unsupported_algorithm
    ∷ malformed_envelope ∷ stale_trust_snapshot ∷ session_invalidated ∷ session_conflict
    ∷ peer_not_authorized ∷ trust_state_not_admissible ∷ transport_failure ∷ uncertain_trust ∷ []

error-decode : (a : RuntimeTrustErrorCode) → nth_or invalid_identity error_all (error_code a) ≡ a
error-decode invalid_identity = refl
error-decode invalid_key = refl
error-decode invalid_signature = refl
error-decode revoked_key = refl
error-decode rebind_required = refl
error-decode expired = refl
error-decode replay = refl
error-decode wrong_authority = refl
error-decode wrong_binding = refl
error-decode unsupported_protocol = refl
error-decode unsupported_algorithm = refl
error-decode malformed_envelope = refl
error-decode stale_trust_snapshot = refl
error-decode session_invalidated = refl
error-decode session_conflict = refl
error-decode peer_not_authorized = refl
error-decode trust_state_not_admissible = refl
error-decode transport_failure = refl
error-decode uncertain_trust = refl

pub error_beq_iff :
    (a b : RuntimeTrustErrorCode) → (nat_beq (error_code a) (error_code b) ≡ true) ↔ (a ≡ b)
error_beq_iff = code_beq_iff error_code (nth_or invalid_identity error_all) error-decode

instance abbrev pub error_eq : Eq RuntimeTrustErrorCode
error_eq = record { beq = λ a b. nat_beq (error_code a) (error_code b); beq_iff = error_beq_iff }

pub data RuntimeTrustSurfaceErrorCode : Type 0 where
  surface_unsupported_protocol surface_expired surface_session_invalidated :
      RuntimeTrustSurfaceErrorCode
  retry_later admission_denied : RuntimeTrustSurfaceErrorCode

-- `toRuntimeTrustSurfaceCode` of a `RuntimeTrustError`, or of another error, `none`.
unfoldable pub to_runtime_trust_surface_code :
    Option RuntimeTrustErrorCode → RuntimeTrustSurfaceErrorCode
to_runtime_trust_surface_code none = admission_denied
to_runtime_trust_surface_code (some unsupported_protocol) = surface_unsupported_protocol
to_runtime_trust_surface_code (some expired) = surface_expired
to_runtime_trust_surface_code (some session_invalidated) = surface_session_invalidated
to_runtime_trust_surface_code (some transport_failure) = retry_later
to_runtime_trust_surface_code (some _) = admission_denied

abbrev pub Buffer : Type 0
Buffer = List ℕ

pub record RuntimeTrustBinding : Type 0 where
  pub authority_id : String
  pub issuer_id : String
  pub service_boundary_id : String
  pub binding_epoch : String
  pub key_version : ℕ
  pub public_key_fingerprint : String

-- The protocol version and the purpose are constants.
pub record RuntimeTrustHello : Type 0 where
  pub authority_id : String
  pub issuer_id : String
  pub service_boundary_id : String
  pub binding_epoch : String
  pub public_key_fingerprint : String
  pub runtime_instance_id : String

pub record RuntimeTrustChallenge : Type 0 where
  pub binding : RuntimeTrustBinding
  pub state_version : ℕ
  pub runtime_instance_id : String
  pub challenge_id : String
  pub nonce : Buffer

pub record RuntimeTrustResponse : Type 0 where
  pub challenge_id : String
  pub runtime_instance_id : String
  pub signature : Buffer

pub record RuntimePeerCredentials : Type 0 where
  pub pid : ℕ
  pub uid : ℕ
  pub gid : ℕ

pub record RuntimeConnectionContext : Type 0 where
  pub identity : ℕ
  pub peer_credentials : RuntimePeerCredentials
  pub accepted_monotonic_ns : ℕ

pub record RuntimeTrustSnapshot : Type 0 where
  pub authority_id : String
  pub issuer_id : String
  pub service_boundary_id : String
  pub binding_epoch : String
  pub trust_status : String
  pub state_version : ℕ
  pub active_key_id : Option String
  pub pending_key_id : Option String
  pub current_operation_id : Option String
  pub key_id : Option String
  pub key_issuer_id : Option String
  pub key_version : Option ℕ
  pub key_status : Option String
  pub algorithm : Option String
  pub public_key_encoding : Option String
  pub public_key : Option String
  pub public_key_fingerprint : Option String
  pub fingerprint_algorithm : Option String

pub record RuntimeTrustSession : Type 0 where
  pub session_id : String
  pub connection_identity : ℕ
  pub verified_issuer_uid : ℕ
  pub verified_issuer_gid : ℕ
  pub runtime_instance_id : String
  pub authority_id : String
  pub issuer_id : String
  pub service_boundary_id : String
  pub binding_epoch : String
  pub active_key_id : String
  pub key_version : ℕ
  pub public_key_fingerprint : String
  pub state_version : ℕ
  pub created_monotonic_ns : ℕ
  pub last_activity_monotonic_ns : ℕ
