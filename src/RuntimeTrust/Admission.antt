-- ===== src/RuntimeTrust/Admission.antt =====
-- packages/runtime-trust-authority/src/admission.ts: the handlers of the admission service. A handler
-- waits once, for the stored snapshot: `read` is what the reader answers, or the code that it throws,
-- and `meanwhile` is what the other handlers do to the shared state until then.
pub mod Sound
pub mod Meanwhile
use zima_control.Common.{
  ℕ, Bool, not, ◌||◌, ◌&&◌, Option, none, some, ◌==◌, if◌then◌else◌, string_eq, nat_eq,
}
use zima_control.Common.Action.{
  Outcome, returned, thrown, ◌>>=◌, ◌>>◌, pure, lift, throw, throw_if, gets, modify, try, finally,
}
use zima_control.RuntimeTrust.Types.{
  RuntimeTrustErrorCode, uncertain_trust, stale_trust_snapshot, session_invalidated,
  session_conflict, peer_not_authorized, expired, replay, invalid_signature, Buffer, error_eq,
  RuntimeTrustChallenge, RuntimeTrustResponse, RuntimeTrustHello, RuntimeConnectionContext,
  RuntimeTrustSnapshot, RuntimeTrustSession,
}
use zima_control.RuntimeTrust.Policy.{
  Crypto, AdmissibleRuntimeTrustSnapshot, assert_admissible_runtime_trust_snapshot,
  assert_hello_matches_snapshot, same_admissible_snapshot, is_issuer_peer,
}
use zima_control.RuntimeTrust.Codec.{Utf8}
use zima_control.RuntimeTrust.Codec.Messages.{
  encode_runtime_trust_hello, encode_runtime_trust_challenge, encode_runtime_trust_response,
}
use zima_control.RuntimeTrust.State.{Authority, M, now_ns, ReservedRuntimeChallenge}
use zima_control.RuntimeTrust.Limiter.{register, release, clear_connections}
use zima_control.RuntimeTrust.Challenges.{
  Encoder, issue, reserve, consume, is_reserved, close_challenges, clear_challenges,
  out_of_handshake,
}
use zima_control.RuntimeTrust.Sessions.{
  create, get_session, has_session, has_boundary, require_current, remove, clear_sessions,
}

-- The parts of the service's surroundings that the handlers call: the cryptography, the encoders of
-- runtime-trust-contracts/src/codec.ts that the handlers use to validate a message, and the set of
-- the connections that `authenticateIssuerConnection` has accepted.
pub record Environment : Type 0 where
  pub crypto : Crypto
  pub encode_challenge : Encoder
  pub encode_hello : RuntimeTrustHello → Outcome RuntimeTrustErrorCode Buffer
  pub encode_response : RuntimeTrustResponse → Outcome RuntimeTrustErrorCode Buffer
  pub is_authenticated : RuntimeConnectionContext → Bool

-- The surroundings of the service: its encoders are those of the wire format.
abbrev pub service_environment : Utf8 → Crypto → (RuntimeConnectionContext → Bool) → Environment
service_environment utf8 crypto is_authenticated = record {
  crypto = crypto;
  encode_challenge = encode_runtime_trust_challenge utf8;
  encode_hello = encode_runtime_trust_hello utf8;
  encode_response = encode_runtime_trust_response utf8;
  is_authenticated = is_authenticated;
}

abbrev pub Read : Type 0
Read = Outcome RuntimeTrustErrorCode (Option RuntimeTrustSnapshot)

unfoldable pub assert_handshake_lifetime : RuntimeConnectionContext → M (Unit {0})
assert_handshake_lifetime connection = do
  now ← now_ns
  throw_if (out_of_handshake now connection) expired

abbrev freshness :
    Outcome RuntimeTrustErrorCode AdmissibleRuntimeTrustSnapshot
    → Outcome RuntimeTrustErrorCode AdmissibleRuntimeTrustSnapshot
freshness (returned snapshot) = returned snapshot
freshness (thrown e) =
    thrown (if e == uncertain_trust then uncertain_trust else stale_trust_snapshot)

unfoldable pub require_fresh_admissible_snapshot :
    Crypto
    → Option RuntimeTrustSnapshot
    → Outcome RuntimeTrustErrorCode AdmissibleRuntimeTrustSnapshot
require_fresh_admissible_snapshot crypto snapshot =
    freshness (assert_admissible_runtime_trust_snapshot crypto snapshot)

unfoldable pub challenge_matches_snapshot :
    RuntimeTrustChallenge → AdmissibleRuntimeTrustSnapshot → Bool
challenge_matches_snapshot challenge admissible =
    let snapshot = admissible.snapshot in
    challenge.binding.authority_id == snapshot.authority_id
    && challenge.binding.issuer_id == snapshot.issuer_id
    && challenge.binding.service_boundary_id == snapshot.service_boundary_id
    && challenge.binding.binding_epoch == snapshot.binding_epoch
    && challenge.binding.key_version == admissible.key_version
    && challenge.binding.public_key_fingerprint == admissible.public_key_fingerprint
    && challenge.state_version == snapshot.state_version

-- The `try` block of `issueChallenge`.
unfoldable pub challenge_for :
    Environment
    → Read
    → (Authority → Authority)
    → RuntimeTrustHello
    → RuntimeConnectionContext
    → M RuntimeTrustChallenge
challenge_for env read meanwhile hello connection = do
  throw_if (not (is_issuer_peer connection.peer_credentials)) peer_not_authorized
  assert_handshake_lifetime connection
  modify meanwhile
  stored ← lift read
  snapshot ← lift (assert_admissible_runtime_trust_snapshot env.crypto stored)
  lift (assert_hello_matches_snapshot hello snapshot)
  has_own ← has_session connection.identity
  throw_if has_own session_conflict
  is_taken ← has_boundary snapshot.snapshot.service_boundary_id
  throw_if is_taken session_conflict
  issue env.encode_challenge snapshot hello.runtime_instance_id connection

unfoldable pub issue_challenge :
    Environment
    → Read
    → (Authority → Authority)
    → RuntimeTrustHello
    → RuntimeConnectionContext
    → M RuntimeTrustChallenge
issue_challenge env read meanwhile hello connection = do
  throw_if (not (env.is_authenticated connection)) peer_not_authorized
  _ ← lift (env.encode_hello hello)
  register connection.identity
  try (challenge_for env read meanwhile hello connection)
      (λ e. do modify (release connection.identity); throw e)

-- The `try` block of `verifyResponse`. Its caller takes five fields of the session.
unfoldable pub session_for :
    Environment
    → Read
    → (Authority → Authority)
    → RuntimeTrustResponse
    → RuntimeConnectionContext
    → ReservedRuntimeChallenge
    → M RuntimeTrustSession
session_for env read meanwhile response connection reserved = do
  throw_if (not (is_issuer_peer connection.peer_credentials)) peer_not_authorized
  assert_handshake_lifetime connection
  modify meanwhile
  current ← lift read
  admissible ← lift (require_fresh_admissible_snapshot env.crypto current)
  throw_if
      (not (same_admissible_snapshot reserved.initial_snapshot admissible)
        || not (challenge_matches_snapshot reserved.challenge admissible))
      stale_trust_snapshot
  valid ← lift (
      env.crypto.verify_runtime_trust_signature admissible.public_key reserved.canonical_payload
        response.signature)
  throw_if (not valid) invalid_signature
  live ← gets (is_reserved reserved)
  throw_if (not live) replay
  create admissible response.runtime_instance_id connection

unfoldable pub verify_response :
    Environment
    → Read
    → (Authority → Authority)
    → RuntimeTrustResponse
    → RuntimeConnectionContext
    → M RuntimeTrustSession
verify_response env read meanwhile response connection = do
  throw_if (not (env.is_authenticated connection)) peer_not_authorized
  _ ← lift (env.encode_response response)
  reserved ← reserve response connection
  finally (session_for env read meanwhile response connection reserved)
      (λ s. release connection.identity (consume reserved s))

-- The `try` block of `requireCurrentSession`.
unfoldable pub current_session :
    Environment → Read → (Authority → Authority) → RuntimeConnectionContext → M RuntimeTrustSession
current_session env read meanwhile connection = do
  modify meanwhile
  stored ← lift read
  current ← lift (assert_admissible_runtime_trust_snapshot env.crypto stored)
  require_current connection.identity current

abbrev or_invalidated : Option RuntimeTrustSession → M RuntimeTrustSession
or_invalidated none = throw session_invalidated
or_invalidated (some session) = pure session

unfoldable pub require_current_session :
    Environment → Read → (Authority → Authority) → RuntimeConnectionContext → M RuntimeTrustSession
require_current_session env read meanwhile connection = do
  throw_if (not (env.is_authenticated connection)) peer_not_authorized
  throw_if (not (is_issuer_peer connection.peer_credentials)) peer_not_authorized
  found ← get_session connection.identity
  _ ← or_invalidated found
  try (current_session env read meanwhile connection) (λ e. do
    modify (remove connection.identity)
    throw (if e == uncertain_trust then uncertain_trust else session_invalidated))

unfoldable pub close_connection : ℕ → Authority → Authority
close_connection identity s = remove identity (release identity (close_challenges identity s))

unfoldable pub reset_for_authority_restart : Authority → Authority
reset_for_authority_restart s = clear_connections (clear_sessions (clear_challenges s))
