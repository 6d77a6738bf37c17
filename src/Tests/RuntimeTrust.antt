-- ===== src/Tests/RuntimeTrust.antt =====
-- The theorems on the admission of an issuer at concrete inputs.
use zima_control.Common.{
  ◌+◌, ◌<◌, ap, sym, ◌∙◌, values, delete, eq_iff, ℕ, String, ◌≡◌, ◌≢◌, ◌≤◌, refl, true, false, [],
  ◌∷◌, none, some, arith, lookup, insert, lookup-single, length, string_eq, nat_eq,
}
use zima_control.Common.Text.{to_hex, ◌⧺◌}
use zima_control.Common.Action.{returned, thrown}
use zima_control.RuntimeTrust.Types.{
  replay, Buffer, RuntimeTrustResponse, RuntimeConnectionContext, RuntimeTrustSnapshot,
  RuntimeTrustSession,
}
use zima_control.RuntimeTrust.Policy.{
  is_canonical_uuid, is_boundary_identifier, is_safe_integer, is_fingerprint,
  same_admissible_snapshot, assert_ed25519_public_key_metadata, AdmissibleRuntimeTrustSnapshot,
  narrow, is_issuer_peer, assert_admissible_runtime_trust_snapshot,
}
use zima_control.RuntimeTrust.State.{Authority, ReservedRuntimeChallenge}
use zima_control.RuntimeTrust.Limiter.{release}
use zima_control.RuntimeTrust.Limiter.Bound.{at_most_sixteen, registers, limiter_calls}
use zima_control.RuntimeTrust.Challenges.{
  reserve_record, remove_expired, consume_overdue, reserve, is_reserved, consume,
}
use zima_control.RuntimeTrust.Challenges.SingleUse.{
  single_use, consumes, closes, registry_calls, registry_call,
}
use zima_control.RuntimeTrust.Sessions.{
  remove, store_session, renew_session, create, unique_session_id, remove_expired_sessions,
  remove_sessions, require_current, is_session_expired, session_matches_snapshot,
}
use zima_control.RuntimeTrust.Sessions.Owners.{
  HasOwners, one_session_per_boundary, requires_current, session_calls, session_call,
}
use zima_control.RuntimeTrust.Sessions.Current.{require_current_lem}
use zima_control.RuntimeTrust.Admission.{
  session_for, assert_handshake_lifetime, require_fresh_admissible_snapshot,
  challenge_matches_snapshot, Environment, verify_response, close_connection,
}
use zima_control.RuntimeTrust.Admission.Sound.{verify_response_lem, Established}
use zima_control.RuntimeTrust.Admission.Meanwhile.{closed_meanwhile, Filed, Does, by_closing}

abbrev uuid : String
uuid = "00000000-0000-0000-0000-000000000001"

abbrev print : String
print = "0000000000000000000000000000000000000000000000000000000000000000"

abbrev stored : RuntimeTrustSnapshot
stored = record {
  authority_id = uuid;
  issuer_id = uuid;
  service_boundary_id = "boundary";
  binding_epoch = "epoch";
  trust_status = "ACTIVE";
  state_version = 1;
  active_key_id = some "key";
  pending_key_id = none;
  current_operation_id = none;
  key_id = some "key";
  key_issuer_id = some uuid;
  key_version = some 1;
  key_status = some "ACTIVE";
  algorithm = some "Ed25519";
  public_key_encoding = some "SPKI_DER_BASE64";
  public_key = some "pk";
  public_key_fingerprint = some print;
  fingerprint_algorithm = some "SHA-256";
}

abbrev snapshot : AdmissibleRuntimeTrustSnapshot
snapshot = narrow stored

abbrev connection : RuntimeConnectionContext
connection = record {
  identity = 7;
  peer_credentials = record { pid = 1; uid = 21011; gid = 21011 };
  accepted_monotonic_ns = 0;
}

abbrev session : RuntimeTrustSession
session = record {
  session_id = "rs1-a";
  connection_identity = 7;
  verified_issuer_uid = 21011;
  verified_issuer_gid = 21011;
  runtime_instance_id = "ri1";
  authority_id = uuid;
  issuer_id = uuid;
  service_boundary_id = "boundary";
  binding_epoch = "epoch";
  active_key_id = "key";
  key_version = 1;
  public_key_fingerprint = print;
  state_version = 1;
  created_monotonic_ns = 0;
  last_activity_monotonic_ns = 0;
}

abbrev reserved : ReservedRuntimeChallenge
reserved = record {
  object = 0;
  challenge = record {
    binding = record {
      authority_id = uuid;
      issuer_id = uuid;
      service_boundary_id = "boundary";
      binding_epoch = "epoch";
      key_version = 1;
      public_key_fingerprint = print;
    };
    state_version = 1;
    runtime_instance_id = "ri1";
    challenge_id = "ch1-a";
    nonce = 1 ∷ [];
  };
  canonical_payload = 9 ∷ [];
  initial_snapshot = snapshot;
  connection = connection;
  deadline_ns = 1000;
}

abbrev response : RuntimeTrustResponse
response = record { challenge_id = "ch1-a"; runtime_instance_id = "ri1"; signature = 5 ∷ [] }

abbrev zeros : Buffer
zeros =
    0 ∷ 0 ∷ 0 ∷ 0 ∷ 0 ∷ 0 ∷ 0 ∷ 0 ∷ 0 ∷ 0 ∷ 0 ∷ 0 ∷ 0 ∷ 0 ∷ 0 ∷ 0 ∷ 0 ∷ 0 ∷ 0 ∷ 0 ∷ 0 ∷ 0 ∷ 0 ∷ 0
    ∷ 0 ∷ 0 ∷ 0 ∷ 0 ∷ 0 ∷ 0 ∷ 0 ∷ 0 ∷ []

-- One challenge is outstanding, and every reading of the clock is 5.
abbrev waiting : Authority
waiting = record {
  records = ("ch1-a", record { reserved = reserved; is_verifying = false }) ∷ [];
  issuer_challenges = (uuid, "ch1-a") ∷ [];
  connection_challenges = (7, "ch1-a") ∷ [];
  nonce_values = "01" ∷ [];
  closed_connections = [];
  sessions = [];
  boundaries = [];
  unauthenticated = 7 ∷ [];
  objects = 1;
  clock = λ n. 5;
  readings = 0;
  random_bytes = λ d n. zeros;
  draws = 1;
}

-- The connection has a session.
abbrev admitted : Authority
admitted = record waiting {
  records = [];
  issuer_challenges = [];
  connection_challenges = [];
  nonce_values = [];
  sessions = (7, session) ∷ [];
  boundaries = ("boundary", 7) ∷ [];
  unauthenticated = [];
}

at_most_sixteen_example :
    length (limiter_calls (registers 8 ∷ registers 9 ∷ []) waiting).unauthenticated ≤ 16
at_most_sixteen_example = at_most_sixteen (registers 8 ∷ registers 9 ∷ []) waiting (omega arith)

admitted-HasOwners : HasOwners admitted
unfolding lookup
admitted-HasOwners = record {
  owner = λ id s h.
      (let (same, it) = lookup-single id 7 session s h in
        ap (λ x. lookup x.service_boundary_id admitted.boundaries) (sym it) ∙ ap some same);
}

require_current_lem_example :
    let renewed : RuntimeTrustSession = record session { last_activity_monotonic_ns = 5 } in
    (existing : RuntimeTrustSession) × (lookup 7 admitted.sessions ≡ some existing)
    × (renewed ≡ record existing { last_activity_monotonic_ns = 5 })
    × (session_matches_snapshot existing snapshot ≡ true)
    × (existing.created_monotonic_ns ≤ 5)
    × (5 < existing.created_monotonic_ns + 600000000000)
    × (existing.last_activity_monotonic_ns ≤ 5)
    × (5 < existing.last_activity_monotonic_ns + 60000000000)
    × (lookup 7 (require_current 7 snapshot admitted).1.sessions ≡ some renewed)
unfolding require_current renew_session is_session_expired session_matches_snapshot lookup
require_current_lem_example =
    (require_current_lem 7 snapshot admitted).0 (record session { last_activity_monotonic_ns = 5 })
      refl

reserves : (reserve response connection waiting).0 ≡ returned reserved
unfolding reserve reserve_record remove_expired consume_overdue values lookup insert consume
reserves = refl

zeros-fresh : ("ch1-" ⧺ to_hex zeros) ≢ "ch1-a"
unfolding to_hex
zeros-fresh e = cc ((eq_iff ("ch1-" ⧺ to_hex zeros) "ch1-a").1 e)

reserve-random : (reserve response connection waiting).1.random_bytes ≡ waiting.random_bytes
unfolding reserve reserve_record remove_expired consume_overdue values lookup insert consume
reserve-random = refl

single_use_example :
    (reserve response connection
      (registry_calls (consumes reserved ∷ []) (reserve response connection waiting).1)).0
    ≡ thrown replay
single_use_example =
    single_use response connection waiting reserved reserves
      (λ d h e. zeros-fresh (ap (λ r. "ch1-" ⧺ to_hex (r d 32)) (sym reserve-random) ∙ e))
      (consumes reserved ∷ []) response connection refl

-- After another check of the session, the connection has the boundary's session.
kept_session :
    lookup 7 (session_calls (requires_current 7 snapshot ∷ []) admitted).sessions
    ≡ some (record session { last_activity_monotonic_ns = 5 })
unfolding session_calls session_call require_current renew_session is_session_expired
    session_matches_snapshot lookup insert
kept_session = refl

one_session_per_boundary_example : ◌≡◌ {A = ℕ} 7 7
one_session_per_boundary_example =
    one_session_per_boundary admitted admitted-HasOwners (requires_current 7 snapshot ∷ []) 7 7
      (record session { last_activity_monotonic_ns = 5 })
      (record session { last_activity_monotonic_ns = 5 }) kept_session kept_session refl

abbrev environment : Environment
environment = record {
  crypto = record {
    canonical_ed25519_public_key =
        λ k. returned (record { public_key = k; public_key_fingerprint = print });
    verify_runtime_trust_signature = λ k payload signature. returned true;
  };
  encode_challenge = λ challenge. returned [];
  encode_hello = λ hello. returned [];
  encode_response = λ r. returned [];
  is_authenticated = λ c. true;
}

abbrev new_session : RuntimeTrustSession
new_session = record session {
  session_id = "rs1-" ⧺ print;
  created_monotonic_ns = 5;
  last_activity_monotonic_ns = 5;
}

verifies :
    (verify_response environment (returned (some stored)) (λ s. s) response connection waiting).0
    ≡ returned new_session
unfolding verify_response lookup reserve remove_expired reserve_record values session_for
    is_issuer_peer assert_handshake_lifetime require_fresh_admissible_snapshot
    assert_admissible_runtime_trust_snapshot is_canonical_uuid is_boundary_identifier
    is_safe_integer is_fingerprint same_admissible_snapshot challenge_matches_snapshot is_reserved
    insert delete to_hex consume consume_overdue release assert_ed25519_public_key_metadata create
    is_session_expired remove remove_expired_sessions remove_sessions store_session
    unique_session_id
verifies = refl

verify_response_lem_example :
    (true ≡ true)
    × (is_issuer_peer connection.peer_credentials ≡ true)
    × (r : ReservedRuntimeChallenge) × ((reserve response connection waiting).0 ≡ returned r)
    × Established environment (returned (some stored)) response r
verify_response_lem_example =
    verify_response_lem environment (returned (some stored)) (λ s. s) response connection waiting
      new_session verifies

waiting-Filed : Filed waiting
unfolding lookup
waiting-Filed = record { filed = λ id entry h. ground (arith, h, eq_iff "ch1-a" id) }

close_connection-Does : Does (closes 7 ∷ []) (close_connection 7)
unfolding close_connection registry_calls registry_call release remove
close_connection-Does = record { records = λ s. ground arith; closed = λ s. ground arith }

closed_meanwhile_example :
    (verify_response environment
      (returned (some stored))
      (close_connection 7)
      response
      connection
      waiting).0
    ≢ returned new_session
closed_meanwhile_example =
    closed_meanwhile environment (returned (some stored)) (close_connection 7) response connection
      waiting reserved reserves waiting-Filed [] [] (closes 7) by_closing close_connection-Does
      new_session
