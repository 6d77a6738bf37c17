-- ===== src/RuntimeTrust/Sessions.antt =====
-- packages/runtime-trust-authority/src/session-manager.ts: the sessions of the admitted connections, at
-- most one of them for a service boundary.
pub mod Owners
pub mod Current
use zima_control.Common.{
  zero, ℕ, suc, ◌-◌, String, Bool, false, not, ◌||◌, ◌&&◌, [], ◌∷◌, Option, none, some, ◌==◌, Map,
  lookup, insert, delete, has, leb, ltb, length, any, values, if◌then◌else◌, string_eq, nat_eq,
  option_eq,
}
use zima_control.Common.Text.{◌⧺◌, to_hex}
use zima_control.Common.Action.{◌>>=◌, ◌>>◌, pure, throw, throw_if, gets, modify}
use zima_control.RuntimeTrust.Types.{
  session_conflict, session_invalidated, transport_failure, RuntimeConnectionContext,
  RuntimeTrustSession,
}
use zima_control.RuntimeTrust.Policy.{AdmissibleRuntimeTrustSnapshot}
use zima_control.RuntimeTrust.State.{Authority, M, now_ns, draw_bytes}

abbrev pub max_session_ns : ℕ
max_session_ns = 600000000000

abbrev pub idle_session_ns : ℕ
idle_session_ns = 60000000000

-- The end of `remove`, for the session that the connection has.
abbrev remove_session : ℕ → Option RuntimeTrustSession → Authority → Authority
remove_session identity none s = s
remove_session identity (some existing) s = record s {
  sessions = delete identity s.sessions;
  boundaries =
      if lookup existing.service_boundary_id s.boundaries == some identity
      then delete existing.service_boundary_id s.boundaries
      else s.boundaries;
}

unfoldable pub remove : ℕ → Authority → Authority
remove identity s = remove_session identity (lookup identity s.sessions) s

unfoldable pub is_session_expired : ℕ → RuntimeTrustSession → Bool
is_session_expired now session =
    ltb now session.created_monotonic_ns
    || leb max_session_ns (now - session.created_monotonic_ns)
    || ltb now session.last_activity_monotonic_ns
    || leb idle_session_ns (now - session.last_activity_monotonic_ns)

unfoldable pub remove_sessions : ℕ → Map ℕ RuntimeTrustSession → Authority → Authority
unfolding remove
remove_sessions now [] s = s
remove_sessions now ((identity, session) ∷ rest) s =
    remove_sessions now rest (if is_session_expired now session then remove identity s else s)

unfoldable pub remove_expired_sessions : M (Unit {0})
remove_expired_sessions = do now ← now_ns; modify (λ s. remove_sessions now s.sessions s)

-- The attempts that are left.
unfoldable pub unique_session_id : ℕ → M String
unfolding to_hex
unique_session_id zero = throw transport_failure
unique_session_id (suc attempts) = do
  bytes ← draw_bytes 32
  throw_if (not (length bytes == 32)) transport_failure
  let candidate = "rs1-" ⧺ to_hex bytes
  taken ← gets (λ s. any (λ session. session.session_id == candidate) (values s.sessions))
  if taken then unique_session_id attempts else pure candidate

-- The boundary belongs to another connection.
abbrev pub belongs_to_other : Option ℕ → ℕ → Bool
belongs_to_other none identity = false
belongs_to_other (some owner) identity = not (owner == identity)

unfoldable pub store_session : RuntimeTrustSession → Authority → Authority
store_session session s = record s {
  sessions = insert session.connection_identity session s.sessions;
  boundaries = insert session.service_boundary_id session.connection_identity s.boundaries;
}

unfoldable pub create :
    AdmissibleRuntimeTrustSnapshot → String → RuntimeConnectionContext → M RuntimeTrustSession
create snapshot runtime_instance_id connection = do
  remove_expired_sessions
  owner ← gets (λ s. lookup snapshot.snapshot.service_boundary_id s.boundaries)
  throw_if (belongs_to_other owner connection.identity) session_conflict
  present ← gets (λ s. has connection.identity s.sessions)
  throw_if present session_conflict
  now ← now_ns
  session_id ← unique_session_id 8
  let session : RuntimeTrustSession = record {
    session_id = session_id;
    connection_identity = connection.identity;
    verified_issuer_uid = connection.peer_credentials.uid;
    verified_issuer_gid = connection.peer_credentials.gid;
    runtime_instance_id = runtime_instance_id;
    authority_id = snapshot.snapshot.authority_id;
    issuer_id = snapshot.snapshot.issuer_id;
    service_boundary_id = snapshot.snapshot.service_boundary_id;
    binding_epoch = snapshot.snapshot.binding_epoch;
    active_key_id = snapshot.active_key_id;
    key_version = snapshot.key_version;
    public_key_fingerprint = snapshot.public_key_fingerprint;
    state_version = snapshot.snapshot.state_version;
    created_monotonic_ns = now;
    last_activity_monotonic_ns = now;
  }
  modify (store_session session)
  pure session

unfoldable pub session_matches_snapshot :
    RuntimeTrustSession → AdmissibleRuntimeTrustSnapshot → Bool
session_matches_snapshot session admissible =
    let snapshot = admissible.snapshot in
    session.authority_id == snapshot.authority_id
    && session.issuer_id == snapshot.issuer_id
    && session.service_boundary_id == snapshot.service_boundary_id
    && session.binding_epoch == snapshot.binding_epoch
    && session.state_version == snapshot.state_version
    && session.active_key_id == admissible.active_key_id
    && session.key_version == admissible.key_version
    && session.public_key_fingerprint == admissible.public_key_fingerprint

-- The rest of `requireCurrent`, for the session that the connection has.
unfoldable pub renew_session :
    ℕ → AdmissibleRuntimeTrustSnapshot → Option RuntimeTrustSession → M RuntimeTrustSession
renew_session identity snapshot none = throw session_invalidated
renew_session identity snapshot (some existing) = do
  now ← now_ns
  if is_session_expired now existing || not (session_matches_snapshot existing snapshot)
      then modify (remove identity) >> throw session_invalidated
      else do
        let updated : RuntimeTrustSession = record existing { last_activity_monotonic_ns = now }
        modify (λ s. record s { sessions = insert identity updated s.sessions })
        pure updated

unfoldable pub require_current : ℕ → AdmissibleRuntimeTrustSnapshot → M RuntimeTrustSession
require_current identity snapshot = do
  existing ← gets (λ s. lookup identity s.sessions)
  renew_session identity snapshot existing

unfoldable pub clear_sessions : Authority → Authority
clear_sessions s = record s { sessions = []; boundaries = [] }

unfoldable pub has_session : ℕ → M Bool
has_session identity = do remove_expired_sessions; gets (λ s. has identity s.sessions)

unfoldable pub get_session : ℕ → M (Option RuntimeTrustSession)
get_session identity = do remove_expired_sessions; gets (λ s. lookup identity s.sessions)

unfoldable pub has_boundary : String → M Bool
has_boundary boundary = do remove_expired_sessions; gets (λ s. has boundary s.boundaries)
