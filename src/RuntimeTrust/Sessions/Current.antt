-- ===== src/RuntimeTrust/Sessions/Current.antt =====
-- Which sessions are current.
use zima_control.Common.{
  ℕ, ◌+◌, ◌≤◌, ◌<◌, ◌≡◌, not, ◌||◌, Bool-cases, true, false, none, some, lookup, lookup-delete,
  lookup-insert_self, arith, inl, inr, Option-cases, nat_eq, string_eq,
}
use zima_control.Common.Action.{returned, thrown}
use zima_control.RuntimeTrust.Types.{
  RuntimeTrustErrorCode, RuntimeTrustSession, session_invalidated,
}
use zima_control.RuntimeTrust.Policy.{AdmissibleRuntimeTrustSnapshot}
use zima_control.RuntimeTrust.State.{Authority}
use zima_control.RuntimeTrust.Sessions.{
  remove, is_session_expired, renew_session, require_current, session_matches_snapshot,
}

current_bounds :
    (now : ℕ) (session : RuntimeTrustSession) (snapshot : AdmissibleRuntimeTrustSnapshot)
    → (is_session_expired now session || not (session_matches_snapshot session snapshot)) ≡ false
    → (session.created_monotonic_ns ≤ now)
      × (now < session.created_monotonic_ns + 600000000000)
      × (session.last_activity_monotonic_ns ≤ now)
      × (now < session.last_activity_monotonic_ns + 60000000000)
      × (session_matches_snapshot session snapshot ≡ true)
unfolding is_session_expired
current_bounds now session snapshot h =
    (ground arith, ground arith, ground arith, ground arith, ground arith)

-- A session that `requireCurrent` returns is the one that was stored for the connection, active since
-- the time that was read; that one matches the snapshot and, at that time, was created less than 600
-- seconds and last active less than 60 seconds ago, and neither later; and the returned session is
-- stored now. If it throws instead, the code is SESSION_INVALIDATED, the connection has no session any
-- more, and the one that it had, if any, was expired or did not match the snapshot.
pub require_current_lem :
    (id : ℕ) (snapshot : AdmissibleRuntimeTrustSnapshot) (s : Authority)
    → let now = s.clock s.readings in
      let (result, t) = require_current id snapshot s in
      ((session : RuntimeTrustSession)
        → result ≡ returned session
        → (existing : RuntimeTrustSession) × (lookup id s.sessions ≡ some existing)
          × (session ≡ record existing { last_activity_monotonic_ns = now })
          × (session_matches_snapshot existing snapshot ≡ true)
          × (existing.created_monotonic_ns ≤ now)
          × (now < existing.created_monotonic_ns + 600000000000)
          × (existing.last_activity_monotonic_ns ≤ now)
          × (now < existing.last_activity_monotonic_ns + 60000000000)
          × (lookup id t.sessions ≡ some session))
      × ((code : RuntimeTrustErrorCode)
          → result ≡ thrown code
          → (code ≡ session_invalidated)
            × (lookup id t.sessions ≡ none)
            × ((existing : RuntimeTrustSession)
                → lookup id s.sessions ≡ some existing
                → (is_session_expired now existing
                    || not (session_matches_snapshot existing snapshot))
                  ≡ true))
unfolding require_current renew_session remove
require_current_lem id snapshot s = elim (Option-cases (lookup id s.sessions)) [
  | inl e ↦ rw e ((λ session h. absurd (cc)), λ code h. (cc, e, λ existing f. absurd (cc)))
  | inr (existing, e) ↦
      let now = s.clock s.readings in
      let kept : RuntimeTrustSession = record existing { last_activity_monotonic_ns = now } in
      elim (Bool-cases
        (is_session_expired now existing || not (session_matches_snapshot existing snapshot))) [
          | inl f ↦ (
            (λ session h. ground (arith, e, f, h)),
            (λ code h. (
              ground (arith, e, f, h),
              ground (arith, e, f, lookup-delete id id s.sessions),
              (λ old g. ground (arith, e, f, g)),
            )),
          )
          | inr f ↦
              let (created, young, active, awake, matches) =
                current_bounds now existing snapshot f in
              (
                (λ session h. (
                  existing,
                  e,
                  ground (arith, e, f, h),
                  matches,
                  created,
                  young,
                  active,
                  awake,
                  ground (arith, e, f, h, lookup-insert_self id kept s.sessions),
                )),
                (λ code h. ground (arith, e, f, h)),
              )
        ]
]
