-- ===== src/RuntimeTrust/Sessions/Owners.antt =====
-- A service boundary has at most one session.
use zima_control.Common.{
  zero, suc, ℕ, String, ◌≡◌, refl, false, not, List, [], ◌∷◌, none, some, lookup, lookup-insert,
  lookup-delete, arith, inl, inr, Option-cases, Bool-cases, Map, nat_eq, string_eq, eq_iff, ◌||◌,
}
use zima_control.Common.Action.{Outcome-cases}
use zima_control.RuntimeTrust.Types.{RuntimeConnectionContext, RuntimeTrustSession}
use zima_control.RuntimeTrust.Policy.{AdmissibleRuntimeTrustSnapshot}
use zima_control.RuntimeTrust.State.{Authority}
use zima_control.RuntimeTrust.Sessions.{
  belongs_to_other, remove, remove_sessions, remove_expired_sessions, is_session_expired,
  unique_session_id, store_session, create, renew_session, require_current, clear_sessions,
  session_matches_snapshot,
}

-- The boundary of every session belongs to the session's connection.
pub record HasOwners (s : Authority) : Type 0 where
  pub owner :
      (id : ℕ) (session : RuntimeTrustSession)
      → lookup id s.sessions ≡ some session
      → lookup session.service_boundary_id s.boundaries ≡ some id

remove-HasOwners : (id : ℕ) (s : Authority) → HasOwners s → HasOwners (remove id s)
unfolding remove
remove-HasOwners id s p = elim (Option-cases (lookup id s.sessions)) [
  | inl e ↦ rw e p
  | inr (existing, e) ↦ record {
    owner = λ k session h. ground (
      arith,
      e,
      h,
      p.owner k session,
      lookup-delete id k s.sessions,
      lookup-delete existing.service_boundary_id session.service_boundary_id s.boundaries,
      eq_iff existing.service_boundary_id session.service_boundary_id,
    );
  }
]

remove_sessions-HasOwners :
    (now : ℕ) (m : Map ℕ RuntimeTrustSession) (s : Authority)
    → HasOwners s
    → HasOwners (remove_sessions now m s)
unfolding remove_sessions
remove_sessions-HasOwners now [] s p = p
remove_sessions-HasOwners now ((id, session) ∷ m) s p =
    elim (Bool-cases (is_session_expired now session)) [
      | inl e ↦ rw e (remove_sessions-HasOwners now m (remove id s) (remove-HasOwners id s p))
      | inr e ↦ rw e (remove_sessions-HasOwners now m s p)
    ]

-- Drawing an identifier changes only the count of the draws.
unique_session_id-same :
    (n : ℕ) (s : Authority)
    → ((unique_session_id n s).1.sessions ≡ s.sessions)
      × ((unique_session_id n s).1.boundaries ≡ s.boundaries)
unfolding unique_session_id
unique_session_id-same zero s = (refl, refl)
unique_session_id-same (suc n) s =
    ground (arith, unique_session_id-same n (record s { draws = suc s.draws }))

-- What `HasOwners` reads.
HasOwners-same :
    (s t : Authority)
    → t.sessions ≡ s.sessions
    → t.boundaries ≡ s.boundaries
    → HasOwners s
    → HasOwners t
HasOwners-same s t e f p = record {
  owner = λ k session h. ground (arith, e, f, h, p.owner k session);
}

remove_expired-HasOwners : (s : Authority) → HasOwners s → HasOwners (remove_expired_sessions s).1
unfolding remove_expired_sessions
remove_expired-HasOwners s p =
    let t : Authority = record s { readings = suc s.readings } in
    remove_sessions-HasOwners (s.clock s.readings) s.sessions t (HasOwners-same s t refl refl p)

store-HasOwners :
    (session : RuntimeTrustSession) (s : Authority)
    → HasOwners s
    → belongs_to_other (lookup session.service_boundary_id s.boundaries) session.connection_identity
      ≡ false
    → lookup session.connection_identity s.sessions ≡ none
    → HasOwners (store_session session s)
unfolding store_session
store-HasOwners session s p free new = record {
  owner = λ k other h. ground (
    arith,
    h,
    free,
    new,
    p.owner k other,
    lookup-insert session.connection_identity k session s.sessions,
    lookup-insert session.service_boundary_id other.service_boundary_id session.connection_identity
        s.boundaries,
    eq_iff session.service_boundary_id other.service_boundary_id,
  );
}

module _ (snapshot : AdmissibleRuntimeTrustSnapshot) (runtime_instance_id : String)
    (connection : RuntimeConnectionContext) where
  pub create-HasOwners :
      (s : Authority) → HasOwners s → HasOwners (create snapshot runtime_instance_id connection s).1
  unfolding create remove_expired_sessions
  create-HasOwners s p =
      let t = (remove_expired_sessions s).1 in
      let q = remove_expired-HasOwners s p in
      let u : Authority = record t { readings = suc t.readings } in
      let same = unique_session_id-same 8 u in
      elim (Bool-cases (
        belongs_to_other (lookup snapshot.snapshot.service_boundary_id t.boundaries)
          connection.identity)) [
            | inl e ↦ rw e q
            | inr e ↦ elim (Option-cases (lookup connection.identity t.sessions)) [
              | inr (old, f) ↦ rw (e, f) q
              | inl f ↦ elim (Outcome-cases (unique_session_id 8 u).0) [
                | inr (code, g) ↦
                    rw (e, f, g) (HasOwners-same t (unique_session_id 8 u).1 same.0 same.1 q)
                | inl (name, g) ↦
                    rw (e, f, g)
                      (store-HasOwners _ (unique_session_id 8 u).1
                        (HasOwners-same t (unique_session_id 8 u).1 same.0 same.1 q)
                        (ground (arith, same, e)) (ground (arith, same, f)))
              ]
            ]
          ]

pub require_current-HasOwners :
    (id : ℕ) (snapshot : AdmissibleRuntimeTrustSnapshot) (s : Authority)
    → HasOwners s
    → HasOwners (require_current id snapshot s).1
unfolding require_current renew_session
require_current-HasOwners id snapshot s p = elim (Option-cases (lookup id s.sessions)) [
  | inl e ↦ rw e p
  | inr (existing, e) ↦
      let t : Authority = record s { readings = suc s.readings } in
      let q = HasOwners-same s t refl refl p in
      elim (Bool-cases (
        is_session_expired (s.clock s.readings) existing
        || not (session_matches_snapshot existing snapshot))) [
          | inl f ↦ rw (e, f) (remove-HasOwners id t q)
          | inr f ↦
              rw (e, f)
                (record {
                  owner = λ k session h. ground (
                    arith,
                    e,
                    h,
                    p.owner k session,
                    p.owner id existing e,
                    lookup-insert id k
                        (record existing { last_activity_monotonic_ns = s.clock s.readings })
                        s.sessions,
                  );
                })
        ]
]

-- The operations of the session manager that change the state, in any order.
pub data SessionCall : Type 0 where
  creates : AdmissibleRuntimeTrustSnapshot → String → RuntimeConnectionContext → SessionCall
  requires_current : ℕ → AdmissibleRuntimeTrustSnapshot → SessionCall
  removes : ℕ → SessionCall
  removes_expired : SessionCall
  clears : SessionCall

unfoldable pub session_call : SessionCall → Authority → Authority
session_call (creates snapshot runtime_instance_id connection) s =
    (create snapshot runtime_instance_id connection s).1
session_call (requires_current id snapshot) s = (require_current id snapshot s).1
session_call (removes id) s = remove id s
session_call removes_expired s = (remove_expired_sessions s).1
session_call clears s = clear_sessions s

unfoldable pub session_calls : List SessionCall → Authority → Authority
session_calls [] s = s
session_calls (c ∷ cs) s = session_calls cs (session_call c s)

clear-HasOwners : (s : Authority) → HasOwners (clear_sessions s)
unfolding clear_sessions lookup
clear-HasOwners s = record { owner = λ k session h. cc }

session_calls-HasOwners :
    (cs : List SessionCall) (s : Authority) → HasOwners s → HasOwners (session_calls cs s)
unfolding session_calls session_call
session_calls-HasOwners [] s p = p
session_calls-HasOwners (creates snapshot r connection ∷ cs) s p =
    session_calls-HasOwners cs _ (create-HasOwners snapshot r connection s p)
session_calls-HasOwners (requires_current id snapshot ∷ cs) s p =
    session_calls-HasOwners cs _ (require_current-HasOwners id snapshot s p)
session_calls-HasOwners (removes id ∷ cs) s p =
    session_calls-HasOwners cs _ (remove-HasOwners id s p)
session_calls-HasOwners (removes_expired ∷ cs) s p =
    session_calls-HasOwners cs _ (remove_expired-HasOwners s p)
session_calls-HasOwners (clears ∷ cs) s p = session_calls-HasOwners cs _ (clear-HasOwners s)

-- If every session's boundary belongs to its connection, then after any calls of the session manager
-- two sessions for the same service boundary are the session of one connection.
pub one_session_per_boundary :
    (s : Authority)
    → HasOwners s
    → (cs : List SessionCall) (i j : ℕ) (a b : RuntimeTrustSession)
    → lookup i (session_calls cs s).sessions ≡ some a
    → lookup j (session_calls cs s).sessions ≡ some b
    → a.service_boundary_id ≡ b.service_boundary_id
    → i ≡ j
one_session_per_boundary s p cs i j a b e f same =
    let q = session_calls-HasOwners cs s p in cc (q.owner i a e, q.owner j b f)
