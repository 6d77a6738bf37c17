-- ===== src/RuntimeTrust/Challenges/SingleUse.antt =====
-- A reserved challenge is never reserved again.
use zima_control.Common.{
  ◌∙◌, ℕ, suc, ◌≤◌, String, ◌≡◌, ◌≢◌, refl, true, not, List, [], ◌∷◌, Option, none, some, ◌==◌,
  lookup, lookup-insert, arith, inl, inr, Option-cases, Bool-cases, nat_eq, string_eq, ◌||◌,
  lookup-insert_self, length, includes, has, leb,
}
use zima_control.Common.Text.{◌⧺◌, to_hex}
use zima_control.Common.Action.{returned, thrown, Outcome-cases}
use zima_control.RuntimeTrust.Types.{
  RuntimeConnectionContext, RuntimeTrustResponse, RuntimeTrustChallenge, Buffer, replay,
}
use zima_control.RuntimeTrust.Policy.{AdmissibleRuntimeTrustSnapshot, snapshot_binding}
use zima_control.RuntimeTrust.State.{Authority, ReservedRuntimeChallenge, add_number}
use zima_control.RuntimeTrust.Challenges.{
  Encoder, consume, remove_expired, unique_identifier, unique_nonce, issue, reserve, reserve_record,
  issued_record, close_challenges, clear_challenges, set_verifying, out_of_handshake,
  max_outstanding,
}
use zima_control.RuntimeTrust.Challenges.Spent.{
  Spent, Spent-Later, consume-Spent, remove_expired-Spent, identifier-Later, nonce-Later,
  store-Spent,
}

module _ (id : String) where
  issue-Spent :
      (encode : Encoder) (snapshot : AdmissibleRuntimeTrustSnapshot) (r : String)
      (connection : RuntimeConnectionContext) (s : Authority)
      → Spent id s
      → Spent id (issue encode snapshot r connection s).1
  unfolding issue remove_expired
  issue-Spent encode snapshot r connection s p =
      let t = (remove_expired none s).1 in
      let u : Authority = record t { readings = suc t.readings } in
      let pu =
        Spent-Later id t u refl (record { random = refl; draws = omega arith })
          (remove_expired-Spent id none s p) in
      let (same, later, other) = identifier-Later id 8 u in
      let v = (unique_identifier 8 u).1 in
      let pv = Spent-Later id u v same later pu in
      let (same2, later2) = nonce-Later id 8 v in
      let w = (unique_nonce 8 v).1 in
      let pw = Spent-Later id v w same2 later2 pv in
      let challenge : String → Buffer → RuntimeTrustChallenge = λ c nonce. record {
        binding = snapshot_binding snapshot;
        state_version = snapshot.snapshot.state_version;
        runtime_instance_id = r;
        challenge_id = c;
        nonce = nonce;
      } in
      elim (Bool-cases (out_of_handshake (t.clock t.readings) connection)) [
        | inl e ↦ rw e pu
        | inr e ↦
            elim (Bool-cases (
              includes t.closed_connections connection.identity
              || leb max_outstanding (length t.records)
              || has snapshot.snapshot.issuer_id t.issuer_challenges
              || has connection.identity t.connection_challenges)) [
                | inl f ↦ rw (e, f) pu
                | inr f ↦ elim (Outcome-cases (unique_identifier 8 u).0) [
                  | inr (code, g) ↦ rw (e, f, g) pv
                  | inl (c, g) ↦ elim (Outcome-cases (unique_nonce 8 v).0) [
                    | inr (code, g2) ↦ rw (e, f, g, g2) pw
                    | inl (nonce, g2) ↦ elim (Outcome-cases (encode (challenge c nonce))) [
                      | inr (code, g3) ↦ rw (e, f, g, g2, g3) pw
                      | inl (payload, g3) ↦
                          rw (e, f, g, g2, g3)
                            (store-Spent id (challenge c nonce) payload snapshot connection _ w
                              (other pu c g) pw)
                    ]
                  ]
                ]
              ]
      ]

  reserve_record-Spent :
      (response : RuntimeTrustResponse) (connection : RuntimeConnectionContext)
      (found : Option ReservedRuntimeChallenge) (s : Authority)
      → Spent id s
      → Spent id (reserve_record response connection found s).1
  unfolding reserve_record
  reserve_record-Spent response connection none s p = p
  reserve_record-Spent response connection (some reserved) s p =
      let t : Authority = record s { readings = suc s.readings } in
      let pt = Spent-Later id s t refl (record { random = refl; draws = omega arith }) p in
      let u = set_verifying reserved t in
      let pu : Spent id u = record {
        verifying = λ entry h. ground (
          arith,
          h,
          p.verifying entry,
          lookup-insert reserved.challenge.challenge_id id
              (record { reserved = reserved; is_verifying = true }) s.records,
        );
        undrawn = p.undrawn;
      } in
      elim (Bool-cases (leb reserved.deadline_ns (s.clock s.readings))) [
        | inl e ↦ rw e (consume-Spent id reserved t pt)
        | inr e ↦
            elim (Bool-cases (
              not (reserved.connection.identity == connection.identity)
              || not (reserved.challenge.runtime_instance_id == response.runtime_instance_id)
              || includes s.closed_connections connection.identity)) [
                | inl f ↦ rw (e, f) (consume-Spent id reserved u pu)
                | inr f ↦ rw (e, f) pu
              ]
      ]

  reserve-Spent :
      (response : RuntimeTrustResponse) (connection : RuntimeConnectionContext) (s : Authority)
      → Spent id s
      → Spent id (reserve response connection s).1
  unfolding reserve remove_expired reserve_record
  reserve-Spent response connection s p =
      let t = (remove_expired (some response.challenge_id) s).1 in
      reserve_record-Spent response connection
        (issued_record (lookup response.challenge_id t.records)) t
        (remove_expired-Spent id (some response.challenge_id) s p)

  close-Spent : (identity : ℕ) (s : Authority) → Spent id s → Spent id (close_challenges identity s)
  unfolding close_challenges
  close-Spent identity s p =
      let t : Authority = record s {
        closed_connections = add_number identity s.closed_connections;
      } in
      let pt = Spent-Later id s t refl (record { random = refl; draws = omega arith }) p in
      elim (Option-cases (lookup identity s.connection_challenges)) [
        | inl e ↦ rw e pt
        | inr (c, e) ↦ elim (Option-cases (lookup c s.records)) [
          | inl f ↦ rw (e, f) pt
          | inr (entry, f) ↦ rw (e, f) (consume-Spent id entry.reserved t pt)
        ]
      ]

  clear-Spent : (s : Authority) → Spent id s → Spent id (clear_challenges s)
  unfolding clear_challenges lookup
  clear-Spent s p = record { verifying = λ entry h. cc; undrawn = p.undrawn }

-- The operations of the registry that change the state, in any order.
pub data RegistryCall : Type 0 where
  issues :
      Encoder → AdmissibleRuntimeTrustSnapshot → String → RuntimeConnectionContext → RegistryCall
  reserves : RuntimeTrustResponse → RuntimeConnectionContext → RegistryCall
  consumes : ReservedRuntimeChallenge → RegistryCall
  closes : ℕ → RegistryCall
  removes_overdue : RegistryCall
  clears_registry : RegistryCall

unfoldable pub registry_call : RegistryCall → Authority → Authority
registry_call (issues encode snapshot r connection) s = (issue encode snapshot r connection s).1
registry_call (reserves response connection) s = (reserve response connection s).1
registry_call (consumes reserved) s = consume reserved s
registry_call (closes identity) s = close_challenges identity s
registry_call removes_overdue s = (remove_expired none s).1
registry_call clears_registry s = clear_challenges s

unfoldable pub registry_calls : List RegistryCall → Authority → Authority
registry_calls [] s = s
registry_calls (c ∷ cs) s = registry_calls cs (registry_call c s)

registry_calls-Spent :
    (id : String) (cs : List RegistryCall) (s : Authority)
    → Spent id s
    → Spent id (registry_calls cs s)
unfolding registry_calls registry_call
registry_calls-Spent id [] s p = p
registry_calls-Spent id (issues encode snapshot r connection ∷ cs) s p =
    registry_calls-Spent id cs _ (issue-Spent id encode snapshot r connection s p)
registry_calls-Spent id (reserves response connection ∷ cs) s p =
    registry_calls-Spent id cs _ (reserve-Spent id response connection s p)
registry_calls-Spent id (consumes reserved ∷ cs) s p =
    registry_calls-Spent id cs _ (consume-Spent id reserved s p)
registry_calls-Spent id (closes identity ∷ cs) s p =
    registry_calls-Spent id cs _ (close-Spent id identity s p)
registry_calls-Spent id (removes_overdue ∷ cs) s p =
    registry_calls-Spent id cs _ (remove_expired-Spent id none s p)
registry_calls-Spent id (clears_registry ∷ cs) s p =
    registry_calls-Spent id cs _ (clear-Spent id s p)

Spent-refused :
    (response : RuntimeTrustResponse) (connection : RuntimeConnectionContext) (s : Authority)
    → Spent response.challenge_id s
    → (reserve response connection s).0 ≡ thrown replay
unfolding reserve reserve_record remove_expired
Spent-refused response connection s p =
    let t = (remove_expired (some response.challenge_id) s).1 in
    let q = remove_expired-Spent response.challenge_id (some response.challenge_id) s p in
    elim (Option-cases (lookup response.challenge_id t.records)) [
      | inl e ↦ rw e refl
      | inr (entry, e) ↦ rw (e, q.verifying entry e) refl
    ]

-- `reserve` returned this object: it is stored as VERIFYING.
pub reserved-Spent :
    (response : RuntimeTrustResponse) (connection : RuntimeConnectionContext)
    (found : Option ReservedRuntimeChallenge) (s : Authority) (reserved : ReservedRuntimeChallenge)
    → (reserve_record response connection found s).0 ≡ returned reserved
    → lookup reserved.challenge.challenge_id (reserve_record response connection found s).1.records
      ≡ some (record { reserved = reserved; is_verifying = true })
unfolding reserve_record
reserved-Spent response connection none s reserved h = cc
reserved-Spent response connection (some r) s reserved h = ground (
  arith,
  h,
  lookup-insert_self r.challenge.challenge_id (record { reserved = r; is_verifying = true })
      s.records,
)

-- Once `reserve` has returned a challenge, and if the random source does not give its identifier
-- again, then after any calls of the registry, by anybody, `reserve` throws REPLAY for every response
-- to that challenge, on every connection.
pub single_use :
    (response : RuntimeTrustResponse) (connection : RuntimeConnectionContext) (s : Authority)
    (reserved : ReservedRuntimeChallenge)
    → (reserve response connection s).0 ≡ returned reserved
    → ((d : ℕ)
        → (reserve response connection s).1.draws ≤ d
        → ("ch1-" ⧺ to_hex ((reserve response connection s).1.random_bytes d 32))
          ≢ reserved.challenge.challenge_id)
    → (cs : List RegistryCall) (later_response : RuntimeTrustResponse)
      (other : RuntimeConnectionContext)
    → later_response.challenge_id ≡ reserved.challenge.challenge_id
    → (reserve later_response other (registry_calls cs (reserve response connection s).1)).0
      ≡ thrown replay
unfolding reserve reserve_record remove_expired
single_use response connection s reserved h unique cs later_response other same =
    let t = (remove_expired (some response.challenge_id) s).1 in
    let stored =
      reserved-Spent response connection (issued_record (lookup response.challenge_id t.records)) t
        reserved h in
    let id = later_response.challenge_id in
    let p : Spent id (reserve response connection s).1 = record {
      verifying = λ entry e. ground (arith, e, stored, same);
      undrawn = λ d e g. unique d e (g ∙ same);
    } in
    Spent-refused later_response other _ (registry_calls-Spent id cs _ p)
