-- ===== src/RuntimeTrust/Challenges/Meanwhile.antt =====
-- What the calls of the registry do to a challenge that has ended.
use zima_control.Common.{
  ℕ, suc, String, ◌≡◌, refl, true, false, not, List, [], ◌∷◌, none, some, ◌==◌, lookup,
  lookup-insert, arith, inl, inr, Option-cases, Bool-cases, nat_eq, string_eq, eq_iff, ◌||◌, ◌++◌,
  length, includes, has, leb, zero,
}
use zima_control.Common.Action.{Outcome-cases}
use zima_control.RuntimeTrust.Types.{
  RuntimeConnectionContext, RuntimeTrustResponse, RuntimeTrustChallenge, Buffer,
}
use zima_control.RuntimeTrust.Policy.{AdmissibleRuntimeTrustSnapshot, snapshot_binding}
use zima_control.RuntimeTrust.State.{
  Authority, ChallengeRecord, ReservedRuntimeChallenge, add_number,
}
use zima_control.RuntimeTrust.Challenges.{
  Encoder, remove_expired, unique_identifier, unique_nonce, issue, reserve, reserve_record,
  close_challenges, clear_challenges, set_verifying, out_of_handshake, max_outstanding,
}
use zima_control.RuntimeTrust.Challenges.Ended.{
  Ended, Alike, Ended-Alike, consume-Ended, remove_expired-Ended, store-Ended,
}
use zima_control.RuntimeTrust.Challenges.SingleUse.{
  RegistryCall, issues, reserves, consumes, closes, removes_overdue, clears_registry, registry_call,
  registry_calls,
}

identifier-Alike : (n : ℕ) (s : Authority) → Alike s (unique_identifier n s).1
unfolding unique_identifier
identifier-Alike zero s = record { records = refl; objects = refl; closed = refl }
identifier-Alike (suc n) s =
    let l = identifier-Alike n (record s { draws = suc s.draws }) in
    record {
      records = ground (arith, l.records);
      objects = ground (arith, l.objects);
      closed = ground (arith, l.closed);
    }

nonce-Alike : (n : ℕ) (s : Authority) → Alike s (unique_nonce n s).1
unfolding unique_nonce
nonce-Alike zero s = record { records = refl; objects = refl; closed = refl }
nonce-Alike (suc n) s =
    let l = nonce-Alike n (record s { draws = suc s.draws }) in
    record {
      records = ground (arith, l.records);
      objects = ground (arith, l.objects);
      closed = ground (arith, l.closed);
    }

includes-left : (xs : List ℕ) (a b : ℕ) → includes xs a ≡ true → includes (xs ++ b ∷ []) a ≡ true
includes-left [] a b h = cc
includes-left (x ∷ xs) a b h = ground (arith, includes-left xs a b)

includes_more : (xs : List ℕ) (a b : ℕ) → includes xs a ≡ true → includes (add_number b xs) a ≡ true
includes_more xs a b h = elim (Bool-cases (includes xs b)) [
  | inl e ↦ rw e h
  | inr e ↦ rw e (includes-left xs a b h)
]

module _ (reserved : ReservedRuntimeChallenge) (stage : ℕ) where
  issue-Ended :
      (encode : Encoder) (snapshot : AdmissibleRuntimeTrustSnapshot) (r : String)
      (connection : RuntimeConnectionContext) (s : Authority)
      → Ended reserved stage s
      → Ended reserved stage (issue encode snapshot r connection s).1
  unfolding issue remove_expired
  issue-Ended encode snapshot r connection s p =
      let t = (remove_expired none s).1 in
      let u : Authority = record t { readings = suc t.readings } in
      let pu =
        Ended-Alike reserved stage t u (record { records = refl; objects = refl; closed = refl })
          (remove_expired-Ended reserved stage none s p) in
      let v = (unique_identifier 8 u).1 in
      let pv = Ended-Alike reserved stage u v (identifier-Alike 8 u) pu in
      let w = (unique_nonce 8 v).1 in
      let pw = Ended-Alike reserved stage v w (nonce-Alike 8 v) pv in
      let challenge : String → Buffer → RuntimeTrustChallenge = λ c nonce. record {
        binding = snapshot_binding snapshot;
        state_version = snapshot.snapshot.state_version;
        runtime_instance_id = r;
        challenge_id = c;
        nonce = nonce;
      } in
      elim (Bool-cases (out_of_handshake (t.clock t.readings) connection)) [
        | inl e ↦ rw e pu
        | inr e ↦
            elim (Bool-cases (
              includes t.closed_connections connection.identity
              || leb max_outstanding (length t.records)
              || has snapshot.snapshot.issuer_id t.issuer_challenges
              || has connection.identity t.connection_challenges)) [
                | inl f ↦ rw (e, f) pu
                | inr f ↦ elim (Outcome-cases (unique_identifier 8 u).0) [
                  | inr (code, g) ↦ rw (e, f, g) pv
                  | inl (c, g) ↦ elim (Outcome-cases (unique_nonce 8 v).0) [
                    | inr (code, g2) ↦ rw (e, f, g, g2) pw
                    | inl (nonce, g2) ↦ elim (Outcome-cases (encode (challenge c nonce))) [
                      | inr (code, g3) ↦ rw (e, f, g, g2, g3) pw
                      | inl (payload, g3) ↦
                          rw (e, f, g, g2, g3)
                            (store-Ended reserved stage (challenge c nonce) payload snapshot
                              connection _ w pw)
                    ]
                  ]
                ]
              ]
      ]

  set_verifying-Ended :
      (r : ReservedRuntimeChallenge) (id : String) (s : Authority)
      → lookup id s.records ≡ some (record { reserved = r; is_verifying = false })
      → Ended reserved stage s
      → Ended reserved stage (set_verifying r s)
  set_verifying-Ended r id s found p =
      let at = p.filed id (record { reserved = r; is_verifying = false }) found in
      let entry : ChallengeRecord = record { reserved = r; is_verifying = true } in
      record {
        filed = λ k e h. ground (
          arith,
          h,
          p.filed k e,
          at,
          lookup-insert r.challenge.challenge_id k entry s.records,
          eq_iff r.challenge.challenge_id k,
        );
        known = p.known;
        ended = λ two. ground (
          arith,
          p.ended two,
          at,
          found,
          lookup-insert r.challenge.challenge_id reserved.challenge.challenge_id entry s.records,
          eq_iff r.challenge.challenge_id reserved.challenge.challenge_id,
        );
      }

  reserve_record-Ended :
      (response : RuntimeTrustResponse) (connection : RuntimeConnectionContext)
      (r : ReservedRuntimeChallenge) (id : String) (s : Authority)
      → lookup id s.records ≡ some (record { reserved = r; is_verifying = false })
      → Ended reserved stage s
      → Ended reserved stage (reserve_record response connection (some r) s).1
  unfolding reserve_record
  reserve_record-Ended response connection r id s found p =
      let t : Authority = record s { readings = suc s.readings } in
      let pt =
        Ended-Alike reserved stage s t (record { records = refl; objects = refl; closed = refl })
          p in
      let pu = set_verifying-Ended r id t found pt in
      elim (Bool-cases (leb r.deadline_ns (s.clock s.readings))) [
        | inl e ↦ rw e (consume-Ended reserved stage r t pt)
        | inr e ↦
            elim (Bool-cases (
              not (r.connection.identity == connection.identity)
              || not (r.challenge.runtime_instance_id == response.runtime_instance_id)
              || includes s.closed_connections connection.identity)) [
                | inl f ↦ rw (e, f) (consume-Ended reserved stage r (set_verifying r t) pu)
                | inr f ↦ rw (e, f) pu
              ]
      ]

  pub reserve-Ended :
      (response : RuntimeTrustResponse) (connection : RuntimeConnectionContext) (s : Authority)
      → Ended reserved stage s
      → Ended reserved stage (reserve response connection s).1
  unfolding reserve remove_expired reserve_record
  reserve-Ended response connection s p =
      let t = (remove_expired (some response.challenge_id) s).1 in
      let q = remove_expired-Ended reserved stage (some response.challenge_id) s p in
      elim (Option-cases (lookup response.challenge_id t.records)) [
        | inl e ↦ rw e q
        | inr (entry, e) ↦ elim (Bool-cases entry.is_verifying) [
          | inl f ↦ rw (e, f) q
          | inr f ↦
              rw (e, f)
                (reserve_record-Ended response connection entry.reserved response.challenge_id t
                  (ground (arith, e, f)) q)
        ]
      ]

  close-Ended :
      (identity : ℕ) (s : Authority)
      → Ended reserved stage s
      → Ended reserved stage (close_challenges identity s)
  unfolding close_challenges
  close-Ended identity s p =
      let t : Authority = record s {
        closed_connections = add_number identity s.closed_connections;
      } in
      let pt : Ended reserved stage t = record {
        filed = p.filed;
        known = p.known;
        ended = λ two. ground (
          arith,
          p.ended two,
          includes_more s.closed_connections reserved.connection.identity identity,
        );
      } in
      elim (Option-cases (lookup identity s.connection_challenges)) [
        | inl e ↦ rw e pt
        | inr (c, e) ↦ elim (Option-cases (lookup c s.records)) [
          | inl f ↦ rw (e, f) pt
          | inr (entry, f) ↦ rw (e, f) (consume-Ended reserved stage entry.reserved t pt)
        ]
      ]

  clear-Ended : (s : Authority) → Ended reserved stage s → Ended reserved stage (clear_challenges s)
  unfolding clear_challenges lookup
  clear-Ended s p = record {
    filed = λ id entry h. absurd (cc);
    known = p.known;
    ended = λ two. refl;
  }

  pub registry_call-Ended :
      (c : RegistryCall) (s : Authority)
      → Ended reserved stage s
      → Ended reserved stage (registry_call c s)
  unfolding registry_call
  registry_call-Ended (issues encode snapshot r connection) s p =
      issue-Ended encode snapshot r connection s p
  registry_call-Ended (reserves response connection) s p = reserve-Ended response connection s p
  registry_call-Ended (consumes r) s p = consume-Ended reserved stage r s p
  registry_call-Ended (closes identity) s p = close-Ended identity s p
  registry_call-Ended removes_overdue s p = remove_expired-Ended reserved stage none s p
  registry_call-Ended clears_registry s p = clear-Ended s p

  pub registry_calls-Ended :
      (cs : List RegistryCall) (s : Authority)
      → Ended reserved stage s
      → Ended reserved stage (registry_calls cs s)
  unfolding registry_calls
  registry_calls-Ended [] s p = p
  registry_calls-Ended (c ∷ cs) s p =
      registry_calls-Ended cs (registry_call c s) (registry_call-Ended c s p)
