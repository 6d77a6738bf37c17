-- ===== src/RuntimeTrust/Challenges/Spent.antt =====
-- A challenge is used at most once.
use zima_control.Common.{
  ap, ◌∙◌, sym, ℕ, zero, suc, ◌≤◌, String, ◌≡◌, ◌≢◌, refl, true, false, List, [], ◌∷◌, Option, some,
  lookup, lookup-insert, lookup-delete, arith, inl, inr, Bool-cases, nat_eq, string_eq, eq_iff,
  values,
}
use zima_control.Common.Text.{◌⧺◌, to_hex}
use zima_control.Common.Action.{returned}
use zima_control.RuntimeTrust.Types.{RuntimeConnectionContext, RuntimeTrustChallenge, Buffer}
use zima_control.RuntimeTrust.Policy.{AdmissibleRuntimeTrustSnapshot}
use zima_control.RuntimeTrust.State.{Authority, ChallengeRecord, ReservedRuntimeChallenge}
use zima_control.RuntimeTrust.Challenges.{
  consume, consume_overdue, is_overdue, remove_expired, unique_identifier, unique_nonce,
  store_challenge, is_current,
}

-- The identifier is that of no challenge in the state ISSUED, and the random source does not give it
-- again.
pub record Spent (id : String) (s : Authority) : Type 0 where
  pub verifying :
      (entry : ChallengeRecord) → lookup id s.records ≡ some entry → entry.is_verifying ≡ true
  pub undrawn : (d : ℕ) → s.draws ≤ d → ("ch1-" ⧺ to_hex (s.random_bytes d 32)) ≢ id

-- What `Spent` reads, but for later draws.
pub record Later (s t : Authority) : Type 0 where
  pub random : t.random_bytes ≡ s.random_bytes
  pub draws : s.draws ≤ t.draws

module _ (id : String) where
  pub Spent-Later : (s t : Authority) → t.records ≡ s.records → Later s t → Spent id s → Spent id t
  Spent-Later s t e l p = record {
    verifying = λ entry h. p.verifying entry (cc);
    undrawn = λ d h g.
        p.undrawn d (omega (arith, l.draws, h))
          (ap (λ r. "ch1-" ⧺ to_hex (r d 32)) (sym l.random) ∙ g);
  }

  pub consume-Spent :
      (reserved : ReservedRuntimeChallenge) (s : Authority)
      → Spent id s
      → Spent id (consume reserved s)
  unfolding consume
  consume-Spent reserved s p =
      elim (Bool-cases (is_current reserved (lookup reserved.challenge.challenge_id s.records))) [
        | inr e ↦ rw e p
        | inl e ↦ rw e (record {
          verifying = λ entry h. ground (
            arith,
            h,
            p.verifying entry,
            lookup-delete reserved.challenge.challenge_id id s.records,
          );
          undrawn = p.undrawn;
        })
      ]

  consume_overdue-Spent :
      (now : ℕ) (except : Option String) (entries : List ChallengeRecord) (s : Authority)
      → Spent id s
      → Spent id (consume_overdue now except entries s)
  unfolding consume_overdue
  consume_overdue-Spent now except [] s p = p
  consume_overdue-Spent now except (entry ∷ entries) s p =
      elim (Bool-cases (is_overdue now except entry)) [
        | inl e ↦ rw e (
            consume_overdue-Spent now except entries (consume entry.reserved s)
              (consume-Spent entry.reserved s p))
        | inr e ↦ rw e (consume_overdue-Spent now except entries s p)
      ]

  pub remove_expired-Spent :
      (except : Option String) (s : Authority) → Spent id s → Spent id (remove_expired except s).1
  unfolding remove_expired
  remove_expired-Spent except s p =
      let t : Authority = record s { readings = suc s.readings } in
      consume_overdue-Spent (s.clock s.readings) except (values s.records) t
        (Spent-Later s t refl (record { random = refl; draws = omega arith }) p)

  pub identifier-Later :
      (n : ℕ) (s : Authority)
      → ((unique_identifier n s).1.records ≡ s.records)
        × Later s (unique_identifier n s).1
        × (Spent id s → (c : String) → (unique_identifier n s).0 ≡ returned c → c ≢ id)
  unfolding unique_identifier
  identifier-Later zero s =
      (refl, record { random = refl; draws = omega arith }, λ p c h. absurd (cc))
  identifier-Later (suc n) s =
      let t : Authority = record s { draws = suc s.draws } in
      let (same, later, other) = identifier-Later n t in
      (
        ground (arith, same),
        record { random = ground (arith, later.random); draws = ground (arith, later.draws) },
        (λ p c h. ground (
          arith,
          h,
          p.undrawn s.draws,
          other (Spent-Later s t refl (record { random = refl; draws = omega arith }) p) c,
        )),
      )

  pub nonce-Later :
      (n : ℕ) (s : Authority)
      → ((unique_nonce n s).1.records ≡ s.records) × Later s (unique_nonce n s).1
  unfolding unique_nonce
  nonce-Later zero s = (refl, record { random = refl; draws = omega arith })
  nonce-Later (suc n) s =
      let t : Authority = record s { draws = suc s.draws } in
      let (same, later) = nonce-Later n t in
      (
        ground (arith, same),
        record { random = ground (arith, later.random); draws = ground (arith, later.draws) },
      )

  pub store-Spent :
      (challenge : RuntimeTrustChallenge) (payload : Buffer)
      (snapshot : AdmissibleRuntimeTrustSnapshot) (connection : RuntimeConnectionContext)
      (deadline : ℕ) (s : Authority)
      → challenge.challenge_id ≢ id
      → Spent id s
      → Spent id (store_challenge challenge payload snapshot connection deadline s)
  unfolding store_challenge
  store-Spent challenge payload snapshot connection deadline s new p = record {
    verifying = λ entry h. ground (
      arith,
      h,
      new,
      p.verifying entry,
      lookup-insert challenge.challenge_id id
          (record {
            reserved = record {
              object = s.objects;
              challenge = challenge;
              canonical_payload = payload;
              initial_snapshot = snapshot;
              connection = connection;
              deadline_ns = deadline;
            };
            is_verifying = false;
          })
          s.records,
      eq_iff challenge.challenge_id id,
    );
    undrawn = p.undrawn;
  }
