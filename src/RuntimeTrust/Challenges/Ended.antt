-- ===== src/RuntimeTrust/Challenges/Ended.antt =====
-- A challenge that has ended stays unusable.
use zima_control.Common.{
  ℕ, suc, ◌≤◌, ◌<◌, String, ◌≡◌, refl, true, false, not, List, [], ◌∷◌, Option, some, lookup,
  lookup-insert, lookup-delete, arith, inl, inr, Bool-cases, nat_eq, string_eq, eq_iff, ◌||◌,
  includes, values,
}
use zima_control.RuntimeTrust.Types.{RuntimeConnectionContext, RuntimeTrustChallenge, Buffer}
use zima_control.RuntimeTrust.Policy.{AdmissibleRuntimeTrustSnapshot}
use zima_control.RuntimeTrust.State.{Authority, ChallengeRecord, ReservedRuntimeChallenge}
use zima_control.RuntimeTrust.Challenges.{
  consume, consume_overdue, is_overdue, remove_expired, store_challenge, is_current,
}

-- Each challenge is stored under its identifier, and its object is an old one. From stage 1 on the
-- object of this challenge is an old one, and from stage 2 on its connection is closed or the
-- object is not the one that is stored under its identifier.
pub record Ended (reserved : ReservedRuntimeChallenge) (stage : ℕ) (s : Authority) : Type 0 where
  pub filed :
      (id : String) (entry : ChallengeRecord)
      → lookup id s.records ≡ some entry
      → (entry.reserved.challenge.challenge_id ≡ id) × (entry.reserved.object < s.objects)
  pub known : 1 ≤ stage → reserved.object < s.objects
  pub ended :
      2 ≤ stage
      → (includes s.closed_connections reserved.connection.identity
          || not (is_current reserved (lookup reserved.challenge.challenge_id s.records)))
        ≡ true

-- What `Ended` reads is the same.
pub record Alike (s t : Authority) : Type 0 where
  pub records : t.records ≡ s.records
  pub objects : t.objects ≡ s.objects
  pub closed : t.closed_connections ≡ s.closed_connections

module _ (reserved : ReservedRuntimeChallenge) (stage : ℕ) where
  pub Ended-Alike : (s t : Authority) → Alike s t → Ended reserved stage s → Ended reserved stage t
  Ended-Alike s t l p = record {
    filed = rw (l.records, l.objects) p.filed;
    known = rw l.objects p.known;
    ended = rw (l.records, l.closed) p.ended;
  }

  pub consume-Ended :
      (r : ReservedRuntimeChallenge) (s : Authority)
      → Ended reserved stage s
      → Ended reserved stage (consume r s)
  unfolding consume
  consume-Ended r s p =
      elim (Bool-cases (is_current r (lookup r.challenge.challenge_id s.records))) [
        | inr e ↦ rw e p
        | inl e ↦ rw e (record {
          filed = λ id entry h.
              ground
                (arith, h, p.filed id entry, lookup-delete r.challenge.challenge_id id s.records);
          known = p.known;
          ended = λ two. ground (
            arith,
            p.ended two,
            lookup-delete r.challenge.challenge_id reserved.challenge.challenge_id s.records,
          );
        })
      ]

  consume_overdue-Ended :
      (now : ℕ) (except : Option String) (entries : List ChallengeRecord) (s : Authority)
      → Ended reserved stage s
      → Ended reserved stage (consume_overdue now except entries s)
  unfolding consume_overdue
  consume_overdue-Ended now except [] s p = p
  consume_overdue-Ended now except (entry ∷ entries) s p =
      elim (Bool-cases (is_overdue now except entry)) [
        | inl e ↦ rw e (
            consume_overdue-Ended now except entries (consume entry.reserved s)
              (consume-Ended entry.reserved s p))
        | inr e ↦ rw e (consume_overdue-Ended now except entries s p)
      ]

  pub remove_expired-Ended :
      (except : Option String) (s : Authority)
      → Ended reserved stage s
      → Ended reserved stage (remove_expired except s).1
  unfolding remove_expired
  remove_expired-Ended except s p =
      let t : Authority = record s { readings = suc s.readings } in
      consume_overdue-Ended (s.clock s.readings) except (values s.records) t
        (Ended-Alike s t (record { records = refl; objects = refl; closed = refl }) p)

  pub store-Ended :
      (challenge : RuntimeTrustChallenge) (payload : Buffer)
      (snapshot : AdmissibleRuntimeTrustSnapshot) (connection : RuntimeConnectionContext)
      (deadline : ℕ) (s : Authority)
      → Ended reserved stage s
      → Ended reserved stage (store_challenge challenge payload snapshot connection deadline s)
  unfolding store_challenge
  store-Ended challenge payload snapshot connection deadline s p =
      let entry : ChallengeRecord = record {
        reserved = record {
          object = s.objects;
          challenge = challenge;
          canonical_payload = payload;
          initial_snapshot = snapshot;
          connection = connection;
          deadline_ns = deadline;
        };
        is_verifying = false;
      } in
      record {
        filed = λ id found h. ground (
          arith,
          h,
          p.filed id found,
          lookup-insert challenge.challenge_id id entry s.records,
          eq_iff challenge.challenge_id id,
        );
        known = λ one. ground (arith, p.known one);
        ended = λ two. ground (
          arith,
          two,
          p.known,
          p.ended two,
          lookup-insert challenge.challenge_id reserved.challenge.challenge_id entry s.records,
        );
      }
