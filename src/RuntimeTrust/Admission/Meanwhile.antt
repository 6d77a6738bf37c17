-- ===== src/RuntimeTrust/Admission/Meanwhile.antt =====
-- An admission during which its challenge ends.
use zima_control.Common.{
  suc, ◌<◌, String, ◌≡◌, ◌≢◌, refl, true, false, List, [], ◌∷◌, ◌++◌, some, lookup, lookup-delete,
  arith, inl, inr, Bool-cases, string_eq, nat_eq, eq_self,
}
use zima_control.Common.Action.{returned, Outcome-cases}
use zima_control.RuntimeTrust.Types.{
  RuntimeTrustResponse, RuntimeConnectionContext, RuntimeTrustSession,
}
use zima_control.RuntimeTrust.State.{Authority, ChallengeRecord, ReservedRuntimeChallenge}
use zima_control.RuntimeTrust.Challenges.{
  clear_challenges, consume, reserve, reserve_record, remove_expired, is_reserved, issued_record,
}
use zima_control.RuntimeTrust.Challenges.SingleUse.{
  RegistryCall, consumes, closes, clears_registry, registry_call, registry_calls, reserved-Spent,
}
use zima_control.RuntimeTrust.Challenges.Ended.{Ended, Ended-Alike}
use zima_control.RuntimeTrust.Challenges.Meanwhile.{
  reserve-Ended, registry_call-Ended, registry_calls-Ended,
}
use zima_control.RuntimeTrust.Admission.{Environment, Read, verify_response}
use zima_control.RuntimeTrust.Admission.Sound.{session_for-closed, close_challenges-closed}

-- Each challenge is stored under its identifier, and its object is one that was handed out.
pub record Filed (s : Authority) : Type 0 where
  pub filed :
      (id : String) (entry : ChallengeRecord)
      → lookup id s.records ≡ some entry
      → (entry.reserved.challenge.challenge_id ≡ id) × (entry.reserved.object < s.objects)

-- The calls that end a challenge: it is consumed, its connection is closed, or the registry is
-- cleared.
pub data Ends (reserved : ReservedRuntimeChallenge) : RegistryCall → Type 0 where
  by_consuming : Ends reserved (consumes reserved)
  by_closing : Ends reserved (closes reserved.connection.identity)
  by_clearing : Ends reserved clears_registry

-- The handlers that run meanwhile do these calls to the registry, in this order.
pub record Does (calls : List RegistryCall) (meanwhile : Authority → Authority) : Type 0 where
  pub records : (s : Authority) → (meanwhile s).records ≡ (registry_calls calls s).records
  pub closed :
      (s : Authority)
      → (meanwhile s).closed_connections ≡ (registry_calls calls s).closed_connections

-- Every sequence of registry calls keeps that.
registry_calls-Filed :
    (reserved : ReservedRuntimeChallenge) (cs : List RegistryCall) (s : Authority)
    → Filed s
    → Filed (registry_calls cs s)
registry_calls-Filed reserved cs s p =
    let q = registry_calls-Ended reserved 0 cs s (record {
      filed = p.filed;
      known = λ one. absurd (omega (arith, one));
      ended = λ two. absurd (omega (arith, two));
    }) in
    record { filed = q.filed }

reserve-known :
    (response : RuntimeTrustResponse) (connection : RuntimeConnectionContext) (s : Authority)
    (reserved : ReservedRuntimeChallenge)
    → (reserve response connection s).0 ≡ returned reserved
    → Filed s
    → Ended reserved 1 (reserve response connection s).1
unfolding reserve reserve_record remove_expired
reserve-known response connection s reserved h p =
    let t = (remove_expired (some response.challenge_id) s).1 in
    let q = reserve-Ended reserved 0 response connection s (record {
      filed = p.filed;
      known = λ one. absurd (omega (arith, one));
      ended = λ two. absurd (omega (arith, two));
    }) in
    let stored =
      reserved-Spent response connection (issued_record (lookup response.challenge_id t.records)) t
        reserved h in
    record {
      filed = q.filed;
      known = λ one.
          (q.filed reserved.challenge.challenge_id
            (record { reserved = reserved; is_verifying = true }) stored).1;
      ended = λ two. absurd (omega (arith, two));
    }

Ends-Ended :
    (reserved : ReservedRuntimeChallenge) (c : RegistryCall) (s : Authority)
    → Ends reserved c
    → Ended reserved 1 s
    → Ended reserved 2 (registry_call c s)
unfolding registry_call consume clear_challenges lookup
Ends-Ended reserved c s by_consuming p =
    let q = registry_call-Ended reserved 1 (consumes reserved) s p in
    record {
      filed = q.filed;
      known = λ one. q.known (omega arith);
      ended = λ two. ground (
        arith,
        lookup-delete reserved.challenge.challenge_id reserved.challenge.challenge_id s.records,
        eq_self reserved.challenge.challenge_id,
      );
    }
Ends-Ended reserved c s by_closing p =
    let q = registry_call-Ended reserved 1 (closes reserved.connection.identity) s p in
    record {
      filed = q.filed;
      known = λ one. q.known (omega arith);
      ended = λ two. rw (close_challenges-closed reserved.connection.identity s) refl;
    }
Ends-Ended reserved c s by_clearing p =
    let q = registry_call-Ended reserved 1 clears_registry s p in
    record { filed = q.filed; known = λ one. q.known (omega arith); ended = λ two. refl }

calls-Ended :
    (reserved : ReservedRuntimeChallenge) (before after : List RegistryCall) (ending : RegistryCall)
    (s : Authority)
    → Ends reserved ending
    → Ended reserved 1 s
    → Ended reserved 2 (registry_calls (before ++ ending ∷ after) s)
unfolding registry_calls
calls-Ended reserved [] after ending s e p =
    registry_calls-Ended reserved 2 after (registry_call ending s)
      (Ends-Ended reserved ending s e p)
calls-Ended reserved (c ∷ before) after ending s e p =
    calls-Ended reserved before after ending (registry_call c s) e
      (registry_call-Ended reserved 1 c s p)

Ended-is_reserved :
    (reserved : ReservedRuntimeChallenge) (s t : Authority)
    → t.records ≡ s.records
    → t.closed_connections ≡ s.closed_connections
    → Ended reserved 2 s
    → is_reserved reserved t ≡ false
unfolding is_reserved
Ended-is_reserved reserved s t same closed p = ground (arith, p.ended (omega arith), same, closed)

-- Suppose that the handlers that run while `verifyResponse` waits do a sequence of registry calls in
-- which the reserved challenge is consumed, or its connection is closed, or the registry is cleared,
-- with any registry calls before and after that. Then `verifyResponse` does not return a session, if
-- it started where each challenge is stored under its identifier with an object that was handed out.
pub closed_meanwhile :
    (env : Environment) (read : Read) (meanwhile : Authority → Authority)
    (response : RuntimeTrustResponse) (connection : RuntimeConnectionContext) (s : Authority)
    (reserved : ReservedRuntimeChallenge)
    → (reserve response connection s).0 ≡ returned reserved
    → Filed s
    → (before after : List RegistryCall) (ending : RegistryCall) → Ends reserved ending
    → Does (before ++ ending ∷ after) meanwhile
    → (session : RuntimeTrustSession)
    → (verify_response env read meanwhile response connection s).0 ≢ returned session
unfolding verify_response
closed_meanwhile env read meanwhile response connection s reserved g p before after ending e does
      session h =
    let t = (reserve response connection s).1 in
    let u : Authority = record t { readings = suc t.readings } in
    let q = calls-Ended reserved before after ending u e (
      Ended-Alike reserved 1 t u (record { records = refl; objects = refl; closed = refl })
        (reserve-known response connection s reserved g p)) in
    let gone =
      Ended-is_reserved reserved (registry_calls (before ++ ending ∷ after) u) (meanwhile u)
        (does.records u) (does.closed u) q in
    elim (Bool-cases (env.is_authenticated connection)) [
      | inr f ↦ ground (arith, f, h)
      | inl f ↦ elim (Outcome-cases (env.encode_response response)) [
        | inr (code, k) ↦ ground (arith, f, k, h)
        | inl (bytes, k) ↦
            session_for-closed env read meanwhile response connection reserved t session gone
              (rw (f, k, g) at h)
      ]
    ]
