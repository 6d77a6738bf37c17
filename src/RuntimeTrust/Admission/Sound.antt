-- ===== src/RuntimeTrust/Admission/Sound.antt =====
-- What an admission has established.
use zima_control.Common.{
  Option-cases, ℕ, string_eq, List, [], ◌∷◌, ◌++◌, includes, nat_eq, eq_self, lookup, suc, ◌≢◌, ◌≡◌,
  true, false, Option, arith, inl, inr, Bool-cases,
}
use zima_control.Common.Action.{returned, Outcome-cases}
use zima_control.RuntimeTrust.Types.{
  RuntimeTrustResponse, RuntimeConnectionContext, RuntimeTrustSession, RuntimeTrustSnapshot,
}
use zima_control.RuntimeTrust.Policy.{
  AdmissibleRuntimeTrustSnapshot, assert_admissible_runtime_trust_snapshot,
  same_admissible_snapshot, is_issuer_peer,
}
use zima_control.RuntimeTrust.State.{add_number, Authority, ReservedRuntimeChallenge}
use zima_control.RuntimeTrust.Challenges.{close_challenges, consume, reserve, is_reserved}
use zima_control.RuntimeTrust.Admission.{
  Environment, Read, session_for, verify_response, require_fresh_admissible_snapshot,
  challenge_matches_snapshot, assert_handshake_lifetime,
}

-- A snapshot was read, it is admissible, it is the one for which the challenge was issued, and the
-- response's signature of that challenge is valid under its key.
pub record Established (env : Environment) (read : Read) (response : RuntimeTrustResponse)
    (reserved : ReservedRuntimeChallenge) : Type 0 where
  stored : Option RuntimeTrustSnapshot
  admissible : AdmissibleRuntimeTrustSnapshot
  is_read : read ≡ returned stored
  is_admissible : assert_admissible_runtime_trust_snapshot env.crypto stored ≡ returned admissible
  is_same : same_admissible_snapshot reserved.initial_snapshot admissible ≡ true
  matches : challenge_matches_snapshot reserved.challenge admissible ≡ true
  is_signed :
      env.crypto.verify_runtime_trust_signature admissible.public_key reserved.canonical_payload
        response.signature
      ≡ returned true

module _ (env : Environment) (read : Read) (meanwhile : Authority → Authority)
    (response : RuntimeTrustResponse) (connection : RuntimeConnectionContext) where
  session_for-Established :
      (reserved : ReservedRuntimeChallenge) (s : Authority) (session : RuntimeTrustSession)
      → (session_for env read meanwhile response connection reserved s).0 ≡ returned session
      → (is_issuer_peer connection.peer_credentials ≡ true) × Established env read response reserved
  unfolding session_for require_fresh_admissible_snapshot assert_handshake_lifetime
  session_for-Established reserved s session h = elim (Outcome-cases read) [
    | inr (code, e) ↦ ground (arith, e, h)
    | inl (stored, e) ↦
        elim (Outcome-cases (assert_admissible_runtime_trust_snapshot env.crypto stored)) [
          | inr (code, f) ↦ ground (arith, e, f, h)
          | inl (admissible, f) ↦
              elim (Outcome-cases (
                env.crypto.verify_runtime_trust_signature admissible.public_key
                  reserved.canonical_payload response.signature)) [
                    | inr (code, g) ↦ ground (arith, e, f, g, h)
                    | inl (valid, g) ↦ (
                      ground (arith, e, f, g, h),
                      record {
                        stored = stored;
                        admissible = admissible;
                        is_read = e;
                        is_admissible = f;
                        is_same = ground (arith, e, f, g, h);
                        matches = ground (arith, e, f, g, h);
                        is_signed = ground (arith, e, f, g, h);
                      },
                    )
                  ]
        ]
  ]

  -- When `verifyResponse` returns a session, whatever the other handlers did while it waited, the
  -- connection was authenticated and its peer is the issuer's; the challenge was reserved for it; and
  -- the snapshot that was read is admissible, the same as the one for which the challenge was issued,
  -- and has the key under which the response signs the challenge's canonical payload.
  pub verify_response_lem :
      (s : Authority) (session : RuntimeTrustSession)
      → (verify_response env read meanwhile response connection s).0 ≡ returned session
      → (env.is_authenticated connection ≡ true)
        × (is_issuer_peer connection.peer_credentials ≡ true)
        × (reserved : ReservedRuntimeChallenge) × ((reserve response connection s).0
            ≡ returned reserved)
        × Established env read response reserved
  unfolding verify_response
  verify_response_lem s session h = elim (Bool-cases (env.is_authenticated connection)) [
    | inr e ↦ ground (arith, e, h)
    | inl e ↦ elim (Outcome-cases (env.encode_response response)) [
      | inr (code, f) ↦ ground (arith, e, f, h)
      | inl (bytes, f) ↦ elim (Outcome-cases (reserve response connection s).0) [
        | inr (code, g) ↦ ground (arith, e, f, g, h)
        | inl (reserved, g) ↦
            let (peer, rest) =
              session_for-Established reserved (reserve response connection s).1 session
                (rw (e, f, g) at h) in
            (e, peer, reserved, g, rest)
      ]
    ]
  ]

  -- A challenge that has ended by the time of the last check is not admitted.
  pub session_for-closed :
      (reserved : ReservedRuntimeChallenge) (s : Authority) (session : RuntimeTrustSession)
      → is_reserved reserved (meanwhile (record s { readings = suc s.readings })) ≡ false
      → (session_for env read meanwhile response connection reserved s).0 ≢ returned session
  unfolding session_for require_fresh_admissible_snapshot assert_handshake_lifetime
  session_for-closed reserved s session gone h = elim (Outcome-cases read) [
    | inr (code, e) ↦ ground (arith, e, h)
    | inl (stored, e) ↦
        elim (Outcome-cases (assert_admissible_runtime_trust_snapshot env.crypto stored)) [
          | inr (code, f) ↦ ground (arith, e, f, h)
          | inl (admissible, f) ↦
              elim (Outcome-cases (
                env.crypto.verify_runtime_trust_signature admissible.public_key
                  reserved.canonical_payload response.signature)) [
                    | inr (code, g) ↦ ground (arith, e, f, g, h)
                    | inl (valid, g) ↦ ground (arith, e, f, g, h, gone)
                  ]
        ]
  ]

includes-append : (xs : List ℕ) (a : ℕ) → includes (xs ++ a ∷ []) a ≡ true
includes-append [] a = ground (arith, eq_self a)
includes-append (x ∷ xs) a = ground (arith, includes-append xs a)

consume-closed :
    (r : ReservedRuntimeChallenge) (s : Authority)
    → (consume r s).closed_connections ≡ s.closed_connections
unfolding consume
consume-closed r s = ground arith

pub close_challenges-closed :
    (identity : ℕ) (s : Authority)
    → includes (close_challenges identity s).closed_connections identity ≡ true
unfolding close_challenges
close_challenges-closed identity s =
    let t : Authority = record s {
      closed_connections = add_number identity s.closed_connections;
    } in
    let added : includes t.closed_connections identity ≡ true =
      ground (arith, includes-append s.closed_connections identity) in
    elim (Option-cases (lookup identity s.connection_challenges)) [
      | inl e ↦ rw e added
      | inr (c, e) ↦ elim (Option-cases (lookup c s.records)) [
        | inl f ↦ rw (e, f) added
        | inr (entry, f) ↦ rw (e, f, consume-closed entry.reserved t) added
      ]
    ]
