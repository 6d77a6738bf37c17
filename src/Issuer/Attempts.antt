-- ===== src/Issuer/Attempts.antt =====
-- How often the issuer tries.
use zima_control.Common.{
  ℕ, zero, suc, ◌+◌, ◌≤◌, ◌<◌, ◌≡◌, refl, List, [], ◌∷◌, Option, none, some, length, get_or_else,
  arith, inl, inr, Bool-cases, ltb,
}
use zima_control.Common.Action.{returned, Outcome-cases}
use zima_control.Issuer.{
  RetryEnvironment, IssuerRetryResult, connected, cancelled, exhausted, wait_failed, retry_loop,
  called, run_issuer_retry_schedule, issuer_retry_attempt_offsets_ms, issuer_retry_window_ms,
}

-- The number of attempts that a result reports.
abbrev pub attempts_of : {E A : Type 0} → IssuerRetryResult E A → Option ℕ
attempts_of (connected value n) = some n
attempts_of (cancelled n) = some n
attempts_of (exhausted n) = some n
attempts_of (wait_failed error) = none

-- So many numbers, one after the other, from this one on.
abbrev pub numbers_from : ℕ → ℕ → List ℕ
numbers_from n zero = []
numbers_from n (suc count) = n ∷ numbers_from (n + 1) count

module _ {E A : Type 0} (env : RetryEnvironment E A) where
  -- What the loop makes from a count of attempts on, with so many offsets left.
  record Accounted (n : ℕ) (left : ℕ) (run : IssuerRetryResult E A × List ℕ) : Type 0 where
    in_order : run.1 ≡ numbers_from (n + 1) (length run.1)
    bounded : length run.1 ≤ left
    reported : get_or_else (attempts_of run.0) (n + length run.1) ≡ n + length run.1
    last :
        (value : A) (k : ℕ) → run.0 ≡ connected value k → (n < k) × (env.attempt k ≡ returned value)

  called-Accounted :
      (n left : ℕ) (run : IssuerRetryResult E A × List ℕ)
      → Accounted (n + 1) left run
      → Accounted n (suc left) (called env (n + 1) run)
  called-Accounted n left (result, calls) p = record {
    in_order = ground (arith, p.in_order);
    bounded = ground (arith, p.bounded);
    reported = ground (arith, p.reported);
    last = λ value k h. ground (arith, h, p.last value k);
  }

  -- The loop ends without another attempt.
  cancelled-Accounted : (n left : ℕ) → Accounted n left (cancelled n, [])
  cancelled-Accounted n left = record {
    in_order = refl;
    bounded = omega arith;
    reported = omega arith;
    last = λ value k h. absurd (cc);
  }

  exhausted-Accounted : (n left : ℕ) → Accounted n left (exhausted n, [])
  exhausted-Accounted n left = record {
    in_order = refl;
    bounded = omega arith;
    reported = omega arith;
    last = λ value k h. absurd (cc);
  }

  failed-Accounted : (n left : ℕ) (error : E) → Accounted n left (wait_failed error, [])
  failed-Accounted n left error = record {
    in_order = refl;
    bounded = omega arith;
    reported = omega arith;
    last = λ value k h. absurd (cc);
  }

  connected-Accounted :
      (n left : ℕ) (value : A)
      → env.attempt (n + 1) ≡ returned value
      → Accounted n (suc left) (connected value (n + 1), (n + 1) ∷ [])
  connected-Accounted n left value e = record {
    in_order = refl;
    bounded = omega arith;
    reported = omega arith;
    last = λ other k h. ground (arith, e, h);
  }

  loop-Accounted :
      (round n : ℕ) (offsets : List ℕ)
      → Accounted n (length offsets) (retry_loop env round n offsets)
  unfolding retry_loop
  loop-Accounted round n [] = exhausted-Accounted n 0
  loop-Accounted round n (offset ∷ offsets) =
      let p = loop-Accounted (round + 1) (n + 1) offsets in
      let left = length offsets in
      let late = ltb (env.started_at + issuer_retry_window_ms) (env.monotonic_now_ms round) in
      elim (Bool-cases (env.is_aborted_before round)) [
        | inl a ↦ rw a (cancelled-Accounted n (suc left))
        | inr a ↦ elim (Outcome-cases (env.wait round (env.started_at + offset))) [
          | inr (error, b) ↦ elim (Bool-cases (env.is_aborted_in_wait round)) [
            | inl c ↦ rw (a, b, c) (cancelled-Accounted n (suc left))
            | inr c ↦ rw (a, b, c) (failed-Accounted n (suc left) error)
          ]
          | inl (done, b) ↦ elim (Bool-cases (env.is_aborted_after round)) [
            | inl c ↦ rw (a, b, c) (cancelled-Accounted n (suc left))
            | inr c ↦ elim (Bool-cases late) [
              | inl d ↦ rw (a, b, c, d) (exhausted-Accounted n (suc left))
              | inr d ↦ elim (Outcome-cases (env.attempt (n + 1))) [
                | inl (value, e) ↦ rw (a, b, c, d, e) (connected-Accounted n left value e)
                | inr (error, e) ↦ elim (Bool-cases (env.is_aborted_on_failure round)) [
                  | inl f ↦
                      rw (a, b, c, d, e, f)
                        (called-Accounted n left (cancelled (n + 1), [])
                          (cancelled-Accounted (n + 1) left))
                  | inr f ↦
                      rw (a, b, c, d, e, f)
                        (called-Accounted n left (retry_loop env (round + 1) (n + 1) offsets) p)
                ]
              ]
            ]
          ]
        ]
      ]

  -- The schedule makes at most six attempts, with the numbers 1, 2, 3 and so on; its result, where it
  -- is not an error of the wait, reports how many they were; and when it reports a connection, there
  -- was an attempt, and the last one returned the value.
  pub retry_lem :
      let (result, calls) = run_issuer_retry_schedule env in
      (calls ≡ numbers_from 1 (length calls))
      × (length calls ≤ 6)
      × (get_or_else (attempts_of result) (length calls) ≡ length calls)
      × ((value : A) (k : ℕ)
          → result ≡ connected value k
          → (k ≡ length calls) × (0 < k) × (env.attempt k ≡ returned value))
  unfolding run_issuer_retry_schedule
  retry_lem =
      let p = loop-Accounted 0 0 issuer_retry_attempt_offsets_ms in
      (
        p.in_order,
        p.bounded,
        ground (arith, p.reported),
        (λ value k h.
            let (positive, same) = p.last value k h in
            (ground (arith, h, p.reported), positive, same)),
      )
