-- ===== src/Issuer.antt =====
-- apps/runtime-issuer/src/retry.ts: the schedule by which the issuer tries to connect. What the signal,
-- the scheduler and the attempt do is a function of the number of the round. The errors that an
-- attempt throws are given to `onFailure`, which only observes them.
pub mod Attempts
use zima_control.Common.{ℕ, ◌+◌, Bool, true, false, List, [], ◌∷◌, ltb, if◌then◌else◌}
use zima_control.Common.Action.{Outcome, returned, thrown}

abbrev pub issuer_retry_attempt_offsets_ms : List ℕ
issuer_retry_attempt_offsets_ms = 0 ∷ 1000 ∷ 3000 ∷ 7000 ∷ 15000 ∷ 30000 ∷ []

abbrev pub issuer_retry_window_ms : ℕ
issuer_retry_window_ms = 30000

-- The rounds are counted from 0, and an attempt has the number that it is called with. `wait` says
-- whether `waitUntil`, with this deadline, returns.
pub record RetryEnvironment (E A : Type 0) : Type 0 where
  pub started_at : ℕ
  pub is_aborted_before : ℕ → Bool
  pub wait : ℕ → ℕ → Outcome E (Unit {0})
  pub is_aborted_in_wait : ℕ → Bool
  pub is_aborted_after : ℕ → Bool
  pub monotonic_now_ms : ℕ → ℕ
  pub attempt : ℕ → Outcome E A
  pub is_aborted_on_failure : ℕ → Bool

pub data IssuerRetryResult (E A : Type 0) : Type 0 where
  connected : A → ℕ → IssuerRetryResult E A
  cancelled exhausted : ℕ → IssuerRetryResult E A
  wait_failed : E → IssuerRetryResult E A

module _ {E A : Type 0} (env : RetryEnvironment E A) where
  -- A call of `attempt` with this number, before the calls that follow it.
  abbrev pub called : ℕ → IssuerRetryResult E A × List ℕ → IssuerRetryResult E A × List ℕ
  called n (result, calls) = (result, n ∷ calls)

  -- The loop over the offsets that are left: its result, and the numbers that `attempt` is called with,
  -- in order.
  unfoldable pub retry_loop : ℕ → ℕ → List ℕ → IssuerRetryResult E A × List ℕ
  retry_loop round attempts [] = (exhausted attempts, [])
  retry_loop round attempts (offset ∷ offsets) =
      let rest = retry_loop (round + 1) (attempts + 1) offsets in
      if env.is_aborted_before round
      then (cancelled attempts, [])
      else elim (env.wait round (env.started_at + offset)) [
        | thrown error ↦
            if env.is_aborted_in_wait round
            then (cancelled attempts, [])
            else (wait_failed error, [])
        | returned done ↦
            if env.is_aborted_after round
            then (cancelled attempts, [])
            else if ltb (env.started_at + issuer_retry_window_ms) (env.monotonic_now_ms round)
            then (exhausted attempts, [])
            else called (attempts + 1) (elim (env.attempt (attempts + 1)) [
              | returned value ↦ (connected value (attempts + 1), [])
              | thrown error ↦
                  if env.is_aborted_on_failure round then (cancelled (attempts + 1), []) else rest
            ])
      ]

  unfoldable pub run_issuer_retry_schedule : IssuerRetryResult E A × List ℕ
  run_issuer_retry_schedule = retry_loop 0 0 issuer_retry_attempt_offsets_ms
