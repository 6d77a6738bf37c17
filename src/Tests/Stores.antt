-- ===== src/Tests/Stores.antt =====
-- The theorems on the stores in memory, the mutex and the retry schedule at concrete inputs.
use zima_control.Common.{
  ap, false, true, ◌<◌, ◌==◌, nat_eq, if◌then◌else◌, ℕ, ◌≡◌, ◌≤◌, refl, [], ◌∷◌, some, arith,
  lookup, length, string_eq,
}
use zima_control.Common.Action.{returned, thrown}
use zima_control.Mutation.Stores.{LockRepository, acquire, owner_of}
use zima_control.Mutation.Stores.Bounds.{acquire_lem}
use zima_control.Adapter.{ActiveMutationLock, Locks, operation_in_progress, with_lock}
use zima_control.Adapter.Exclusion.{with_lock_lem}
use zima_control.Issuer.{RetryEnvironment, connected, retry_loop, run_issuer_retry_schedule}
use zima_control.Issuer.Attempts.{retry_lem}

abbrev one_place : LockRepository
one_place = record { locks = []; capacity = 1 }

acquire_lem_example :
    (length (acquire "k" "op" 5 10 one_place).1.locks ≤ 1)
    × ((acquire "k" "op" 5 10 one_place).0 ≡ returned true
        → owner_of (lookup "k" (acquire "k" "op" 5 10 one_place).1.locks) ≡ some "op")
acquire_lem_example = acquire_lem "k" "op" 5 10 one_place (omega arith)

abbrev held : ActiveMutationLock
held = record { application_id = "app"; request_id = "r1"; acquired_at = "t" }

abbrev busy : Locks
busy = ("app", held) ∷ []

held-lookup : lookup "app" busy ≡ some held
unfolding lookup
held-lookup = refl

with_lock_lem_example :
    with_lock "app" (some "r2") "u" (λ locks. (returned tt, locks)) busy
    ≡ (thrown (operation_in_progress held), busy)
with_lock_lem_example =
    (with_lock_lem "app" (some "r2") "u" (λ locks. (returned tt, locks)) busy).0 held held-lookup

-- The second attempt connects.
abbrev second_connects : RetryEnvironment ℕ ℕ
second_connects = record {
  started_at = 0;
  is_aborted_before = λ n. false;
  wait = λ n deadline. returned tt;
  is_aborted_in_wait = λ n. false;
  is_aborted_after = λ n. false;
  monotonic_now_ms = λ n. 10;
  attempt = λ n. (if n == 2 then returned 42 else thrown 1);
  is_aborted_on_failure = λ n. false;
}

second_connects_lem : run_issuer_retry_schedule second_connects ≡ (connected 42 2, 1 ∷ 2 ∷ [])
unfolding run_issuer_retry_schedule retry_loop
second_connects_lem = refl

retry_lem_example :
    (2 ≡ length (run_issuer_retry_schedule second_connects).1)
    × (0 < 2)
    × (second_connects.attempt 2 ≡ returned 42)
retry_lem_example = (retry_lem second_connects).3 42 2 (ap (λ run. run.0) second_connects_lem)
