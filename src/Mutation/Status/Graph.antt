-- ===== src/Mutation/Status/Graph.antt =====
-- Runs of `transition_action_status`.
use zima_control.Common.{refl, ℕ, suc, ◌+◌, ◌≤◌, ◌≡◌, ◌↔◌, true, arith}
use zima_control.Mutation.Status.{
  ActionStatus, pending, authorized, validated, executing, verifying, succeeded, rejected, failed,
  timed_out, cancelled, indeterminate, ok, err, mutation_error, illegal_state_transition,
  is_terminal_action_status, transition_action_status,
}

-- Any number of accepted transitions.
pub data Run (a : ActionStatus) : ActionStatus → ℕ → Type 0 where
  here : Run a a 0
  next :
      {b c : ActionStatus} {n : ℕ}
      → Run a b n
      → transition_action_status b c ≡ ok c
      → Run a c (suc n)

-- How far a status is along the pipeline.
abbrev pub progress : ActionStatus → ℕ
progress pending = 0
progress authorized = 1
progress validated = 2
progress executing = 3
progress verifying = 4
progress _ = 5

transition-progress :
    (a b : ActionStatus) → transition_action_status a b ≡ ok b → suc (progress a) ≤ progress b
unfolding transition_action_status
transition-progress a b h = ground arith

Run-progress : {a b : ActionStatus} {n : ℕ} → Run a b n → progress a + n ≤ progress b
Run-progress here = omega arith
Run-progress (next {b = b} {c = c} r h) = omega (arith, Run-progress r, transition-progress b c h)

-- The fewest transitions from `pending` to a status.
abbrev pub fewest : ActionStatus → ℕ
fewest pending = 0
fewest authorized = 1
fewest validated = 2
fewest executing = 3
fewest verifying = 4
fewest succeeded = 5
fewest rejected = 1
fewest cancelled = 1
fewest failed = 4
fewest timed_out = 4
fewest indeterminate = 4

transition-fewest :
    (a b : ActionStatus) → transition_action_status a b ≡ ok b → fewest b ≤ suc (fewest a)
unfolding transition_action_status
transition-fewest a b h = ground arith

Run-fewest : {a b : ActionStatus} {n : ℕ} → Run a b n → fewest b ≤ fewest a + n
Run-fewest here = omega arith
Run-fewest (next {b = b} {c = c} r h) = omega (arith, Run-fewest r, transition-fewest b c h)

-- From `pending` to a status `b`, every run of accepted transitions has at least `fewest b` and at
-- most `progress b` of them: a success takes exactly five, and no operation fails, times out or
-- becomes indeterminate without having been executed first (four at least).
pub Run-bounds : {b : ActionStatus} {n : ℕ} → Run pending b n → (fewest b ≤ n) × (n ≤ progress b)
Run-bounds r = (omega (arith, Run-fewest r), omega (arith, Run-progress r))

-- A status is terminal exactly when `transition_action_status` refuses every next status.
pub is_terminal_iff :
    (a : ActionStatus)
    → (is_terminal_action_status a ≡ true) ↔ (
        (b : ActionStatus)
        → transition_action_status a b ≡ err (mutation_error illegal_state_transition))
unfolding is_terminal_action_status transition_action_status
is_terminal_iff pending = (λ h. cc, λ h. cc (h authorized))
is_terminal_iff authorized = (λ h. cc, λ h. cc (h validated))
is_terminal_iff validated = (λ h. cc, λ h. cc (h executing))
is_terminal_iff executing = (λ h. cc, λ h. cc (h verifying))
is_terminal_iff verifying = (λ h. cc, λ h. cc (h succeeded))
is_terminal_iff _ = (λ h b. refl, λ h. refl)
