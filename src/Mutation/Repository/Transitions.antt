-- ===== src/Mutation/Repository/Transitions.antt =====
-- packages/core/src/in-memory-durable-mutation-repository.ts: `transitionWithAudit`, the transition
-- of an operation under its lease.
use zima_control.Common.{
  ℕ, String, Bool, false, not, ◌&&◌, ◌||◌, Option, none, some, ◌==◌, lookup, any, is_some, includes,
  if◌then◌else◌, string_eq, nat_eq, option_eq,
}
use zima_control.Mutation.Status.{
  ActionStatus, executing, verifying, indeterminate, illegal_state_transition, mutation_error,
  status_eq, is_terminal_action_status, transition_action_status,
}
use zima_control.Mutation.Types.{Operation, MutationLease, TransitionInput}
use zima_control.Mutation.Repository.{
  Repository, M, ◌>>=◌, ◌>>◌, pure, lift, throw, throw_if, gets, try, stale_ownership,
  save_operation, delete_lock, require_operation, lease_is_held, append,
}

abbrev assign {ℓ} : {A : Type ℓ} → A → Option A → A
assign old none = old
assign old (some new) = new

-- A status that only the owner of the lease may leave.
abbrev is_owned_status : ActionStatus → Bool
is_owned_status status = status == executing || status == verifying

unfoldable pub ownership_is_missing : TransitionInput → Bool
ownership_is_missing input =
    (((input.status == executing || any is_owned_status input.expected) || input.release_lease)
      && not (is_some input.ownership))
    || (input.adopt_ownership && not (is_some input.ownership))
    || (input.status == indeterminate && input.release_lease)

abbrev stale_token : TransitionInput → Operation → MutationLease → Bool
stale_token input current ownership =
    not input.adopt_ownership
    && any is_owned_status input.expected
    && not (current.fencing_token == some ownership.fencing_token)

unfoldable pub ownership_is_stale :
    TransitionInput → Operation → Option MutationLease → Repository → Bool
ownership_is_stale input current none s = false
ownership_is_stale input current (some ownership) s =
    not (
      lease_is_held (lookup ownership.operation_key s.locks) input.operation_id
        ownership.fencing_token input.now)
    || stale_token input current ownership

abbrev next_fencing_token : TransitionInput → Option ℕ → Option MutationLease → Option ℕ
next_fencing_token input old none = assign old input.fencing_token
next_fencing_token input old (some ownership) = some ownership.fencing_token

unfoldable pub apply_transition : Operation → TransitionInput → Operation
apply_transition current input = record current {
  status = input.status;
  reason_code = input.reason_code;
  updated_at = input.now;
  verification_state = assign current.verification_state input.verification_state;
  recovery_state = assign current.recovery_state input.recovery_state;
  fencing_token = next_fencing_token input current.fencing_token input.ownership;
  started_at = assign current.started_at input.started_at;
  completed_at = assign current.completed_at input.completed_at;
}

-- The lease is the caller's; its expiry is not asked again.
abbrev owned_by : Option MutationLease → String → ℕ → Bool
owned_by none operation_id token = false
owned_by (some lease) operation_id token =
    lease.owner_operation_id == operation_id && lease.fencing_token == token

release_owned : Operation → Option MutationLease → M (Unit {0})
release_owned previous none = pure tt
release_owned previous (some ownership) = do
  lease ← gets (λ s. lookup ownership.operation_key s.locks)
  if owned_by lease previous.id ownership.fencing_token
      then delete_lock ownership.operation_key
      else do save_operation previous; throw stale_ownership

unfoldable pub transition_with_audit : TransitionInput → M Operation
unfolding require_operation release_owned
transition_with_audit input = do
  current ← require_operation input.operation_id
  throw_if (ownership_is_missing input) stale_ownership
  stale ← gets (ownership_is_stale input current input.ownership)
  throw_if stale stale_ownership
  throw_if (not (includes input.expected current.status)) (mutation_error illegal_state_transition)
  _ ← lift (transition_action_status current.status input.status)
  let next = apply_transition current input
  save_operation next
  try (append next input.event_type input.now input.reason_code none)
      (λ e. do save_operation current; throw e)
  if is_terminal_action_status next.status && input.release_lease
      then release_owned current input.ownership
      else pure tt
  pure next
