-- ===== src/Mutation/Repository/Recovery.antt =====
-- packages/core/src/in-memory-durable-mutation-repository.ts: the recovery of a child step after a
-- restart, and the rejection of a parent whose lease was never acquired.
use zima_control.Common.{
  ℕ, String, Bool, true, false, not, ◌||◌, Option, none, some, ◌==◌, lookup, is_some, if◌then◌else◌,
  string_eq, nat_eq, option_eq,
}
use zima_control.Mutation.Status.{
  ActionStatus, pending, authorized, validated, executing, verifying, rejected, indeterminate,
  MutationErrorCode, illegal_state_transition, recovery_outcome_unknown,
  recovery_pre_execution_aborted, mutation_error, status_eq, is_terminal_action_status,
  transition_action_status,
}
use zima_control.Mutation.Types.{
  Operation, OperationStep, MutationLease, ParentChildOperation, MutationAuditEventType,
  VerificationState, RecoveryState, ExternalEffectState, effect_possibly_active, effect_eq,
}
use zima_control.Mutation.Aggregate.{ParentMutationAggregate}
use zima_control.Mutation.Repository.{
  M, ◌>>=◌, ◌>>◌, pure, lift, throw_if, gets, stale_ownership, require_operation, require_step,
  require_ownership, events_of,
}
use zima_control.Mutation.Repository.Steps.{
  apply_aggregate, parent_child, commit_step, log_end, undo_end, parent_after_end,
}

-- `transitionAllowedForRecovery`
unfoldable pub transition_allowed_for_recovery : ActionStatus → Bool → Bool
transition_allowed_for_recovery current true = current == executing || current == verifying
transition_allowed_for_recovery current false =
    current == pending || current == authorized || current == validated || current == executing

-- The external effect may have happened: the dispatch was authorized, or an effect is recorded.
unfoldable pub is_uncertain : OperationStep → Bool
is_uncertain step =
    is_some step.dispatch_authorized_at
    || not (step.external_effect == ExternalEffectState.not_started)

unfoldable pub recovered_step : OperationStep → Bool → ℕ → ℕ → OperationStep
recovered_step step true token now = record step {
  status = indeterminate;
  external_effect = effect_possibly_active;
  verification_state = VerificationState.unknown;
  recovery_state = RecoveryState.outcome_unknown;
  reason_code = some recovery_outcome_unknown;
  fencing_token = some token;
  completed_at = some now;
  updated_at = now;
}
recovered_step step false token now = record step {
  status = rejected;
  external_effect = ExternalEffectState.not_started;
  recovery_state = RecoveryState.recovered_pre_execution;
  reason_code = some recovery_pre_execution_aborted;
  fencing_token = some token;
  completed_at = some now;
  updated_at = now;
}

unfoldable pub parent_after_recovery :
    MutationLease → ℕ → Operation → ParentMutationAggregate → Operation
parent_after_recovery lease now operation aggregate =
    record (apply_aggregate operation aggregate now none) {
      fencing_token = some lease.fencing_token;
      completed_at = some now;
    }

unfoldable pub perform_recovery :
    MutationLease → ℕ → Operation → OperationStep → Bool → M ParentChildOperation
perform_recovery lease now operation step uncertain = do
  throw_if (not (transition_allowed_for_recovery step.status uncertain))
      (mutation_error illegal_state_transition)
  old_lock ← gets (λ s. lookup lease.operation_key s.locks)
  old_audits ← gets (λ s. events_of s operation.id)
  let next_step = recovered_step step uncertain lease.fencing_token now
  let next = parent_after_recovery lease now operation
  commit_step operation step next_step next
      (λ aggregate.
        log_end (next aggregate) next_step MutationAuditEventType.recovered now
          next_step.reason_code (if uncertain then none else some lease.operation_key))
      (undo_end operation old_audits old_lock)

-- The checks of `recoverStepAndParent`.
unfoldable pub check_recovery : String → String → MutationLease → ℕ → M (Operation × OperationStep)
unfolding require_operation require_step require_ownership
check_recovery operation_id child_step_id lease now = do
  operation ← require_operation operation_id
  step ← require_step child_step_id operation_id
  require_ownership operation lease.operation_key lease.fencing_token now true
  pure (operation, step)

unfoldable pub recover_step_and_parent :
    String → String → MutationLease → ℕ → M ParentChildOperation
recover_step_and_parent operation_id child_step_id lease now = do
  found ← check_recovery operation_id child_step_id lease now
  if is_terminal_action_status found.1.status
      then parent_child found.0
      else perform_recovery lease now found.0 found.1 (is_uncertain found.1)

abbrev owns : String → Option MutationLease → Bool
owns operation_id none = false
owns operation_id (some lease) = lease.owner_operation_id == operation_id

-- The checks of `rejectParentChildBeforeOwnership`.
unfoldable pub check_rejection : String → String → M (Operation × OperationStep)
unfolding require_operation require_step
check_rejection operation_id child_step_id = do
  operation ← require_operation operation_id
  step ← require_step child_step_id operation_id
  lease ← gets (λ s. lookup operation.operation_key s.locks)
  throw_if
      (not (operation.status == validated)
        || not (step.status == validated)
        || is_some operation.fencing_token
        || is_some step.fencing_token
        || owns operation_id lease)
      stale_ownership
  _ ← lift (transition_action_status step.status rejected)
  pure (operation, step)

unfoldable pub rejected_step : OperationStep → MutationErrorCode → ℕ → OperationStep
rejected_step step reason_code now = record step {
  status = rejected;
  reason_code = some reason_code;
  completed_at = some now;
  updated_at = now;
}

unfoldable pub perform_rejection :
    ℕ → MutationErrorCode → Operation → OperationStep → M ParentChildOperation
perform_rejection now reason_code operation step = do
  old_audits ← gets (λ s. events_of s operation.id)
  let next_step = rejected_step step reason_code now
  let next = parent_after_end now operation
  commit_step operation step next_step next
      (λ aggregate.
        log_end (next aggregate) next_step MutationAuditEventType.failed now (some reason_code)
          none)
      (undo_end operation old_audits none)

unfoldable pub reject_parent_child_before_ownership :
    String → String → ℕ → MutationErrorCode → M ParentChildOperation
reject_parent_child_before_ownership operation_id child_step_id now reason_code = do
  found ← check_rejection operation_id child_step_id
  perform_rejection now reason_code found.0 found.1
