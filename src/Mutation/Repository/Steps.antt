-- ===== src/Mutation/Repository/Steps.antt =====
-- packages/core/src/in-memory-durable-mutation-repository.ts: the transitions of a child step, with
-- the parent's state recomputed from its steps, and the rollback when the audit cannot be written.
use zima_control.Common.{
  ℕ, String, false, not, List, Option, none, some, ◌==◌, lookup, insert, is_some, includes,
  get_or_else, if◌then◌else◌, string_eq, nat_eq, option_eq,
}
use zima_control.Mutation.Status.{
  ActionStatus, succeeded, indeterminate, MutationErrorCode, illegal_state_transition,
  mutation_error, status_eq, is_terminal_action_status, transition_action_status,
}
use zima_control.Mutation.Types.{
  Operation, OperationStep, AuditEvent, MutationLease, ParentChildOperation, MutationAuditEventType,
  effect_eq, StepTransitionInput, StepFinalizationInput,
}
use zima_control.Mutation.Aggregate.{
  ParentMutationAggregate, aggregate_parent_from_steps, transition_external_effect_state,
  assert_terminal_child_effect,
}
use zima_control.Mutation.Repository.{
  M, ◌>>=◌, ◌>>◌, pure, lift, throw, throw_if, gets, modify, try, save_operation, save_step,
  save_lock, delete_lock, require_operation, require_step, steps_for, require_ownership, events_of,
  append,
}

-- `if (value !== undefined) field = value`
abbrev pub assign {ℓ} : {A : Type ℓ} → A → Option A → A
assign old none = old
assign old (some new) = new

unfoldable pub apply_aggregate :
    Operation → ParentMutationAggregate → ℕ → Option (Option ℕ) → Operation
apply_aggregate operation aggregate now started_at = record operation {
  status = aggregate.status;
  verification_state = aggregate.verification_state;
  recovery_state = aggregate.recovery_state;
  external_effect = aggregate.external_effect;
  reason_code = aggregate.reason_code;
  updated_at = now;
  started_at = assign operation.started_at started_at;
}

unfoldable pub apply_step_transition : OperationStep → StepTransitionInput → OperationStep
apply_step_transition step input = record step {
  status = input.status;
  fencing_token = some input.ownership.fencing_token;
  reason_code = input.reason_code;
  updated_at = input.now;
  verification_state = assign step.verification_state input.verification_state;
  recovery_state = assign step.recovery_state input.recovery_state;
  external_effect = assign step.external_effect input.external_effect;
  started_at = assign step.started_at input.started_at;
}

unfoldable pub apply_step_finalization : OperationStep → StepFinalizationInput → OperationStep
apply_step_finalization step input = record step {
  status = input.status;
  verification_state = input.verification_state;
  recovery_state = input.recovery_state;
  external_effect = input.external_effect;
  reason_code = input.reason_code;
  fencing_token = some input.ownership.fencing_token;
  completed_at = some input.now;
  updated_at = input.now;
}

abbrev restore_lock : Option MutationLease → M (Unit {0})
restore_lock none = pure tt
restore_lock (some lease) = save_lock lease

abbrev restore_audits : String → List AuditEvent → M (Unit {0})
restore_audits id events = modify (λ s. record s { audits = insert id events s.audits })

-- `{ operation, steps: this.stepsFor(operation.id) }`
abbrev pub parent_child : Operation → M ParentChildOperation
parent_child operation = do
  steps ← gets (λ s. steps_for s operation.id)
  pure (record { operation = operation; steps = steps })

-- `aggregateParentFromSteps(this.stepsFor(id))`
abbrev aggregate_of : String → M ParentMutationAggregate
aggregate_of id = do steps ← gets (λ s. steps_for s id); lift (aggregate_parent_from_steps steps)

-- The part that the four methods below share: the step is changed, the parent is recomputed from
-- all its steps and changed, and the audit events are written by `log`. If that throws, both
-- objects are put back, and `undo` puts back what else the method has saved.
unfoldable pub commit_step :
    Operation
    → OperationStep
    → OperationStep
    → (ParentMutationAggregate → Operation)
    → (ParentMutationAggregate → M (Unit {0}))
    → M (Unit {0})
    → M ParentChildOperation
commit_step operation step next_step next log undo = do
  save_step next_step
  aggregate ← aggregate_of operation.id
  save_operation (next aggregate)
  try (log aggregate) (λ e. do save_operation operation; save_step step; undo; throw e)
  parent_child (next aggregate)

-- The checks of `transitionStepWithAudit`, which end before anything is changed.
unfoldable pub check_step_transition : StepTransitionInput → M (Operation × OperationStep)
unfolding require_operation require_step require_ownership
check_step_transition input = do
  operation ← require_operation input.operation_id
  step ← require_step input.child_step_id input.operation_id
  require_ownership operation input.ownership.operation_key input.ownership.fencing_token input.now
      input.adopt_ownership
  throw_if (not (includes input.expected step.status)) (mutation_error illegal_state_transition)
  _ ← lift (transition_action_status step.status input.status)
  _ ← lift (
      transition_external_effect_state step.external_effect
        (get_or_else input.external_effect step.external_effect)
        (is_some step.dispatch_authorized_at))
  pure (operation, step)

-- The rest of it.
unfoldable pub parent_after_transition :
    StepTransitionInput → Operation → ParentMutationAggregate → Operation
parent_after_transition input operation aggregate =
    record (apply_aggregate operation aggregate input.now input.started_at) {
      fencing_token = some input.ownership.fencing_token;
    }

unfoldable pub perform_step_transition :
    StepTransitionInput → Operation → OperationStep → M ParentChildOperation
perform_step_transition input operation step =
    let next_step = apply_step_transition step input in
    let next = parent_after_transition input operation in
    commit_step operation step next_step next
      (λ aggregate.
        append (next aggregate) input.event_type input.now input.reason_code (some next_step))
      (pure tt)

unfoldable pub transition_step_with_audit : StepTransitionInput → M ParentChildOperation
transition_step_with_audit input = do
  found ← check_step_transition input
  perform_step_transition input found.0 found.1

abbrev final_event : ActionStatus → MutationAuditEventType
final_event status =
    if status == succeeded then MutationAuditEventType.completed else MutationAuditEventType.failed

-- The checks of `finalizeStepAndParent`, which end before anything is changed.
unfoldable pub check_finalization : StepFinalizationInput → M (Operation × OperationStep)
unfolding require_operation require_step require_ownership
check_finalization input = do
  throw_if (not (is_terminal_action_status input.status)) (mutation_error illegal_state_transition)
  operation ← require_operation input.operation_id
  step ← require_step input.child_step_id input.operation_id
  require_ownership operation input.ownership.operation_key input.ownership.fencing_token input.now
      false
  throw_if (not (includes input.expected step.status)) (mutation_error illegal_state_transition)
  _ ← lift (transition_action_status step.status input.status)
  _ ← lift (
      transition_external_effect_state step.external_effect input.external_effect
        (is_some step.dispatch_authorized_at))
  lift (assert_terminal_child_effect input.status input.external_effect)
  pure (operation, step)

-- The rest of it.
unfoldable pub parent_after_end : ℕ → Operation → ParentMutationAggregate → Operation
parent_after_end now operation aggregate = record (apply_aggregate operation aggregate now none) {
  completed_at = some now;
}

-- The two audit events, of the step and of the parent, and the release of the lease.
unfoldable pub log_end :
    Operation
    → OperationStep
    → MutationAuditEventType
    → ℕ
    → Option MutationErrorCode
    → Option String
    → M (Unit {0})
log_end next next_step event_type now reason_code released = do
  append next event_type now reason_code (some next_step)
  append next event_type now reason_code none
  elim released [ none ↦ pure tt | some key ↦ delete_lock key ]

unfoldable pub undo_end : Operation → List AuditEvent → Option MutationLease → M (Unit {0})
undo_end operation old_audits old_lock = do
  restore_audits operation.id old_audits
  restore_lock old_lock

unfoldable pub perform_finalization :
    StepFinalizationInput → Operation → OperationStep → M ParentChildOperation
perform_finalization input operation step = do
  old_lock ← gets (λ s. lookup input.ownership.operation_key s.locks)
  old_audits ← gets (λ s. events_of s operation.id)
  let next_step = apply_step_finalization step input
  commit_step operation step next_step (parent_after_end input.now operation)
      (λ aggregate.
        log_end (parent_after_end input.now operation aggregate) next_step
          (final_event input.status) input.now input.reason_code
          (if aggregate.status == indeterminate then none else some input.ownership.operation_key))
      (undo_end operation old_audits old_lock)

unfoldable pub finalize_step_and_parent : StepFinalizationInput → M ParentChildOperation
finalize_step_and_parent input = do
  found ← check_finalization input
  perform_finalization input found.0 found.1
