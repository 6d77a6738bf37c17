-- ===== src/Mutation/Aggregate.antt =====
-- packages/core/src/durable-mutation.ts: the state of a parent mutation computed from its durable
-- child steps, and the guards on a step's external effect.
pub mod Laws
use zima_control.Common.{
  Bool, true, false, not, ◌&&◌, ◌||◌, List, [], ◌∷◌, Option, none, some, ◌==◌, any, all, find,
  get_or_else, if◌then◌else◌,
}
use zima_control.Mutation.Status.{
  status_eq, ActionStatus, succeeded, rejected, timed_out, cancelled, indeterminate,
  MutationErrorCode, execution_failed, illegal_state_transition, Result, ok, err, mutation_error,
  type_error, is_terminal_action_status,
}
use zima_control.Mutation.Types.{
  VerificationState, RecoveryState, ExternalEffectState, completed, effect_possibly_active,
  OperationStep, effect_eq,
}

pub record ParentMutationAggregate : Type 0 where
  pub status : ActionStatus
  pub verification_state : VerificationState
  pub recovery_state : RecoveryState
  pub external_effect : ExternalEffectState
  pub reason_code : Option MutationErrorCode

unfoldable pub transition_external_effect_state :
    ExternalEffectState → ExternalEffectState → Bool → Result ExternalEffectState
transition_external_effect_state current next dispatch_authorized =
    if current == next
    then ok next
    else if not (current == ExternalEffectState.not_started)
        || next == ExternalEffectState.not_started
        || not dispatch_authorized
    then err (mutation_error illegal_state_transition)
    else ok next

unfoldable pub assert_terminal_child_effect : ActionStatus → ExternalEffectState → Result (Unit {0})
assert_terminal_child_effect status effect =
    if effect == effect_possibly_active && not (status == indeterminate)
    then err (mutation_error illegal_state_transition)
    else ok tt

unfoldable pub aggregate_effect : List OperationStep → ExternalEffectState
aggregate_effect steps =
    if any (λ step. step.external_effect == effect_possibly_active) steps
    then effect_possibly_active
    else if any (λ step. step.external_effect == completed) steps
    then completed
    else ExternalEffectState.not_started

-- The parent takes over the state of one of its steps.
abbrev as_step : ExternalEffectState → ActionStatus → OperationStep → ParentMutationAggregate
as_step effect status step = record {
  status = status;
  verification_state = step.verification_state;
  recovery_state = step.recovery_state;
  external_effect = effect;
  reason_code = step.reason_code;
}

-- The same for a step that failed, with the default of its reason code.
abbrev as_failed : ExternalEffectState → OperationStep → ParentMutationAggregate
as_failed effect step = record {
  status = ActionStatus.failed;
  verification_state = step.verification_state;
  recovery_state = step.recovery_state;
  external_effect = effect;
  reason_code = some (get_or_else step.reason_code execution_failed);
}

-- The last lines: a failed step, else a cancelled one, else the first rejected one.
aggregate_failed : ExternalEffectState → List OperationStep → ParentMutationAggregate
aggregate_failed effect steps = elim (find (λ step. step.status == ActionStatus.failed) steps) [
  | some step ↦ as_failed effect step
  | none ↦ elim (find (λ step. step.status == cancelled) steps) [
    | some step ↦ as_failed effect step
    | none ↦ elim (find (λ step. step.status == rejected) steps) [
      | some step ↦ as_failed effect step
      | none ↦ record {
        status = ActionStatus.failed;
        verification_state = VerificationState.failed;
        recovery_state = RecoveryState.none;
        external_effect = effect;
        reason_code = some execution_failed;
      }
    ]
  ]
]

unfoldable pub aggregate_settled :
    ExternalEffectState → List OperationStep → ParentMutationAggregate
unfolding aggregate_failed
aggregate_settled effect steps =
    let late : ParentMutationAggregate = elim (find (λ step. step.status == timed_out) steps) [
      | some step ↦ as_step effect timed_out step
      | none ↦ aggregate_failed effect steps
    ] in
    elim (find (λ step. step.status == rejected) steps) [
      | some step ↦
          if all (λ step. step.status == rejected) steps then as_step effect rejected step else late
      | none ↦ late
    ]

unfoldable pub aggregate_parent_from_steps : List OperationStep → Result ParentMutationAggregate
aggregate_parent_from_steps [] = err type_error
aggregate_parent_from_steps (first ∷ rest) =
    let steps = first ∷ rest in
    let effect = aggregate_effect steps in
    elim (find (λ step. step.status == indeterminate) steps) [
      | some uncertain ↦ ok (record {
        status = indeterminate;
        verification_state = VerificationState.unknown;
        recovery_state = RecoveryState.outcome_unknown;
        external_effect = effect;
        reason_code = uncertain.reason_code;
      })
      | none ↦
          if all (λ step. step.status == succeeded) steps
          then ok (record {
            status = succeeded;
            verification_state = VerificationState.verified;
            recovery_state = RecoveryState.none;
            external_effect = effect;
            reason_code = none;
          })
          else elim (find (λ step. not (is_terminal_action_status step.status)) steps) [
            | some active ↦ ok (as_step effect active.status active)
            | none ↦ ok (aggregate_settled effect steps)
          ]
    ]
