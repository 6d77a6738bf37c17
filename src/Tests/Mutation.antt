-- ===== src/Tests/Mutation.antt =====
-- The theorems on mutations at concrete inputs.
use zima_control.Common.{
  lookup-single, insert, delete, values, ◌↔◌, String, ◌≡◌, ◌≤◌, ◌<◌, refl, true, false, [], ◌∷◌,
  none, some, arith, lookup, string_eq, ◌==◌, any, all, ◌||◌,
}
use zima_control.Mutation.Status.{
  indeterminate, allowed_transitions, ActionStatus, pending, authorized, validated, executing,
  verifying, succeeded, start, docker, operator, ok, err, mutation_error, audit_persistence_failed,
  transition_action_status, is_terminal_action_status, status_eq, illegal_state_transition,
}
use zima_control.Mutation.Types.{
  Operation, OperationStep, MutationLease, StepTransitionInput, ParentChildOperation,
  VerificationState, RecoveryState, ExternalEffectState, MutationAuditEventType, effect_code,
}
use zima_control.Mutation.Aggregate.{
  transition_external_effect_state, aggregate_effect, ParentMutationAggregate,
  aggregate_parent_from_steps,
}
use zima_control.Mutation.Aggregate.Laws.{
  is_indeterminate, is_succeeded, is_settled, aggregate_status_lem, aggregate_effect_lem,
  worst_effect,
}
use zima_control.Mutation.Fingerprint.{Hashing}
use zima_control.Mutation.Repository.{
  append, steps_for, require_operation, require_step, require_ownership, Repository,
}
use zima_control.Mutation.Repository.Calls.{releases, run, perform}
use zima_control.Mutation.Repository.Leases.{
  grant_lease, release_lease, decide_lease, grant, acquire_lease,
}
use zima_control.Mutation.Repository.Locks.{HasKeyedLocks}
use zima_control.Mutation.Repository.Steps.{
  commit_step, parent_after_transition, apply_step_transition, apply_aggregate,
  transition_step_with_audit, check_step_transition, perform_step_transition,
}
use zima_control.Mutation.Repository.Rollback.{IsKeyed, Untouched}
use zima_control.Mutation.Repository.Rollback.Atomic.{audit_failure_undone}
use zima_control.Mutation.Repository.Fencing.Tokens.{by_acquire, grant-token_lt}
use zima_control.Mutation.Status.Graph.{Run, here, next, Run-bounds, is_terminal_iff}

abbrev hashing : Hashing
hashing = record { json_stringify = λ parts. "[]"; sha256_hex = λ s. s }

abbrev key : String
key = "application:app"

abbrev operation : Operation
operation = record {
  id = "op";
  actor_id = "ann";
  actor_role = operator;
  action = start;
  application_id = "app";
  service_id = none;
  container_id = none;
  execution_domain = docker;
  operation_key = key;
  idempotency_key = "once";
  fingerprint = "f";
  status = executing;
  verification_state = VerificationState.not_started;
  recovery_state = RecoveryState.none;
  external_effect = ExternalEffectState.not_started;
  fencing_token = some 1;
  reason_code = none;
  deadline_at = 100;
  started_at = some 2;
  completed_at = none;
  created_at = 1;
  updated_at = 2;
}

abbrev step : OperationStep
step = record {
  id = "st";
  parent_operation_id = "op";
  sequence = 1;
  application_id = "app";
  deployment_id = "d";
  service_id = "svc";
  container_id = "c";
  action = start;
  execution_domain = docker;
  target_fingerprint = "t";
  snapshot_at = 1;
  authority_evidence = "e";
  application_discovered_at = 1;
  deployment_discovered_at = 1;
  runtime_observed_at = 1;
  deadline_at = 100;
  status = executing;
  verification_state = VerificationState.not_started;
  recovery_state = RecoveryState.none;
  external_effect = ExternalEffectState.not_started;
  fencing_token = some 1;
  dispatch_fencing_token = none;
  dispatch_authorized_at = none;
  reason_code = none;
  started_at = some 2;
  completed_at = none;
  created_at = 1;
  updated_at = 2;
}

abbrev lease : MutationLease
lease = record {
  operation_key = key;
  owner_operation_id = "op";
  fencing_token = 1;
  acquired_at = 1;
  lease_expires_at = 50;
}

-- The lease of token 1 is gone.
abbrev freed : Repository
freed = record {
  operations = ("op", operation) ∷ [];
  claims = [];
  locks = [];
  fences = (key, 1) ∷ [];
  audits = [];
  steps = ("st", step) ∷ [];
  fail_next_audit = false;
  random_uuid = λ n. "uuid";
  draws = 0;
}

-- The lease of token 1 is in force, and the next audit event cannot be written.
abbrev failing : Repository
failing = record freed { locks = (key, lease) ∷ []; fail_next_audit = true }

abbrev verify_input : StepTransitionInput
verify_input = record {
  operation_id = "op";
  child_step_id = "st";
  expected = executing ∷ [];
  status = verifying;
  now = 12;
  event_type = MutationAuditEventType.state_changed;
  ownership = lease;
  adopt_ownership = false;
  verification_state = none;
  recovery_state = none;
  external_effect = none;
  reason_code = none;
  started_at = none;
}

abbrev value : ParentChildOperation
value = record { operation = operation; steps = step ∷ [] }

failing-IsKeyed : IsKeyed failing
failing-IsKeyed = record {
  operations = λ k op h. (let (same, it) = lookup-single k "op" operation op h in cc);
  steps = λ k st h. (let (same, it) = lookup-single k "st" step st h in cc);
  locks = λ k l h. (let (same, it) = lookup-single k key lease l h in cc);
}

failing-throws :
    (transition_step_with_audit verify_input failing).0
    ≡ err (mutation_error audit_persistence_failed)
unfolding transition_step_with_audit check_step_transition perform_step_transition lookup insert
    values commit_step append aggregate_parent_from_steps steps_for transition_action_status
    allowed_transitions transition_external_effect_state require_operation require_step
    require_ownership parent_after_transition apply_step_transition apply_aggregate
    is_terminal_action_status
failing-throws = refl

audit_failure_undone_example : Untouched failing (transition_step_with_audit verify_input failing).1
audit_failure_undone_example =
    (audit_failure_undone failing failing-IsKeyed).2 verify_input failing-throws

completed-Run : Run pending succeeded 5
unfolding transition_action_status
completed-Run =
    next {b = verifying}
      (next {b = executing}
        (next {b = validated} (next {b = authorized} (next {b = pending} here refl) refl) refl)
        refl)
      refl

Run-bounds_example : (5 ≤ 5) × (5 ≤ 5)
Run-bounds_example = Run-bounds completed-Run

is_terminal_iff_example : (is_terminal_action_status succeeded ≡ true) ↔ (
    (b : ActionStatus)
    → transition_action_status succeeded b ≡ err (mutation_error illegal_state_transition))
is_terminal_iff_example = is_terminal_iff succeeded

aggregate_effect_lem_example :
    (a : ParentMutationAggregate) × (aggregate_parent_from_steps (step ∷ []) ≡ ok a)
    × (effect_code a.external_effect ≡ worst_effect (step ∷ []))
aggregate_effect_lem_example = aggregate_effect_lem step []

abbrev step_aggregate : ParentMutationAggregate
step_aggregate = record {
  status = executing;
  verification_state = VerificationState.not_started;
  recovery_state = RecoveryState.none;
  external_effect = ExternalEffectState.not_started;
  reason_code = none;
}

step_aggregate_lem : aggregate_parent_from_steps (step ∷ []) ≡ ok step_aggregate
unfolding aggregate_parent_from_steps aggregate_effect is_terminal_action_status
step_aggregate_lem = refl

aggregate_status_lem_example :
    ((executing == indeterminate) ≡ any is_indeterminate (step ∷ []))
    × ((executing == succeeded) ≡ all is_succeeded (step ∷ []))
    × (is_terminal_action_status executing
        ≡ (any is_indeterminate (step ∷ []) || all is_settled (step ∷ [])))
aggregate_status_lem_example = aggregate_status_lem (step ∷ []) step_aggregate step_aggregate_lem

-- A second grant, of the token 3, after the lease of the token 2 was released.
abbrev second_lease : MutationLease
second_lease = record {
  operation_key = key;
  owner_operation_id = "op";
  fencing_token = 2;
  acquired_at = 10;
  lease_expires_at = 60;
}

abbrev third_lease : MutationLease
third_lease = record {
  operation_key = key;
  owner_operation_id = "op";
  fencing_token = 3;
  acquired_at = 70;
  lease_expires_at = 90;
}

-- The operation of the lease has succeeded.
abbrev finished : Repository
finished = record freed { operations = ("op", record operation { status = succeeded }) ∷ [] }

finished-HasKeyedLocks : HasKeyedLocks finished
unfolding lookup
finished-HasKeyedLocks = λ k lease h. cc

finished-grant : decide_lease key "op" 10 finished ≡ grant
unfolding decide_lease lookup
finished-grant = refl

abbrev again : Repository
again = run hashing (releases second_lease ∷ []) (acquire_lease key "op" 10 60 finished).1

again-grant : decide_lease key "op" 70 again ≡ grant
unfolding decide_lease lookup run perform acquire_lease release_lease grant_lease insert delete
    is_terminal_action_status
again-grant = refl

second-acquired : (acquire_lease key "op" 10 60 finished).0 ≡ ok (some second_lease)
unfolding acquire_lease decide_lease grant_lease lookup insert is_terminal_action_status
second-acquired = refl

third-acquired : (acquire_lease key "op" 70 90 again).0 ≡ ok (some third_lease)
unfolding acquire_lease decide_lease grant_lease lookup insert run perform release_lease delete
    is_terminal_action_status
third-acquired = refl

grant-token_lt_example : 2 < 3
grant-token_lt_example =
    grant-token_lt hashing finished finished-HasKeyedLocks by_acquire by_acquire key "op" 10 60
      (omega arith) finished-grant (releases second_lease ∷ []) "op" 70 90 (omega arith) again-grant
      second_lease third_lease second-acquired third-acquired
