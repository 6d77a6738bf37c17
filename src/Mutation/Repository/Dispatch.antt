-- ===== src/Mutation/Repository/Dispatch.antt =====
-- packages/core/src/in-memory-durable-mutation-repository.ts: the last authorization before an
-- external effect, of a child step or of an operation without one.
use zima_control.Common.{
  String, Bool, true, false, not, ◌&&◌, ◌||◌, List, [], ◌∷◌, Option, none, some, ◌==◌, lookup, any,
  is_some, string_eq, nat_eq, option_eq,
}
use zima_control.Mutation.Status.{executing, status_eq, action_eq, domain_eq}
use zima_control.Mutation.Types.{
  Operation, OperationStep, MutationAuditEventType, dispatch_authorized, DispatchInput,
  StepDispatchInput,
}
use zima_control.Mutation.Repository.{
  M, ◌>>=◌, ◌>>◌, pure, throw, throw_if, gets, try, stale_ownership, save_step, require_operation,
  require_step, steps_for, require_ownership, lease_is_held, events_of, append,
}

-- The step is in the expected status, has not been dispatched, and is the target that was claimed.
unfoldable pub step_matches : StepDispatchInput → OperationStep → Bool
step_matches input step =
    step.status == input.expected
    && not (is_some step.dispatch_authorized_at)
    && step.action == input.action
    && step.application_id == input.application_id
    && step.deployment_id == input.deployment_id
    && step.service_id == input.service_id
    && step.container_id == input.container_id
    && step.execution_domain == input.execution_domain
    && step.target_fingerprint == input.target_fingerprint

unfoldable pub authorize_step_dispatch : StepDispatchInput → M OperationStep
unfolding require_operation require_step require_ownership
authorize_step_dispatch input = do
  operation ← require_operation input.operation_id
  step ← require_step input.child_step_id input.operation_id
  require_ownership operation input.operation_key input.fencing_token input.now false
  throw_if (not (step_matches input step)) stale_ownership
  let next : OperationStep = record step {
    dispatch_authorized_at = some input.now;
    dispatch_fencing_token = some input.fencing_token;
    fencing_token = some input.fencing_token;
    updated_at = input.now;
  }
  save_step next
  try (append operation dispatch_authorized input.now none (some next))
      (λ e. do save_step step; throw e)
  pure next

abbrev is_dispatch : MutationAuditEventType → Bool
is_dispatch dispatch_authorized = true
is_dispatch _ = false

unfoldable pub operation_matches : DispatchInput → Operation → Bool
operation_matches input operation =
    operation.status == executing
    && operation.fencing_token == some input.fencing_token
    && operation.operation_key == input.operation_key
    && operation.action == input.action
    && operation.application_id == input.application_id
    && operation.service_id == input.service_id
    && operation.container_id == some input.container_id
    && operation.execution_domain == input.execution_domain

authorize_operation : DispatchInput → Operation → M Operation
authorize_operation input operation = do
  lease ← gets (λ s. lookup input.operation_key s.locks)
  throw_if
      (not (operation_matches input operation)
        || not (lease_is_held lease input.operation_id input.fencing_token input.now))
      stale_ownership
  events ← gets (λ s. events_of s operation.id)
  throw_if (any (λ event. is_dispatch event.event_type) events) stale_ownership
  append operation dispatch_authorized input.now none none
  pure operation

authorize_child : DispatchInput → Operation → OperationStep → Option String → M Operation
unfolding authorize_step_dispatch
authorize_child input operation step none = throw stale_ownership
authorize_child input operation step (some service_id) = do
  _ ← authorize_step_dispatch (record {
    operation_id = input.operation_id;
    operation_key = input.operation_key;
    fencing_token = input.fencing_token;
    child_step_id = step.id;
    expected = executing;
    action = input.action;
    application_id = input.application_id;
    deployment_id = step.deployment_id;
    service_id = service_id;
    container_id = input.container_id;
    execution_domain = input.execution_domain;
    target_fingerprint = step.target_fingerprint;
    now = input.now;
  })
  pure operation

authorize_by_steps : DispatchInput → Operation → List OperationStep → M Operation
unfolding authorize_child authorize_operation
authorize_by_steps input operation [] = authorize_operation input operation
authorize_by_steps input operation (step ∷ []) =
    authorize_child input operation step input.service_id
authorize_by_steps input operation (_ ∷ _ ∷ _) = throw stale_ownership

unfoldable pub authorize_dispatch : DispatchInput → M Operation
unfolding require_operation authorize_by_steps
authorize_dispatch input = do
  operation ← require_operation input.operation_id
  child_steps ← gets (λ s. steps_for s input.operation_id)
  authorize_by_steps input operation child_steps
