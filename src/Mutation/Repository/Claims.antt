-- ===== src/Mutation/Repository/Claims.antt =====
-- packages/core/src/in-memory-durable-mutation-repository.ts: the claim of an idempotency key, for
-- one operation or for a parent with its child step, its replay, and the reads.
use zima_control.Common.{
  String, not, ◌||◌, List, [], ◌∷◌, Option, none, some, ◌==◌, lookup, insert, delete, has, length,
  if◌then◌else◌, string_eq, nat_eq,
}
use zima_control.Mutation.Status.{validated, mutation_error, idempotency_conflict}
use zima_control.Mutation.Types.{
  Operation, OperationStep, AuditEvent, ParentChildOperation, ClaimInput, ParentChildClaimInput,
  ParentReplayInput, Claim, created, replay, VerificationState, RecoveryState, ExternalEffectState,
  claimed, step_created, replayed,
}
use zima_control.Mutation.Fingerprint.{Hashing, assert_parent_child_claim_input}
use zima_control.Mutation.Repository.{
  Repository, IdempotencyClaim, M, ◌>>=◌, ◌>>◌, pure, lift, throw, throw_if, gets, modify, try,
  missing, save_operation, save_step, require_operation, steps_for, require_parent_child, events_of,
  append, claim_key, live_claim, forget_claim, restore_claim,
}

-- The row that a claim creates.
unfoldable pub new_operation : ClaimInput → Option String → Option String → Operation
new_operation input service_id container_id = record {
  id = input.plan.operation_id;
  actor_id = input.plan.actor_id;
  actor_role = input.plan.actor_role;
  action = input.plan.action;
  application_id = input.plan.target.application_id;
  service_id = service_id;
  container_id = container_id;
  execution_domain = input.plan.execution_domain;
  operation_key = input.plan.operation_key;
  idempotency_key = input.plan.idempotency_key;
  fingerprint = input.fingerprint;
  status = validated;
  verification_state = VerificationState.not_started;
  recovery_state = RecoveryState.none;
  external_effect = ExternalEffectState.not_started;
  fencing_token = none;
  reason_code = none;
  deadline_at = input.deadline_at;
  started_at = none;
  completed_at = none;
  created_at = input.now;
  updated_at = input.now;
}

unfoldable pub step_from_claim : ParentChildClaimInput → OperationStep
step_from_claim input = record {
  id = input.step_id;
  parent_operation_id = input.plan.operation_id;
  sequence = 1;
  application_id = input.snapshot.application_id;
  deployment_id = input.snapshot.deployment_id;
  service_id = input.snapshot.service_id;
  container_id = input.snapshot.container_id;
  action = input.snapshot.action;
  execution_domain = input.snapshot.execution_domain;
  target_fingerprint = input.snapshot.target_fingerprint;
  snapshot_at = input.snapshot.snapshot_at;
  authority_evidence = input.snapshot.authority_evidence;
  application_discovered_at = input.snapshot.application_discovered_at;
  deployment_discovered_at = input.snapshot.deployment_discovered_at;
  runtime_observed_at = input.snapshot.runtime_observed_at;
  deadline_at = input.deadline_at;
  status = validated;
  verification_state = VerificationState.not_started;
  recovery_state = RecoveryState.none;
  external_effect = ExternalEffectState.not_started;
  fencing_token = none;
  dispatch_fencing_token = none;
  dispatch_authorized_at = none;
  reason_code = none;
  started_at = none;
  completed_at = none;
  created_at = input.now;
  updated_at = input.now;
}

abbrev pub new_claim : ClaimInput → IdempotencyClaim
new_claim input = record {
  fingerprint = input.fingerprint;
  operation_id = input.plan.operation_id;
  expires_at = input.idempotency_expires_at;
}

abbrev pub save_claim : String → IdempotencyClaim → M (Unit {0})
save_claim key claim = modify (λ s. record s { claims = insert key claim s.claims })

unfoldable pub claim_with : ClaimInput → String → Option IdempotencyClaim → M (Claim Operation)
unfolding require_operation new_operation
claim_with input key existing = elim (live_claim existing input.now) [
  | some held ↦ do
    throw_if (not (held.fingerprint == input.fingerprint)) (mutation_error idempotency_conflict)
    operation ← require_operation held.operation_id
    append operation replayed input.now none none
    pure (replay operation)
  | none ↦ do
    forget_claim existing key
    taken ← gets (λ s. has input.plan.operation_id s.operations)
    throw_if taken missing
    let operation = new_operation input input.plan.target.service_id input.plan.target.container_id
    save_operation operation
    save_claim key (new_claim input)
    append operation claimed input.now none none
    pure (created operation)
]

unfoldable pub claim : ClaimInput → M (Claim Operation)
unfolding claim_with
claim input = do
  let key = claim_key input.plan.actor_id input.plan.idempotency_key
  existing ← gets (λ s. lookup key s.claims)
  claim_with input key existing

-- What `claimParentWithStep` does when an audit event cannot be appended.
undo_claim : ParentChildClaimInput → String → Option IdempotencyClaim → M (Unit {0})
undo_claim input key existing = do
  modify (λ s. record s {
    operations = delete input.plan.operation_id s.operations;
    steps = delete input.step_id s.steps;
    claims = delete key s.claims;
    audits = delete input.plan.operation_id s.audits;
  })
  restore_claim existing key

unfoldable pub claim_parent_with :
    ParentChildClaimInput → String → Option IdempotencyClaim → M (Claim ParentChildOperation)
unfolding require_parent_child new_operation step_from_claim undo_claim
claim_parent_with input key existing = elim (live_claim existing input.now) [
  | some held ↦ do
    throw_if (not (held.fingerprint == input.fingerprint)) (mutation_error idempotency_conflict)
    value ← require_parent_child held.operation_id
    append value.operation replayed input.now none none
    pure (replay value)
  | none ↦ do
    forget_claim existing key
    taken ← gets (λ s. has input.plan.operation_id s.operations || has input.step_id s.steps)
    throw_if taken missing
    let operation = new_operation input.claim none none
    let step = step_from_claim input
    save_operation operation
    save_step step
    save_claim key (new_claim input.claim)
    try
        (do
          append operation claimed input.now none none
          append operation step_created input.now none (some step))
        (λ e. do undo_claim input key existing; throw e)
    pure (created (record { operation = operation; steps = step ∷ [] }))
]

unfoldable pub claim_parent_with_step :
    Hashing → ParentChildClaimInput → M (Claim ParentChildOperation)
unfolding claim_parent_with
claim_parent_with_step hashing input = do
  lift (assert_parent_child_claim_input hashing input)
  let key = claim_key input.plan.actor_id input.plan.idempotency_key
  existing ← gets (λ s. lookup key s.claims)
  claim_parent_with input key existing

-- A parent with other than one step is refused by the reads of a claim.
abbrev single_step : ParentChildOperation → M (Unit {0})
single_step value = throw_if (not (length value.steps == 1)) missing

unfoldable pub replay_parent_claim : ParentReplayInput → M (Option ParentChildOperation)
unfolding require_parent_child
replay_parent_claim input = do
  existing ← gets (λ s. lookup (claim_key input.actor_id input.idempotency_key) s.claims)
  elim (live_claim existing input.now) [
    | none ↦ pure none
    | some held ↦ do
      throw_if (not (held.fingerprint == input.fingerprint)) (mutation_error idempotency_conflict)
      value ← require_parent_child held.operation_id
      single_step value
      append value.operation replayed input.now none none
      pure (some value)
  ]

unfoldable pub find_parent_claim : ParentReplayInput → M (Option ParentChildOperation)
unfolding require_parent_child
find_parent_claim input = do
  existing ← gets (λ s. lookup (claim_key input.actor_id input.idempotency_key) s.claims)
  elim (live_claim existing input.now) [
    | none ↦ pure none
    | some held ↦
        if not (held.fingerprint == input.fingerprint)
        then pure none
        else do value ← require_parent_child held.operation_id; single_step value; pure (some value)
  ]

unfoldable pub find_operation : String → Repository → Option Operation
find_operation id s = lookup id s.operations

unfoldable pub find_operation_with_steps : String → Repository → Option ParentChildOperation
find_operation_with_steps id s = elim (lookup id s.operations) [
  | none ↦ none
  | some operation ↦ some (record { operation = operation; steps = steps_for s id })
]

unfoldable pub list_audit_events : String → Repository → List AuditEvent
list_audit_events id s = events_of s id
