-- ===== src/Mutation/Repository/Rollback/Atomic.antt =====
-- A method that throws because its audit event cannot be written has changed nothing.
use zima_control.Mutation.Repository.Dispatch.{authorize_step_dispatch}
use zima_control.Mutation.Repository.Transitions.{transition_with_audit, apply_transition}
use zima_control.Mutation.Repository.Steps.{
  finalize_step_and_parent, check_step_transition, transition_step_with_audit, check_finalization,
}
use zima_control.Mutation.Repository.Recovery.{
  is_uncertain, recover_step_and_parent, reject_parent_child_before_ownership, check_recovery,
  check_rejection,
}
use zima_control.Mutation.Types.{
  TransitionInput, StepDispatchInput, OperationStep, MutationLease, StepTransitionInput,
  StepFinalizationInput, ParentChildClaimInput,
}
use zima_control.Common.{
  insert-undo, Option-cases, ◌≢◌, ℕ, String, ◌≡◌, refl, ap, ◌∙◌, some, lookup, arith, Bool-cases,
  inl, inr, string_eq,
}
use zima_control.Mutation.Status.{
  transition_action_status, is_terminal_action_status, ActionStatus, MutationErrorCode,
  audit_persistence_failed, err, mutation_error, Result-cases,
}
use zima_control.Mutation.Repository.{Repository, append}
use zima_control.Mutation.Repository.Locks.{check_finalization-state, check_recovery-state}
use zima_control.Mutation.Repository.Rollback.{IsKeyed, Untouched}
use zima_control.Mutation.Fingerprint.{Hashing}
use zima_control.Mutation.Repository.Claims.{claim_parent_with_step}
use zima_control.Mutation.Repository.Rollback.Claiming.{Unread, HasOwnedTrails, claim_parent-undo}
use zima_control.Mutation.Repository.Rollback.Checks.{
  Untouched-refl, Found-at, check_step_transition-state, check_step_transition-found,
  check_finalization-found, check_recovery-found, check_rejection-state, check_rejection-found,
}
use zima_control.Mutation.Repository.Rollback.Performs.{
  perform_step_transition-undo, perform_finalization-undo, perform_recovery-undo,
  perform_rejection-undo,
}

transition_step-undo :
    (input : StepTransitionInput) (s : Repository)
    → IsKeyed s
    → (transition_step_with_audit input s).0 ≡ err (mutation_error audit_persistence_failed)
    → Untouched s (transition_step_with_audit input s).1
unfolding transition_step_with_audit
transition_step-undo input s keyed h = elim (Result-cases (check_step_transition input s).0) [
  | inr (f, e) ↦ rw (e, check_step_transition-state) (Untouched-refl s)
  | inl ((op, step), e) ↦
      let (here, there) = check_step_transition-found input s op step e in
      let found = Found-at s input.operation_id input.child_step_id op step keyed here there in
      rw (e, check_step_transition-state)
        (perform_step_transition-undo input op step s found
          (rw (e, check_step_transition-state) at h))
]

finalize_step-undo :
    (input : StepFinalizationInput) (s : Repository)
    → IsKeyed s
    → (finalize_step_and_parent input s).0 ≡ err (mutation_error audit_persistence_failed)
    → Untouched s (finalize_step_and_parent input s).1
unfolding finalize_step_and_parent
finalize_step-undo input s keyed h = elim (Result-cases (check_finalization input s).0) [
  | inr (f, e) ↦ rw (e, check_finalization-state) (Untouched-refl s)
  | inl ((op, step), e) ↦
      let (here, there) = check_finalization-found input s op step e in
      let found = Found-at s input.operation_id input.child_step_id op step keyed here there in
      rw (e, check_finalization-state)
        (perform_finalization-undo input op step s keyed found
          (rw (e, check_finalization-state) at h))
]

recover_step-undo :
    (id step_id : String) (held : MutationLease) (now : ℕ) (s : Repository)
    → IsKeyed s
    → (recover_step_and_parent id step_id held now s).0
      ≡ err (mutation_error audit_persistence_failed)
    → Untouched s (recover_step_and_parent id step_id held now s).1
unfolding recover_step_and_parent
recover_step-undo id step_id held now s keyed h =
    elim (Result-cases (check_recovery id step_id held now s).0) [
      | inr (f, e) ↦ rw (e, check_recovery-state) (Untouched-refl s)
      | inl ((op, step), e) ↦
          let (here, there) = check_recovery-found id step_id held now s op step e in
          let found = Found-at s id step_id op step keyed here there in
          elim (Bool-cases (is_terminal_action_status step.status)) [
            | inl f ↦ rw (e, check_recovery-state, f) (Untouched-refl s)
            | inr f ↦
                rw (e, check_recovery-state, f)
                  (perform_recovery-undo held now op step (is_uncertain step) s keyed found
                    (rw (e, check_recovery-state, f) at h))
          ]
    ]

reject_step-undo :
    (id step_id : String) (now : ℕ) (r : MutationErrorCode) (s : Repository)
    → IsKeyed s
    → (reject_parent_child_before_ownership id step_id now r s).0
      ≡ err (mutation_error audit_persistence_failed)
    → Untouched s (reject_parent_child_before_ownership id step_id now r s).1
unfolding reject_parent_child_before_ownership
reject_step-undo id step_id now r s keyed h = elim (Result-cases (check_rejection id step_id s).0) [
  | inr (f, e) ↦ rw (e, check_rejection-state) (Untouched-refl s)
  | inl ((op, step), e) ↦
      let (here, there) = check_rejection-found id step_id s op step e in
      let found = Found-at s id step_id op step keyed here there in
      rw (e, check_rejection-state)
        (perform_rejection-undo now r op step s found (rw (e, check_rejection-state) at h))
]

transition_action_status-error :
    (a b : ActionStatus)
    → transition_action_status a b ≢ err (mutation_error audit_persistence_failed)
unfolding transition_action_status
transition_action_status-error a b h = ground arith

transition-undo :
    (input : TransitionInput) (s : Repository)
    → IsKeyed s
    → (transition_with_audit input s).0 ≡ err (mutation_error audit_persistence_failed)
    → Untouched s (transition_with_audit input s).1
unfolding transition_with_audit append apply_transition
transition-undo input s keyed h = elim (Option-cases (lookup input.operation_id s.operations)) [
  | inl e ↦ rw e (Untouched-refl s)
  | inr (op, e) ↦
      let back =
        insert-undo op.id op.id (apply_transition op input) op s.operations refl
          (ap (λ k. lookup k s.operations) (keyed.operations _ op e) ∙ e) in
      record {
        operations = ground (arith, e, back, transition_action_status-error op.status input.status);
        steps = ground (arith, e);
        claims = ground (arith, e);
        locks = ground (arith, e, transition_action_status-error op.status input.status);
        fences = ground (arith, e);
        audits = λ id. ground (arith, e, transition_action_status-error op.status input.status);
      }
]

authorize_step-undo :
    (input : StepDispatchInput) (s : Repository)
    → IsKeyed s
    → (authorize_step_dispatch input s).0 ≡ err (mutation_error audit_persistence_failed)
    → Untouched s (authorize_step_dispatch input s).1
unfolding authorize_step_dispatch append
authorize_step-undo input s keyed h = elim (Option-cases (lookup input.operation_id s.operations)) [
  | inl e ↦ rw e (Untouched-refl s)
  | inr (op, e) ↦ elim (Option-cases (lookup input.child_step_id s.steps)) [
    | inl f ↦ rw (e, f) (Untouched-refl s)
    | inr (step, f) ↦
        let next : OperationStep = record step {
          dispatch_authorized_at = some input.now;
          dispatch_fencing_token = some input.fencing_token;
          fencing_token = some input.fencing_token;
          updated_at = input.now;
        } in
        let back =
          insert-undo step.id step.id next step s.steps refl
            (ap (λ k. lookup k s.steps) (keyed.steps _ step f) ∙ f) in
        record {
          operations = ground (arith, e, f);
          steps = ground (arith, e, f, back);
          claims = ground (arith, e, f);
          locks = ground (arith, e, f);
          fences = ground (arith, e, f);
          audits = λ id. ground (arith, e, f);
        }
  ]
]

-- In a repository in which every object stands under its own id, each of the methods that roll back
-- when they cannot write an audit event, namely transitionWithAudit, authorizeStepDispatch,
-- transitionStepWithAudit, finalizeStepAndParent, recoverStepAndParent and
-- rejectParentChildBeforeOwnership, when it throws AUDIT_PERSISTENCE_FAILED, leaves the operations, the
-- steps, the claims, the leases, the fence counters and every audit trail as they were; and so does
-- claimParentWithStep, in what every id and key reads, where no id without an operation has audit
-- events.
pub audit_failure_undone :
    (s : Repository)
    → IsKeyed s
    → ((input : TransitionInput)
        → (transition_with_audit input s).0 ≡ err (mutation_error audit_persistence_failed)
        → Untouched s (transition_with_audit input s).1)
      × ((input : StepDispatchInput)
          → (authorize_step_dispatch input s).0 ≡ err (mutation_error audit_persistence_failed)
          → Untouched s (authorize_step_dispatch input s).1)
      × ((input : StepTransitionInput)
          → (transition_step_with_audit input s).0 ≡ err (mutation_error audit_persistence_failed)
          → Untouched s (transition_step_with_audit input s).1)
      × ((input : StepFinalizationInput)
          → (finalize_step_and_parent input s).0 ≡ err (mutation_error audit_persistence_failed)
          → Untouched s (finalize_step_and_parent input s).1)
      × ((id step_id : String) (held : MutationLease) (now : ℕ)
          → (recover_step_and_parent id step_id held now s).0
            ≡ err (mutation_error audit_persistence_failed)
          → Untouched s (recover_step_and_parent id step_id held now s).1)
      × ((id step_id : String) (now : ℕ) (r : MutationErrorCode)
          → (reject_parent_child_before_ownership id step_id now r s).0
            ≡ err (mutation_error audit_persistence_failed)
          → Untouched s (reject_parent_child_before_ownership id step_id now r s).1)
      × ((hashing : Hashing) (input : ParentChildClaimInput)
          → HasOwnedTrails s
          → (claim_parent_with_step hashing input s).0
            ≡ err (mutation_error audit_persistence_failed)
          → Unread s (claim_parent_with_step hashing input s).1)
audit_failure_undone s keyed = (
  (λ input h. transition-undo input s keyed h),
  (λ input h. authorize_step-undo input s keyed h),
  (λ input h. transition_step-undo input s keyed h),
  (λ input h. finalize_step-undo input s keyed h),
  (λ id step_id held now h. recover_step-undo id step_id held now s keyed h),
  (λ id step_id now r h. reject_step-undo id step_id now r s keyed h),
  (λ hashing input owned h. claim_parent-undo hashing input s owned h),
)
