-- ===== src/Mutation/Repository/Rollback/Performs.antt =====
-- The part of each step method that changes the repository undoes itself when an audit event cannot
-- be written.
use zima_control.Mutation.Repository.{Repository, events_of}
use zima_control.Common.{
  ℕ, String, ◌≡◌, refl, ap, ◌∙◌, Bool, true, false, none, some, lookup, arith, Bool-cases, inl, inr,
  string_eq,
}
use zima_control.Mutation.Status.{MutationErrorCode, audit_persistence_failed, err, mutation_error}
use zima_control.Mutation.Types.{
  Operation, OperationStep, MutationLease, StepTransitionInput, StepFinalizationInput,
}
use zima_control.Mutation.Repository.Steps.{
  perform_step_transition, apply_step_transition, apply_aggregate, parent_after_transition,
  perform_finalization, apply_step_finalization, parent_after_end,
}
use zima_control.Mutation.Repository.Recovery.{
  perform_recovery, recovered_step, parent_after_recovery, perform_rejection, rejected_step,
  transition_allowed_for_recovery,
}
use zima_control.Mutation.Repository.Rollback.{
  IsKeyed, Untouched, commit_step-undo, undo_end-Untouched, append-FailsClean, log_end-FailsClean,
}
use zima_control.Mutation.Repository.Rollback.Checks.{Untouched-refl, Found}

pub perform_step_transition-undo :
    (input : StepTransitionInput) (op : Operation) (step : OperationStep) (s : Repository)
    → Found s op step
    → (perform_step_transition input op step s).0 ≡ err (mutation_error audit_persistence_failed)
    → Untouched s (perform_step_transition input op step s).1
unfolding perform_step_transition apply_step_transition parent_after_transition apply_aggregate
perform_step_transition-undo input op step s found =
    commit_step-undo op step _ _ _ _ s refl (λ a. refl) (λ a. append-FailsClean _ _ _ _ _)
      (λ t a l. (refl, Untouched-refl t)) found.operation found.step_found

lock_at :
    (s : Repository) (key : String)
    → IsKeyed s
    → (t : Repository) → t.locks ≡ s.locks
    → (lease : MutationLease) → lookup key s.locks ≡ some lease
    → lookup lease.operation_key t.locks ≡ some lease
lock_at s key keyed t l lease e =
    ap (λ m. lookup lease.operation_key m) l
    ∙ ap (λ k. lookup k s.locks) (keyed.locks key lease e)
    ∙ e

pub perform_finalization-undo :
    (input : StepFinalizationInput) (op : Operation) (step : OperationStep) (s : Repository)
    → IsKeyed s
    → Found s op step
    → (perform_finalization input op step s).0 ≡ err (mutation_error audit_persistence_failed)
    → Untouched s (perform_finalization input op step s).1
unfolding perform_finalization apply_step_finalization parent_after_end apply_aggregate
perform_finalization-undo input op step s keyed found =
    commit_step-undo op step _ _ _ _ s refl (λ a. refl) (λ a. log_end-FailsClean _ _ _ _ _ _)
      (λ t a l.
        undo_end-Untouched op (events_of s op.id) _ t (ground (arith, a))
          (lock_at s input.ownership.operation_key keyed t l))
      found.operation found.step_found

recovered_step-id :
    (step : OperationStep) (b : Bool) (token now : ℕ)
    → (recovered_step step b token now).id ≡ step.id
unfolding recovered_step
recovered_step-id step true token now = refl
recovered_step-id step false token now = refl

pub perform_recovery-undo :
    (held : MutationLease) (now : ℕ) (op : Operation) (step : OperationStep) (b : Bool)
    (s : Repository)
    → IsKeyed s
    → Found s op step
    → (perform_recovery held now op step b s).0 ≡ err (mutation_error audit_persistence_failed)
    → Untouched s (perform_recovery held now op step b s).1
unfolding perform_recovery parent_after_recovery apply_aggregate
perform_recovery-undo held now op step b s keyed found h =
    elim (Bool-cases (transition_allowed_for_recovery step.status b)) [
      | inr e ↦ absurd (ground (arith, e))
      | inl e ↦ rw e (
          commit_step-undo op step (recovered_step step b held.fencing_token now) _ _ _ s
            (recovered_step-id step b held.fencing_token now) (λ a. refl)
            (λ a. log_end-FailsClean _ _ _ _ _ _)
            (λ t a l.
              undo_end-Untouched op (events_of s op.id) _ t (ground (arith, a))
                (lock_at s held.operation_key keyed t l))
            found.operation found.step_found (rw e at h))
    ]

pub perform_rejection-undo :
    (now : ℕ) (r : MutationErrorCode) (op : Operation) (step : OperationStep) (s : Repository)
    → Found s op step
    → (perform_rejection now r op step s).0 ≡ err (mutation_error audit_persistence_failed)
    → Untouched s (perform_rejection now r op step s).1
unfolding perform_rejection rejected_step parent_after_end apply_aggregate
perform_rejection-undo now r op step s found =
    commit_step-undo op step _ _ _ _ s refl (λ a. refl) (λ a. log_end-FailsClean _ _ _ _ _ _)
      (λ t a l.
        undo_end-Untouched op (events_of s op.id) none t (ground (arith, a)) (λ lease e. cc))
      found.operation found.step_found
