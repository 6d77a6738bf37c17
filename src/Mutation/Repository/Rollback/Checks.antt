-- ===== src/Mutation/Repository/Rollback/Checks.antt =====
-- The checks of the methods of a child step change nothing, and find the two objects.
use zima_control.Common.{ℕ, String, ◌≡◌, refl, ap, ◌∙◌, some, lookup, arith, string_eq}
use zima_control.Mutation.Status.{ok}
use zima_control.Mutation.Types.{
  Operation, OperationStep, MutationLease, StepTransitionInput, StepFinalizationInput,
}
use zima_control.Mutation.Repository.{Repository}
use zima_control.Mutation.Repository.Steps.{check_step_transition, check_finalization}
use zima_control.Mutation.Repository.Recovery.{check_recovery, check_rejection}
use zima_control.Mutation.Repository.Rollback.{IsKeyed, Untouched}

pub Untouched-refl : (s : Repository) → Untouched s s
Untouched-refl s = record {
  operations = refl;
  steps = refl;
  claims = refl;
  locks = refl;
  fences = refl;
  audits = λ id. refl;
}

-- A checked method found its two objects under their own ids.
pub record Found (s : Repository) (op : Operation) (step : OperationStep) : Type 0 where
  pub operation : lookup op.id s.operations ≡ some op
  pub step_found : lookup step.id s.steps ≡ some step

pub Found-at :
    (s : Repository) (id step_id : String) (op : Operation) (step : OperationStep)
    → IsKeyed s
    → lookup id s.operations ≡ some op
    → lookup step_id s.steps ≡ some step
    → Found s op step
Found-at s id step_id op step keyed e f = record {
  operation = ap (λ k. lookup k s.operations) (keyed.operations id op e) ∙ e;
  step_found = ap (λ k. lookup k s.steps) (keyed.steps step_id step f) ∙ f;
}

pub check_step_transition-state :
    (input : StepTransitionInput) (s : Repository) → (check_step_transition input s).1 ≡ s
unfolding check_step_transition
check_step_transition-state input s = ground arith

pub check_step_transition-found :
    (input : StepTransitionInput) (s : Repository) (op : Operation) (step : OperationStep)
    → (check_step_transition input s).0 ≡ ok (op, step)
    → (lookup input.operation_id s.operations ≡ some op)
      × (lookup input.child_step_id s.steps ≡ some step)
unfolding check_step_transition
check_step_transition-found input s op step e = ground arith

pub check_finalization-found :
    (input : StepFinalizationInput) (s : Repository) (op : Operation) (step : OperationStep)
    → (check_finalization input s).0 ≡ ok (op, step)
    → (lookup input.operation_id s.operations ≡ some op)
      × (lookup input.child_step_id s.steps ≡ some step)
unfolding check_finalization
check_finalization-found input s op step e = ground arith

pub check_recovery-found :
    (id step_id : String) (held : MutationLease) (now : ℕ) (s : Repository) (op : Operation)
    (step : OperationStep)
    → (check_recovery id step_id held now s).0 ≡ ok (op, step)
    → (lookup id s.operations ≡ some op) × (lookup step_id s.steps ≡ some step)
unfolding check_recovery
check_recovery-found id step_id held now s op step e = ground arith

pub check_rejection-state :
    (id step_id : String) (s : Repository) → (check_rejection id step_id s).1 ≡ s
unfolding check_rejection
check_rejection-state id step_id s = ground arith

pub check_rejection-found :
    (id step_id : String) (s : Repository) (op : Operation) (step : OperationStep)
    → (check_rejection id step_id s).0 ≡ ok (op, step)
    → (lookup id s.operations ≡ some op) × (lookup step_id s.steps ≡ some step)
unfolding check_rejection
check_rejection-found id step_id s op step e = ground arith
