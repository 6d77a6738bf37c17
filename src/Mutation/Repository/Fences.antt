-- ===== src/Mutation/Repository/Fences.antt =====
-- No method but the two that grant a lease changes the fencing counters.
use zima_control.Common.{ℕ, String, ◌≡◌, arith, string_eq}
use zima_control.Mutation.Types.{
  ClaimInput, ParentChildClaimInput, ParentReplayInput, TransitionInput, DispatchInput,
  StepDispatchInput, StepTransitionInput, StepFinalizationInput, MutationLease,
}
use zima_control.Mutation.Status.{MutationErrorCode}
use zima_control.Mutation.Fingerprint.{Hashing}
use zima_control.Mutation.Repository.{Repository, append}
use zima_control.Mutation.Repository.Claims.{claim, claim_parent_with_step, replay_parent_claim}
use zima_control.Mutation.Repository.Dispatch.{authorize_dispatch, authorize_step_dispatch}
use zima_control.Mutation.Repository.Leases.{renew_lease, release_lease}
use zima_control.Mutation.Repository.Steps.{
  transition_step_with_audit, finalize_step_and_parent, check_step_transition, check_finalization,
  perform_step_transition, perform_finalization, commit_step, log_end, undo_end,
}
use zima_control.Mutation.Repository.Recovery.{
  recover_step_and_parent, reject_parent_child_before_ownership, check_recovery, check_rejection,
  perform_recovery, perform_rejection,
}
use zima_control.Mutation.Repository.Transitions.{transition_with_audit}

pub claim-fences : (input : ClaimInput) (s : Repository) → (claim input s).1.fences ≡ s.fences
unfolding claim append
claim-fences input s = ground arith

pub claim_parent-fences :
    (h : Hashing) (input : ParentChildClaimInput) (s : Repository)
    → (claim_parent_with_step h input s).1.fences ≡ s.fences
unfolding claim_parent_with_step append
claim_parent-fences h input s = ground arith

pub replay-fences :
    (input : ParentReplayInput) (s : Repository) → (replay_parent_claim input s).1.fences ≡ s.fences
unfolding replay_parent_claim append
replay-fences input s = ground arith

pub authorize-fences :
    (input : DispatchInput) (s : Repository) → (authorize_dispatch input s).1.fences ≡ s.fences
unfolding authorize_dispatch append
authorize-fences input s = ground arith

pub authorize_step-fences :
    (input : StepDispatchInput) (s : Repository)
    → (authorize_step_dispatch input s).1.fences ≡ s.fences
unfolding authorize_step_dispatch append
authorize_step-fences input s = ground arith

pub transition-fences :
    (input : TransitionInput) (s : Repository) → (transition_with_audit input s).1.fences ≡ s.fences
unfolding transition_with_audit append
transition-fences input s = ground arith

pub transition_step-fences :
    (input : StepTransitionInput) (s : Repository)
    → (transition_step_with_audit input s).1.fences ≡ s.fences
unfolding transition_step_with_audit check_step_transition perform_step_transition commit_step
    append
transition_step-fences input s = ground arith

pub finalize-fences :
    (input : StepFinalizationInput) (s : Repository)
    → (finalize_step_and_parent input s).1.fences ≡ s.fences
unfolding finalize_step_and_parent check_finalization perform_finalization commit_step log_end
    undo_end append
finalize-fences input s = ground arith

pub recover-fences :
    (id step_id : String) (lease : MutationLease) (now : ℕ) (s : Repository)
    → (recover_step_and_parent id step_id lease now s).1.fences ≡ s.fences
unfolding recover_step_and_parent check_recovery perform_recovery commit_step log_end undo_end
    append
recover-fences id step_id lease now s = ground arith

pub reject-fences :
    (id step_id : String) (now : ℕ) (r : MutationErrorCode) (s : Repository)
    → (reject_parent_child_before_ownership id step_id now r s).1.fences ≡ s.fences
unfolding reject_parent_child_before_ownership check_rejection perform_rejection commit_step log_end
    undo_end append
reject-fences id step_id now r s = ground arith

pub renew-fences :
    (lease : MutationLease) (now expires : ℕ) (s : Repository)
    → (renew_lease lease now expires s).1.fences ≡ s.fences
unfolding renew_lease
renew-fences lease now expires s = ground arith

pub release-fences :
    (lease : MutationLease) (s : Repository) → (release_lease lease s).1.fences ≡ s.fences
unfolding release_lease
release-fences lease s = ground arith
