-- ===== src/Mutation/Repository/Calls.antt =====
-- The methods of the repository that change its state, as one type of calls. Between two calls
-- anything may happen outside; a history of the repository is the list of its calls.
use zima_control.Common.{ℕ, String, List, [], ◌∷◌}
use zima_control.Mutation.Status.{MutationErrorCode}
use zima_control.Mutation.Types.{
  ClaimInput, ParentChildClaimInput, ParentReplayInput, TransitionInput, DispatchInput,
  StepDispatchInput, StepTransitionInput, StepFinalizationInput, MutationLease,
}
use zima_control.Mutation.Fingerprint.{Hashing}
use zima_control.Mutation.Repository.{Repository}
use zima_control.Mutation.Repository.Claims.{claim, claim_parent_with_step, replay_parent_claim}
use zima_control.Mutation.Repository.Dispatch.{authorize_dispatch, authorize_step_dispatch}
use zima_control.Mutation.Repository.Leases.{
  acquire_lease, acquire_recovery_lease, renew_lease, release_lease,
}
use zima_control.Mutation.Repository.Steps.{transition_step_with_audit, finalize_step_and_parent}
use zima_control.Mutation.Repository.Recovery.{
  recover_step_and_parent, reject_parent_child_before_ownership,
}
use zima_control.Mutation.Repository.Transitions.{transition_with_audit}

pub data Call : Type 0 where
  claims : ClaimInput → Call
  claims_parent : ParentChildClaimInput → Call
  replays_parent : ParentReplayInput → Call
  authorizes : DispatchInput → Call
  authorizes_step : StepDispatchInput → Call
  transitions : TransitionInput → Call
  transitions_step : StepTransitionInput → Call
  finalizes : StepFinalizationInput → Call
  recovers : String → String → MutationLease → ℕ → Call
  rejects : String → String → ℕ → MutationErrorCode → Call
  acquires : String → String → ℕ → ℕ → Call
  acquires_recovery : String → String → ℕ → ℕ → Call
  renews : MutationLease → ℕ → ℕ → Call
  releases : MutationLease → Call

-- The state that a call leaves, whether it returns or throws.
unfoldable pub perform : Hashing → Call → Repository → Repository
perform h (claims input) s = (claim input s).1
perform h (claims_parent input) s = (claim_parent_with_step h input s).1
perform h (replays_parent input) s = (replay_parent_claim input s).1
perform h (authorizes input) s = (authorize_dispatch input s).1
perform h (authorizes_step input) s = (authorize_step_dispatch input s).1
perform h (transitions input) s = (transition_with_audit input s).1
perform h (transitions_step input) s = (transition_step_with_audit input s).1
perform h (finalizes input) s = (finalize_step_and_parent input s).1
perform h (recovers id step_id lease now) s = (recover_step_and_parent id step_id lease now s).1
perform h (rejects id step_id now reason) s =
    (reject_parent_child_before_ownership id step_id now reason s).1
perform h (acquires key id now expires) s = (acquire_lease key id now expires s).1
perform h (acquires_recovery key id now expires) s = (acquire_recovery_lease key id now expires s).1
perform h (renews lease now expires) s = (renew_lease lease now expires s).1
perform h (releases lease) s = (release_lease lease s).1

-- Every call ends, with a result or an error, and the next one starts from the state that it left.
unfoldable pub run : Hashing → List Call → Repository → Repository
run h [] s = s
run h (c ∷ cs) s = run h cs (perform h c s)
