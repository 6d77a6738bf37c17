-- ===== src/Mutation/Repository/Locks.antt =====
-- No method but the three that grant or renew a lease makes a new one.
use zima_control.Common.{
  ap, ◌∙◌, List, ℕ, String, ◌≡◌, refl, Bool, false, Option, none, some, lookup, insert, arith,
  Option-cases, Bool-cases, inl, inr, string_eq, lookup-delete, insert-lookup,
}
use zima_control.Mutation.Types.{
  AuditEvent, Operation, OperationStep, MutationAuditEventType, ClaimInput, ParentChildClaimInput,
  ParentReplayInput, TransitionInput, DispatchInput, StepDispatchInput, StepTransitionInput,
  StepFinalizationInput, MutationLease,
}
use zima_control.Mutation.Status.{MutationErrorCode, is_terminal_action_status, Result-cases}
use zima_control.Mutation.Repository.Rollback.{
  FailsClean, with_step, with_operation, log_end-FailsClean,
}
use zima_control.Mutation.Fingerprint.{Hashing}
use zima_control.Mutation.Repository.{Repository, M, events_of, steps_for, append}
use zima_control.Mutation.Aggregate.{ParentMutationAggregate, aggregate_parent_from_steps}
use zima_control.Mutation.Repository.Claims.{claim, claim_parent_with_step, replay_parent_claim}
use zima_control.Mutation.Repository.Dispatch.{authorize_dispatch, authorize_step_dispatch}
use zima_control.Mutation.Repository.Leases.{release_lease}
use zima_control.Mutation.Repository.Steps.{
  transition_step_with_audit, finalize_step_and_parent, check_step_transition, check_finalization,
  perform_step_transition, perform_finalization, commit_step, log_end, undo_end,
}
use zima_control.Mutation.Repository.Recovery.{
  recover_step_and_parent, reject_parent_child_before_ownership, check_recovery, check_rejection,
  perform_recovery, perform_rejection, is_uncertain, transition_allowed_for_recovery,
}
use zima_control.Mutation.Repository.Transitions.{transition_with_audit}

-- Every lease stands under its own operation key.
abbrev pub HasKeyedLocks : Repository → Type 0
HasKeyedLocks s =
    (k : String) (lease : MutationLease) → lookup k s.locks ≡ some lease → lease.operation_key ≡ k

-- No lease of `t` is new: it is one of `s`.
abbrev pub NoNewLock : Repository → Repository → Type 0
NoNewLock s t =
    (k : String) (lease : MutationLease)
    → lookup k t.locks ≡ some lease
    → lookup k s.locks ≡ some lease

pub claim-locks : (input : ClaimInput) (s : Repository) → (claim input s).1.locks ≡ s.locks
unfolding claim append
claim-locks input s = ground arith

pub claim_parent-locks :
    (h : Hashing) (input : ParentChildClaimInput) (s : Repository)
    → (claim_parent_with_step h input s).1.locks ≡ s.locks
unfolding claim_parent_with_step append
claim_parent-locks h input s = ground arith

pub replay-locks :
    (input : ParentReplayInput) (s : Repository) → (replay_parent_claim input s).1.locks ≡ s.locks
unfolding replay_parent_claim append
replay-locks input s = ground arith

pub authorize-locks :
    (input : DispatchInput) (s : Repository) → (authorize_dispatch input s).1.locks ≡ s.locks
unfolding authorize_dispatch append
authorize-locks input s = ground arith

pub authorize_step-locks :
    (input : StepDispatchInput) (s : Repository)
    → (authorize_step_dispatch input s).1.locks ≡ s.locks
unfolding authorize_step_dispatch append
authorize_step-locks input s = ground arith

pub transition_step-locks :
    (input : StepTransitionInput) (s : Repository)
    → (transition_step_with_audit input s).1.locks ≡ s.locks
unfolding transition_step_with_audit check_step_transition perform_step_transition commit_step
    append
transition_step-locks input s = ground arith

pub reject-locks :
    (id step_id : String) (now : ℕ) (r : MutationErrorCode) (s : Repository)
    → (reject_parent_child_before_ownership id step_id now r s).1.locks ≡ s.locks
unfolding reject_parent_child_before_ownership check_rejection perform_rejection commit_step log_end
    undo_end append
reject-locks id step_id now r s = ground arith

pub transition-locks :
    (input : TransitionInput) (s : Repository) → NoNewLock s (transition_with_audit input s).1
unfolding transition_with_audit append
transition-locks input s k lease h = elim (Option-cases input.ownership) [
  | inl e ↦ ground (arith, e)
  | inr (held, e) ↦ ground (arith, e, lookup-delete held.operation_key k s.locks)
]

pub release-locks : (lease : MutationLease) (s : Repository) → NoNewLock s (release_lease lease s).1
unfolding release_lease
release-locks lease s k l h = ground (arith, lookup-delete lease.operation_key k s.locks)

module _ (op : Operation) (step next_step : OperationStep)
    (next : ParentMutationAggregate → Operation) (log : ParentMutationAggregate → M (Unit {0}))
    (undo : M (Unit {0})) (s : Repository)
    (calm : (a : ParentMutationAggregate) (t : Repository) → NoNewLock t (log a t).1)
    (clean : (a : ParentMutationAggregate) → FailsClean (log a))
    (undone : (t : Repository) → t.locks ≡ s.locks → (undo t).1.locks ≡ s.locks) where
  commit_step-locks : NoNewLock s (commit_step op step next_step next log undo s).1
  unfolding commit_step
  commit_step-locks k lease h =
      elim (Result-cases (aggregate_parent_from_steps (steps_for (with_step s next_step) op.id))) [
        | inr (f, e) ↦ ground (arith, e)
        | inl (a, e) ↦
            let s2 = with_operation (with_step s next_step) (next a) in
            elim (Result-cases (log a s2).0) [
              | inl (u, g) ↦ calm a s2 k lease (ground (arith, e, g))
              | inr (f, g) ↦
                  let t : Repository = record s2 {
                    fail_next_audit = false;
                    operations = insert op.id op s2.operations;
                    steps = insert step.id step s2.steps;
                  } in
                  ground (arith, e, g, clean a s2 f g, undone t refl)
            ]
      ]

pub log_end-locks :
    (op : Operation) (step : OperationStep) (event : MutationAuditEventType) (now : ℕ)
    (reason : Option MutationErrorCode) (released : Option String) (t : Repository)
    → NoNewLock t (log_end op step event now reason released t).1
unfolding log_end append
log_end-locks op step event now reason none t k lease h = ground arith
log_end-locks op step event now reason (some key) t k lease h =
    ground (arith, lookup-delete key k t.locks)

pub undo_end-locks :
    (op : Operation) (old_audits : List AuditEvent) (key : String) (s : Repository)
    → HasKeyedLocks s
    → (t : Repository) → t.locks ≡ s.locks
    → (undo_end op old_audits (lookup key s.locks) t).1.locks ≡ s.locks
unfolding undo_end
undo_end-locks op old_audits key s keyed t h = elim (Option-cases (lookup key s.locks)) [
  | inl e ↦ ground (arith, e)
  | inr (old, e) ↦
      let same = keyed key old e in
      ground (arith, e, same, insert-lookup old.operation_key old s.locks, lookup-at same e)
]
  where
    lookup-at :
        {old : MutationLease}
        → old.operation_key ≡ key
        → lookup key s.locks ≡ some old
        → lookup old.operation_key s.locks ≡ some old
    lookup-at p e = ap (λ j. lookup j s.locks) p ∙ e

pub check_finalization-state :
    (input : StepFinalizationInput) (s : Repository) → (check_finalization input s).1 ≡ s
unfolding check_finalization
check_finalization-state input s = ground arith

pub check_recovery-state :
    (id step_id : String) (held : MutationLease) (now : ℕ) (s : Repository)
    → (check_recovery id step_id held now s).1 ≡ s
unfolding check_recovery
check_recovery-state id step_id held now s = ground arith

perform_finalization-locks :
    (input : StepFinalizationInput) (op : Operation) (step : OperationStep) (s : Repository)
    → HasKeyedLocks s
    → NoNewLock s (perform_finalization input op step s).1
unfolding perform_finalization
perform_finalization-locks input op step s keyed =
    commit_step-locks op step _ _ _ _ s (λ a t. log_end-locks _ _ _ _ _ _ t)
      (λ a. log_end-FailsClean _ _ _ _ _ _)
      (undo_end-locks op (events_of s op.id) input.ownership.operation_key s keyed)

pub finalize-locks :
    (input : StepFinalizationInput) (s : Repository)
    → HasKeyedLocks s
    → NoNewLock s (finalize_step_and_parent input s).1
unfolding finalize_step_and_parent
finalize-locks input s keyed k lease h = elim (Result-cases (check_finalization input s).0) [
  | inr (f, e) ↦ ground (arith, e, check_finalization-state input s)
  | inl (found, e) ↦
      perform_finalization-locks input found.0 found.1 s keyed k lease
        (ground (arith, e, check_finalization-state input s))
]

perform_recovery-locks :
    (held : MutationLease) (now : ℕ) (op : Operation) (step : OperationStep) (b : Bool)
    (s : Repository)
    → HasKeyedLocks s
    → NoNewLock s (perform_recovery held now op step b s).1
unfolding perform_recovery
perform_recovery-locks held now op step b s keyed k lease h =
    elim (Bool-cases (transition_allowed_for_recovery step.status b)) [
      | inr e ↦ ground (arith, e)
      | inl e ↦
          commit_step-locks op step _ _ _ _ s (λ a t. log_end-locks _ _ _ _ _ _ t)
            (λ a. log_end-FailsClean _ _ _ _ _ _)
            (undo_end-locks op (events_of s op.id) held.operation_key s keyed) k lease (rw e at h)
    ]

pub recover-locks :
    (id step_id : String) (held : MutationLease) (now : ℕ) (s : Repository)
    → HasKeyedLocks s
    → NoNewLock s (recover_step_and_parent id step_id held now s).1
unfolding recover_step_and_parent
recover-locks id step_id held now s keyed k lease h =
    elim (Result-cases (check_recovery id step_id held now s).0) [
      | inr (f, e) ↦ ground (arith, e, check_recovery-state id step_id held now s)
      | inl (found, e) ↦ elim (Bool-cases (is_terminal_action_status found.1.status)) [
        | inl done ↦ ground (arith, e, done, check_recovery-state id step_id held now s)
        | inr more ↦
            perform_recovery-locks held now found.0 found.1 (is_uncertain found.1) s keyed k lease
              (ground (arith, e, more, check_recovery-state id step_id held now s))
      ]
    ]
