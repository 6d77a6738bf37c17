-- ===== src/Mutation/Repository/Fencing.antt =====
-- What the calls of the repository do to the leases and the fencing counters.
pub mod Refusal
pub mod Tokens
use mathlib.Core.Path.{subst}
use zima_control.Common.{
  sym, ℕ, ◌+◌, ◌<◌, ◌≤◌, String, ◌≡◌, refl, ◌⊎◌, inl, inr, Bool, not, ◌||◌, leb, true, false,
  Option, none, some, List, [], ◌∷◌, lookup, insert, arith, get_or_else, lookup-insert,
  lookup-insert_self, ◌≢◌, string_eq, eq_iff, Option-cases, Bool-cases,
}
use zima_control.Mutation.Status.{Result, ok, err, Result-cases}
use zima_control.Mutation.Types.{
  MutationLease, OperationStep, Operation, ParentChildOperation, StepDispatchInput,
  StepTransitionInput, StepFinalizationInput,
}
use zima_control.Mutation.Fingerprint.{Hashing}
use zima_control.Mutation.Repository.{
  Repository, lease_is_held, stale_ownership, require_operation, require_step, require_ownership,
}
use zima_control.Mutation.Repository.Calls.{
  Call, claims, claims_parent, replays_parent, authorizes, authorizes_step, transitions,
  transitions_step, finalizes, recovers, rejects, acquires, acquires_recovery, renews, releases,
  perform, run,
}
use zima_control.Mutation.Repository.Dispatch.{authorize_step_dispatch}
use zima_control.Mutation.Repository.Steps.{
  transition_step_with_audit, finalize_step_and_parent, check_step_transition, check_finalization,
}
use zima_control.Mutation.Repository.Leases.{
  next_token, LeaseDecision, refuse, keep, grant, acquire_by, same_lease, grant_lease,
  acquire_lease, acquire_recovery_lease, renew_lease, decide_lease, may_recover,
}
use zima_control.Mutation.Repository.Fences.{
  claim-fences, claim_parent-fences, replay-fences, authorize-fences, authorize_step-fences,
  transition-fences, transition_step-fences, finalize-fences, recover-fences, reject-fences,
  renew-fences, release-fences,
}
use zima_control.Mutation.Repository.Locks.{
  HasKeyedLocks, NoNewLock, claim-locks, claim_parent-locks, replay-locks, authorize-locks,
  authorize_step-locks, transition_step-locks, reject-locks, transition-locks, release-locks,
  finalize-locks, recover-locks,
}

-- The counter of a key.
abbrev pub fence_of : String → Repository → ℕ
fence_of k s = get_or_else (lookup k s.fences) 0

-- What a call may do to the leases and counters: no new lease; or one new lease, under the next token
-- of its key; or the lease of a key with another expiry.
pub data LeaseMove (s t : Repository) : Type 0 where
  calm : t.fences ≡ s.fences → NoNewLock s t → LeaseMove s t
  granted :
      (lease : MutationLease)
      → lease.fencing_token ≡ fence_of lease.operation_key s + 1
      → t.fences ≡ insert lease.operation_key lease.fencing_token s.fences
      → t.locks ≡ insert lease.operation_key lease s.locks
      → LeaseMove s t
  renewed :
      (k : String) (old : MutationLease) (expires : ℕ)
      → lookup k s.locks ≡ some old
      → t.fences ≡ s.fences
      → t.locks ≡ insert k (record old { lease_expires_at = expires }) s.locks
      → LeaseMove s t

same-LeaseMove : {s t : Repository} → t.fences ≡ s.fences → t.locks ≡ s.locks → LeaseMove s t
same-LeaseMove {s} {t} f l = calm f (λ k lease h. ground arith)

pub new_lease : String → String → ℕ → ℕ → Repository → MutationLease
new_lease key id now expires s = record {
  operation_key = key;
  owner_operation_id = id;
  fencing_token = next_token key s;
  acquired_at = now;
  lease_expires_at = expires;
}

grant-LeaseMove :
    (key id : String) (now expires : ℕ) (s : Repository)
    → LeaseMove s (grant_lease key id now expires s).1
unfolding grant_lease new_lease
grant-LeaseMove key id now expires s = granted (new_lease key id now expires s) refl refl refl

pub acquire-LeaseMove :
    (key id : String) (now expires : ℕ) (s : Repository)
    → LeaseMove s (acquire_lease key id now expires s).1
unfolding acquire_lease
acquire-LeaseMove key id now expires s = elim (Bool-cases (leb expires now)) [
  | inl late ↦ same-LeaseMove (ground (arith, late)) (ground (arith, late))
  | inr soon ↦ rw soon (decided (decide_lease key id now s))
]
  where
    decided : (d : LeaseDecision) → LeaseMove s (acquire_by d key id now expires s).1
    decided refuse = same-LeaseMove refl refl
    decided (keep lease) = same-LeaseMove refl refl
    decided grant = grant-LeaseMove key id now expires s

pub recovery-LeaseMove :
    (key id : String) (now expires : ℕ) (s : Repository)
    → LeaseMove s (acquire_recovery_lease key id now expires s).1
unfolding acquire_recovery_lease
recovery-LeaseMove key id now expires s = elim (Bool-cases (leb expires now)) [
  | inl late ↦ same-LeaseMove (ground (arith, late)) (ground (arith, late))
  | inr soon ↦ rw soon (elim (Bool-cases (may_recover key id now s)) [
    | inl free ↦ rw free (grant-LeaseMove key id now expires s)
    | inr held ↦ rw held (same-LeaseMove refl refl)
  ])
]

renew-LeaseMove :
    (lease : MutationLease) (now expires : ℕ) (s : Repository)
    → LeaseMove s (renew_lease lease now expires s).1
unfolding renew_lease
renew-LeaseMove lease now expires s = elim (Bool-cases (leb expires now)) [
  | inl late ↦ same-LeaseMove (ground (arith, late)) (ground (arith, late))
  | inr soon ↦ rw soon (elim (Option-cases (lookup lease.operation_key s.locks)) [
    | inl e ↦ rw e (same-LeaseMove refl refl)
    | inr (current, e) ↦
        elim (Bool-cases (not (same_lease current lease) || leb current.lease_expires_at now)) [
          | inl lost ↦ same-LeaseMove (ground (arith, e, lost)) (ground (arith, e, lost))
          | inr held ↦
              renewed lease.operation_key current expires e (ground (arith, e, held))
                (ground (arith, e, held))
        ]
  ])
]

-- Every call is such a move.
perform-LeaseMove :
    (h : Hashing) (c : Call) (s : Repository) → HasKeyedLocks s → LeaseMove s (perform h c s)
unfolding perform
perform-LeaseMove h (claims i) s keyed = same-LeaseMove (claim-fences i s) (claim-locks i s)
perform-LeaseMove h (claims_parent i) s keyed =
    same-LeaseMove (claim_parent-fences h i s) (claim_parent-locks h i s)
perform-LeaseMove h (replays_parent i) s keyed =
    same-LeaseMove (replay-fences i s) (replay-locks i s)
perform-LeaseMove h (authorizes i) s keyed =
    same-LeaseMove (authorize-fences i s) (authorize-locks i s)
perform-LeaseMove h (authorizes_step i) s keyed =
    same-LeaseMove (authorize_step-fences i s) (authorize_step-locks i s)
perform-LeaseMove h (transitions i) s keyed = calm (transition-fences i s) (transition-locks i s)
perform-LeaseMove h (transitions_step i) s keyed =
    same-LeaseMove (transition_step-fences i s) (transition_step-locks i s)
perform-LeaseMove h (finalizes i) s keyed = calm (finalize-fences i s) (finalize-locks i s keyed)
perform-LeaseMove h (recovers id step lease now) s keyed =
    calm (recover-fences id step lease now s) (recover-locks id step lease now s keyed)
perform-LeaseMove h (rejects id step now reason) s keyed =
    same-LeaseMove (reject-fences id step now reason s) (reject-locks id step now reason s)
perform-LeaseMove h (acquires key id now expires) s keyed = acquire-LeaseMove key id now expires s
perform-LeaseMove h (acquires_recovery key id now expires) s keyed =
    recovery-LeaseMove key id now expires s
perform-LeaseMove h (renews lease now expires) s keyed = renew-LeaseMove lease now expires s
perform-LeaseMove h (releases lease) s keyed = calm (release-fences lease s) (release-locks lease s)

pub move-HasKeyedLocks : {s t : Repository} → LeaseMove s t → HasKeyedLocks s → HasKeyedLocks t
move-HasKeyedLocks (calm f l) keyed k lease e = keyed k lease (l k lease e)
move-HasKeyedLocks {s} (granted new tok f l) keyed k lease e = ground (
  arith,
  l,
  keyed k lease,
  lookup-insert new.operation_key k new s.locks,
  eq_iff new.operation_key k,
)
move-HasKeyedLocks {s} (renewed j old x found f l) keyed k lease e = ground (
  arith,
  l,
  keyed k lease,
  keyed j old found,
  lookup-insert j k (record old { lease_expires_at = x }) s.locks,
  eq_iff j k,
)

-- Every token of the key up to `n` has been superseded: the counter of the key has passed it, and
-- the lease in force, if there is one, has a later token.
pub record Superseded (k : String) (n : ℕ) (s : Repository) : Type 0 where
  pub counter : n < fence_of k s
  pub lock : (lease : MutationLease) → lookup k s.locks ≡ some lease → n < lease.fencing_token

move-Superseded :
    {k : String} {n : ℕ} {s t : Repository} → LeaseMove s t → Superseded k n s → Superseded k n t
move-Superseded (calm f l) p = record {
  counter = ground arith;
  lock = λ lease e. p.lock lease (l _ lease e);
}
move-Superseded {k} {n} {s} (granted new tok f l) p = record {
  counter = ground (
    arith,
    p.counter,
    lookup-insert new.operation_key k new.fencing_token s.fences,
    eq_iff new.operation_key k,
  );
  lock = λ lease e. ground (
    arith,
    p.counter,
    p.lock lease,
    lookup-insert new.operation_key k new s.locks,
    eq_iff new.operation_key k,
  );
}
move-Superseded {k} {n} {s} (renewed j old x found f l) p = record {
  counter = ground (arith, p.counter);
  lock = λ lease e. ground (
    arith,
    p.lock lease,
    p.lock old,
    lookup-insert j k (record old { lease_expires_at = x }) s.locks,
    eq_iff j k,
  );
}

pub run-HasKeyedLocks :
    (h : Hashing) (cs : List Call) (s : Repository) → HasKeyedLocks s → HasKeyedLocks (run h cs s)
unfolding run
run-HasKeyedLocks h [] s keyed = keyed
run-HasKeyedLocks h (c ∷ cs) s keyed =
    run-HasKeyedLocks h cs (perform h c s)
      (move-HasKeyedLocks (perform-LeaseMove h c s keyed) keyed)

pub run-Superseded :
    (h : Hashing) (cs : List Call) (k : String) (n : ℕ) (s : Repository)
    → HasKeyedLocks s
    → Superseded k n s
    → Superseded k n (run h cs s)
unfolding run
run-Superseded h [] k n s keyed p = p
run-Superseded h (c ∷ cs) k n s keyed p =
    let move = perform-LeaseMove h c s keyed in
    run-Superseded h cs k n (perform h c s) (move-HasKeyedLocks move keyed) (move-Superseded move p)

pub acquire-HasKeyedLocks :
    (key id : String) (now expires : ℕ) (s : Repository)
    → HasKeyedLocks s
    → HasKeyedLocks (acquire_lease key id now expires s).1
acquire-HasKeyedLocks key id now expires s keyed =
    move-HasKeyedLocks (acquire-LeaseMove key id now expires s) keyed

pub granted-lease :
    (key id : String) (now expires : ℕ) (s : Repository)
    → now < expires
    → decide_lease key id now s ≡ grant
    → acquire_lease key id now expires s ≡ (
      ok (some (new_lease key id now expires s)),
      record s {
        fences = insert key (next_token key s) s.fences;
        locks = insert key (new_lease key id now expires s) s.locks;
      },
    )
unfolding acquire_lease grant_lease new_lease
granted-lease key id now expires s h e = ground (arith, e)

pub acquire-Superseded :
    (key id : String) (now expires : ℕ) (s : Repository)
    → now < expires
    → decide_lease key id now s ≡ grant
    → Superseded key (fence_of key s) (acquire_lease key id now expires s).1
unfolding new_lease
acquire-Superseded key id now expires s h e = rw (granted-lease key id now expires s h e) (record {
  counter = ground (arith, lookup-insert_self key (next_token key s) s.fences);
  lock = λ lease f. ground (arith, lookup-insert_self key (new_lease key id now expires s) s.locks);
})
