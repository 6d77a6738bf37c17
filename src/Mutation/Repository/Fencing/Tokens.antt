-- ===== src/Mutation/Repository/Fencing/Tokens.antt =====
-- The tokens that the two calls that grant a lease give out.
use zima_control.Common.{
  ℕ, ◌+◌, ◌<◌, String, ◌≡◌, true, some, List, insert, lookup-insert_self, arith, Option, string_eq,
}
use zima_control.Mutation.Status.{ok}
use zima_control.Mutation.Types.{MutationLease}
use zima_control.Mutation.Fingerprint.{Hashing}
use zima_control.Mutation.Repository.{Repository, M}
use zima_control.Mutation.Repository.Calls.{Call, run}
use zima_control.Mutation.Repository.Leases.{
  grant, acquire_lease, acquire_recovery_lease, grant_lease, decide_lease, may_recover, next_token,
}
use zima_control.Mutation.Repository.Locks.{HasKeyedLocks}
use zima_control.Mutation.Repository.Fencing.{
  fence_of, Superseded, run-Superseded, LeaseMove, acquire-LeaseMove, recovery-LeaseMove,
  move-HasKeyedLocks, new_lease, granted-lease,
}

-- The two calls that grant leases.
pub data LeaseRequest : Type 0 where
  by_acquire by_recovery : LeaseRequest

abbrev pub ask : LeaseRequest → String → String → ℕ → ℕ → M (Option MutationLease)
ask by_acquire key id now expires = acquire_lease key id now expires
ask by_recovery key id now expires = acquire_recovery_lease key id now expires

-- The call gives out a new lease, where it does not throw because that would be over at once.
abbrev pub IsGranted : LeaseRequest → String → String → ℕ → Repository → Type 0
IsGranted by_acquire key id now s = decide_lease key id now s ≡ grant
IsGranted by_recovery key id now s = may_recover key id now s ≡ true

ask-LeaseMove :
    (r : LeaseRequest) (key id : String) (now expires : ℕ) (s : Repository)
    → LeaseMove s (ask r key id now expires s).1
ask-LeaseMove by_acquire key id now expires s = acquire-LeaseMove key id now expires s
ask-LeaseMove by_recovery key id now expires s = recovery-LeaseMove key id now expires s

ask_granted :
    (r : LeaseRequest) (key id : String) (now expires : ℕ) (s : Repository)
    → now < expires
    → IsGranted r key id now s
    → ask r key id now expires s ≡ (
      ok (some (new_lease key id now expires s)),
      record s {
        fences = insert key (next_token key s) s.fences;
        locks = insert key (new_lease key id now expires s) s.locks;
      },
    )
unfolding acquire_recovery_lease grant_lease new_lease
ask_granted by_acquire key id now expires s h e = granted-lease key id now expires s h e
ask_granted by_recovery key id now expires s h e = ground (arith, e)

ask-Superseded :
    (r : LeaseRequest) (key id : String) (now expires : ℕ) (s : Repository)
    → now < expires
    → IsGranted r key id now s
    → Superseded key (fence_of key s) (ask r key id now expires s).1
unfolding new_lease
ask-Superseded r key id now expires s h e = rw (ask_granted r key id now expires s h e) (record {
  counter = ground (arith, lookup-insert_self key (next_token key s) s.fences);
  lock = λ lease f. ground (arith, lookup-insert_self key (new_lease key id now expires s) s.locks);
})

ask_token :
    (r : LeaseRequest) (key id : String) (now expires : ℕ) (s : Repository)
    → now < expires
    → IsGranted r key id now s
    → (lease : MutationLease) → (ask r key id now expires s).0 ≡ ok (some lease)
    → lease.fencing_token ≡ fence_of key s + 1
unfolding new_lease
ask_token r key id now expires s soon free lease e =
    ground (arith, ask_granted r key id now expires s soon free)

-- In a repository with well-keyed leases, when `acquireLease` or `acquireRecoveryLease` has granted a
-- key, and after any calls of the repository `acquireLease` or `acquireRecoveryLease` grants that key
-- again, then the second lease has a greater token than the first.
pub grant-token_lt :
    (h : Hashing) (s : Repository)
    → HasKeyedLocks s
    → (first_by second_by : LeaseRequest) (key id : String) (now expires : ℕ) → now < expires
    → IsGranted first_by key id now s
    → (cs : List Call) (id2 : String) (now2 expires2 : ℕ) → now2 < expires2
    → IsGranted second_by key id2 now2 (run h cs (ask first_by key id now expires s).1)
    → (first second : MutationLease) → (ask first_by key id now expires s).0 ≡ ok (some first)
    → (ask second_by key id2 now2 expires2 (run h cs (ask first_by key id now expires s).1)).0
      ≡ ok (some second)
    → first.fencing_token < second.fencing_token
grant-token_lt h s keyed first_by second_by key id now expires soon free cs id2 now2 expires2 soon2
      free2 first second e f =
    let t = (ask first_by key id now expires s).1 in
    let keyed2 = move-HasKeyedLocks (ask-LeaseMove first_by key id now expires s) keyed in
    let passed =
      run-Superseded h cs key (fence_of key s) t keyed2
        (ask-Superseded first_by key id now expires s soon free) in
    omega (
      arith,
      passed.counter,
      ask_token first_by key id now expires s soon free first e,
      ask_token second_by key id2 now2 expires2 (run h cs t) soon2 free2 second f,
    )
