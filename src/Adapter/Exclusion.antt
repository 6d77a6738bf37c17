-- ===== src/Adapter/Exclusion.antt =====
-- One mutation of an application at a time.
use zima_control.Common.{
  get_or_else, String, ◌≡◌, ◌≢◌, refl, true, false, Option, none, some, lookup, insert,
  lookup-insert, lookup-delete, lookup-insert_self, arith, string_eq, eq_self, eq_iff,
}
use zima_control.Common.Action.{Action, thrown}
use zima_control.Adapter.{
  ActiveMutationLock, Locks, AdapterError, operation_in_progress, acquire_mutex, release_mutex,
  with_lock, is_locked,
}

-- On an application that is locked, a section does not run: the call throws OPERATION_IN_PROGRESS with
-- the lock that is held, and the locks stay as they are. On one that is free, the section runs
-- with the application locked and no other lock changed, its result or error is the call's, and
-- afterwards the application is free.
pub with_lock_lem :
    {A : Type 0} (id : String) (request : Option String) (now : String)
    (section : Action Locks AdapterError A) (s : Locks)
    → ((active : ActiveMutationLock)
        → lookup id s ≡ some active
        → with_lock id request now section s ≡ (thrown (operation_in_progress active), s))
      × (lookup id s ≡ none
          → (t : Locks) × ((acquire_mutex id request now s).1 ≡ t)
            × (is_locked id t ≡ true)
            × ((other : String) → other ≢ id → lookup other t ≡ lookup other s)
            × ((with_lock id request now section s).0 ≡ (section t).0)
            × (is_locked id (with_lock id request now section s).1 ≡ false))
unfolding with_lock acquire_mutex is_locked release_mutex
with_lock_lem id request now section s = (
  (λ active e. rw e refl),
  (λ e.
      let lock : ActiveMutationLock = record {
        application_id = id;
        request_id = get_or_else request "unspecified";
        acquired_at = now;
      } in
      let t = insert id lock s in
      (
        t,
        rw e refl,
        ground (arith, lookup-insert_self id lock s),
        (λ other n. ground (arith, n, lookup-insert id other lock s, eq_iff id other)),
        rw e refl,
        rw e (ground (arith, lookup-delete id id (section t).1, eq_self id)),
      )),
)
