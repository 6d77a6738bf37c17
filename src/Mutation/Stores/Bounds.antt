-- ===== src/Mutation/Stores/Bounds.antt =====
-- What the locks in memory guarantee.
use zima_control.Common.{
  ℕ, suc, ◌+◌, ◌≤◌, ◌≡◌, String, true, [], ◌∷◌, some, length, Map, lookup, insert,
  lookup-insert_self, arith, inl, inr, Option-cases, string_eq, eq_iff,
}
use zima_control.Common.Action.{returned}
use zima_control.Mutation.Stores.{
  LockRecord, LockRepository, purge_locks, acquire_lock, acquire, owner_of,
}

length-purge : (now : ℕ) (m : Map String LockRecord) → length (purge_locks now m) ≤ length m
unfolding purge_locks
length-purge now [] = omega arith
length-purge now ((k, entry) ∷ m) = ground (arith, length-purge now m)

length-insert :
    (k : String) (v : LockRecord) (m : Map String LockRecord)
    → length (insert k v m) ≤ suc (length m)
unfolding insert
length-insert k v [] = omega arith
length-insert k v ((j, w) ∷ m) = ground (arith, length-insert k v m)

-- With at most as many locks as the capacity, an acquisition leaves at most as many; and if it returns
-- true, the lock of the key is the caller's.
pub acquire_lem :
    (key id : String) (now ttl : ℕ) (s : LockRepository)
    → length s.locks ≤ s.capacity
    → let (result, t) = acquire key id now ttl s in
      (length t.locks ≤ s.capacity)
      × (result ≡ returned true → owner_of (lookup key t.locks) ≡ some id)
unfolding acquire acquire_lock
acquire_lem key id now ttl s h =
    let m = purge_locks now s.locks in
    let new : LockRecord = record { operation_id = id; expires_at = now + ttl } in
    elim (Option-cases (lookup key m)) [
      | inr (current, e) ↦ (
        ground (arith, e, length-purge now s.locks),
        λ r. ground (arith, e, r, eq_iff current.operation_id id),
      )
      | inl e ↦ (
        ground (arith, e, length-purge now s.locks, length-insert key new m),
        λ r. ground (arith, e, r, lookup-insert_self key new m),
      )
    ]
