-- ===== src/Mutation/Repository/Leases.antt =====
-- packages/core/src/in-memory-durable-mutation-repository.ts: the leases on an operation key and
-- their fencing tokens, and the list of operations to recover.
use zima_control.Common.{
  ℕ, ◌+◌, String, Bool, true, false, not, ◌&&◌, ◌||◌, List, [], ◌∷◌, Option, none, some, ◌==◌,
  lookup, insert, leb, ltb, select, values, includes, get_or_else, if◌then◌else◌, string_eq, nat_eq,
  option_eq,
}
use zima_control.Mutation.Status.{
  ActionStatus, pending, authorized, validated, executing, verifying, indeterminate, type_error,
  status_eq, is_terminal_action_status,
}
use zima_control.Mutation.Types.{Operation, MutationLease}
use zima_control.Mutation.Repository.{
  Repository, M, ◌>>=◌, ◌>>◌, pure, throw_if, gets, modify, save_lock, delete_lock,
}

-- What is to be done with a request for a lease.
pub data LeaseDecision : Type 0 where
  refuse grant : LeaseDecision
  keep : MutationLease → LeaseDecision

-- `this.operations.get(id)?.status`
abbrev pub status_of : String → Repository → Option ActionStatus
status_of id s = elim (lookup id s.operations) [ none ↦ none | some op ↦ some op.status ]

-- `this.operations.get(id)?.operationKey`
abbrev pub key_of : String → Repository → Option String
key_of id s = elim (lookup id s.operations) [ none ↦ none | some op ↦ some op.operation_key ]

-- The lease in force is judged by the status of its owner.
decide_owned : String → ℕ → MutationLease → Option ActionStatus → LeaseDecision
decide_owned operation_id now current none = grant
decide_owned operation_id now current (some status) =
    if status == indeterminate
    then refuse
    else if is_terminal_action_status status
    then grant
    else if current.owner_operation_id == operation_id && ltb now current.lease_expires_at
    then keep current
    else refuse

unfoldable pub decide_lease : String → String → ℕ → Repository → LeaseDecision
unfolding decide_owned
decide_lease operation_key operation_id now s =
    if not (key_of operation_id s == some operation_key)
    then refuse
    else elim (lookup operation_key s.locks) [
      | none ↦ grant
      | some current ↦
          decide_owned operation_id now current (status_of current.owner_operation_id s)
    ]

abbrev pub next_token : String → Repository → ℕ
next_token operation_key s = get_or_else (lookup operation_key s.fences) 0 + 1

unfoldable pub grant_lease : String → String → ℕ → ℕ → M (Option MutationLease)
grant_lease operation_key operation_id now lease_expires_at = do
  token ← gets (next_token operation_key)
  modify (λ s. record s { fences = insert operation_key token s.fences })
  let lease : MutationLease = record {
    operation_key = operation_key;
    owner_operation_id = operation_id;
    fencing_token = token;
    acquired_at = now;
    lease_expires_at = lease_expires_at;
  }
  save_lock lease
  pure (some lease)

abbrev pub acquire_by : LeaseDecision → String → String → ℕ → ℕ → M (Option MutationLease)
acquire_by refuse operation_key operation_id now lease_expires_at = pure none
acquire_by (keep lease) operation_key operation_id now lease_expires_at = pure (some lease)
acquire_by grant operation_key operation_id now lease_expires_at =
    grant_lease operation_key operation_id now lease_expires_at

unfoldable pub acquire_lease : String → String → ℕ → ℕ → M (Option MutationLease)
acquire_lease operation_key operation_id now lease_expires_at = do
  throw_if (leb lease_expires_at now) type_error
  decision ← gets (decide_lease operation_key operation_id now)
  acquire_by decision operation_key operation_id now lease_expires_at

recoverable_operation : String → Option Operation → Bool
recoverable_operation operation_key none = false
recoverable_operation operation_key (some op) =
    op.operation_key == operation_key && not (is_terminal_action_status op.status)

lease_blocks_recovery : ℕ → Repository → Option MutationLease → Bool
lease_blocks_recovery now s none = false
lease_blocks_recovery now s (some current) =
    status_of current.owner_operation_id s == some indeterminate || ltb now current.lease_expires_at

unfoldable pub may_recover : String → String → ℕ → Repository → Bool
unfolding recoverable_operation lease_blocks_recovery
may_recover operation_key operation_id now s =
    recoverable_operation operation_key (lookup operation_id s.operations)
    && not (lease_blocks_recovery now s (lookup operation_key s.locks))

unfoldable pub acquire_recovery_lease : String → String → ℕ → ℕ → M (Option MutationLease)
acquire_recovery_lease operation_key operation_id now lease_expires_at = do
  throw_if (leb lease_expires_at now) type_error
  allowed ← gets (may_recover operation_key operation_id now)
  if allowed then grant_lease operation_key operation_id now lease_expires_at else pure none

-- The lease in force is the one that the caller holds.
abbrev pub same_lease : MutationLease → MutationLease → Bool
same_lease current lease =
    current.owner_operation_id == lease.owner_operation_id
    && current.fencing_token == lease.fencing_token

unfoldable pub renew_lease : MutationLease → ℕ → ℕ → M (Option MutationLease)
renew_lease lease now lease_expires_at = do
  throw_if (leb lease_expires_at now) type_error
  found ← gets (λ s. lookup lease.operation_key s.locks)
  elim found [
    | none ↦ pure none
    | some current ↦
        if not (same_lease current lease) || leb current.lease_expires_at now then pure none else do
          let renewed = record current { lease_expires_at = lease_expires_at }
          modify (λ s. record s { locks = insert lease.operation_key renewed s.locks })
          pure (some renewed)
  ]

-- A lease is given back only under an operation that is terminal and whose outcome is known.
releasable : Option ActionStatus → Bool
releasable none = false
releasable (some status) = is_terminal_action_status status && not (status == indeterminate)

unfoldable pub release_lease : MutationLease → M Bool
unfolding releasable
release_lease lease = do
  found ← gets (λ s. lookup lease.operation_key s.locks)
  elim found [
    | none ↦ pure false
    | some current ↦ do
      status ← gets (status_of current.owner_operation_id)
      if not (same_lease current lease) || not (releasable status)
          then pure false
          else do delete_lock lease.operation_key; pure true
  ]

abbrev recoverable_statuses : List ActionStatus
recoverable_statuses = pending ∷ authorized ∷ validated ∷ executing ∷ verifying ∷ []

lease_is_over : ℕ → Option MutationLease → Bool
lease_is_over now none = true
lease_is_over now (some lease) = leb lease.lease_expires_at now

-- `a.createdAt - b.createdAt || a.id.localeCompare(b.id)`; the order of texts is a parameter.
place_operation : (String → String → Bool) → Operation → List Operation → List Operation
place_operation before x [] = x ∷ []
place_operation before x (y ∷ ys) =
    if ltb x.created_at y.created_at || (x.created_at == y.created_at && before x.id y.id)
    then x ∷ y ∷ ys
    else y ∷ place_operation before x ys

sort_operations : (String → String → Bool) → List Operation → List Operation
sort_operations before [] = []
sort_operations before (x ∷ xs) = place_operation before x (sort_operations before xs)

unfoldable pub is_recoverable : ℕ → Repository → Operation → Bool
unfolding lease_is_over
is_recoverable now s row =
    includes recoverable_statuses row.status && lease_is_over now (lookup row.operation_key s.locks)

unfoldable pub list_recoverable : (String → String → Bool) → ℕ → Repository → List Operation
unfolding place_operation sort_operations values
list_recoverable before now s =
    sort_operations before (select (is_recoverable now s) (values s.operations))
