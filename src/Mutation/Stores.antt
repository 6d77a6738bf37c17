-- ===== src/Mutation/Stores.antt =====
-- packages/core/src/mutation-safety.ts: the bounded stores of the mutation service that stays in
-- memory: the locks with an expiry, the idempotency records, and the audit events; and the default
-- policy. A date is a number; a stored record is a copy.
pub mod Bounds
use zima_control.Common.{
  ℕ, ◌+◌, String, Bool, true, false, not, ◌&&◌, ◌||◌, List, [], ◌∷◌, ◌++◌, Option, none, some, ◌==◌,
  leb, length, select, drop, Map, lookup, insert, delete, if◌then◌else◌, string_eq, nat_eq,
  option_eq, show, utf16_length,
}
use zima_control.Common.Text.{◌⧺◌}
use zima_control.Common.Action.{
  Action, Outcome, returned, thrown, ◌>>=◌, ◌>>◌, pure, lift, throw, throw_if, gets, modify,
}
use zima_control.Mutation.Status.{
  MutationErrorCode, lock_capacity_exceeded, idempotency_conflict, unsupported_runtime,
  unsupported_management, Failure, mutation_error, type_error, ExecutionDomain, docker, unsupported,
}

pub record LockRecord : Type 0 where
  pub operation_id : String
  pub expires_at : ℕ

pub record LockRepository : Type 0 where
  pub locks : Map String LockRecord
  pub capacity : ℕ

-- A `for` over the map that deletes the entries that have expired.
unfoldable pub purge_locks : ℕ → Map String LockRecord → Map String LockRecord
purge_locks now [] = []
purge_locks now ((key, entry) ∷ rest) =
    let kept = purge_locks now rest in
    if leb entry.expires_at now then kept else (key, entry) ∷ kept

abbrev purge_expired_locks : ℕ → LockRepository → LockRepository
purge_expired_locks now s = record s { locks = purge_locks now s.locks }

-- The lock that is in force, or a new one. `positiveDuration` throws on a duration of 0.
unfoldable pub acquire_lock :
    String → String → ℕ → ℕ → Option LockRecord → Action LockRepository Failure Bool
acquire_lock operation_key operation_id now ttl_ms (some current) =
    pure (current.operation_id == operation_id)
acquire_lock operation_key operation_id now ttl_ms none = do
  full ← gets (λ s. leb s.capacity (length s.locks))
  throw_if full (mutation_error lock_capacity_exceeded)
  throw_if (leb ttl_ms 0) type_error
  modify (λ s. record s {
    locks =
        insert operation_key (record { operation_id = operation_id; expires_at = now + ttl_ms })
          s.locks;
  })
  pure true

unfoldable pub acquire : String → String → ℕ → ℕ → Action LockRepository Failure Bool
acquire operation_key operation_id now ttl_ms = do
  modify (purge_expired_locks now)
  current ← gets (λ s. lookup operation_key s.locks)
  acquire_lock operation_key operation_id now ttl_ms current

abbrev pub owner_of : Option LockRecord → Option String
owner_of none = none
owner_of (some entry) = some entry.operation_id

unfoldable pub release_lock : String → String → LockRepository → LockRepository
release_lock operation_key operation_id s =
    if owner_of (lookup operation_key s.locks) == some operation_id
    then record s { locks = delete operation_key s.locks }
    else s

unfoldable pub current_owner : String → ℕ → LockRepository → Option String × LockRepository
current_owner operation_key now s =
    let t = purge_expired_locks now s in (owner_of (lookup operation_key t.locks), t)

-- `R` is the type of the results that the records keep.
pub record IdempotencyRecord (R : Type 0) : Type 0 where
  pub actor_id : String
  pub key : String
  pub fingerprint : String
  pub result : R
  pub expires_at : ℕ

pub record IdempotencyRepository (R : Type 0) : Type 0 where
  pub records : Map String (IdempotencyRecord R)
  pub capacity : ℕ

pub data StoredClaim (R : Type 0) : Type 0 where
  is_created is_replay : IdempotencyRecord R → StoredClaim R

unfoldable pub idempotency_storage_key : String → String → String
unfolding show utf16_length
idempotency_storage_key actor_id key = show (utf16_length actor_id) ⧺ ":" ⧺ actor_id ⧺ key

module _ {R : Type 0} where
  unfoldable pub purge_records :
      ℕ → Map String (IdempotencyRecord R) → Map String (IdempotencyRecord R)
  purge_records now [] = []
  purge_records now ((key, entry) ∷ rest) =
      let kept = purge_records now rest in
      if leb entry.expires_at now then kept else (key, entry) ∷ kept

  unfoldable pub claim_stored :
      IdempotencyRecord R
      → Option (IdempotencyRecord R)
      → Action (IdempotencyRepository R) Failure (StoredClaim R)
  claim_stored entry (some existing) =
      if not (existing.fingerprint == entry.fingerprint)
      then throw (mutation_error idempotency_conflict)
      else pure (is_replay existing)
  claim_stored entry none = do
    full ← gets (λ s. leb s.capacity (length s.records))
    throw_if full (mutation_error idempotency_conflict)
    modify (λ s. record s {
      records = insert (idempotency_storage_key entry.actor_id entry.key) entry s.records;
    })
    pure (is_created entry)

  unfoldable pub claim_record :
      IdempotencyRecord R → ℕ → Action (IdempotencyRepository R) Failure (StoredClaim R)
  claim_record entry now = do
    modify (λ s. record s { records = purge_records now s.records })
    existing ← gets (λ s. lookup (idempotency_storage_key entry.actor_id entry.key) s.records)
    claim_stored entry existing

  -- The result of the record that is there.
  abbrev with_result :
      R → Option (IdempotencyRecord R) → String → IdempotencyRepository R → IdempotencyRepository R
  with_result result none k s = s
  with_result result (some entry) k s = record s {
    records = insert k (record entry { result = result }) s.records;
  }

  unfoldable pub update_record :
      String → String → R → IdempotencyRepository R → IdempotencyRepository R
  update_record actor_id key result s =
      with_result result (lookup (idempotency_storage_key actor_id key) s.records)
        (idempotency_storage_key actor_id key) s

-- The oldest event makes room for a new one. `E` is the type of the events.
unfoldable pub record_event : {E : Type 0} → ℕ → E → List E → List E
record_event capacity event stored =
    let kept = if length stored == capacity then drop 1 stored else stored in kept ++ event ∷ []

-- What the default policy reads of an application.
pub record ManagedApplication : Type 0 where
  pub runtime : Option String
  pub is_uncontrolled : Option Bool
  pub managed_by : Option String
  pub zimaos_app_id : Option String

pub data PolicyDecision : Type 0 where
  allowed : ExecutionDomain → PolicyDecision
  refused : ExecutionDomain → MutationErrorCode → PolicyDecision

abbrev is_docker : (String → String) → Option String → Bool
is_docker to_upper_case none = false
is_docker to_upper_case (some runtime) = to_upper_case runtime == "DOCKER"

abbrev is_false : Option Bool → Bool
is_false (some false) = true
is_false _ = false

-- Neither `null` nor empty.
abbrev is_there : Option String → Bool
is_there none = false
is_there (some value) = not (value == "")

-- `toUpperCase` is a parameter.
unfoldable pub evaluate : (String → String) → ManagedApplication → PolicyDecision
evaluate to_upper_case application =
    if not (is_docker to_upper_case application.runtime)
    then refused unsupported unsupported_runtime
    else if not (is_false application.is_uncontrolled)
        || not (application.managed_by == some "ZIMAOS")
        || not (is_there application.zimaos_app_id)
    then refused unsupported unsupported_management
    else allowed docker
