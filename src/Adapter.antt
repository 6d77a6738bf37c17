-- ===== src/Adapter.antt =====
-- apps/runtime-adapter-daemon/src/mutex.ts: the mutex of an application in the adapter daemon. A
-- locked section is an action on the table of the locks: it awaits, and other requests use the
-- table meanwhile.
pub mod Exclusion
use zima_control.Common.{
  String, Bool, ℕ, Option, none, some, Map, lookup, insert, delete, has, length, string_eq,
  get_or_else,
}
use zima_control.Common.Action.{Action, ◌>>=◌, ◌>>◌, pure, throw, gets, modify, finally}

pub record ActiveMutationLock : Type 0 where
  pub application_id : String
  pub request_id : String
  pub acquired_at : String

abbrev pub Locks : Type 0
Locks = Map String ActiveMutationLock

-- `operation_in_progress` names the request that holds the lock, and since when; `section_failed` is
-- what a locked section throws.
pub data AdapterError : Type 0 where
  operation_in_progress : ActiveMutationLock → AdapterError
  section_failed : AdapterError

abbrev acquire_free :
    ActiveMutationLock → Option ActiveMutationLock → Action Locks AdapterError (Unit {0})
acquire_free lock (some active) = throw (operation_in_progress active)
acquire_free lock none = modify (insert lock.application_id lock)

unfoldable pub acquire_mutex :
    String → Option String → String → Action Locks AdapterError (Unit {0})
acquire_mutex application_id request_id now = do
  active ← gets (lookup application_id)
  acquire_free
      (record {
        application_id = application_id;
        request_id = get_or_else request_id "unspecified";
        acquired_at = now;
      })
      active

unfoldable pub release_mutex : String → Locks → Locks
release_mutex application_id locks = delete application_id locks

unfoldable pub with_lock :
    {A : Type 0}
    → String
    → Option String
    → String
    → Action Locks AdapterError A
    → Action Locks AdapterError A
with_lock application_id request_id now section = do
  acquire_mutex application_id request_id now
  finally section (release_mutex application_id)

unfoldable pub is_locked : String → Locks → Bool
is_locked application_id locks = has application_id locks

unfoldable pub active_lock_count : Locks → ℕ
active_lock_count locks = length locks
