-- ===== src/Mutation/Repository.antt =====
-- packages/core/src/in-memory-durable-mutation-repository.ts: the state of the repository, and the
-- private helpers of the class. A method is an action: it gives back its result or what it throws,
-- and the state that it leaves. Methods run one after another, each to its end.
--
-- An object that a `Map` holds is changed in place by the code; here it is written back under its
-- own id. `randomUUID` is a sequence of texts, of which `draws` have been used.
pub mod Claims
pub mod Dispatch
pub mod Leases
pub mod Steps
pub mod Recovery
pub mod Transitions
pub mod Calls
pub mod Rollback
pub mod Fences
pub mod Locks
pub mod Fencing
pub mod Idempotency
use zima_control.Common.{
  ℕ, suc, ◌+◌, String, Bool, false, not, ◌&&◌, ◌||◌, List, [], ◌∷◌, ◌++◌, Option, none, some, ◌==◌,
  leb, ltb, length, select, Map, lookup, insert, delete, values, get_or_else, show, utf16_length,
  if◌then◌else◌, string_eq, option_eq, nat_eq,
}
use zima_control.Mutation.Status.{
  Failure, MutationErrorCode, persistence_failed, audit_persistence_failed,
  stale_operation_ownership, Result, ok, err, mutation_error,
}
use zima_control.Mutation.Types.{
  Operation, OperationStep, AuditEvent, MutationAuditEventType, MutationLease, ParentChildOperation,
}
use zima_control.Common.Text.{◌⧺◌}

-- An entry of `claims`.
pub record IdempotencyClaim : Type 0 where
  pub fingerprint : String
  pub operation_id : String
  pub expires_at : ℕ

pub record Repository : Type 0 where
  pub operations : Map String Operation
  pub claims : Map String IdempotencyClaim
  pub locks : Map String MutationLease
  pub fences : Map String ℕ
  pub audits : Map String (List AuditEvent)
  pub steps : Map String OperationStep
  pub fail_next_audit : Bool
  pub random_uuid : ℕ → String
  pub draws : ℕ

abbrev pub M : Type 0 → Type 0
M A = Repository → Result A × Repository

abbrev continue : {A B : Type 0} → Result A → (A → M B) → M B
continue (ok a) f s = f a s
continue (err e) f s = (err e, s)

infixl 5 ◌>>=◌ ◌>>◌
abbrev pub ◌>>=◌ : {A B : Type 0} → M A → (A → M B) → M B
◌>>=◌ m f s = let (r, s') = m s in continue r f s'

abbrev pub ◌>>◌ : {B : Type 0} → M (Unit {0}) → M B → M B
m >> k = m >>= λ _. k

abbrev pub pure : {A : Type 0} → A → M A
pure a s = (ok a, s)

abbrev pub lift : {A : Type 0} → Result A → M A
lift r s = (r, s)

abbrev pub throw : {A : Type 0} → Failure → M A
throw e s = (err e, s)

-- `if (test) throw e`
abbrev pub throw_if : Bool → Failure → M (Unit {0})
throw_if test e s = (if test then err e else ok tt, s)

abbrev pub gets : {A : Type 0} → (Repository → A) → M A
gets f s = (ok (f s), s)

abbrev pub modify : (Repository → Repository) → M (Unit {0})
modify f s = (ok tt, f s)

abbrev recover : {A : Type 0} → Result A → (Failure → M A) → M A
recover (ok a) handler s = (ok a, s)
recover (err e) handler s = handler e s

-- `try { m } catch (e) { handler e }`
abbrev pub try : {A : Type 0} → M A → (Failure → M A) → M A
try m handler s = let (r, s') = m s in recover r handler s'

abbrev or_fail : {A : Type 0} → Option A → Failure → Result A
or_fail none e = err e
or_fail (some a) e = ok a

abbrev pub missing : Failure
missing = mutation_error persistence_failed

abbrev pub stale_ownership : Failure
stale_ownership = mutation_error stale_operation_ownership

abbrev pub save_operation : Operation → M (Unit {0})
save_operation op = modify (λ s. record s { operations = insert op.id op s.operations })

abbrev pub save_step : OperationStep → M (Unit {0})
save_step step = modify (λ s. record s { steps = insert step.id step s.steps })

abbrev pub save_lock : MutationLease → M (Unit {0})
save_lock lease = modify (λ s. record s { locks = insert lease.operation_key lease s.locks })

abbrev pub delete_lock : String → M (Unit {0})
delete_lock key = modify (λ s. record s { locks = delete key s.locks })

unfoldable pub require_operation : String → M Operation
require_operation id s = (or_fail (lookup id s.operations) missing, s)

abbrev owned_step : String → Option OperationStep → Result OperationStep
owned_step operation_id none = err missing
owned_step operation_id (some step) =
    if not (step.parent_operation_id == operation_id) then err missing else ok step

unfoldable pub require_step : String → String → M OperationStep
require_step id operation_id s = (owned_step operation_id (lookup id s.steps), s)

-- `.sort((a, b) => a.sequence - b.sequence)`, which is stable.
place : OperationStep → List OperationStep → List OperationStep
place x [] = x ∷ []
place x (y ∷ ys) = if leb x.sequence y.sequence then x ∷ y ∷ ys else y ∷ place x ys

sort_steps : List OperationStep → List OperationStep
sort_steps [] = []
sort_steps (x ∷ xs) = place x (sort_steps xs)

unfoldable pub steps_for : Repository → String → List OperationStep
unfolding place sort_steps values
steps_for s operation_id =
    sort_steps (select (λ step. step.parent_operation_id == operation_id) (values s.steps))

unfoldable pub require_parent_child : String → M ParentChildOperation
unfolding require_operation
require_parent_child operation_id = do
  operation ← require_operation operation_id
  steps ← gets (λ s. steps_for s operation_id)
  pure (record { operation = operation; steps = steps })

-- Whether the lease gives this operation the key, under this token, now.
abbrev pub lease_is_held : Option MutationLease → String → ℕ → ℕ → Bool
lease_is_held none operation_id token now = false
lease_is_held (some lease) operation_id token now =
    lease.owner_operation_id == operation_id
    && lease.fencing_token == token
    && ltb now lease.lease_expires_at

unfoldable pub require_ownership : Operation → String → ℕ → ℕ → Bool → M (Unit {0})
require_ownership operation operation_key token now adopt = do
  lease ← gets (λ s. lookup operation_key s.locks)
  throw_if
      (not (lease_is_held lease operation.id token now)
        || not (operation.operation_key == operation_key)
        || (not adopt && not (operation.fencing_token == some token)))
      stale_ownership

audit_event :
    Repository
    → Operation
    → MutationAuditEventType
    → ℕ
    → Option MutationErrorCode
    → Option OperationStep
    → List AuditEvent
    → AuditEvent
audit_event s op event_type timestamp reason_code none events = record {
  id = s.random_uuid s.draws;
  operation_id = op.id;
  child_step_id = none;
  sequence = length events + 1;
  actor_id = op.actor_id;
  actor_role = op.actor_role;
  action = op.action;
  application_id = op.application_id;
  service_id = op.service_id;
  container_id = op.container_id;
  status = op.status;
  event_type = event_type;
  reason_code = reason_code;
  timestamp = timestamp;
}
audit_event s op event_type timestamp reason_code (some child) events = record {
  id = s.random_uuid s.draws;
  operation_id = op.id;
  child_step_id = some child.id;
  sequence = length events + 1;
  actor_id = op.actor_id;
  actor_role = op.actor_role;
  action = op.action;
  application_id = op.application_id;
  service_id = some child.service_id;
  container_id = some child.container_id;
  status = child.status;
  event_type = event_type;
  reason_code = reason_code;
  timestamp = timestamp;
}

-- `this.audits.get(id) ?? []`
abbrev pub events_of : Repository → String → List AuditEvent
events_of s id = get_or_else (lookup id s.audits) []

unfoldable pub append :
    Operation
    → MutationAuditEventType
    → ℕ
    → Option MutationErrorCode
    → Option OperationStep
    → M (Unit {0})
unfolding audit_event
append op event_type timestamp reason_code child s =
    if s.fail_next_audit
    then (err (mutation_error audit_persistence_failed), record s { fail_next_audit = false })
    else (
      ok tt,
      record s {
        audits =
            insert op.id
              (events_of s op.id
                ++ audit_event s op event_type timestamp reason_code child (events_of s op.id) ∷ [])
              s.audits;
        draws = suc s.draws;
      },
    )

unfoldable pub claim_key : String → String → String
unfolding show utf16_length
claim_key actor_id key = show (utf16_length actor_id) ⧺ ":" ⧺ actor_id ⧺ key

-- A claim that has not expired.
abbrev pub live_claim : Option IdempotencyClaim → ℕ → Option IdempotencyClaim
live_claim none now = none
live_claim (some claim) now = if ltb now claim.expires_at then some claim else none

-- `if (existing) this.claims.delete(key)`
abbrev pub forget_claim : Option IdempotencyClaim → String → M (Unit {0})
forget_claim none key = pure tt
forget_claim (some claim) key = modify (λ s. record s { claims = delete key s.claims })

-- `if (existing) this.claims.set(key, existing)`
abbrev pub restore_claim : Option IdempotencyClaim → String → M (Unit {0})
restore_claim none key = pure tt
restore_claim (some claim) key = modify (λ s. record s { claims = insert key claim s.claims })
