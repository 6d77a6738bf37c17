-- ===== src/Mutation/Repository/Rollback.antt =====
-- A method that cannot write its audit event leaves the repository as it was.
pub mod Checks
pub mod Performs
pub mod Claiming
pub mod Atomic
use zima_control.Common.{
  List, ℕ, String, ◌≡◌, refl, false, Option, none, some, lookup, insert, arith, insert-undo,
  insert-lookup, lookup-insert, eq_iff, inl, inr, string_eq,
}
use zima_control.Mutation.Status.{
  audit_persistence_failed, ok, Result-cases, Failure, MutationErrorCode, err, mutation_error,
}
use zima_control.Mutation.Types.{
  Operation, OperationStep, MutationLease, AuditEvent, StepTransitionInput, MutationAuditEventType,
}
use zima_control.Mutation.Aggregate.{ParentMutationAggregate, aggregate_parent_from_steps}
use zima_control.Mutation.Aggregate.Laws.{aggregate-error}
use zima_control.Mutation.Repository.{steps_for, Repository, M, append, events_of}
use zima_control.Mutation.Repository.Steps.{check_step_transition, log_end, undo_end, commit_step}

-- Every object stands under its own id.
pub record IsKeyed (s : Repository) : Type 0 where
  pub operations : (k : String) (op : Operation) → lookup k s.operations ≡ some op → op.id ≡ k
  pub steps : (k : String) (step : OperationStep) → lookup k s.steps ≡ some step → step.id ≡ k
  pub locks :
      (k : String) (lease : MutationLease) → lookup k s.locks ≡ some lease → lease.operation_key ≡ k

-- The two states hold the same operations, steps, claims, leases, fences and audit trails.
pub record Untouched (s t : Repository) : Type 0 where
  pub operations : t.operations ≡ s.operations
  pub steps : t.steps ≡ s.steps
  pub claims : t.claims ≡ s.claims
  pub locks : t.locks ≡ s.locks
  pub fences : t.fences ≡ s.fences
  pub audits : (id : String) → events_of t id ≡ events_of s id

-- An action that fails to write its audit event has changed nothing but the test switch.
abbrev pub FailsClean : M (Unit {0}) → Type 0
FailsClean m =
    (s : Repository) (e : Failure)
    → (m s).0 ≡ err e
    → (m s).1 ≡ record s { fail_next_audit = false }

pub append-FailsClean :
    (op : Operation) (event : MutationAuditEventType) (now : ℕ) (reason : Option MutationErrorCode)
    (child : Option OperationStep)
    → FailsClean (append op event now reason child)
unfolding append
append-FailsClean op event now reason child s e h = ground arith

pub log_end-FailsClean :
    (op : Operation) (step : OperationStep) (event : MutationAuditEventType) (now : ℕ)
    (reason : Option MutationErrorCode) (released : Option String)
    → FailsClean (log_end op step event now reason released)
unfolding log_end append
log_end-FailsClean op step event now reason released s e h = ground arith

abbrev pub with_step : Repository → OperationStep → Repository
with_step s step = record s { steps = insert step.id step s.steps }

abbrev pub with_operation : Repository → Operation → Repository
with_operation s op = record s { operations = insert op.id op s.operations }

module _ (op : Operation) (step next_step : OperationStep)
    (next : ParentMutationAggregate → Operation) (log : ParentMutationAggregate → M (Unit {0}))
    (undo : M (Unit {0})) (s : Repository) (same_step : next_step.id ≡ step.id)
    (same_operation : (a : ParentMutationAggregate) → (next a).id ≡ op.id)
    (clean : (a : ParentMutationAggregate) → FailsClean (log a))
    (undone : (t : Repository)
      → t.audits ≡ s.audits
      → t.locks ≡ s.locks
      → ((undo t).0 ≡ ok tt) × Untouched t (undo t).1)
    (op_found : lookup op.id s.operations ≡ some op)
    (step_found : lookup step.id s.steps ≡ some step) where
  pub commit_step-undo :
      (commit_step op step next_step next log undo s).0
        ≡ err (mutation_error audit_persistence_failed)
      → Untouched s (commit_step op step next_step next log undo s).1
  unfolding commit_step
  commit_step-undo h =
      elim (Result-cases (aggregate_parent_from_steps (steps_for (with_step s next_step) op.id))) [
        | inr (f, e) ↦ ground (arith, e, aggregate-error _ f e)
        | inl (a, e) ↦
            elim (Result-cases (log a (with_operation (with_step s next_step) (next a))).0) [
              | inl (u, g) ↦ ground (arith, e, g)
              | inr (f, g) ↦
                  let s2 = with_operation (with_step s next_step) (next a) in
                  let t : Repository = record s2 {
                    fail_next_audit = false;
                    operations = insert op.id op s2.operations;
                    steps = insert step.id step s2.steps;
                  } in
                  let ops : t.operations ≡ s.operations =
                    insert-undo op.id (next a).id (next a) op s.operations (same_operation a)
                      op_found in
                  let stps : t.steps ≡ s.steps =
                    insert-undo step.id next_step.id next_step step s.steps same_step step_found in
                  let (fine, same) = undone t refl refl in
                  ground (arith, e, g, clean a s2 f g, fine, same, ops, stps)
            ]
      ]

-- What is put back was there: the audit trail reads the same, and the lease is in force.
pub undo_end-Untouched :
    (op : Operation) (old_audits : List AuditEvent) (old_lock : Option MutationLease)
    (t : Repository)
    → old_audits ≡ events_of t op.id
    → ((lease : MutationLease)
        → old_lock ≡ some lease
        → lookup lease.operation_key t.locks ≡ some lease)
    → ((undo_end op old_audits old_lock t).0 ≡ ok tt)
      × Untouched t (undo_end op old_audits old_lock t).1
unfolding undo_end
undo_end-Untouched op old_audits none t a l = (
  refl,
  record {
    operations = refl;
    steps = refl;
    claims = refl;
    locks = refl;
    fences = refl;
    audits = λ id. ground (arith, lookup-insert op.id id old_audits t.audits, eq_iff op.id id);
  },
)
undo_end-Untouched op old_audits (some lease) t a l = (
  refl,
  record {
    operations = refl;
    steps = refl;
    claims = refl;
    locks = insert-lookup _ _ _ (l lease refl);
    fences = refl;
    audits = λ id. ground (arith, lookup-insert op.id id old_audits t.audits, eq_iff op.id id);
  },
)
