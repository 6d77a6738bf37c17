-- ===== src/Mutation/Repository/Rollback/Claiming.antt =====
-- A claim of a parent with its step that cannot write its audit events.
use mathlib.Core.Path.{subst}
use zima_control.Common.{
  sym, ℕ, Map, insert, delete, get_or_else, ltb, String, ◌≡◌, ◌||◌, refl, true, false, Option, none,
  some, lookup, has, lookup-insert, lookup-delete, eq_iff, arith, inl, inr, Option-cases,
  Bool-cases, string_eq, [],
}
use zima_control.Mutation.Status.{audit_persistence_failed, err, mutation_error, Result-cases}
use zima_control.Mutation.Types.{ParentChildClaimInput}
use zima_control.Mutation.Fingerprint.{Hashing, assert_parent_child_claim_input}
use zima_control.Mutation.Repository.{
  Repository, IdempotencyClaim, append, events_of, claim_key, live_claim, require_parent_child,
}
use zima_control.Mutation.Repository.Claims.{
  claim_parent_with_step, claim_parent_with, new_operation, step_from_claim, new_claim,
}

-- In the two states every id and key reads the same operation, step, claim and audit trail, and the
-- leases and fence counters are the same.
pub record Unread (s t : Repository) : Type 0 where
  pub operations : (k : String) → lookup k t.operations ≡ lookup k s.operations
  pub steps : (k : String) → lookup k t.steps ≡ lookup k s.steps
  pub claims : (k : String) → lookup k t.claims ≡ lookup k s.claims
  pub locks : t.locks ≡ s.locks
  pub fences : t.fences ≡ s.fences
  pub audits : (id : String) → events_of t id ≡ events_of s id

-- An id without an operation has no audit events.
unfoldable pub HasOwnedTrails : Repository → Type 0
HasOwnedTrails s = (id : String) → lookup id s.operations ≡ none → events_of s id ≡ []

Unread-refl : (s : Repository) → Unread s s
Unread-refl s = record {
  operations = λ k. refl;
  steps = λ k. refl;
  claims = λ k. refl;
  locks = refl;
  fences = refl;
  audits = λ id. refl;
}

delete-insert :
    {V : Type 0} (j k : String) (v : V) (m : Map String V)
    → lookup j m ≡ none
    → lookup k (delete j (insert j v m)) ≡ lookup k m
delete-insert j k v m h =
    ground (arith, h, lookup-delete j k (insert j v m), lookup-insert j k v m, eq_iff j k)

put-back :
    {V : Type 0} (j k : String) (v old : V) (m : Map String V)
    → lookup j m ≡ some old
    → lookup k (insert j old (delete j (insert j v (delete j m)))) ≡ lookup k m
put-back j k v old m h = ground (
  arith,
  h,
  lookup-insert j k old (delete j (insert j v (delete j m))),
  lookup-delete j k (insert j v (delete j m)),
  lookup-insert j k v (delete j m),
  lookup-delete j k m,
  eq_iff j k,
)

events-delete :
    (j id : String) (s : Repository)
    → events_of s j ≡ []
    → get_or_else (lookup id (delete j s.audits)) [] ≡ events_of s id
events-delete j id s h = ground (arith, h, lookup-delete j id s.audits, eq_iff j id)

-- The maps after the rollback of a claim, with what becomes of the claims.
undone : ParentChildClaimInput → Map String IdempotencyClaim → Repository → Repository
unfolding new_operation step_from_claim
undone input claims s = record s {
  fail_next_audit = false;
  operations =
      delete input.plan.operation_id
        (insert input.plan.operation_id (new_operation input.claim none none) s.operations);
  steps = delete input.step_id (insert input.step_id (step_from_claim input) s.steps);
  claims = claims;
  audits = delete input.plan.operation_id s.audits;
}

undone-Unread :
    (input : ParentChildClaimInput) (claims : Map String IdempotencyClaim) (s : Repository)
    → HasOwnedTrails s
    → (has input.plan.operation_id s.operations || has input.step_id s.steps) ≡ false
    → ((k : String) → lookup k claims ≡ lookup k s.claims)
    → Unread s (undone input claims s)
unfolding undone HasOwnedTrails
undone-Unread input claims s owned free same =
    let no_operation : lookup input.plan.operation_id s.operations ≡ none = ground (arith, free) in
    let no_step : lookup input.step_id s.steps ≡ none = ground (arith, free) in
    record {
      operations = λ k.
          delete-insert input.plan.operation_id k (new_operation input.claim none none) s.operations
            no_operation;
      steps = λ k. delete-insert input.step_id k (step_from_claim input) s.steps no_step;
      claims = same;
      locks = refl;
      fences = refl;
      audits = λ id.
          events-delete input.plan.operation_id id s (owned input.plan.operation_id no_operation);
    }

over :
    (held : IdempotencyClaim) (now : ℕ)
    → live_claim (some held) now ≡ none
    → ltb now held.expires_at ≡ false
over held now h = ground (arith, h)

AuditFails : ParentChildClaimInput → String → Option IdempotencyClaim → Repository → Type 0
AuditFails input key existing s =
    (claim_parent_with input key existing s).0 ≡ err (mutation_error audit_persistence_failed)

fresh-undone :
    (input : ParentChildClaimInput) (key : String) (s : Repository)
    → (has input.plan.operation_id s.operations || has input.step_id s.steps) ≡ false
    → s.fail_next_audit ≡ true
    → (claim_parent_with input key none s).1
      ≡ undone input (delete key (insert key (new_claim input.claim) s.claims)) s
unfolding claim_parent_with append undone new_operation step_from_claim
fresh-undone input key s t f = rw (t, f) refl

expired-undone :
    (input : ParentChildClaimInput) (key : String) (held : IdempotencyClaim) (s : Repository)
    → live_claim (some held) input.now ≡ none
    → (has input.plan.operation_id s.operations || has input.step_id s.steps) ≡ false
    → s.fail_next_audit ≡ true
    → (claim_parent_with input key (some held) s).1
      ≡ undone input
          (insert key held (delete key (insert key (new_claim input.claim) (delete key s.claims))))
          s
unfolding claim_parent_with append undone new_operation step_from_claim
expired-undone input key held s old t f =
    rw (claim_parent_with, live_claim, over held input.now old, t, f) refl

fresh-undo :
    (input : ParentChildClaimInput) (key : String) (s : Repository)
    → lookup key s.claims ≡ none
    → HasOwnedTrails s
    → AuditFails input key none s
    → Unread s (claim_parent_with input key none s).1
unfolding claim_parent_with append AuditFails undone new_operation step_from_claim
fresh-undo input key s e owned h =
    elim (Bool-cases (has input.plan.operation_id s.operations || has input.step_id s.steps)) [
      | inl t ↦ absurd (cc (rw t at h))
      | inr t ↦ elim (Bool-cases s.fail_next_audit) [
        | inr f ↦ absurd (cc (rw (t, f) at h))
        | inl f ↦ subst (Unread s) (sym (fresh-undone input key s t f)) (
            undone-Unread input (delete key (insert key (new_claim input.claim) s.claims)) s owned t
              (λ k. delete-insert key k (new_claim input.claim) s.claims e))
      ]
    ]

expired-undo :
    (input : ParentChildClaimInput) (key : String) (held : IdempotencyClaim) (s : Repository)
    → lookup key s.claims ≡ some held
    → live_claim (some held) input.now ≡ none
    → HasOwnedTrails s
    → AuditFails input key (some held) s
    → Unread s (claim_parent_with input key (some held) s).1
unfolding claim_parent_with append AuditFails undone new_operation step_from_claim
expired-undo input key held s e old owned h =
    let late = over held input.now old in
    elim (Bool-cases (has input.plan.operation_id s.operations || has input.step_id s.steps)) [
      | inl t ↦ absurd (cc (rw (claim_parent_with, live_claim, late, t) at h))
      | inr t ↦ elim (Bool-cases s.fail_next_audit) [
        | inr f ↦ absurd (cc (rw (claim_parent_with, live_claim, late, t, f) at h))
        | inl f ↦ subst (Unread s) (sym (expired-undone input key held s old t f)) (
            undone-Unread input
              (insert key held
                (delete key (insert key (new_claim input.claim) (delete key s.claims))))
              s owned t (λ k. put-back key k (new_claim input.claim) held s.claims e))
      ]
    ]

live-undo :
    (input : ParentChildClaimInput) (key : String) (existing : Option IdempotencyClaim)
    (held : IdempotencyClaim) (s : Repository)
    → live_claim existing input.now ≡ some held
    → AuditFails input key existing s
    → Unread s (claim_parent_with input key existing s).1
unfolding claim_parent_with append AuditFails require_parent_child
live-undo input key existing held s e h = record {
  operations = λ k. ground (arith, e, h);
  steps = λ k. ground (arith, e, h);
  claims = λ k. ground (arith, e, h);
  locks = ground (arith, e, h);
  fences = ground (arith, e, h);
  audits = λ id. ground (arith, e, h);
}

-- The claim of a parent with its step, when its audit event cannot be written.
pub claim_parent-undo :
    (h : Hashing) (input : ParentChildClaimInput) (s : Repository)
    → HasOwnedTrails s
    → (claim_parent_with_step h input s).0 ≡ err (mutation_error audit_persistence_failed)
    → Unread s (claim_parent_with_step h input s).1
unfolding claim_parent_with_step AuditFails
claim_parent-undo hashing input s owned h =
    let key = claim_key input.plan.actor_id input.plan.idempotency_key in
    elim (Result-cases (assert_parent_child_claim_input hashing input)) [
      | inr (f, e) ↦ rw e (Unread-refl s)
      | inl (u, e) ↦
          let fails = rw e at h in
          elim (Option-cases (live_claim (lookup key s.claims) input.now)) [
            | inr (held, f) ↦ rw e (live-undo input key (lookup key s.claims) held s f fails)
            | inl f ↦ elim (Option-cases (lookup key s.claims)) [
              | inl g ↦ rw (e, g) (fresh-undo input key s g owned (rw g at fails))
              | inr (held, g) ↦
                  rw (e, g) (expired-undo input key held s g (rw g at f) owned (rw g at fails))
            ]
          ]
    ]
