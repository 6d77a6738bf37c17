-- ===== src/Mutation/Repository/Idempotency.antt =====
-- packages/core/src/in-memory-durable-mutation-repository.ts, claim: what a claim stores, and what a
-- second one with the same key gives.
use mathlib.Core.Path.{subst}
use zima_control.Common.{
  ℕ, String, ◌≡◌, ◌<◌, ◌≢◌, refl, sym, ap, ◌∙◌, inl, inr, true, false, Bool-cases, Option, none,
  some, Option-cases, ◌==◌, lookup, insert, has, lookup-insert_self, if◌then◌else◌, string_eq,
  nat_eq, arith, ltb,
}
use zima_control.Mutation.Status.{
  ok, err, mutation_error, idempotency_conflict, audit_persistence_failed,
}
use zima_control.Mutation.Types.{Operation, ClaimInput, created, replay, claimed}
use zima_control.Mutation.Repository.{
  Repository, IdempotencyClaim, claim_key, live_claim, forget_claim, append, require_operation,
}
use zima_control.Mutation.Repository.Claims.{claim, claim_with, new_claim, new_operation}

-- The operation that a claim stores.
abbrev pub claimed_operation : ClaimInput → Operation
claimed_operation input =
    new_operation input input.plan.target.service_id input.plan.target.container_id

abbrev pub key_of_claim : ClaimInput → String
key_of_claim input = claim_key input.plan.actor_id input.plan.idempotency_key

-- The state that holds the operation and the claim, before the audit event.
abbrev claimed_state : ClaimInput → Repository → Repository
claimed_state input s = record s {
  operations = insert input.plan.operation_id (claimed_operation input) s.operations;
  claims = insert (key_of_claim input) (new_claim input) s.claims;
}

claim-unaudited :
    (input : ClaimInput) (s : Repository)
    → lookup (key_of_claim input) s.claims ≡ none
    → lookup input.plan.operation_id s.operations ≡ none
    → s.fail_next_audit ≡ true
    → claim input s ≡ (
      err (mutation_error audit_persistence_failed),
      record (claimed_state input s) { fail_next_audit = false },
    )
unfolding claim claim_with append new_operation
claim-unaudited input s free unused failing = rw (free, unused, failing) refl

-- If the key of a claim has none, the operation is new and the audit event cannot be appended, claim throws
-- AUDIT_PERSISTENCE_FAILED, and yet the operation and the claim are stored, without an audit event.
pub claim_without_audit :
    (input : ClaimInput) (s : Repository)
    → lookup (key_of_claim input) s.claims ≡ none
    → lookup input.plan.operation_id s.operations ≡ none
    → s.fail_next_audit ≡ true
    → ((claim input s).0 ≡ err (mutation_error audit_persistence_failed))
      × (lookup input.plan.operation_id (claim input s).1.operations
          ≡ some (claimed_operation input))
      × (lookup (key_of_claim input) (claim input s).1.claims ≡ some (new_claim input))
      × ((claim input s).1.audits ≡ s.audits)
claim_without_audit input s free unused failing =
    let e = claim-unaudited input s free unused failing in
    (
      ap (λ x. x.0) e,
      ap (λ x. lookup input.plan.operation_id x.1.operations) e
          ∙ lookup-insert_self input.plan.operation_id (claimed_operation input) s.operations,
      ap (λ x. lookup (key_of_claim input) x.1.claims) e
          ∙ lookup-insert_self (key_of_claim input) (new_claim input) s.claims,
      ap (λ x. x.1.audits) e,
    )

-- A claim that created an operation has stored it and the claim, and its audit event was appended.
record Stored (input : ClaimInput) (op : Operation) (s : Repository) : Type 0 where
  operation : lookup input.plan.operation_id s.operations ≡ some op
  stored_claim : lookup (key_of_claim input) s.claims ≡ some (new_claim input)
  audited : s.fail_next_audit ≡ false

-- The state after the claim that was there is forgotten.
abbrev forgotten : Option IdempotencyClaim → String → Repository → Repository
forgotten existing key s = (forget_claim existing key s).1

created_state : ClaimInput → Repository → Repository
unfolding append
created_state input s =
    (append (claimed_operation input) claimed input.now none none (claimed_state input s)).1

over :
    (held : IdempotencyClaim) (now : ℕ)
    → live_claim (some held) now ≡ none
    → ltb now held.expires_at ≡ false
over held now h = ground (arith, h)

claim_with-taken :
    (input : ClaimInput) (key : String) (existing : Option IdempotencyClaim) (s : Repository)
    (op : Operation)
    → live_claim existing input.now ≡ none
    → has input.plan.operation_id s.operations ≡ true
    → (claim_with input key existing s).0 ≢ ok (created op)
unfolding claim_with
claim_with-taken input key none s op e t h = absurd (cc (rw t at h))
claim_with-taken input key (some held) s op e t h =
    absurd (cc (rw (claim_with, live_claim, over held input.now e, t) at h))

claim_with-failed :
    (input : ClaimInput) (key : String) (existing : Option IdempotencyClaim) (s : Repository)
    (op : Operation)
    → live_claim existing input.now ≡ none
    → has input.plan.operation_id s.operations ≡ false
    → s.fail_next_audit ≡ true
    → (claim_with input key existing s).0 ≢ ok (created op)
unfolding claim_with append new_operation
claim_with-failed input key none s op e t f h = absurd (cc (rw (t, f) at h))
claim_with-failed input key (some held) s op e t f h =
    absurd (cc (rw (claim_with, live_claim, over held input.now e, t, f) at h))

claim_with-new :
    (input : ClaimInput) (existing : Option IdempotencyClaim) (s : Repository)
    → live_claim existing input.now ≡ none
    → has input.plan.operation_id s.operations ≡ false
    → s.fail_next_audit ≡ false
    → claim_with input (key_of_claim input) existing s ≡ (
      ok (created (claimed_operation input)),
      created_state input (forgotten existing (key_of_claim input) s),
    )
unfolding claim_with append new_operation created_state
claim_with-new input none s e t f = rw (t, f) refl
claim_with-new input (some held) s e t f =
    rw (claim_with, live_claim, over held input.now e, t, f) refl

claim_with-held :
    (input : ClaimInput) (key : String) (existing : Option IdempotencyClaim) (s : Repository)
    (op : Operation) (held : IdempotencyClaim)
    → live_claim existing input.now ≡ some held
    → (claim_with input key existing s).0 ≢ ok (created op)
unfolding claim_with append require_operation
claim_with-held input key existing s op held e h = ground (arith, e, h)

created_state-Stored :
    (input : ClaimInput) (s : Repository)
    → s.fail_next_audit ≡ false
    → Stored input (claimed_operation input) (created_state input s)
unfolding created_state append
created_state-Stored input s f = record {
  operation =
      rw f (lookup-insert_self input.plan.operation_id (claimed_operation input) s.operations);
  stored_claim = rw f (lookup-insert_self (key_of_claim input) (new_claim input) s.claims);
  audited = rw f refl;
}

forgotten-audit :
    (existing : Option IdempotencyClaim) (key : String) (s : Repository)
    → (forgotten existing key s).fail_next_audit ≡ s.fail_next_audit
forgotten-audit none key s = refl
forgotten-audit (some held) key s = refl

claim-Stored :
    (input : ClaimInput) (op : Operation) (s : Repository)
    → (claim input s).0 ≡ ok (created op)
    → (Stored input op (claim input s).1)
unfolding claim
claim-Stored input op s h =
    let existing = lookup (key_of_claim input) s.claims in
    elim (Option-cases (live_claim existing input.now)) [
      | inr (held, e) ↦ absurd (claim_with-held input (key_of_claim input) existing s op held e h)
      | inl e ↦ elim (Bool-cases (has input.plan.operation_id s.operations)) [
        | inl t ↦ absurd (claim_with-taken input (key_of_claim input) existing s op e t h)
        | inr t ↦ elim (Bool-cases s.fail_next_audit) [
          | inl f ↦ absurd (claim_with-failed input (key_of_claim input) existing s op e t f h)
          | inr f ↦
              let new = claim_with-new input existing s e t f in
              let same : claimed_operation input ≡ op = cc (sym (ap (λ x. x.0) new) ∙ h) in
              subst (λ op. Stored input op (claim input s).1) same
                (subst (λ s. Stored input (claimed_operation input) s) (sym (ap (λ x. x.1) new))
                  (created_state-Stored input (forgotten existing (key_of_claim input) s)
                    (forgotten-audit existing (key_of_claim input) s ∙ f)))
        ]
      ]
    ]

early_enough : (now expires_at : ℕ) → now < expires_at → ltb now expires_at ≡ true
early_enough now expires_at h = ground (arith, h)

replayed_claim :
    (input again : ClaimInput) (kept : Operation) (t : Repository)
    → lookup (key_of_claim input) t.claims ≡ some (new_claim input)
    → lookup input.plan.operation_id t.operations ≡ some kept
    → key_of_claim again ≡ key_of_claim input
    → again.now < input.idempotency_expires_at
    → ((claim again t).0 ≡ (
        if input.fingerprint == again.fingerprint
        then if t.fail_next_audit
          then err (mutation_error audit_persistence_failed)
          else ok (replay kept)
        else err (mutation_error idempotency_conflict)))
      × ((claim again t).1.operations ≡ t.operations)
      × ((claim again t).1.claims ≡ t.claims)
unfolding claim claim_with append require_operation
replayed_claim input again kept t here there same_key early =
    let live = early_enough again.now input.idempotency_expires_at early in
    elim (Bool-cases (input.fingerprint == again.fingerprint)) [
      | inr f ↦ rw (same_key, here, claim_with, live_claim, live, f) (refl, refl, refl)
      | inl f ↦ elim (Bool-cases t.fail_next_audit) [
        | inl g ↦ rw (same_key, here, claim_with, live_claim, live, f, there, g) (refl, refl, refl)
        | inr g ↦ rw (same_key, here, claim_with, live_claim, live, f, there, g) (refl, refl, refl)
      ]
    ]

-- Once claim has created an operation, take any later state in which the key still has the claim that it
-- stored, and the operation, which may have changed, is still there. A claim under the same key before
-- it expires creates no second operation: if its fingerprint is that of the first, it replays the
-- operation as it is now, or throws AUDIT_PERSISTENCE_FAILED where the audit event cannot be appended,
-- and else it throws IDEMPOTENCY_CONFLICT; and the operations and the claims stay as they are.
pub claim_again :
    (input again : ClaimInput) (op kept : Operation) (s t : Repository)
    → (claim input s).0 ≡ ok (created op)
    → lookup (key_of_claim input) t.claims ≡ lookup (key_of_claim input) (claim input s).1.claims
    → lookup input.plan.operation_id t.operations ≡ some kept
    → key_of_claim again ≡ key_of_claim input
    → again.now < input.idempotency_expires_at
    → ((claim again t).0 ≡ (
        if input.fingerprint == again.fingerprint
        then if t.fail_next_audit
          then err (mutation_error audit_persistence_failed)
          else ok (replay kept)
        else err (mutation_error idempotency_conflict)))
      × ((claim again t).1.operations ≡ t.operations)
      × ((claim again t).1.claims ≡ t.claims)
claim_again input again op kept s t h here there same_key early =
    let stored = claim-Stored input op s h in
    replayed_claim input again kept t (here ∙ stored.stored_claim) there same_key early
