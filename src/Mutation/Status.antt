-- ===== src/Mutation/Status.antt =====
-- packages/core/src/mutation-safety.ts: the action types, the operation statuses with their
-- transition table, and the error codes.
pub mod Graph
use zima_control.Common.{
  ℕ, ◌≡◌, ◌↔◌, ◌⊎◌, inl, inr, refl, Bool, true, false, List, [], ◌∷◌, Eq, nat_beq, nth_or,
  code_beq_iff, includes, if◌then◌else◌,
}

pub data ActionType : Type 0 where
  start stop restart : ActionType

pub data ExecutionDomain : Type 0 where
  zimaos docker unsupported : ExecutionDomain

pub data Role : Type 0 where
  admin operator viewer : Role

pub data ActionStatus : Type 0 where
  pending authorized validated executing verifying : ActionStatus
  succeeded rejected failed timed_out cancelled indeterminate : ActionStatus

pub data MutationErrorCode : Type 0 where
  authentication_required unauthorized invalid_request : MutationErrorCode
  application_not_found invalid_target target_ownership_mismatch : MutationErrorCode
  target_resolution_failed unsupported_management unsupported_runtime : MutationErrorCode
  idempotency_conflict operation_in_progress lock_capacity_exceeded : MutationErrorCode
  illegal_state_transition execution_rejected execution_failed : MutationErrorCode
  verification_failed persistence_failed recovery_pre_execution_aborted : MutationErrorCode
  recovery_outcome_unknown audit_persistence_failed operation_timed_out : MutationErrorCode
  stale_operation_ownership container_not_found identity_mismatch : MutationErrorCode
  docker_unavailable docker_permission_denied action_rejected_by_docker : MutationErrorCode
  docker_timeout post_action_verification_failed mutation_uncertain : MutationErrorCode
  application_runtime_unavailable application_shape_unsupported target_snapshot_not_authoritative :
      MutationErrorCode
  target_snapshot_stale not_implemented : MutationErrorCode

-- A thrown `MutationError` carries its code; a `TypeError` is a programming error of the caller.
pub data Failure : Type 0 where
  mutation_error : MutationErrorCode → Failure
  type_error : Failure

pub data Result {ℓ} (A : Type ℓ) : Type ℓ where
  ok : A → Result A
  err : Failure → Result A

pub Result-cases {ℓ} :
    {A : Type ℓ} (r : Result A) → ((a : A) × (r ≡ ok a)) ⊎ ((f : Failure) × (r ≡ err f))
Result-cases (ok a) = inl (a, refl)
Result-cases (err f) = inr (f, refl)

abbrev pub action_code : ActionType → ℕ
action_code start = 0
action_code stop = 1
action_code restart = 2

action-decode : (a : ActionType) → nth_or restart (start ∷ stop ∷ []) (action_code a) ≡ a
action-decode start = refl
action-decode stop = refl
action-decode restart = refl

pub action_beq_iff : (a b : ActionType) → (nat_beq (action_code a) (action_code b) ≡ true) ↔ (a ≡ b)
action_beq_iff = code_beq_iff action_code (nth_or restart (start ∷ stop ∷ [])) action-decode

instance abbrev pub action_eq : Eq ActionType
action_eq = record {
  beq = λ a b. nat_beq (action_code a) (action_code b);
  beq_iff = action_beq_iff;
}

abbrev pub domain_code : ExecutionDomain → ℕ
domain_code zimaos = 0
domain_code docker = 1
domain_code unsupported = 2

domain-decode :
    (a : ExecutionDomain) → nth_or unsupported (zimaos ∷ docker ∷ []) (domain_code a) ≡ a
domain-decode zimaos = refl
domain-decode docker = refl
domain-decode unsupported = refl

pub domain_beq_iff :
    (a b : ExecutionDomain) → (nat_beq (domain_code a) (domain_code b) ≡ true) ↔ (a ≡ b)
domain_beq_iff = code_beq_iff domain_code (nth_or unsupported (zimaos ∷ docker ∷ [])) domain-decode

instance abbrev pub domain_eq : Eq ExecutionDomain
domain_eq = record {
  beq = λ a b. nat_beq (domain_code a) (domain_code b);
  beq_iff = domain_beq_iff;
}

abbrev pub status_code : ActionStatus → ℕ
status_code pending = 0
status_code authorized = 1
status_code validated = 2
status_code executing = 3
status_code verifying = 4
status_code succeeded = 5
status_code rejected = 6
status_code failed = 7
status_code timed_out = 8
status_code cancelled = 9
status_code indeterminate = 10

-- `actionStatuses`
abbrev pub action_statuses : List ActionStatus
action_statuses =
    pending ∷ authorized ∷ validated ∷ executing ∷ verifying ∷ succeeded ∷ rejected ∷ failed
    ∷ timed_out ∷ cancelled ∷ indeterminate ∷ []

status-decode : (a : ActionStatus) → nth_or pending action_statuses (status_code a) ≡ a
status-decode pending = refl
status-decode authorized = refl
status-decode validated = refl
status-decode executing = refl
status-decode verifying = refl
status-decode succeeded = refl
status-decode rejected = refl
status-decode failed = refl
status-decode timed_out = refl
status-decode cancelled = refl
status-decode indeterminate = refl

pub status_beq_iff :
    (a b : ActionStatus) → (nat_beq (status_code a) (status_code b) ≡ true) ↔ (a ≡ b)
status_beq_iff = code_beq_iff status_code (nth_or pending action_statuses) status-decode

instance abbrev pub status_eq : Eq ActionStatus
status_eq = record {
  beq = λ a b. nat_beq (status_code a) (status_code b);
  beq_iff = status_beq_iff;
}

abbrev pub terminal_statuses : List ActionStatus
terminal_statuses = succeeded ∷ rejected ∷ failed ∷ timed_out ∷ cancelled ∷ indeterminate ∷ []

unfoldable pub is_terminal_action_status : ActionStatus → Bool
is_terminal_action_status status = includes terminal_statuses status

unfoldable pub allowed_transitions : ActionStatus → List ActionStatus
allowed_transitions pending = authorized ∷ rejected ∷ cancelled ∷ []
allowed_transitions authorized = validated ∷ rejected ∷ cancelled ∷ []
allowed_transitions validated = executing ∷ rejected ∷ cancelled ∷ []
allowed_transitions executing = verifying ∷ failed ∷ timed_out ∷ cancelled ∷ indeterminate ∷ []
allowed_transitions verifying = succeeded ∷ failed ∷ timed_out ∷ cancelled ∷ indeterminate ∷ []
allowed_transitions _ = []

unfoldable pub transition_action_status : ActionStatus → ActionStatus → Result ActionStatus
unfolding allowed_transitions
transition_action_status current next =
    if includes (allowed_transitions current) next
    then ok next
    else err (mutation_error illegal_state_transition)
