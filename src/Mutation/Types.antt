-- ===== src/Mutation/Types.antt =====
-- The records of packages/core/src/durable-mutation.ts. A `Date` is its time in milliseconds, and a
-- field that may be null is an `Option`; an input that may be left out or be null is an `Option` of
-- an `Option` where the code tells the two apart.
use zima_control.Common.{
  true, ℕ, String, Bool, List, Option, Eq, nat_beq, nth_or, code_beq_iff, ◌≡◌, ◌↔◌, refl, [], ◌∷◌,
}
use zima_control.Mutation.Status.{
  ActionType, ActionStatus, ExecutionDomain, Role, MutationErrorCode,
}

pub data VerificationState : Type 0 where
  not_started pending verified failed unknown : VerificationState

pub data RecoveryState : Type 0 where
  none recovered_pre_execution outcome_unknown : RecoveryState

pub data ExternalEffectState : Type 0 where
  not_started completed effect_possibly_active : ExternalEffectState

abbrev pub effect_code : ExternalEffectState → ℕ
effect_code ExternalEffectState.not_started = 0
effect_code completed = 1
effect_code effect_possibly_active = 2

abbrev pub effects : List ExternalEffectState
effects = ExternalEffectState.not_started ∷ completed ∷ []

effect-decode :
    (a : ExternalEffectState) → nth_or effect_possibly_active effects (effect_code a) ≡ a
effect-decode ExternalEffectState.not_started = refl
effect-decode completed = refl
effect-decode effect_possibly_active = refl

pub effect_beq_iff :
    (a b : ExternalEffectState) → (nat_beq (effect_code a) (effect_code b) ≡ true) ↔ (a ≡ b)
effect_beq_iff = code_beq_iff effect_code (nth_or effect_possibly_active effects) effect-decode

instance abbrev pub effect_eq : Eq ExternalEffectState
effect_eq = record {
  beq = λ a b. nat_beq (effect_code a) (effect_code b);
  beq_iff = effect_beq_iff;
}

pub data MutationAuditEventType : Type 0 where
  claimed step_created dispatch_authorized state_changed : MutationAuditEventType
  completed failed recovered replayed : MutationAuditEventType

pub record Operation : Type 0 where
  pub id : String
  pub actor_id : String
  pub actor_role : Role
  pub action : ActionType
  pub application_id : String
  pub service_id : Option String
  pub container_id : Option String
  pub execution_domain : ExecutionDomain
  pub operation_key : String
  pub idempotency_key : String
  pub fingerprint : String
  pub status : ActionStatus
  pub verification_state : VerificationState
  pub recovery_state : RecoveryState
  pub external_effect : ExternalEffectState
  pub fencing_token : Option ℕ
  pub reason_code : Option MutationErrorCode
  pub deadline_at : ℕ
  pub started_at : Option ℕ
  pub completed_at : Option ℕ
  pub created_at : ℕ
  pub updated_at : ℕ

pub record AuditEvent : Type 0 where
  pub id : String
  pub operation_id : String
  pub child_step_id : Option String
  pub sequence : ℕ
  pub actor_id : String
  pub actor_role : Role
  pub action : ActionType
  pub application_id : String
  pub service_id : Option String
  pub container_id : Option String
  pub status : ActionStatus
  pub event_type : MutationAuditEventType
  pub reason_code : Option MutationErrorCode
  pub timestamp : ℕ

pub record OperationStep : Type 0 where
  pub id : String
  pub parent_operation_id : String
  pub sequence : ℕ
  pub application_id : String
  pub deployment_id : String
  pub service_id : String
  pub container_id : String
  pub action : ActionType
  pub execution_domain : ExecutionDomain
  pub target_fingerprint : String
  pub snapshot_at : ℕ
  pub authority_evidence : String
  pub application_discovered_at : ℕ
  pub deployment_discovered_at : ℕ
  pub runtime_observed_at : ℕ
  pub deadline_at : ℕ
  pub status : ActionStatus
  pub verification_state : VerificationState
  pub recovery_state : RecoveryState
  pub external_effect : ExternalEffectState
  pub fencing_token : Option ℕ
  pub dispatch_fencing_token : Option ℕ
  pub dispatch_authorized_at : Option ℕ
  pub reason_code : Option MutationErrorCode
  pub started_at : Option ℕ
  pub completed_at : Option ℕ
  pub created_at : ℕ
  pub updated_at : ℕ

pub record ParentChildOperation : Type 0 where
  pub operation : Operation
  pub steps : List OperationStep

pub record TargetSnapshot : Type 0 where
  pub application_id : String
  pub deployment_id : String
  pub service_id : String
  pub container_id : String
  pub action : ActionType
  pub execution_domain : ExecutionDomain
  pub target_fingerprint : String
  pub snapshot_at : ℕ
  pub authority_evidence : String
  pub application_discovered_at : ℕ
  pub deployment_discovered_at : ℕ
  pub runtime_observed_at : ℕ

pub record MutationLease : Type 0 where
  pub operation_key : String
  pub owner_operation_id : String
  pub fencing_token : ℕ
  pub acquired_at : ℕ
  pub lease_expires_at : ℕ

pub record ActionTarget : Type 0 where
  pub application_id : String
  pub service_id : Option String
  pub container_id : Option String

pub record ActionPlan : Type 0 where
  pub operation_id : String
  pub actor_id : String
  pub actor_role : Role
  pub action : ActionType
  pub target : ActionTarget
  pub execution_domain : ExecutionDomain
  pub operation_key : String
  pub idempotency_key : String

pub record ClaimInput : Type 0 where
  pub plan : ActionPlan
  pub fingerprint : String
  pub now : ℕ
  pub idempotency_expires_at : ℕ
  pub deadline_at : ℕ

pub record ParentChildClaimInput : Type 0 where
  pub claim : ClaimInput
  pub open claim use *
  pub step_id : String
  pub snapshot : TargetSnapshot

pub record ParentReplayInput : Type 0 where
  pub actor_id : String
  pub idempotency_key : String
  pub fingerprint : String
  pub now : ℕ

-- `DurableMutationClaim` and `DurableParentChildClaim`.
pub data Claim {ℓ} (A : Type ℓ) : Type ℓ where
  created replay : A → Claim A

pub record TransitionInput : Type 0 where
  pub operation_id : String
  pub expected : List ActionStatus
  pub status : ActionStatus
  pub now : ℕ
  pub event_type : MutationAuditEventType
  pub reason_code : Option MutationErrorCode
  pub verification_state : Option VerificationState
  pub recovery_state : Option RecoveryState
  pub fencing_token : Option (Option ℕ)
  pub started_at : Option (Option ℕ)
  pub completed_at : Option (Option ℕ)
  pub ownership : Option MutationLease
  pub adopt_ownership : Bool
  pub release_lease : Bool

pub record DispatchInput : Type 0 where
  pub operation_id : String
  pub operation_key : String
  pub fencing_token : ℕ
  pub action : ActionType
  pub application_id : String
  pub service_id : Option String
  pub container_id : String
  pub execution_domain : ExecutionDomain
  pub now : ℕ

pub record StepDispatchInput : Type 0 where
  pub operation_id : String
  pub operation_key : String
  pub fencing_token : ℕ
  pub child_step_id : String
  pub expected : ActionStatus
  pub action : ActionType
  pub application_id : String
  pub deployment_id : String
  pub service_id : String
  pub container_id : String
  pub execution_domain : ExecutionDomain
  pub target_fingerprint : String
  pub now : ℕ

pub record StepTransitionInput : Type 0 where
  pub operation_id : String
  pub child_step_id : String
  pub expected : List ActionStatus
  pub status : ActionStatus
  pub now : ℕ
  pub event_type : MutationAuditEventType
  pub ownership : MutationLease
  pub adopt_ownership : Bool
  pub verification_state : Option VerificationState
  pub recovery_state : Option RecoveryState
  pub external_effect : Option ExternalEffectState
  pub reason_code : Option MutationErrorCode
  pub started_at : Option (Option ℕ)

pub record StepFinalizationInput : Type 0 where
  pub operation_id : String
  pub child_step_id : String
  pub expected : List ActionStatus
  pub status : ActionStatus
  pub now : ℕ
  pub ownership : MutationLease
  pub verification_state : VerificationState
  pub recovery_state : RecoveryState
  pub external_effect : ExternalEffectState
  pub reason_code : Option MutationErrorCode
