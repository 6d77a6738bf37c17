-- ===== src/Lifecycle/Authority.antt =====
-- packages/core/src/authority/lifecycle.ts: the states of an authority's deployment generation, with
-- what a restart makes of them.
use zima_control.Common.{
  ℕ, String, ◌≡◌, ◌↔◌, refl, Bool, true, false, not, ◌||◌, ◌&&◌, List, [], ◌∷◌, Option, none, some,
  Eq, ◌==◌, is_some, nat_beq, nth_or, code_beq_iff, includes, if◌then◌else◌, string_eq, nat_eq,
  option_eq,
}
use zima_control.Common.Action.{Outcome, returned, thrown}

pub data AuthorityLifecycleState : Type 0 where
  requested accepted provisioning authorized active replaced invalidated failed uncertain :
      AuthorityLifecycleState

abbrev pub lifecycle_code : AuthorityLifecycleState → ℕ
lifecycle_code requested = 0
lifecycle_code accepted = 1
lifecycle_code provisioning = 2
lifecycle_code authorized = 3
lifecycle_code active = 4
lifecycle_code replaced = 5
lifecycle_code invalidated = 6
lifecycle_code failed = 7
lifecycle_code uncertain = 8

abbrev pub lifecycle_all : List AuthorityLifecycleState
lifecycle_all =
    requested ∷ accepted ∷ provisioning ∷ authorized ∷ active ∷ replaced ∷ invalidated ∷ failed
    ∷ uncertain ∷ []

lifecycle-decode :
    (a : AuthorityLifecycleState) → nth_or requested lifecycle_all (lifecycle_code a) ≡ a
lifecycle-decode requested = refl
lifecycle-decode accepted = refl
lifecycle-decode provisioning = refl
lifecycle-decode authorized = refl
lifecycle-decode active = refl
lifecycle-decode replaced = refl
lifecycle-decode invalidated = refl
lifecycle-decode failed = refl
lifecycle-decode uncertain = refl

pub lifecycle_beq_iff :
    (a b : AuthorityLifecycleState)
    → (nat_beq (lifecycle_code a) (lifecycle_code b) ≡ true) ↔ (a ≡ b)
lifecycle_beq_iff = code_beq_iff lifecycle_code (nth_or requested lifecycle_all) lifecycle-decode

instance abbrev pub lifecycle_eq : Eq AuthorityLifecycleState
lifecycle_eq = record {
  beq = λ a b. nat_beq (lifecycle_code a) (lifecycle_code b);
  beq_iff = lifecycle_beq_iff;
}

-- The codes of `AuthorityError` that this file throws.
pub data AuthorityError : Type 0 where
  illegal_authority_transition : AuthorityError

pub record AuthorityPrincipal : Type 0 where
  pub authority_id : String
  pub issuer_id : String

-- `validated_at` is `none` for a value that is no date, or a date without a finite time.
pub record AuthorityUncertainRecoveryValidation : Type 0 where
  pub kind : String
  pub authority_id : String
  pub issuer_id : String
  pub validated_at : Option ℕ

unfoldable pub lifecycle_transitions : AuthorityLifecycleState → List AuthorityLifecycleState
lifecycle_transitions requested = accepted ∷ failed ∷ []
lifecycle_transitions accepted = provisioning ∷ failed ∷ invalidated ∷ []
lifecycle_transitions provisioning = authorized ∷ failed ∷ uncertain ∷ []
lifecycle_transitions authorized = active ∷ failed ∷ invalidated ∷ uncertain ∷ []
lifecycle_transitions active = replaced ∷ invalidated ∷ uncertain ∷ []
lifecycle_transitions uncertain = invalidated ∷ failed ∷ []
lifecycle_transitions replaced = []
lifecycle_transitions invalidated = []
lifecycle_transitions failed = []

unfoldable pub transition_authority_lifecycle :
    AuthorityLifecycleState
    → AuthorityLifecycleState
    → Outcome AuthorityError AuthorityLifecycleState
unfolding lifecycle_transitions
transition_authority_lifecycle current next =
    if not (includes (lifecycle_transitions current) next)
    then thrown illegal_authority_transition
    else returned next

-- The explicit validation is there, and is about this principal.
unfoldable pub validates : AuthorityPrincipal → Option AuthorityUncertainRecoveryValidation → Bool
validates principal none = false
validates principal (some validation) =
    validation.kind == "EXPLICIT_AUTHORITY_RECOVERY_VALIDATION"
    && validation.authority_id == principal.authority_id
    && validation.issuer_id == principal.issuer_id
    && is_some validation.validated_at

unfoldable pub activate_recovered_authority_lifecycle :
    AuthorityLifecycleState
    → AuthorityPrincipal
    → Option AuthorityUncertainRecoveryValidation
    → Outcome AuthorityError AuthorityLifecycleState
unfolding validates
activate_recovered_authority_lifecycle current principal validation =
    if not (current == uncertain) || not (validates principal validation)
    then thrown illegal_authority_transition
    else returned active

unfoldable pub is_terminal_authority_lifecycle : AuthorityLifecycleState → Bool
is_terminal_authority_lifecycle state = state == replaced || state == invalidated || state == failed

unfoldable pub recover_authority_lifecycle :
    AuthorityLifecycleState → Bool → AuthorityLifecycleState
unfolding is_terminal_authority_lifecycle
recover_authority_lifecycle state internally_consistent =
    if is_terminal_authority_lifecycle state || state == uncertain
    then state
    else if state == provisioning
    then uncertain
    else if not internally_consistent
    then (if state == active then uncertain else failed)
    else state
