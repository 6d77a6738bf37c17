-- ===== src/Lifecycle/Trust.antt =====
-- packages/core/src/authority/trust-lifecycle.ts: the trust states of an authority, and the states of
-- its signing keys.
use zima_control.Common.{
  ℕ, ◌≡◌, ◌↔◌, refl, true, not, List, [], ◌∷◌, Eq, nat_beq, nth_or, code_beq_iff, includes,
  if◌then◌else◌, string_eq, nat_eq, option_eq,
}
use zima_control.Common.Action.{Outcome, returned, thrown}

pub data AuthorityTrustState : Type 0 where
  uninitialized provisioning key_bound active rotating revoked failed uncertain rebind_required :
      AuthorityTrustState

abbrev pub trust_code : AuthorityTrustState → ℕ
trust_code uninitialized = 0
trust_code provisioning = 1
trust_code key_bound = 2
trust_code active = 3
trust_code rotating = 4
trust_code revoked = 5
trust_code failed = 6
trust_code uncertain = 7
trust_code rebind_required = 8

abbrev pub trust_all : List AuthorityTrustState
trust_all =
    uninitialized ∷ provisioning ∷ key_bound ∷ active ∷ rotating ∷ revoked ∷ failed ∷ uncertain
    ∷ rebind_required ∷ []

trust-decode : (a : AuthorityTrustState) → nth_or uninitialized trust_all (trust_code a) ≡ a
trust-decode uninitialized = refl
trust-decode provisioning = refl
trust-decode key_bound = refl
trust-decode active = refl
trust-decode rotating = refl
trust-decode revoked = refl
trust-decode failed = refl
trust-decode uncertain = refl
trust-decode rebind_required = refl

pub trust_beq_iff :
    (a b : AuthorityTrustState) → (nat_beq (trust_code a) (trust_code b) ≡ true) ↔ (a ≡ b)
trust_beq_iff = code_beq_iff trust_code (nth_or uninitialized trust_all) trust-decode

instance abbrev pub trust_eq : Eq AuthorityTrustState
trust_eq = record { beq = λ a b. nat_beq (trust_code a) (trust_code b); beq_iff = trust_beq_iff }

-- `ACTIVE`, `REVOKED` and `FAILED` of a key are `key_active`, `key_revoked` and `key_failed`.
pub data AuthoritySigningKeyState : Type 0 where
  candidate bound validated key_active key_revoked key_failed : AuthoritySigningKeyState

abbrev pub key_code : AuthoritySigningKeyState → ℕ
key_code candidate = 0
key_code bound = 1
key_code validated = 2
key_code key_active = 3
key_code key_revoked = 4
key_code key_failed = 5

abbrev pub key_all : List AuthoritySigningKeyState
key_all = candidate ∷ bound ∷ validated ∷ key_active ∷ key_revoked ∷ key_failed ∷ []

key-decode : (a : AuthoritySigningKeyState) → nth_or candidate key_all (key_code a) ≡ a
key-decode candidate = refl
key-decode bound = refl
key-decode validated = refl
key-decode key_active = refl
key-decode key_revoked = refl
key-decode key_failed = refl

pub key_beq_iff :
    (a b : AuthoritySigningKeyState) → (nat_beq (key_code a) (key_code b) ≡ true) ↔ (a ≡ b)
key_beq_iff = code_beq_iff key_code (nth_or candidate key_all) key-decode

instance abbrev pub key_eq : Eq AuthoritySigningKeyState
key_eq = record { beq = λ a b. nat_beq (key_code a) (key_code b); beq_iff = key_beq_iff }

-- The codes of `AuthorityError` that this file throws.
pub data TrustLifecycleError : Type 0 where
  illegal_trust_transition illegal_key_transition : TrustLifecycleError

unfoldable pub trust_transitions : AuthorityTrustState → List AuthorityTrustState
trust_transitions uninitialized = provisioning ∷ []
trust_transitions provisioning = key_bound ∷ failed ∷ uncertain ∷ []
trust_transitions key_bound = active ∷ rotating ∷ failed ∷ uncertain ∷ []
trust_transitions active = rotating ∷ revoked ∷ rebind_required ∷ uncertain ∷ []
trust_transitions rotating = active ∷ revoked ∷ failed ∷ uncertain ∷ []
trust_transitions revoked = rebind_required ∷ []
trust_transitions failed = provisioning ∷ []
trust_transitions uncertain = provisioning ∷ rebind_required ∷ []
trust_transitions rebind_required = provisioning ∷ []

unfoldable pub key_transitions : AuthoritySigningKeyState → List AuthoritySigningKeyState
key_transitions candidate = bound ∷ key_failed ∷ []
key_transitions bound = validated ∷ key_failed ∷ []
key_transitions validated = key_active ∷ key_failed ∷ []
key_transitions key_active = key_revoked ∷ []
key_transitions key_revoked = []
key_transitions key_failed = []

unfoldable pub transition_authority_trust :
    AuthorityTrustState → AuthorityTrustState → Outcome TrustLifecycleError AuthorityTrustState
unfolding trust_transitions
transition_authority_trust current next =
    if not (includes (trust_transitions current) next)
    then thrown illegal_trust_transition
    else returned next

unfoldable pub transition_authority_signing_key :
    AuthoritySigningKeyState
    → AuthoritySigningKeyState
    → Outcome TrustLifecycleError AuthoritySigningKeyState
unfolding key_transitions
transition_authority_signing_key current next =
    if not (includes (key_transitions current) next)
    then thrown illegal_key_transition
    else returned next
