-- ===== src/Common/Action.antt =====
-- Code that may throw, and code that also changes a state: an action gives back what it returns or
-- throws, and the state that it leaves.
use mathlib.Core.Path.{◌≡◌, refl}
use mathlib.Core.Logic.{◌⊎◌, inl, inr}
use mathlib.Core.Bool.{Bool}
use zima_control.Common.Tests.{if◌then◌else◌}

pub data Outcome {ℓ κ} (E : Type ℓ) (A : Type κ) : Type (ℓ ⊔ κ) where
  returned : A → Outcome E A
  thrown : E → Outcome E A

pub Outcome-cases {ℓ κ} :
    {E : Type ℓ} {A : Type κ} (r : Outcome E A)
    → ((a : A) × (r ≡ returned a)) ⊎ ((e : E) × (r ≡ thrown e))
Outcome-cases (returned a) = inl (a, refl)
Outcome-cases (thrown e) = inr (e, refl)

abbrev pub Action : Type 0 → Type 0 → Type 0 → Type 0
Action S E A = S → Outcome E A × S

module _ {S E : Type 0} where
  abbrev pub continue : {A B : Type 0} → Outcome E A → (A → Action S E B) → Action S E B
  continue (returned a) f s = f a s
  continue (thrown e) f s = (thrown e, s)

  infixl 5 ◌>>=◌ ◌>>◌
  abbrev pub ◌>>=◌ : {A B : Type 0} → Action S E A → (A → Action S E B) → Action S E B
  ◌>>=◌ m f s = let (r, s') = m s in continue r f s'

  abbrev pub ◌>>◌ : {B : Type 0} → Action S E (Unit {0}) → Action S E B → Action S E B
  m >> k = m >>= λ _. k

  abbrev pub pure : {A : Type 0} → A → Action S E A
  pure a s = (returned a, s)

  abbrev pub lift : {A : Type 0} → Outcome E A → Action S E A
  lift r s = (r, s)

  abbrev pub throw : {A : Type 0} → E → Action S E A
  throw e s = (thrown e, s)

  -- `if (test) throw e`
  abbrev pub throw_if : Bool → E → Action S E (Unit {0})
  throw_if test e s = (if test then thrown e else returned tt, s)

  abbrev pub gets : {A : Type 0} → (S → A) → Action S E A
  gets f s = (returned (f s), s)

  abbrev pub modify : (S → S) → Action S E (Unit {0})
  modify f s = (returned tt, f s)

  abbrev recover : {A : Type 0} → Outcome E A → (E → Action S E A) → Action S E A
  recover (returned a) handler s = (returned a, s)
  recover (thrown e) handler s = handler e s

  -- `try { m } catch (e) { handler e }`
  abbrev pub try : {A : Type 0} → Action S E A → (E → Action S E A) → Action S E A
  try m handler s = let (r, s') = m s in recover r handler s'

  -- `try { m } finally { cleanup }`, with a cleanup that does not throw.
  abbrev pub finally : {A : Type 0} → Action S E A → (S → S) → Action S E A
  finally m cleanup s = let (r, s') = m s in (r, cleanup s')
