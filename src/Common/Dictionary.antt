-- ===== src/Common/Dictionary.antt =====
-- The JavaScript `Map` as an association list in insertion order: `set` on a key that is there
-- keeps its place, and a new key goes to the end.
use mathlib.Core.Path.{◌≡◌, refl}
use mathlib.Core.Bool.{Bool}
use mathlib.Core.List.{List, [], ◌∷◌}
use mathlib.Core.Option.{Option, none, some}
use native.Mathlib.Omega.{arith}
use zima_control.Common.Tests.{if◌then◌else◌, is_some}
use zima_control.Common.Equality.{Eq, ◌==◌, eq_self}

abbrev pub Map {ℓ κ} : Type ℓ → Type κ → Type (ℓ ⊔ κ)
Map K V = List (K × V)

module _ {ℓ κ} {K : Type ℓ} {V : Type κ} ⦃e : Eq K⦄ where
  unfoldable pub insert : K → V → Map K V → Map K V
  insert key new [] = (key, new) ∷ []
  insert key new ((other, old) ∷ rest) =
      if other == key then (key, new) ∷ rest else (other, old) ∷ insert key new rest

  unfoldable pub delete : K → Map K V → Map K V
  delete k [] = []
  delete k ((j, w) ∷ m) = let rest = delete k m in if j == k then rest else (j, w) ∷ rest

  unfoldable pub lookup : K → Map K V → Option V
  lookup key [] = none
  lookup key ((other, value) ∷ rest) = if other == key then some value else lookup key rest

  abbrev pub has : K → Map K V → Bool
  has k m = is_some (lookup k m)

  pub lookup-delete :
      (k j : K) (m : Map K V) → lookup j (delete k m) ≡ (if k == j then none else lookup j m)
  unfolding lookup delete
  lookup-delete k j [] = ground arith
  lookup-delete k j ((i, w) ∷ m) =
      ground (arith, e.beq_iff k j, e.beq_iff i k, e.beq_iff i j, lookup-delete k j m)

  pub lookup-insert :
      (written key : K) (value : V) (map : Map K V)
      → lookup key (insert written value map)
        ≡ (if written == key then some value else lookup key map)
  unfolding lookup insert
  lookup-insert written key value [] = refl
  lookup-insert written key value ((other, old) ∷ rest) =
      let tail = lookup-insert written key value rest in
      ground (arith, tail, e.beq_iff written key, e.beq_iff other written, e.beq_iff other key)

  pub lookup-insert_self : (k : K) (v : V) (m : Map K V) → lookup k (insert k v m) ≡ some v
  lookup-insert_self k v m = simp (lookup-insert, eq_self)

  -- Writing back the value that was there undoes a write.
  pub insert-insert-lookup :
      (k : K) (v w : V) (m : Map K V) → lookup k m ≡ some w → insert k w (insert k v m) ≡ m
  unfolding lookup insert
  insert-insert-lookup k v w [] h = cc
  insert-insert-lookup k v w ((j, u) ∷ m) h =
      ground (arith, e.beq_iff j k, e.beq_iff k k, insert-insert-lookup k v w m)

  -- The same where the write was made under an equal key.
  pub insert-undo :
      (k j : K) (v w : V) (m : Map K V)
      → j ≡ k
      → lookup k m ≡ some w
      → insert k w (insert j v m) ≡ m
  insert-undo k j v w m e h = rw e (insert-insert-lookup k v w m h)

  -- A map with one entry.
  pub lookup-single : (k j : K) (v w : V) → lookup k ((j, v) ∷ []) ≡ some w → (j ≡ k) × (v ≡ w)
  unfolding lookup
  lookup-single k j v w h = (ground (arith, e.beq_iff j k), ground arith)

  pub insert-lookup : (k : K) (w : V) (m : Map K V) → lookup k m ≡ some w → insert k w m ≡ m
  unfolding lookup insert
  insert-lookup k w [] h = cc
  insert-lookup k w ((j, u) ∷ m) h = ground (arith, e.beq_iff j k, insert-lookup k w m)

-- `[...map.values()]`
unfoldable pub values {ℓ κ} : {K : Type ℓ} {V : Type κ} → Map K V → List V
values [] = []
values ((k, v) ∷ m) = v ∷ values m
