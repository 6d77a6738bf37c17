-- ===== src/Mutation/Aggregate/Laws.antt =====
-- What the aggregate says of the steps.
use Prim.Native.Nat.{ℕ, max}
use zima_control.Common.{
  ap, ◌∙◌, ◌≡◌, refl, Bool, true, false, not, List, [], ◌∷◌, ◌≢◌, none, some, ◌==◌, ◌||◌, any, all,
  find, Option-cases, Bool-cases, inl, inr, arith,
}
use zima_control.Mutation.Status.{
  succeeded, indeterminate, ok, is_terminal_action_status, status_eq, err, Failure, type_error,
  Result-cases,
}
use zima_control.Mutation.Types.{ExternalEffectState, effect_code, OperationStep, effect_eq}
use zima_control.Mutation.Aggregate.{
  ParentMutationAggregate, aggregate_parent_from_steps, aggregate_effect, aggregate_settled,
}

abbrev is_unsettled : OperationStep → Bool
is_unsettled step = not (is_terminal_action_status step.status)

-- What `find` returns passes the test.
find_sound :
    (p : OperationStep → Bool) (xs : List OperationStep) (x : OperationStep)
    → find p xs ≡ some x
    → p x ≡ true
find_sound p [] x h = cc
find_sound p (y ∷ ys) x h = ground (arith, find_sound p ys x)

any-find :
    (p : OperationStep → Bool) (xs : List OperationStep) → find p xs ≡ none → any p xs ≡ false
any-find p [] h = refl
any-find p (y ∷ ys) h = ground (arith, any-find p ys)

find-any :
    (p : OperationStep → Bool) (xs : List OperationStep) (x : OperationStep)
    → find p xs ≡ some x
    → any p xs ≡ true
find-any p [] x h = cc
find-any p (y ∷ ys) x h = ground (arith, find-any p ys x)

abbrev pub is_indeterminate : OperationStep → Bool
is_indeterminate step = step.status == indeterminate

abbrev pub is_succeeded : OperationStep → Bool
is_succeeded step = step.status == succeeded

abbrev pub is_settled : OperationStep → Bool
is_settled step = is_terminal_action_status step.status

-- The last lines give `rejected`, `timed_out` or `failed`.
aggregate_settled_status :
    (effect : ExternalEffectState) (steps : List OperationStep)
    → let a = aggregate_settled effect steps in
      ((a.status == indeterminate) ≡ false)
      × ((a.status == succeeded) ≡ false)
      × (is_terminal_action_status a.status ≡ true)
      × (a.external_effect ≡ effect)
unfolding aggregate_settled is_terminal_action_status
aggregate_settled_status effect steps = (ground arith, ground arith, ground arith, ground arith)

unsettled-find :
    (steps : List OperationStep) → find is_unsettled steps ≡ none → all is_settled steps ≡ true
unsettled-find [] h = refl
unsettled-find (x ∷ xs) h = ground (arith, unsettled-find xs)

is_terminal_indeterminate : is_terminal_action_status indeterminate ≡ true
unfolding is_terminal_action_status
is_terminal_indeterminate = refl

is_terminal_succeeded : is_terminal_action_status succeeded ≡ true
unfolding is_terminal_action_status
is_terminal_succeeded = refl

unsettled_status :
    (s : OperationStep)
    → is_unsettled s ≡ true
    → (is_indeterminate s ≡ false) × (is_succeeded s ≡ false) × (is_settled s ≡ false)
unfolding is_terminal_action_status
unsettled_status s h = ground arith

find-unsettled :
    (steps : List OperationStep) (s : OperationStep)
    → find is_unsettled steps ≡ some s
    → all is_settled steps ≡ false
find-unsettled [] s h = cc
find-unsettled (x ∷ xs) s h = ground (arith, find-unsettled xs s)

all-succeeded :
    (steps : List OperationStep) → all is_succeeded steps ≡ true → all is_settled steps ≡ true
unfolding is_terminal_action_status
all-succeeded [] h = refl
all-succeeded (x ∷ xs) h = ground (arith, all-succeeded xs)

any-indeterminate :
    (steps : List OperationStep)
    → any is_indeterminate steps ≡ true
    → all is_succeeded steps ≡ false
any-indeterminate [] h = cc
any-indeterminate (x ∷ xs) h = ground (arith, any-indeterminate xs)

-- Whenever the aggregate exists, it is indeterminate exactly if some step is, succeeded exactly if
-- every step is, and terminal exactly if some step is indeterminate or every step is terminal.
pub aggregate_status_lem :
    (steps : List OperationStep) (a : ParentMutationAggregate)
    → aggregate_parent_from_steps steps ≡ ok a
    → ((a.status == indeterminate) ≡ any is_indeterminate steps)
      × ((a.status == succeeded) ≡ all is_succeeded steps)
      × (is_terminal_action_status a.status ≡ (any is_indeterminate steps || all is_settled steps))
unfolding aggregate_parent_from_steps
aggregate_status_lem [] a h = (cc, cc, cc)
aggregate_status_lem (x ∷ xs) a h = elim (Option-cases (find is_indeterminate (x ∷ xs))) [
  | inr (u, e) ↦
      let hit = find-any is_indeterminate (x ∷ xs) u e in
      (
        ground (arith, hit),
        ground (arith, any-indeterminate (x ∷ xs) hit),
        ground (arith, hit, is_terminal_indeterminate),
      )
  | inl e ↦
      let miss = any-find is_indeterminate (x ∷ xs) e in
      elim (Bool-cases (all is_succeeded (x ∷ xs))) [
        | inl won ↦ (
          ground (arith, miss),
          ground (arith, miss),
          ground (arith, miss, is_terminal_succeeded, all-succeeded (x ∷ xs) won),
        )
        | inr lost ↦ elim (Option-cases (find is_unsettled (x ∷ xs))) [
          | inr (u, f) ↦
              let live = find_sound is_unsettled (x ∷ xs) u f in
              let open_status = unsettled_status u live in
              (
                ground (arith, miss, open_status),
                ground (arith, lost, open_status),
                ground (arith, miss, open_status, find-unsettled (x ∷ xs) u f),
              )
          | inl f ↦
              let s = aggregate_settled_status (aggregate_effect (x ∷ xs)) (x ∷ xs) in
              (
                ground (arith, miss, s),
                ground (arith, lost, s),
                ground (arith, miss, s, unsettled-find (x ∷ xs) f),
              )
        ]
      ]
]

-- The most serious external effect among the steps, by its position in the enumeration.
abbrev pub worst_effect : List OperationStep → ℕ
worst_effect [] = 0
worst_effect (s ∷ steps) = max (effect_code s.external_effect) (worst_effect steps)

worst-any : (steps : List OperationStep) → effect_code (aggregate_effect steps) ≡ worst_effect steps
unfolding aggregate_effect
worst-any [] = refl
worst-any (s ∷ steps) = ground (arith, worst-any steps)

aggregate-effect :
    (steps : List OperationStep) (a : ParentMutationAggregate)
    → aggregate_parent_from_steps steps ≡ ok a
    → a.external_effect ≡ aggregate_effect steps
unfolding aggregate_parent_from_steps
aggregate-effect [] a h = cc
aggregate-effect (s ∷ rest) a h =
    ground (arith, aggregate_settled_status (aggregate_effect (s ∷ rest)) (s ∷ rest))

aggregate-total :
    (s : OperationStep) (rest : List OperationStep) (f : Failure)
    → aggregate_parent_from_steps (s ∷ rest) ≢ err f
unfolding aggregate_parent_from_steps
aggregate-total s rest f = ground arith

-- A parent with at least one step has an aggregate, and its external effect is the most serious
-- one of its steps.
pub aggregate_effect_lem :
    (s : OperationStep) (rest : List OperationStep)
    → (a : ParentMutationAggregate) × (aggregate_parent_from_steps (s ∷ rest) ≡ ok a)
      × (effect_code a.external_effect ≡ worst_effect (s ∷ rest))
aggregate_effect_lem s rest = elim (Result-cases (aggregate_parent_from_steps (s ∷ rest))) [
  | inl (a, e) ↦ (a, e, ap effect_code (aggregate-effect (s ∷ rest) a e) ∙ worst-any (s ∷ rest))
  | inr (f, e) ↦ absurd (aggregate-total s rest f e)
]

-- The aggregate throws only on an empty list of steps, and then a `TypeError`.
pub aggregate-error :
    (steps : List OperationStep) (f : Failure)
    → aggregate_parent_from_steps steps ≡ err f
    → f ≡ type_error
unfolding aggregate_parent_from_steps
aggregate-error [] f h = cc
aggregate-error (s ∷ rest) f h = absurd (aggregate-total s rest f h)
