-- ===== src/Cron/Fields/Members.antt =====
-- packages/core/src/backup/cron-evaluator.ts, parseCronField: a loop that counts in steps ends where
-- the step is not zero, and what it adds.
use mathlib.Core.Path.{subst}
use zima_control.Common.{
  ℕ, zero, suc, ◌+◌, ◌*◌, ◌≤◌, ◌≡◌, refl, inl, inr, ◌⊎◌, ◌↔◌, Bool, true, ◌&&◌, List, [], ◌∷◌, none,
  some, Option-cases, Bool-cases, nat_beq, leb, leb→le, includes, nat_eq, nat_beq_iff, all, arith,
}
use zima_control.Cron.Fields.{count_from}

abbrev pub within : ℕ → ℕ → ℕ → Bool
within low high i = leb low i && leb i high

-- The loop ends, and adds numbers between the start and the end only.
pub count_from-within :
    (fuel i end_ step low : ℕ)
    → suc (suc end_) ≤ fuel + i
    → 1 ≤ fuel
    → 1 ≤ step
    → low ≤ i
    → (is_ : List ℕ) × (count_from fuel i end_ (some step) ≡ some is_)
      × (all (within low end_) is_ ≡ true)
unfolding count_from
count_from-within zero i end_ step low enough some_fuel hs hl = absurd (omega (arith, some_fuel))
count_from-within (suc fuel) i end_ step low enough some_fuel hs hl =
    elim (Bool-cases (leb i end_)) [
      | inl e ↦
          let (is_, h, ok) =
            count_from-within fuel (i + step) end_ step low (omega (arith, enough, hs))
              (omega (arith, enough, leb→le i end_ e)) hs (omega (arith, hl)) in
          (i ∷ is_, rw (e, h) refl, ground (arith, ok, e))
      | inr e ↦ ([], rw e refl, refl)
    ]

add_zero : (i : ℕ) → i + 0 ≡ i
add_zero i = omega arith

-- With a step of zero it does not end.
pub count_from-zero : (fuel i end_ : ℕ) → i ≤ end_ → count_from fuel i end_ (some 0) ≡ none
unfolding count_from
count_from-zero zero i end_ h = refl
count_from-zero (suc fuel) i end_ h = rw (add_zero i, count_from-zero fuel i end_ h) (ground arith)

includes-cons :
    (i j : ℕ) (js : List ℕ) → (includes (i ∷ js) j ≡ true) ↔ ((i ≡ j) ⊎ (includes js j ≡ true))
includes-cons i j js = (
  λ h. elim (Bool-cases (nat_beq i j)) [
    | inl e ↦ inl ((nat_beq_iff i j).0 e)
    | inr e ↦ inr (ground (arith, h, e))
  ],
  λ r. elim r [ inl e ↦ ground (arith, e) | inr m ↦ ground (arith, m) ],
)

steps_back : (i j step k : ℕ) → j ≡ i + k * step → (i ≡ j) ⊎ ((n : ℕ) × (j ≡ (i + step) + n * step))
steps_back i j step zero h = inl (omega (arith, h))
steps_back i j step (suc k) h = inr (k, grind (arith, h))

first_added :
    (fuel i end_ step : ℕ) (is_ js : List ℕ)
    → count_from (suc fuel) i end_ (some step) ≡ some is_
    → leb i end_ ≡ true
    → count_from fuel (i + step) end_ (some step) ≡ some js
    → i ∷ js ≡ is_
unfolding count_from
first_added fuel i end_ step is_ js h e g = ground (arith, h, e, g)

-- What the evaluator's loop adds, where it ends, are the numbers up to the end that are some steps after
-- the start.
pub count_from_iff :
    (fuel i end_ step : ℕ) (is_ : List ℕ)
    → count_from fuel i end_ (some step) ≡ some is_
    → (j : ℕ) → (includes is_ j ≡ true) ↔ ((k : ℕ) × (j ≡ i + k * step) × (j ≤ end_))
unfolding count_from
count_from_iff zero i end_ step is_ h j = absurd (cc h)
count_from_iff (suc fuel) i end_ step is_ h j = elim (Bool-cases (leb i end_)) [
  | inl e ↦ elim (Option-cases (count_from fuel (i + step) end_ (some step))) [
    | inl g ↦ absurd (ground (arith, h, e, g))
    | inr (js, g) ↦
        let (to, from) = count_from_iff fuel (i + step) end_ step js g j in
        subst (λ xs. (includes xs j ≡ true) ↔ ((k : ℕ) × (j ≡ i + k * step) × (j ≤ end_)))
          (first_added fuel i end_ step is_ js h e g)
          (
            λ m. elim ((includes-cons i j js).0 m) [
              | inl q ↦ (0, omega (arith, q), omega (arith, q, leb→le i end_ e))
              | inr m ↦ let (k, q, le) = to m in (suc k, grind (arith, q), le)
            ],
            λ (k, q, le). (includes-cons i j js).1 (elim (steps_back i j step k q) [
              | inl r ↦ inl r
              | inr (n, r) ↦ inr (from (n, r, le))
            ]),
          )
  ]
  | inr e ↦ (λ m. absurd (ground (arith, h, e, m)), λ (k, q, le). absurd (ground (arith, le, q, e)))
]
