-- ===== src/Cron/Occurrence/Search.antt =====
-- packages/core/src/backup/cron-evaluator.ts, getNextCronOccurrence: the code's jumps pass over no
-- occurrence, and its loop ends.
use zima_control.Common.{
  ℕ, zero, suc, ◌+◌, ◌/◌, ◌-◌, ◌≤◌, ◌≡◌, refl, sym, ap, ◌∙◌, inl, inr, true, false, Bool-cases, leb,
  leb→le, arith, nat_eq,
}
use zima_control.Common.Action.{returned, thrown}
use zima_control.Cron.Occurrence.{
  ParsedCronSchedule, cron_expression_invalid, next_turn, after_turn, search_forward,
  horizon_minutes, next_occurrence,
}
use zima_control.Cron.Occurrence.Reference.{is_occurrence, first_from}
use zima_control.Cron.Occurrence.Turns.{Quiet, next_turn-cases}

module _ (parsed : ParsedCronSchedule) where
  first_from-move : (n m t v : ℕ) → n ≡ m → t ≡ v → first_from parsed n t ≡ first_from parsed m v
  first_from-move n m t v p q =
      ap (λ n. first_from parsed n t) p ∙ ap (λ t. first_from parsed m t) q

  pub first_from-next :
      (n t : ℕ)
      → is_occurrence parsed t ≡ false
      → first_from parsed (suc n) t ≡ first_from parsed n (suc t)
  unfolding first_from
  first_from-next n t e = rw (first_from, e) refl

  -- The reference passes over minutes that are no occurrence.
  first_from-skip :
      (k n t : ℕ)
      → Quiet parsed t (t + k)
      → first_from parsed n t ≡ first_from parsed (n - k) (t + k)
  unfolding first_from
  first_from-skip zero n t quiet = first_from-move n (n - 0) t (t + 0) (omega arith) (omega arith)
  first_from-skip (suc k) zero t quiet =
      first_from-move 0 (0 - suc k) (t + suc k) (t + suc k) (omega arith) refl
  first_from-skip (suc k) (suc n) t quiet =
      first_from-next n t (quiet t (omega arith) (omega arith))
      ∙ first_from-skip k n (suc t) (λ u lo hi. quiet u (omega (arith, lo)) (omega (arith, hi)))
      ∙ (first_from-move (n - k) (suc n - suc k) (suc t + k) (t + suc k) (omega arith)
          (omega arith))

  search_on :
      (fuel horizon t : ℕ)
      → leb t horizon ≡ true
      → search_forward parsed (suc fuel) horizon t
        ≡ after_turn (next_turn parsed t) t (λ u. search_forward parsed fuel horizon u)
  unfolding search_forward
  search_on fuel horizon t e = rw (search_forward, e) refl

  search_over :
      (fuel horizon t : ℕ)
      → leb t horizon ≡ false
      → search_forward parsed (suc fuel) horizon t ≡ thrown cron_expression_invalid
  unfolding search_forward
  search_over fuel horizon t e = rw (search_forward, e) refl

  pub first_from-here :
      (n t : ℕ) → is_occurrence parsed t ≡ true → first_from parsed (suc n) t ≡ returned t
  unfolding first_from
  first_from-here n t e = rw (first_from, e) refl

  -- With enough turns the loop gives what the reference does.
  search_forward-first :
      (fuel horizon t : ℕ)
      → suc (suc horizon) ≤ fuel + t
      → 1 ≤ fuel
      → search_forward parsed fuel horizon t ≡ first_from parsed (suc horizon - t) t
  unfolding first_from
  search_forward-first zero horizon t enough some_fuel = absurd (omega (arith, some_fuel))
  search_forward-first (suc fuel) horizon t enough some_fuel = elim (Bool-cases (leb t horizon)) [
    | inr e ↦
        search_over fuel horizon t e
        ∙ first_from-move 0 (suc horizon - t) t t (ground (arith, e)) refl
    | inl e ↦ search_on fuel horizon t e ∙ elim (next_turn-cases parsed t) [
      | inl (f, occ) ↦ rw f (
          sym (first_from-here (horizon - t) t occ)
          ∙ first_from-move (suc (horizon - t)) (suc horizon - t) t t (ground (arith, e)) refl)
      | inr (v, jump) ↦
          let (m, lt, quiet) = jump in
          rw m (
            search_forward-first fuel horizon v (omega (arith, enough, lt))
              (omega (arith, enough, leb→le t horizon e))
            ∙ first_from-move (suc horizon - v) (suc horizon - t - (v - t)) v (t + (v - t))
                (omega (arith, lt)) (omega (arith, lt))
            ∙ sym (
                first_from-skip (v - t) (suc horizon - t) t
                  (λ u lo hi. quiet u lo (omega (arith, hi, lt)))))
    ]
  ]

-- For every schedule and every time, the search for the next occurrence ends, and gives the first minute
-- after the minute of that time at which the schedule is due, looked for minute by minute up to the
-- horizon; it throws where there is none.
pub next_occurrence_lem :
    (parsed : ParsedCronSchedule) (from_ms : ℕ)
    → next_occurrence parsed from_ms ≡ first_from parsed (suc horizon_minutes) (from_ms / 60000 + 1)
unfolding next_occurrence
next_occurrence_lem parsed from_ms =
    search_forward-first parsed (horizon_minutes + 2) (from_ms / 60000 + 1 + horizon_minutes)
      (from_ms / 60000 + 1) (omega arith) (omega arith)
    ∙ first_from-move parsed (suc (from_ms / 60000 + 1 + horizon_minutes) - (from_ms / 60000 + 1))
        (suc horizon_minutes) (from_ms / 60000 + 1) (from_ms / 60000 + 1) (omega arith) refl
