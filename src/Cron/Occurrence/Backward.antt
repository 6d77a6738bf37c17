-- ===== src/Cron/Occurrence/Backward.antt =====
-- packages/core/src/backup/cron-evaluator.ts, getPreviousCronOccurrence: its search ends, and what it
-- gives.
use zima_control.Common.{
  ℕ, zero, suc, ◌+◌, ◌/◌, ◌-◌, ◌≤◌, ◌≡◌, refl, sym, ap, ◌∙◌, inl, inr, Bool, true, false,
  Bool-cases, leb, leb→le, arith, if◌then◌else◌,
}
use zima_control.Common.Action.{returned, thrown}
use zima_control.Cron.Occurrence.{
  ParsedCronSchedule, cron_expression_invalid, minute_before, previous_turn, search_start,
  after_turn, search_backward, horizon_minutes, previous_occurrence,
}
use zima_control.Cron.Occurrence.Reference.{is_occurrence, last_until}
use zima_control.Cron.Occurrence.Turns.{Quiet}
use zima_control.Cron.Occurrence.Before.{previous_turn-cases}

module _ (parsed : ParsedCronSchedule) where
  last_until-move : (n m t v : ℕ) → n ≡ m → t ≡ v → last_until parsed n t ≡ last_until parsed m v
  last_until-move n m t v p q =
      ap (λ n. last_until parsed n t) p ∙ ap (λ t. last_until parsed m t) q

  pub last_until-next :
      (n t : ℕ)
      → is_occurrence parsed t ≡ false
      → last_until parsed (suc n) t ≡ last_until parsed n (t - 1)
  unfolding last_until
  last_until-next n t e = rw (last_until, e) refl

  pub last_until-here :
      (n t : ℕ) → is_occurrence parsed t ≡ true → last_until parsed (suc n) t ≡ returned t
  unfolding last_until
  last_until-here n t e = rw (last_until, e) refl

  last_until-none : (n t : ℕ) → n ≡ 0 → last_until parsed n t ≡ thrown cron_expression_invalid
  unfolding last_until
  last_until-none n t e = rw e refl

  -- The reference passes over minutes that are no occurrence.
  last_until-skip :
      (k n t : ℕ)
      → k ≤ suc t
      → Quiet parsed (suc t - k) (suc t)
      → last_until parsed n t ≡ last_until parsed (n - k) (t - k)
  last_until-skip zero n t hk quiet =
      last_until-move n (n - 0) t (t - 0) (omega arith) (omega arith)
  last_until-skip (suc k) zero t hk quiet =
      last_until-none 0 t refl ∙ sym (last_until-none (0 - suc k) (t - suc k) (omega arith))
  last_until-skip (suc k) (suc n) zero hk quiet =
      last_until-next n 0 (quiet 0 (omega (arith, hk)) (omega arith))
      ∙ last_until-move n (suc n - suc k) (0 - 1) (0 - suc k) (omega (arith, hk))
          (omega (arith, hk))
  last_until-skip (suc k) (suc n) (suc t) hk quiet =
      last_until-next n (suc t) (quiet (suc t) (omega arith) (omega arith))
      ∙ last_until-move n n (suc t - 1) t refl (omega arith)
      ∙ last_until-skip k n t (omega (arith, hk))
          (λ u lo hi. quiet u (omega (arith, lo)) (omega (arith, hi)))
      ∙ last_until-move (n - k) (suc n - suc k) (t - k) (suc t - suc k) (omega arith) (omega arith)

  search_on :
      (fuel horizon t : ℕ)
      → leb horizon t ≡ true
      → search_backward parsed (suc fuel) horizon t
        ≡ after_turn (previous_turn parsed t) t (λ u. search_backward parsed fuel horizon u)
  unfolding search_backward
  search_on fuel horizon t e = rw (search_backward, e) refl

  search_over :
      (fuel horizon t : ℕ)
      → leb horizon t ≡ false
      → search_backward parsed (suc fuel) horizon t ≡ thrown cron_expression_invalid
  unfolding search_backward
  search_over fuel horizon t e = rw (search_backward, e) refl

  -- From the minute before `low` on, the loop and the reference agree.
  Agree : ℕ → ℕ → ℕ → Type 0
  Agree fuel horizon t =
      search_backward parsed fuel horizon t ≡ last_until parsed (suc t - horizon) t

  go_on :
      (fuel horizon t low : ℕ)
      → low ≤ t
      → Quiet parsed low (suc t)
      → horizon ≤ t
      → ((v : ℕ) → suc v ≡ low → Agree fuel horizon v)
      → after_turn (minute_before low) t (λ u. search_backward parsed fuel horizon u)
        ≡ last_until parsed (suc t - horizon) t
  unfolding Agree
  go_on fuel horizon t zero hl quiet on agree = sym (
      last_until-skip (suc t) (suc t - horizon) t (omega arith)
        (λ u lo hi. quiet u (omega arith) hi)
      ∙ last_until-none (suc t - horizon - suc t) (t - suc t) (omega arith))
  go_on fuel horizon t (suc v) hl quiet on agree =
      agree v refl
      ∙ last_until-move (suc v - horizon) (suc t - horizon - (t - v)) v (t - (t - v))
          (omega (arith, hl, on)) (omega (arith, hl))
      ∙ sym (
          last_until-skip (t - v) (suc t - horizon) t (omega arith)
            (λ u lo hi. quiet u (omega (arith, lo, hl)) hi))

  -- With enough turns the loop gives what the reference does.
  search_backward-last :
      (fuel horizon t : ℕ)
      → suc (suc t) ≤ fuel + horizon
      → 1 ≤ fuel
      → search_backward parsed fuel horizon t ≡ last_until parsed (suc t - horizon) t
  unfolding Agree
  search_backward-last zero horizon t enough some_fuel = absurd (omega (arith, some_fuel))
  search_backward-last (suc fuel) horizon t enough some_fuel = elim (Bool-cases (leb horizon t)) [
    | inr e ↦
        search_over fuel horizon t e ∙ sym (last_until-none (suc t - horizon) t (ground (arith, e)))
    | inl e ↦ search_on fuel horizon t e ∙ elim (previous_turn-cases parsed t) [
      | inl (f, occ) ↦ rw f (
          sym (last_until-here (t - horizon) t occ)
          ∙ last_until-move (suc (t - horizon)) (suc t - horizon) t t (ground (arith, e)) refl)
      | inr (low, jump) ↦
          let (m, hl, quiet) = jump in
          rw m (
            go_on fuel horizon t low hl quiet (leb→le horizon t e) (λ v same.
              search_backward-last fuel horizon v (omega (arith, enough, hl, same))
                (omega (arith, enough, leb→le horizon t e))))
    ]
  ]

start_late :
    (m : ℕ) (inclusive : Bool)
    → suc horizon_minutes ≤ m
    → horizon_minutes ≤ (if inclusive then m else m - 1)
start_late m true h = omega (arith, h)
start_late m false h = omega (arith, h)

-- For every schedule, and every time at least five years and a minute after the start of 1970, the search for the
-- previous occurrence ends, and gives the last minute up to that of the time, or before it where the time
-- is not included, at which the schedule is due, looked for minute by minute back to the horizon; it
-- throws where there is none.
pub previous_occurrence_lem :
    (parsed : ParsedCronSchedule) (from_ms : ℕ) (inclusive : Bool)
    → suc horizon_minutes ≤ from_ms / 60000
    → previous_occurrence parsed from_ms inclusive
      ≡ last_until parsed (suc horizon_minutes) (search_start from_ms inclusive)
unfolding previous_occurrence
previous_occurrence_lem parsed from_ms inclusive late =
    let start = search_start from_ms inclusive in
    rw (is_late (from_ms / 60000) late) (
      search_backward-last parsed (horizon_minutes + 2) (start - horizon_minutes) start
        (omega arith) (omega arith)
      ∙ last_until-move parsed (suc start - (start - horizon_minutes)) (suc horizon_minutes) start
          start (omega (arith, start_late (from_ms / 60000) inclusive late)) refl)
  where
    is_late : (m : ℕ) → suc horizon_minutes ≤ m → leb m horizon_minutes ≡ false
    is_late m h = ground (arith, h)
