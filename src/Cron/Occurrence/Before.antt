-- ===== src/Cron/Occurrence/Before.antt =====
-- packages/core/src/backup/cron-evaluator.ts, getPreviousCronOccurrence: the minutes between the cursor
-- and the place that it jumps back to are no occurrence.
use zima_control.Common.{
  ℕ, suc, ◌+◌, ◌*◌, ◌/◌, ◌%◌, ◌-◌, ◌≤◌, ◌<◌, ◌≡◌, ◌⊎◌, refl, ap, ◌∙◌, inl, inr, true, false,
  Bool-cases, arith, includes, nat_eq,
}
use zima_control.Cron.Calendar.{
  date_of, month_at, day_of_month_at, day_of_week_at, hour_at, minute_at, date_of-valid,
  date_of-earlier, day_of_month-bound,
}
use zima_control.Cron.Occurrence.{
  ParsedCronSchedule, matches_day, found, month_start, minute_before, previous_turn,
}
use zima_control.Cron.Occurrence.Reference.{is_occurrence}
use zima_control.Cron.Occurrence.Turns.{
  Quiet, outside_month, outside_day, outside_hour, outside_minute,
}

-- A turn that moves the cursor back moves it before `low`, past minutes that are no occurrence.
abbrev pub JumpBack : ParsedCronSchedule → ℕ → ℕ → Type 0
JumpBack parsed t low =
    (previous_turn parsed t ≡ minute_before low) × (low ≤ t) × Quiet parsed low (suc t)

month_at-same : (t u : ℕ) → month_start t ≤ u → u < suc t → month_at u ≡ month_at t
month_at-same t u lo hi =
    let j = t / 1440 - u / 1440 in
    ap (λ n. (date_of n).month) (day_earlier t u hi)
    ∙ (date_of-earlier (t / 1440) j
        (omega (arith, lo, hi, day_of_month-bound (t / 1440), (date_of-valid (t / 1440)).0))).0
  where
    day_earlier : (t u : ℕ) → u < suc t → u / 1440 ≡ t / 1440 - (t / 1440 - u / 1440)
    day_earlier t u hi = omega (arith, hi)

same_day : (t u : ℕ) → t / 1440 * 1440 ≤ u → u < suc t → u / 1440 ≡ t / 1440
same_day t u lo hi = omega (arith, lo, hi)

same_hour : (t u : ℕ) → t / 60 * 60 ≤ u → u < suc t → u / 60 ≡ t / 60
same_hour t u lo hi = omega (arith, lo, hi)

same_minute : (t u : ℕ) → t ≤ u → u < suc t → u ≡ t
same_minute t u lo hi = omega (arith, lo, hi)

module _ (parsed : ParsedCronSchedule) (t : ℕ) where
  JumpBack-month : includes parsed.months (month_at t) ≡ false → JumpBack parsed t (month_start t)
  unfolding previous_turn
  JumpBack-month e = (
    rw e refl,
    omega (arith, day_of_month-bound (t / 1440), (date_of-valid (t / 1440)).0),
    λ u lo hi. outside_month parsed u (ap (includes parsed.months) (month_at-same t u lo hi) ∙ e),
  )

  JumpBack-day :
      includes parsed.months (month_at t) ≡ true
      → matches_day parsed (day_of_month_at t) (day_of_week_at t) ≡ false
      → JumpBack parsed t (t / 1440 * 1440)
  unfolding previous_turn
  JumpBack-day m e = (
    rw (m, e) refl,
    omega arith,
    λ u lo hi. outside_day parsed u (
        ap (λ n. matches_day parsed (date_of n).day_of_month ((n + 4) % 7)) (same_day t u lo hi)
        ∙ e),
  )

  JumpBack-hour :
      includes parsed.months (month_at t) ≡ true
      → matches_day parsed (day_of_month_at t) (day_of_week_at t) ≡ true
      → includes parsed.hours (hour_at t) ≡ false
      → JumpBack parsed t (t / 60 * 60)
  unfolding previous_turn
  JumpBack-hour m d e = (
    rw (m, d, e) refl,
    omega arith,
    λ u lo hi.
        outside_hour parsed u (ap (λ n. includes parsed.hours (n % 24)) (same_hour t u lo hi) ∙ e),
  )

  JumpBack-minute :
      includes parsed.months (month_at t) ≡ true
      → matches_day parsed (day_of_month_at t) (day_of_week_at t) ≡ true
      → includes parsed.hours (hour_at t) ≡ true
      → includes parsed.minutes (minute_at t) ≡ false
      → JumpBack parsed t t
  unfolding previous_turn
  JumpBack-minute m d h e = (
    rw (m, d, h, e) refl,
    omega arith,
    λ u lo hi.
        outside_minute parsed u
          (ap (λ n. includes parsed.minutes (minute_at n)) (same_minute t u lo hi) ∙ e),
  )

  stays :
      includes parsed.months (month_at t) ≡ true
      → matches_day parsed (day_of_month_at t) (day_of_week_at t) ≡ true
      → includes parsed.hours (hour_at t) ≡ true
      → includes parsed.minutes (minute_at t) ≡ true
      → (previous_turn parsed t ≡ found) × (is_occurrence parsed t ≡ true)
  unfolding previous_turn is_occurrence
  stays m d h e = (rw (m, d, h, e) refl, rw (m, d, h, e) refl)

  -- A turn finds an occurrence, or jumps back.
  pub previous_turn-cases :
      ((previous_turn parsed t ≡ found) × (is_occurrence parsed t ≡ true))
      ⊎ ((low : ℕ) × JumpBack parsed t low)
  previous_turn-cases = elim (Bool-cases (includes parsed.months (month_at t))) [
    | inr m ↦ inr (month_start t, JumpBack-month m)
    | inl m ↦ elim (Bool-cases (matches_day parsed (day_of_month_at t) (day_of_week_at t))) [
      | inr d ↦ inr (t / 1440 * 1440, JumpBack-day m d)
      | inl d ↦ elim (Bool-cases (includes parsed.hours (hour_at t))) [
        | inr h ↦ inr (t / 60 * 60, JumpBack-hour m d h)
        | inl h ↦ elim (Bool-cases (includes parsed.minutes (minute_at t))) [
          | inr e ↦ inr (t, JumpBack-minute m d h e)
          | inl e ↦ inl (stays m d h e)
        ]
      ]
    ]
  ]
