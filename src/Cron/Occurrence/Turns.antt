-- ===== src/Cron/Occurrence/Turns.antt =====
-- packages/core/src/backup/cron-evaluator.ts, getNextCronOccurrence: the code's jumps pass over no
-- occurrence, whatever makes the cursor jump.
use zima_control.Common.{
  ℕ, ◌+◌, ◌*◌, ◌/◌, ◌%◌, ◌-◌, ◌≤◌, ◌<◌, ◌≡◌, ◌⊎◌, refl, ap, ◌∙◌, inl, inr, true, false, Bool-cases,
  ltb, arith, includes, nat_eq,
}
use zima_control.Cron.Calendar.{
  date_of, month_at, day_of_month_at, day_of_week_at, hour_at, minute_at, month_length_at,
  date_of-valid, date_of-later,
}
use zima_control.Cron.Occurrence.{
  ParsedCronSchedule, matches_day, found, move_to, next_month_start, next_turn,
}
use zima_control.Cron.Occurrence.Reference.{is_occurrence}

-- No occurrence among the minutes from `t` up to `end_`.
abbrev pub Quiet : ParsedCronSchedule → ℕ → ℕ → Type 0
Quiet parsed t end_ = (u : ℕ) → t ≤ u → u < end_ → is_occurrence parsed u ≡ false

module _ (parsed : ParsedCronSchedule) where
  pub outside_month :
      (u : ℕ) → includes parsed.months (month_at u) ≡ false → is_occurrence parsed u ≡ false
  unfolding is_occurrence
  outside_month u e = rw e refl

  pub outside_day :
      (u : ℕ)
      → matches_day parsed (day_of_month_at u) (day_of_week_at u) ≡ false
      → is_occurrence parsed u ≡ false
  unfolding is_occurrence
  outside_day u e = elim (Bool-cases (includes parsed.months (month_at u))) [
    | inl m ↦ rw (m, e) refl
    | inr m ↦ rw m refl
  ]

  pub outside_hour :
      (u : ℕ) → includes parsed.hours (hour_at u) ≡ false → is_occurrence parsed u ≡ false
  unfolding is_occurrence
  outside_hour u e = ground (arith, e)

  pub outside_minute :
      (u : ℕ) → includes parsed.minutes (minute_at u) ≡ false → is_occurrence parsed u ≡ false
  unfolding is_occurrence
  outside_minute u e = ground (arith, e)

month_at-same : (t u : ℕ) → t ≤ u → u < next_month_start t → month_at u ≡ month_at t
month_at-same t u lo hi =
    let j = u / 1440 - t / 1440 in
    ap (λ n. (date_of n).month) (day_later t u lo)
    ∙ ap (λ d. d.month)
        (date_of-later (t / 1440) j (omega (arith, lo, hi, (date_of-valid (t / 1440)).1)))
  where
    day_later : (t u : ℕ) → t ≤ u → u / 1440 ≡ t / 1440 + (u / 1440 - t / 1440)
    day_later t u lo = omega arith

same_day : (t u : ℕ) → t ≤ u → u < (t / 1440 + 1) * 1440 → u / 1440 ≡ t / 1440
same_day t u lo hi = omega arith

same_hour : (t u : ℕ) → t ≤ u → u < (t / 60 + 1) * 60 → u / 60 ≡ t / 60
same_hour t u lo hi = omega arith

one_minute : (t u : ℕ) → t ≤ u → u < t + 1 → u ≡ t
one_minute t u lo hi = omega arith

in_month : (t : ℕ) → ltb (month_length_at t) (day_of_month_at t) ≡ false
in_month t = let valid = (date_of-valid (t / 1440)).1 in ground (arith, valid)

-- A turn that moves the cursor moves it on, past minutes that are no occurrence.
abbrev pub Jump : ParsedCronSchedule → ℕ → ℕ → Type 0
Jump parsed t v = (next_turn parsed t ≡ move_to v) × (t < v) × Quiet parsed t v

module _ (parsed : ParsedCronSchedule) (t : ℕ) where
  Jump-month : includes parsed.months (month_at t) ≡ false → Jump parsed t (next_month_start t)
  unfolding next_turn
  Jump-month e = (
    rw e refl,
    omega (arith, (date_of-valid (t / 1440)).1),
    λ u lo hi. outside_month parsed u (ap (includes parsed.months) (month_at-same t u lo hi) ∙ e),
  )

  Jump-day :
      includes parsed.months (month_at t) ≡ true
      → matches_day parsed (day_of_month_at t) (day_of_week_at t) ≡ false
      → Jump parsed t ((t / 1440 + 1) * 1440)
  unfolding next_turn
  Jump-day m e = (
    ground (arith, m, e),
    omega arith,
    λ u lo hi. outside_day parsed u (
        ap (λ n. matches_day parsed (date_of n).day_of_month ((n + 4) % 7)) (same_day t u lo hi)
        ∙ e),
  )

  Jump-hour :
      includes parsed.months (month_at t) ≡ true
      → matches_day parsed (day_of_month_at t) (day_of_week_at t) ≡ true
      → includes parsed.hours (hour_at t) ≡ false
      → Jump parsed t ((t / 60 + 1) * 60)
  unfolding next_turn
  Jump-hour m d e = (
    rw (m, in_month t, d, e) refl,
    omega arith,
    λ u lo hi.
        outside_hour parsed u (ap (λ n. includes parsed.hours (n % 24)) (same_hour t u lo hi) ∙ e),
  )

  Jump-minute :
      includes parsed.months (month_at t) ≡ true
      → matches_day parsed (day_of_month_at t) (day_of_week_at t) ≡ true
      → includes parsed.hours (hour_at t) ≡ true
      → includes parsed.minutes (minute_at t) ≡ false
      → Jump parsed t (t + 1)
  unfolding next_turn
  Jump-minute m d h e = (
    rw (m, in_month t, d, h, e) refl,
    omega arith,
    λ u lo hi.
        outside_minute parsed u
          (ap (λ n. includes parsed.minutes (minute_at n)) (one_minute t u lo hi) ∙ e),
  )

  stays :
      includes parsed.months (month_at t) ≡ true
      → matches_day parsed (day_of_month_at t) (day_of_week_at t) ≡ true
      → includes parsed.hours (hour_at t) ≡ true
      → includes parsed.minutes (minute_at t) ≡ true
      → (next_turn parsed t ≡ found) × (is_occurrence parsed t ≡ true)
  unfolding next_turn is_occurrence
  stays m d h e = (rw (m, in_month t, d, h, e) refl, rw (m, d, h, e) refl)

  -- A turn finds an occurrence, or jumps.
  pub next_turn-cases :
      ((next_turn parsed t ≡ found) × (is_occurrence parsed t ≡ true)) ⊎ ((v : ℕ) × Jump parsed t v)
  next_turn-cases = elim (Bool-cases (includes parsed.months (month_at t))) [
    | inr m ↦ inr (next_month_start t, Jump-month m)
    | inl m ↦ elim (Bool-cases (matches_day parsed (day_of_month_at t) (day_of_week_at t))) [
      | inr d ↦ inr ((t / 1440 + 1) * 1440, Jump-day m d)
      | inl d ↦ elim (Bool-cases (includes parsed.hours (hour_at t))) [
        | inr h ↦ inr ((t / 60 + 1) * 60, Jump-hour m d h)
        | inl h ↦ elim (Bool-cases (includes parsed.minutes (minute_at t))) [
          | inr e ↦ inr (t + 1, Jump-minute m d h e)
          | inl e ↦ inl (stays m d h e)
        ]
      ]
    ]
  ]
