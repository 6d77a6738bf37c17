-- ===== src/Cron/Calendar.antt =====
-- The Gregorian calendar, as `Date` and its UTC methods count it: days from 1 January 1970, and minutes
-- from its midnight. Times before are not modelled.
use zima_control.Common.{
  ℕ, zero, suc, ◌+◌, ◌/◌, ◌%◌, ◌-◌, ◌≤◌, ◌<◌, ◌≡◌, sym, ap, ◌∙◌, Bool, not, ◌||◌, ◌&&◌, nat_beq,
  ltb, arith, if◌then◌else◌,
}

pub record Day : Type 0 where
  pub year : ℕ
  pub month : ℕ
  pub day_of_month : ℕ

abbrev pub is_leap_year : ℕ → Bool
is_leap_year year = nat_beq (year % 4) 0 && (not (nat_beq (year % 100) 0) || nat_beq (year % 400) 0)

unfoldable pub days_in_month : ℕ → ℕ → ℕ
days_in_month year month =
    if nat_beq month 2
    then (if is_leap_year year then 29 else 28)
    else if nat_beq month 4 || nat_beq month 6 || nat_beq month 9 || nat_beq month 11
    then 30
    else 31

unfoldable pub next_day : Day → Day
next_day date =
    if ltb date.day_of_month (days_in_month date.year date.month)
    then record date { day_of_month = suc date.day_of_month }
    else if ltb date.month 12
    then record { year = date.year; month = suc date.month; day_of_month = 1 }
    else record { year = suc date.year; month = 1; day_of_month = 1 }

unfoldable pub date_of : ℕ → Day
date_of zero = record { year = 1970; month = 1; day_of_month = 1 }
date_of (suc n) = next_day (date_of n)

-- The parts of the time `t`.
abbrev pub day_at : ℕ → Day
day_at t = date_of (t / 1440)

abbrev pub month_at : ℕ → ℕ
month_at t = (day_at t).month

abbrev pub day_of_month_at : ℕ → ℕ
day_of_month_at t = (day_at t).day_of_month

-- 1 January 1970 was a Thursday.
abbrev pub day_of_week_at : ℕ → ℕ
day_of_week_at t = (t / 1440 + 4) % 7

abbrev pub hour_at : ℕ → ℕ
hour_at t = t / 60 % 24

abbrev pub minute_at : ℕ → ℕ
minute_at t = t % 60

abbrev pub month_length_at : ℕ → ℕ
month_length_at t = days_in_month (day_at t).year (day_at t).month

days_in_month-positive : (year month : ℕ) → 1 ≤ days_in_month year month
unfolding days_in_month
days_in_month-positive year month = ground arith

next_day-valid :
    (date : Day)
    → 1 ≤ date.day_of_month
    → (1 ≤ (next_day date).day_of_month)
      × ((next_day date).day_of_month ≤ days_in_month (next_day date).year (next_day date).month)
unfolding next_day
next_day-valid date h =
    let same_year = days_in_month-positive date.year (suc date.month) in
    let next_year = days_in_month-positive (suc date.year) 1 in
    (ground (arith, h), ground (arith, h, same_year, next_year))

-- The days of a month are numbered from 1 to its length.
pub date_of-valid :
    (n : ℕ)
    → (1 ≤ (date_of n).day_of_month)
      × ((date_of n).day_of_month ≤ days_in_month (date_of n).year (date_of n).month)
unfolding date_of
date_of-valid zero = (omega arith, days_in_month-positive 1970 1)
date_of-valid (suc n) = next_day-valid (date_of n) (date_of-valid n).0

add_zero : (n : ℕ) → n + 0 ≡ n
add_zero n = omega arith

add_suc : (n k : ℕ) → n + suc k ≡ suc (n + k)
add_suc n k = omega arith

next_day-same_month :
    (date : Day)
    → suc date.day_of_month ≤ days_in_month date.year date.month
    → next_day date ≡ record date { day_of_month = suc date.day_of_month }
unfolding next_day
next_day-same_month date h = ground (arith, h)

-- Within a month the next days differ in their number only.
pub date_of-later :
    (n k : ℕ)
    → (date_of n).day_of_month + k ≤ days_in_month (date_of n).year (date_of n).month
    → date_of (n + k) ≡ record (date_of n) { day_of_month = (date_of n).day_of_month + k }
unfolding date_of
date_of-later n zero h =
    ap date_of (add_zero n)
    ∙ ap (λ d. record (date_of n) { day_of_month = d }) (sym (add_zero (date_of n).day_of_month))
date_of-later n (suc k) h =
    ap date_of (add_suc n k)
    ∙ ap next_day (date_of-later n k (omega (arith, h)))
    ∙ next_day-same_month (record (date_of n) { day_of_month = (date_of n).day_of_month + k })
        (omega (arith, h))
    ∙ ap (λ d. record (date_of n) { day_of_month = d }) (sym (add_suc (date_of n).day_of_month k))

next_day-back :
    (date : Day)
    → 2 ≤ (next_day date).day_of_month
    → ((next_day date).month ≡ date.month) × ((next_day date).day_of_month ≡ suc date.day_of_month)
unfolding next_day
next_day-back date h = (ground (arith, h), ground (arith, h))

next_day-bound : (date : Day) → (next_day date).day_of_month ≤ suc date.day_of_month
unfolding next_day
next_day-bound date = ground arith

minus_zero : (n : ℕ) → n - 0 ≡ n
minus_zero n = omega arith

minus_suc : (n k : ℕ) → suc n - suc k ≡ n - k
minus_suc n k = omega arith

-- So do the days before within the month.
pub date_of-earlier :
    (n k : ℕ)
    → k < (date_of n).day_of_month
    → ((date_of (n - k)).month ≡ (date_of n).month)
      × ((date_of (n - k)).day_of_month + k ≡ (date_of n).day_of_month)
unfolding date_of
date_of-earlier n zero h = (
  ap (λ n. (date_of n).month) (minus_zero n),
  add_zero (date_of (n - 0)).day_of_month ∙ ap (λ n. (date_of n).day_of_month) (minus_zero n),
)
date_of-earlier zero (suc k) h = absurd (omega (arith, h))
date_of-earlier (suc n) (suc k) h =
    let (same_month, one_day) = next_day-back (date_of n) (omega (arith, h)) in
    let (m, d) = date_of-earlier n k (omega (arith, h, one_day)) in
    (
      ap (λ n. (date_of n).month) (minus_suc n k) ∙ m ∙ sym same_month,
      ap (λ n. (date_of n).day_of_month + suc k) (minus_suc n k) ∙ omega (arith, d, one_day),
    )

pub day_of_month-bound : (n : ℕ) → (date_of n).day_of_month ≤ suc n
unfolding date_of
day_of_month-bound zero = omega arith
day_of_month-bound (suc n) = omega (arith, next_day-bound (date_of n), day_of_month-bound n)
