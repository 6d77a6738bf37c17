-- ===== src/Cron/Occurrence/Reference.antt =====
-- packages/core/src/backup/cron-evaluator.ts: when an occurrence is due, minute by minute, without the
-- jumps of the code.
use zima_control.Common.{ℕ, zero, suc, ◌-◌, Bool, true, false, ◌&&◌, includes, nat_eq}
use zima_control.Common.Action.{Outcome, returned, thrown}
use zima_control.Cron.Calendar.{month_at, day_of_month_at, day_of_week_at, hour_at, minute_at}
use zima_control.Cron.Occurrence.{
  ParsedCronSchedule, CronError, cron_expression_invalid, matches_day,
}

-- Whether the minute `t` is one of the schedule's.
unfoldable pub is_occurrence : ParsedCronSchedule → ℕ → Bool
is_occurrence parsed t =
    includes parsed.months (month_at t)
    && matches_day parsed (day_of_month_at t) (day_of_week_at t)
    && includes parsed.hours (hour_at t)
    && includes parsed.minutes (minute_at t)

-- The first occurrence among `n` minutes from `t` on.
unfoldable pub first_from : ParsedCronSchedule → ℕ → ℕ → Outcome CronError ℕ
first_from parsed zero t = thrown cron_expression_invalid
first_from parsed (suc n) t = elim (is_occurrence parsed t) [
  | true ↦ returned t
  | false ↦ first_from parsed n (suc t)
]

-- The last occurrence among `n` minutes from `t` back.
unfoldable pub last_until : ParsedCronSchedule → ℕ → ℕ → Outcome CronError ℕ
last_until parsed zero t = thrown cron_expression_invalid
last_until parsed (suc n) t = elim (is_occurrence parsed t) [
  | true ↦ returned t
  | false ↦ last_until parsed n (t - 1)
]
