-- ===== src/Cron/Occurrence.antt =====
-- packages/core/src/backup/cron-evaluator.ts: the schedule of an expression, and the occurrence before
-- and after a time. The cursor is a number of minutes, since it has no seconds, and the code's loops
-- have fuel for their turns. `out_of_turns` stands for a loop that has not ended within them, and
-- `before_1970` for a search whose horizon lies before the times of the model.
pub mod Reference
pub mod Turns
pub mod Search
pub mod Before
pub mod Backward
pub mod Due
pub mod Schedules
use zima_control.Common.{
  ℕ, zero, suc, ◌+◌, ◌*◌, ◌/◌, ◌%◌, ◌-◌, Bool, true, false, not, ◌||◌, ◌&&◌, List, [], ◌∷◌, Option,
  none, some, nat_beq, ltb, leb, if◌then◌else◌, includes, nat_eq,
}
use zima_control.Common.Action.{Outcome, returned, thrown}
use zima_control.Cron.Words.{Text, NumberOf, trim, split_spaces}
use zima_control.Cron.Validator.{validate_cron_expression, is_star}
use zima_control.Cron.Fields.{Numbers, parse_cron_field}
use zima_control.Cron.Calendar.{
  day_at, month_at, day_of_month_at, day_of_week_at, hour_at, minute_at, month_length_at,
}

pub record ParsedCronSchedule : Type 0 where
  pub minutes : List ℕ
  pub hours : List ℕ
  pub days_of_month : List ℕ
  pub months : List ℕ
  pub days_of_week : List ℕ
  pub is_day_of_month_wildcard : Bool
  pub is_day_of_week_wildcard : Bool

pub data CronError : Type 0 where
  cron_expression_invalid out_of_turns before_1970 : CronError

abbrev pub schedule_from :
    Numbers
    → Numbers
    → Numbers
    → Numbers
    → Numbers
    → Bool
    → Bool
    → Outcome CronError ParsedCronSchedule
schedule_from (some minutes) (some hours) (some days) (some months) (some weekdays) any_day
      any_weekday =
    returned (record {
      minutes = minutes;
      hours = hours;
      days_of_month = days;
      months = months;
      days_of_week = weekdays;
      is_day_of_month_wildcard = any_day;
      is_day_of_week_wildcard = any_weekday;
    })
schedule_from _ _ _ _ _ any_day any_weekday = thrown out_of_turns

-- Each loop over a field may take 61 turns.
abbrev pub schedule_of : NumberOf → List Text → Outcome CronError ParsedCronSchedule
schedule_of other (minute ∷ hour ∷ day ∷ month ∷ weekday ∷ []) =
    schedule_from (parse_cron_field other 61 minute 0 59 false)
      (parse_cron_field other 61 hour 0 23 false) (parse_cron_field other 61 day 1 31 false)
      (parse_cron_field other 61 month 1 12 false) (parse_cron_field other 61 weekday 0 7 true)
      (is_star day) (is_star weekday)
schedule_of other _ = thrown cron_expression_invalid

unfoldable pub parse_cron_schedule : NumberOf → Text → Outcome CronError ParsedCronSchedule
parse_cron_schedule other expression =
    if not (validate_cron_expression other expression)
    then thrown cron_expression_invalid
    else schedule_of other (split_spaces false (trim expression))

unfoldable pub matches_day : ParsedCronSchedule → ℕ → ℕ → Bool
matches_day parsed day_of_month day_of_week =
    if parsed.is_day_of_month_wildcard && parsed.is_day_of_week_wildcard
    then true
    else if not parsed.is_day_of_month_wildcard && parsed.is_day_of_week_wildcard
    then includes parsed.days_of_month day_of_month
    else if parsed.is_day_of_month_wildcard && not parsed.is_day_of_week_wildcard
    then includes parsed.days_of_week day_of_week
    else includes parsed.days_of_month day_of_month || includes parsed.days_of_week day_of_week

-- What one turn of a loop makes of the cursor.
pub data Turn : Type 0 where
  found : Turn
  move_to : ℕ → Turn
  leave : Turn

-- The first minute of the next month, and of the next day and hour.
abbrev pub next_month_start : ℕ → ℕ
next_month_start t = (t / 1440 + (month_length_at t + 1 - day_of_month_at t)) * 1440

unfoldable pub next_turn : ParsedCronSchedule → ℕ → Turn
next_turn parsed t =
    if not (includes parsed.months (month_at t))
    then move_to (next_month_start t)
    else if ltb (month_length_at t) (day_of_month_at t)
        || not (matches_day parsed (day_of_month_at t) (day_of_week_at t))
    then move_to ((t / 1440 + 1) * 1440)
    else if not (includes parsed.hours (hour_at t))
    then move_to ((t / 60 + 1) * 60)
    else if not (includes parsed.minutes (minute_at t))
    then move_to (t + 1)
    else found

-- A cursor that leaves the times of the model is before 1970, and so before every horizon.
abbrev pub after_turn : Turn → ℕ → (ℕ → Outcome CronError ℕ) → Outcome CronError ℕ
after_turn found t go_on = returned t
after_turn (move_to u) t go_on = go_on u
after_turn leave t go_on = thrown cron_expression_invalid

-- The loop of `getNextCronOccurrence`, up to the horizon.
unfoldable pub search_forward : ParsedCronSchedule → ℕ → ℕ → ℕ → Outcome CronError ℕ
search_forward parsed zero horizon t = thrown out_of_turns
search_forward parsed (suc fuel) horizon t = elim (leb t horizon) [
  | true ↦ after_turn (next_turn parsed t) t (λ u. search_forward parsed fuel horizon u)
  | false ↦ thrown cron_expression_invalid
]

-- Five years, as the code counts them.
abbrev pub horizon_minutes : ℕ
horizon_minutes = 5 * 366 * 1440

-- `getNextCronOccurrence` after the time in milliseconds, for a schedule that was parsed.
unfoldable pub next_occurrence : ParsedCronSchedule → ℕ → Outcome CronError ℕ
next_occurrence parsed from_ms =
    let start = from_ms / 60000 + 1 in
    search_forward parsed (horizon_minutes + 2) (start + horizon_minutes) start

abbrev pub then_occurrence :
    Outcome CronError ParsedCronSchedule
    → (ParsedCronSchedule → Outcome CronError ℕ)
    → Outcome CronError ℕ
then_occurrence (returned parsed) occurrence = occurrence parsed
then_occurrence (thrown e) occurrence = thrown e

unfoldable pub get_next_cron_occurrence : NumberOf → Text → ℕ → Outcome CronError ℕ
get_next_cron_occurrence other expression from_ms =
    then_occurrence (parse_cron_schedule other expression)
      (λ parsed. next_occurrence parsed from_ms)

-- The first minute of the month of `t`.
abbrev pub month_start : ℕ → ℕ
month_start t = (t / 1440 + 1 - day_of_month_at t) * 1440

abbrev pub minute_before : ℕ → Turn
minute_before zero = leave
minute_before (suc t) = move_to t

-- The code's jumps are to the last minute of the month, the day or the hour before, each given here as
-- the minute before the first one of this month, day or hour.
unfoldable pub previous_turn : ParsedCronSchedule → ℕ → Turn
previous_turn parsed t =
    if not (includes parsed.months (month_at t))
    then minute_before (month_start t)
    else if not (matches_day parsed (day_of_month_at t) (day_of_week_at t))
    then minute_before (t / 1440 * 1440)
    else if not (includes parsed.hours (hour_at t))
    then minute_before (t / 60 * 60)
    else if not (includes parsed.minutes (minute_at t))
    then minute_before t
    else found

unfoldable pub search_backward : ParsedCronSchedule → ℕ → ℕ → ℕ → Outcome CronError ℕ
search_backward parsed zero horizon t = thrown out_of_turns
search_backward parsed (suc fuel) horizon t = elim (leb horizon t) [
  | true ↦ after_turn (previous_turn parsed t) t (λ u. search_backward parsed fuel horizon u)
  | false ↦ thrown cron_expression_invalid
]

-- The minute at which the search starts.
abbrev pub search_start : ℕ → Bool → ℕ
search_start from_ms inclusive = if inclusive then from_ms / 60000 else from_ms / 60000 - 1

unfoldable pub previous_occurrence : ParsedCronSchedule → ℕ → Bool → Outcome CronError ℕ
previous_occurrence parsed from_ms inclusive =
    let start = search_start from_ms inclusive in
    if leb (from_ms / 60000) horizon_minutes
    then thrown before_1970
    else search_backward parsed (horizon_minutes + 2) (start - horizon_minutes) start

unfoldable pub get_previous_cron_occurrence : NumberOf → Text → ℕ → Bool → Outcome CronError ℕ
get_previous_cron_occurrence other expression from_ms inclusive =
    then_occurrence (parse_cron_schedule other expression)
      (λ parsed. previous_occurrence parsed from_ms inclusive)

pub record ScheduleDue : Type 0 where
  pub is_due : Bool
  pub due_slot : ℕ
  pub next_run : ℕ

-- Whether the slot is later than the last time in milliseconds at which the schedule ran.
abbrev pub is_later : ℕ → Option ℕ → Bool
is_later slot none = true
is_later slot (some last_ms) = ltb last_ms (slot * 60000)

abbrev pub schedule_due :
    Option ℕ → Outcome CronError ℕ → Outcome CronError ℕ → Outcome CronError ScheduleDue
schedule_due last (returned slot) (returned next_run) =
    returned (record { is_due = is_later slot last; due_slot = slot; next_run = next_run })
schedule_due last (returned slot) (thrown e) = thrown e
schedule_due last (thrown e) _ = thrown e

unfoldable pub check_schedule_due : NumberOf → Text → Option ℕ → ℕ → Outcome CronError ScheduleDue
check_schedule_due other expression last now_ms =
    schedule_due last (get_previous_cron_occurrence other expression now_ms true)
      (get_next_cron_occurrence other expression now_ms)
