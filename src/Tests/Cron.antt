-- ===== src/Tests/Cron.antt =====
-- The theorems on cron schedules at concrete expressions and times.
use zima_control.Common.{
  List, ℕ, ◌≡◌, ◌≤◌, ◌<◌, ◌⊎◌, refl, true, false, ◌*◌, ◌+◌, [], ◌∷◌, none, some, arith, includes,
  nat_eq, ◌↔◌,
}
use zima_control.Common.Text.{codes}
use zima_control.Common.Action.{returned}
use zima_control.Cron.Words.{Text, NumberOf, split, split_spaces}
use zima_control.Cron.Validator.{
  validate_cron_expression, validate_cron_field, validate_cron_atom, validate_range,
}
use zima_control.Cron.Fields.{parse_cron_field, parse_cron_part, count_from}
use zima_control.Cron.Fields.Members.{count_from_iff}
use zima_control.Cron.Fields.Parsed.{Within, parse_cron_field-Within}
use zima_control.Cron.Fields.Endless.{endless_step}
use zima_control.Cron.Calendar.{date_of, next_day, days_in_month}
use zima_control.Cron.Occurrence.{
  ParsedCronSchedule, parse_cron_schedule, matches_day, next_turn, previous_turn, next_occurrence,
  previous_occurrence, search_forward, search_backward, get_next_cron_occurrence,
  get_previous_cron_occurrence, check_schedule_due, ScheduleDue,
}
use zima_control.Cron.Occurrence.Reference.{is_occurrence, first_from, last_until}
use zima_control.Cron.Occurrence.Search.{next_occurrence_lem}
use zima_control.Cron.Occurrence.Backward.{previous_occurrence_lem}
use zima_control.Cron.Occurrence.Due.{check_schedule_due_lem}
use zima_control.Cron.Occurrence.Schedules.{in_bounds, parse_cron_schedule-in_bounds}

-- `Number` where it reads a text of one character more than digits: "0x5" is five.
abbrev reads_hex : NumberOf
reads_hex text = some 5

endless_step_example :
    (validate_cron_atom reads_hex (codes "*/0x5") 0 59 ≡ true)
    × ((fuel : ℕ) → parse_cron_part reads_hex fuel 0 59 (codes "*/0x5") ≡ none)
unfolding split
endless_step_example =
    endless_step reads_hex (codes "*/0x5") (codes "0x5") 5 0 59 refl refl refl (omega arith)
      (omega arith) refl (omega arith)

parse_cron_field-Within_example :
    Within 0 59 (parse_cron_field reads_hex 61 (codes "*/15,3-7") 0 59 false)
unfolding split validate_cron_field validate_cron_atom validate_range
parse_cron_field-Within_example =
    parse_cron_field-Within reads_hex 61 0 59 false (codes "*/15,3-7") (omega arith) (λ x. refl)
      refl refl

abbrev nightly : Text
nightly = codes " 30 2 * * 1-5 "

parse_cron_schedule-in_bounds_example :
    (parsed : ParsedCronSchedule) × (parse_cron_schedule reads_hex nightly ≡ returned parsed)
    × (in_bounds parsed ≡ true)
unfolding split split_spaces validate_cron_expression validate_cron_field validate_cron_atom
    validate_range
parse_cron_schedule-in_bounds_example = parse_cron_schedule-in_bounds reads_hex nightly refl refl

abbrev schedule : ParsedCronSchedule
schedule = record {
  minutes = 30 ∷ [];
  hours = 2 ∷ [];
  days_of_month = 1 ∷ 15 ∷ [];
  months = 1 ∷ 2 ∷ 3 ∷ [];
  days_of_week = 0 ∷ 1 ∷ 2 ∷ 3 ∷ 4 ∷ 5 ∷ 6 ∷ [];
  is_day_of_month_wildcard = false;
  is_day_of_week_wildcard = true;
}

next_occurrence_lem_example : next_occurrence schedule 90000000 ≡ first_from schedule 2635201 1501
next_occurrence_lem_example = next_occurrence_lem schedule 90000000

-- After 02:30 on 1 January 1970 the schedule is due at 02:30 on 15 January.
next_run : next_occurrence schedule 9000000 ≡ returned 20310
unfolding next_occurrence search_forward next_turn matches_day date_of next_day days_in_month
next_run = refl

abbrev spring_of_1976 : ℕ
spring_of_1976 = 2270 * 86400000

previous_occurrence_lem_example :
    previous_occurrence schedule spring_of_1976 false ≡ last_until schedule 2635201 3268799
previous_occurrence_lem_example =
    previous_occurrence_lem schedule spring_of_1976 false (omega arith)

-- In January 1975 the schedule was last due on the first, and is due next on the fifteenth.
abbrev expression : Text
expression = codes "30 2 1,15 1-3 *"

abbrev january : ScheduleDue
january = record { is_due = true; due_slot = 1826 * 1440 + 150; next_run = 1840 * 1440 + 150 }

abbrev now : ℕ
now = 1831 * 86400000

abbrev expression_schedule : ParsedCronSchedule
expression_schedule = record {
  minutes = 30 ∷ [];
  hours = 2 ∷ [];
  days_of_month = 1 ∷ 15 ∷ [];
  months = 1 ∷ 2 ∷ 3 ∷ [];
  days_of_week = 0 ∷ 1 ∷ 2 ∷ 3 ∷ 4 ∷ 5 ∷ 6 ∷ 0 ∷ [];
  is_day_of_month_wildcard = false;
  is_day_of_week_wildcard = true;
}

expression_parsed : parse_cron_schedule reads_hex expression ≡ returned expression_schedule
unfolding parse_cron_schedule split split_spaces validate_cron_expression validate_cron_field
    validate_cron_atom validate_range parse_cron_field count_from
expression_parsed = refl

due_in_january : check_schedule_due reads_hex expression (some 1) now ≡ returned january
unfolding check_schedule_due get_previous_cron_occurrence get_next_cron_occurrence next_occurrence
    previous_occurrence search_forward search_backward next_turn previous_turn matches_day date_of
    next_day days_in_month
due_in_january = rw expression_parsed refl

check_schedule_due_lem_example :
    (is_occurrence expression_schedule (1826 * 1440 + 150) ≡ true)
    × (is_occurrence expression_schedule (1840 * 1440 + 150) ≡ true)
    × (1826 * 1440 + 150 ≤ 1831 * 1440)
    × (1831 * 1440 < 1840 * 1440 + 150)
    × ((150 ≤ 1826 * 1440 + 150) ⊎ (1840 * 1440 + 150 ≤ 150))
    × (true ≡ true)
unfolding is_occurrence date_of matches_day
check_schedule_due_lem_example =
    check_schedule_due_lem reads_hex expression (some 1) now expression_schedule january
      (omega arith) expression_parsed due_in_january 150 refl

-- Seven is among the numbers from 3 to 20 in steps of four.
abbrev fourths : List ℕ
fourths = 3 ∷ 7 ∷ 11 ∷ 15 ∷ 19 ∷ []

every_fourth : count_from 30 3 20 (some 4) ≡ some fourths
unfolding count_from
every_fourth = refl

count_from_iff_example : (includes fourths 7 ≡ true) ↔ ((k : ℕ) × (7 ≡ 3 + k * 4) × (7 ≤ 20))
count_from_iff_example = count_from_iff 30 3 20 4 fourths every_fourth 7
