-- ===== src/Cron/Occurrence/Schedules.antt =====
-- packages/core/src/backup/cron-evaluator.ts, parseCronSchedule: what it makes of a valid expression.
use zima_control.Common.{some, ℕ, ◌≡◌, refl, Bool, true, false, ◌&&◌, List, [], ◌∷◌, all, arith}
use zima_control.Common.Action.{returned}
use zima_control.Cron.Words.{Text, NumberOf, trim, split_spaces}
use zima_control.Cron.Validator.{validate_cron_expression, valid_fields, field_bounds, is_star}
use zima_control.Cron.Fields.{Numbers}
use zima_control.Cron.Fields.Members.{within}
use zima_control.Cron.Fields.Parsed.{plain_steps, parse_cron_field-Within}
use zima_control.Cron.Occurrence.{
  schedule_from, ParsedCronSchedule, schedule_of, parse_cron_schedule,
}

abbrev pub in_bounds : ParsedCronSchedule → Bool
in_bounds parsed =
    all (within 0 59) parsed.minutes
    && all (within 0 23) parsed.hours
    && all (within 1 31) parsed.days_of_month
    && all (within 1 12) parsed.months
    && all (within 0 7) parsed.days_of_week

assembled :
    {a b c e f : Numbers} (as_ bs cs es fs : List ℕ) (any_day any_weekday : Bool)
    → a ≡ some as_
    → b ≡ some bs
    → c ≡ some cs
    → e ≡ some es
    → f ≡ some fs
    → all (within 0 59) as_ ≡ true
    → all (within 0 23) bs ≡ true
    → all (within 1 31) cs ≡ true
    → all (within 1 12) es ≡ true
    → all (within 0 7) fs ≡ true
    → (parsed : ParsedCronSchedule) × (schedule_from a b c e f any_day any_weekday
        ≡ returned parsed)
      × (in_bounds parsed ≡ true)
assembled as_ bs cs es fs any_day any_weekday pa pb pc pe pf oka okb okc oke okf = (
  record {
    minutes = as_;
    hours = bs;
    days_of_month = cs;
    months = es;
    days_of_week = fs;
    is_day_of_month_wildcard = any_day;
    is_day_of_week_wildcard = any_weekday;
  },
  rw (pa, pb, pc, pe, pf) refl,
  rw (oka, okb, okc, oke, okf) refl,
)

schedule_of-in_bounds :
    (other : NumberOf) (fields : List Text)
    → valid_fields other fields field_bounds ≡ true
    → all plain_steps fields ≡ true
    → (parsed : ParsedCronSchedule) × (schedule_of other fields ≡ returned parsed)
      × (in_bounds parsed ≡ true)
schedule_of-in_bounds other [] h d = absurd (cc h)
schedule_of-in_bounds other (a ∷ []) h d = absurd (ground (arith, h))
schedule_of-in_bounds other (a ∷ b ∷ []) h d = absurd (ground (arith, h))
schedule_of-in_bounds other (a ∷ b ∷ c ∷ []) h d = absurd (ground (arith, h))
schedule_of-in_bounds other (a ∷ b ∷ c ∷ e ∷ []) h d = absurd (ground (arith, h))
schedule_of-in_bounds other (a ∷ b ∷ c ∷ e ∷ f ∷ g ∷ more) h d = absurd (ground (arith, h))
schedule_of-in_bounds other (a ∷ b ∷ c ∷ e ∷ f ∷ []) h d =
    let (as_, pa, oka) =
      parse_cron_field-Within other 61 0 59 false a (omega arith) (λ x. refl) (ground (arith, h))
        (ground (arith, d)) in
    let (bs, pb, okb) =
      parse_cron_field-Within other 61 0 23 false b (omega arith) (λ x. refl) (ground (arith, h))
        (ground (arith, d)) in
    let (cs, pc, okc) =
      parse_cron_field-Within other 61 1 31 false c (omega arith) (λ x. absurd (cc x))
        (ground (arith, h)) (ground (arith, d)) in
    let (es, pe, oke) =
      parse_cron_field-Within other 61 1 12 false e (omega arith) (λ x. absurd (cc x))
        (ground (arith, h)) (ground (arith, d)) in
    let (fs, pf, okf) =
      parse_cron_field-Within other 61 0 7 true f (omega arith) (λ x. refl) (ground (arith, h))
        (ground (arith, d)) in
    assembled as_ bs cs es fs (is_star c) (is_star f) pa pb pc pe pf oka okb okc oke okf

-- A valid expression whose steps are written in digits is parsed to a schedule, each field's loops ending
-- within 61 turns, and every number of the schedule lies within the bounds of its field.
pub parse_cron_schedule-in_bounds :
    (other : NumberOf) (expression : Text)
    → validate_cron_expression other expression ≡ true
    → all plain_steps (split_spaces false (trim expression)) ≡ true
    → (parsed : ParsedCronSchedule) × (parse_cron_schedule other expression ≡ returned parsed)
      × (in_bounds parsed ≡ true)
unfolding parse_cron_schedule validate_cron_expression
parse_cron_schedule-in_bounds other expression valid plain =
    let (parsed, e, ok) =
      schedule_of-in_bounds other (split_spaces false (trim expression)) (ground (arith, valid))
        plain in
    (parsed, rw valid e, ok)
