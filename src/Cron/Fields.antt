-- ===== src/Cron/Fields.antt =====
-- packages/core/src/backup/cron-evaluator.ts, parseCronField: the numbers that a field allows. A set is
-- the list of what was added to it. A loop has fuel for its turns, and `none` says that it did not end
-- within them; `NaN` is `none` among the numbers.
pub mod Members
pub mod Parsed
pub mod Endless
use zima_control.Common.{
  ℕ, zero, suc, ◌+◌, Bool, true, ◌&&◌, List, [], ◌∷◌, ◌++◌, Option, none, some, nat_beq, leb,
  if◌then◌else◌,
}
use zima_control.Cron.Words.{Text, NumberOf, number, parse_int, split, has_char}
use zima_control.Cron.Validator.{is_star}

abbrev pub Numbers : Type 0
Numbers = Option (List ℕ)

abbrev pub with_first : ℕ → Numbers → Numbers
with_first i none = none
with_first i (some is_) = some (i ∷ is_)

abbrev pub both : Numbers → Numbers → Numbers
both none rest = none
both (some is_) none = none
both (some is_) (some js) = some (is_ ++ js)

-- for (let i = start; i <= end; i += step): when NaN has been added to `i`, the test fails.
unfoldable pub count_from : ℕ → ℕ → ℕ → Option ℕ → Numbers
count_from zero i end_ step = none
count_from (suc fuel) i end_ none = if leb i end_ then some (i ∷ []) else some []
count_from (suc fuel) i end_ (some step) =
    let rest = count_from fuel (i + step) end_ (some step) in
    if leb i end_ then with_first i rest else some []

abbrev pub count : ℕ → Option ℕ → Option ℕ → Option ℕ → Numbers
count fuel (some start) (some end_) step = count_from fuel start end_ step
count fuel _ _ step = some []

-- isDayOfWeek && i === 7 ? 0 : i
abbrev pub as_day : Bool → ℕ → ℕ
as_day is_day_of_week i = if is_day_of_week && nat_beq i 7 then 0 else i

abbrev pub as_days : Bool → Numbers → Numbers
as_days is_day_of_week none = none
as_days is_day_of_week (some []) = some []
as_days is_day_of_week (some (i ∷ is_)) =
    with_first (as_day is_day_of_week i) (as_days is_day_of_week (some is_))

module _ (other : NumberOf) (fuel low high : ℕ) where
  -- `start` and `end` of a part with a step.
  abbrev pub start_of : Text → List Text → Option ℕ
  start_of range [] = none
  start_of range (a ∷ _) = if is_star range then some low else number other a

  abbrev pub end_of : Text → List Text → Option ℕ
  end_of range (a ∷ b ∷ _) = if is_star range then some high else number other b
  end_of range _ = some high

  abbrev pub stepped_part : List Text → Numbers
  stepped_part (range ∷ step ∷ _) =
      count fuel (start_of range (split b'-' range)) (end_of range (split b'-' range))
        (parse_int step)
  stepped_part _ = some []

  abbrev pub range_part : List Text → Numbers
  range_part (a ∷ b ∷ _) = count fuel (number other a) (number other b) (some 1)
  range_part _ = some []

  -- A NaN in the set is no number's, and is left out.
  abbrev pub one_part : Option ℕ → Numbers
  one_part none = some []
  one_part (some i) = some (i ∷ [])

  abbrev pub parse_cron_part : Text → Numbers
  parse_cron_part part =
      if has_char b'/' part
      then stepped_part (split b'/' part)
      else if has_char b'-' part
      then range_part (split b'-' part)
      else if is_star part
      then count fuel (some low) (some high) (some 1)
      else one_part (number other part)

  abbrev pub parse_parts : List Text → Numbers
  parse_parts [] = some []
  parse_parts (part ∷ parts) = both (parse_cron_part part) (parse_parts parts)

unfoldable pub parse_cron_field : NumberOf → ℕ → Text → ℕ → ℕ → Bool → Numbers
parse_cron_field other fuel field low high is_day_of_week =
    as_days is_day_of_week (parse_parts other fuel low high (split b',' field))
