-- ===== src/Cron/Validator.antt =====
-- packages/core/src/backup/cron-validator.ts: which cron expressions are valid.
use zima_control.Common.{
  ℕ, Bool, true, false, not, ◌||◌, ◌&&◌, List, [], ◌∷◌, Option, none, some, nat_beq, leb, ltb, all,
  any, if◌then◌else◌,
}
use zima_control.Cron.Words.{
  Text, is_empty, is_digits, decimal, NumberOf, number, split, has_char, trim, split_spaces,
}

abbrev pub FieldBounds : Type 0
FieldBounds = ℕ × ℕ

-- minute, hour, dayOfMonth, month and dayOfWeek
abbrev pub field_bounds : List FieldBounds
field_bounds = (0, 59) ∷ (0, 23) ∷ (1, 31) ∷ (1, 12) ∷ (0, 7) ∷ []

abbrev pub is_star : Text → Bool
is_star [] = false
is_star (c ∷ []) = nat_beq c b'*'
is_star (c ∷ d ∷ cs) = false

abbrev pub valid_ends : ℕ → ℕ → List Text → Bool
valid_ends low high (start_text ∷ end_text ∷ []) =
    let start = decimal start_text in
    let end_ = decimal end_text in
    is_digits start_text
    && is_digits end_text
    && leb low start
    && leb start high
    && leb low end_
    && leb end_ high
    && leb start end_
valid_ends low high _ = false

unfoldable pub validate_range : Text → ℕ → ℕ → Bool
validate_range range low high = valid_ends low high (split b'-' range)

abbrev pub valid_step : ℕ → Option ℕ → Bool
valid_step high none = false
valid_step high (some step) = ltb 0 step && leb step high

-- The parts of the atom at "/", of which those after the second are not looked at.
abbrev pub valid_stepped : NumberOf → ℕ → ℕ → List Text → Bool
valid_stepped other low high (range ∷ step_text ∷ _) =
    not (is_empty range)
    && not (is_empty step_text)
    && valid_step high (number other step_text)
    && (is_star range || validate_range range low high)
valid_stepped other low high _ = false

unfoldable pub validate_cron_atom : NumberOf → Text → ℕ → ℕ → Bool
validate_cron_atom other atom low high =
    if has_char b'/' atom
    then valid_stepped other low high (split b'/' atom)
    else if has_char b'-' atom
    then validate_range atom low high
    else is_digits atom && leb low (decimal atom) && leb (decimal atom) high

unfoldable pub validate_cron_field : NumberOf → Text → ℕ → ℕ → Bool
validate_cron_field other field low high =
    is_star field
    || (not (any is_empty (split b',' field))
        && all (λ part. validate_cron_atom other part low high) (split b',' field))

abbrev pub is_control : ℕ → Bool
is_control c = leb c 0x1f || nat_beq c 0x7f

abbrev pub valid_fields : NumberOf → List Text → List FieldBounds → Bool
valid_fields other [] [] = true
valid_fields other (field ∷ fields) ((low, high) ∷ bounds) =
    validate_cron_field other field low high && valid_fields other fields bounds
valid_fields other _ _ = false

unfoldable pub validate_cron_expression : NumberOf → Text → Bool
validate_cron_expression other raw =
    let trimmed = trim raw in
    not (is_empty trimmed)
    && not (any is_control trimmed)
    && valid_fields other (split_spaces false trimmed) field_bounds
