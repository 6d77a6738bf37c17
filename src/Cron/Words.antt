-- ===== src/Cron/Words.antt =====
-- What the cron validator and evaluator use of the language: splitting and trimming a text, and
-- reading a number. `Number` of a text that is not made of digits only is a parameter, as `none` where it
-- is not an integer or is negative.
use zima_control.Common.{
  ℕ, ◌+◌, ◌*◌, ◌-◌, Bool, true, false, not, ◌||◌, ◌&&◌, List, [], ◌∷◌, Option, none, some, nat_beq,
  leb, all, if◌then◌else◌,
}

abbrev pub Text : Type 0
Text = List ℕ

abbrev pub is_digit : ℕ → Bool
is_digit c = leb b'0' c && leb c b'9'

abbrev pub is_empty : Text → Bool
is_empty [] = true
is_empty (c ∷ cs) = false

-- /^\d+$/
abbrev pub is_digits : Text → Bool
is_digits text = not (is_empty text) && all is_digit text

abbrev pub decimal_onto : ℕ → Text → ℕ
decimal_onto acc [] = acc
decimal_onto acc (c ∷ cs) = decimal_onto (acc * 10 + (c - b'0')) cs

abbrev pub decimal : Text → ℕ
decimal = decimal_onto 0

abbrev pub NumberOf : Type 0
NumberOf = Text → Option ℕ

-- `Number(text)`
abbrev pub number : NumberOf → Text → Option ℕ
number other text = if is_digits text then some (decimal text) else other text

-- `parseInt(text, 10)` of a text without white space: the digits that it starts with, `none` where it has
-- none. A negative number, which no valid step is, is `none` as well.
abbrev pub leading_digits : Text → Text
leading_digits [] = []
leading_digits (c ∷ cs) = let rest = leading_digits cs in if is_digit c then c ∷ rest else []

abbrev pub without_plus : Text → Text
without_plus [] = []
without_plus (c ∷ cs) = if nat_beq c b'+' then cs else c ∷ cs

abbrev pub parse_int : Text → Option ℕ
parse_int text =
    let digits = leading_digits (without_plus text) in
    if is_empty digits then none else some (decimal digits)

-- `text.split(separator)`, of one character.
abbrev pub onto_first : ℕ → List Text → List Text
onto_first c [] = (c ∷ []) ∷ []
onto_first c (part ∷ parts) = (c ∷ part) ∷ parts

unfoldable pub split : ℕ → Text → List Text
split separator [] = [] ∷ []
split separator (c ∷ cs) =
    let parts = split separator cs in if nat_beq c separator then [] ∷ parts else onto_first c parts

-- `text.includes(c)`
abbrev pub has_char : ℕ → Text → Bool
has_char c [] = false
has_char c (x ∷ xs) = nat_beq x c || has_char c xs

-- \s, and what `trim` removes.
abbrev pub is_space : ℕ → Bool
is_space c =
    (leb 9 c && leb c 13)
    || nat_beq c 32
    || nat_beq c 0xa0
    || nat_beq c 0x1680
    || (leb 0x2000 c && leb c 0x200a)
    || nat_beq c 0x2028
    || nat_beq c 0x2029
    || nat_beq c 0x202f
    || nat_beq c 0x205f
    || nat_beq c 0x3000
    || nat_beq c 0xfeff

abbrev pub trim_start : Text → Text
trim_start [] = []
trim_start (c ∷ cs) = let rest = trim_start cs in if is_space c then rest else c ∷ cs

abbrev pub trim_end : Text → Text
trim_end [] = []
trim_end (c ∷ cs) = let rest = trim_end cs in if is_space c && is_empty rest then [] else c ∷ rest

abbrev pub trim : Text → Text
trim text = trim_start (trim_end text)

-- `text.split(/\s+/)`: `after_space` tells that the character before belongs to a separator.
unfoldable pub split_spaces : Bool → Text → List Text
split_spaces after_space [] = [] ∷ []
split_spaces after_space (c ∷ cs) =
    let rest = split_spaces (is_space c) cs in
    if is_space c then (if after_space then rest else [] ∷ rest) else onto_first c rest
