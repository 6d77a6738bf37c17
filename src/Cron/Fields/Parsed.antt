-- ===== src/Cron/Fields/Parsed.antt =====
-- packages/core/src/backup/cron-validator.ts and cron-evaluator.ts: what the evaluator makes of a field
-- that the validator accepts.
use mathlib.Core.Path.{subst}
use zima_control.Common.{
  ℕ, suc, ◌≤◌, ◌≡◌, refl, sym, inl, inr, Bool, true, false, ◌||◌, ◌&&◌, List, [], ◌∷◌, ◌++◌, some,
  Bool-cases, nat_beq_iff, leb, all, arith,
}
use zima_control.Cron.Words.{
  Text, is_digits, is_digit, decimal, NumberOf, number, parse_int, leading_digits, split, has_char,
}
use zima_control.Cron.Validator.{
  is_star, valid_ends, validate_range, valid_stepped, validate_cron_atom, validate_cron_field,
}
use zima_control.Cron.Fields.{
  Numbers, count, as_day, as_days, start_of, end_of, stepped_part, range_part, one_part,
  parse_cron_part, parse_parts, parse_cron_field,
}
use zima_control.Cron.Fields.Members.{within, count_from-within}

-- A step that is written in digits.
abbrev pub step_in_digits : List Text → Bool
step_in_digits (range ∷ step ∷ _) = is_digits step
step_in_digits _ = true

abbrev pub plain_steps : Text → Bool
plain_steps field = all (λ part. step_in_digits (split b'/' part)) (split b',' field)

leading_digits-all : (text : Text) → all is_digit text ≡ true → leading_digits text ≡ text
leading_digits-all [] h = refl
leading_digits-all (c ∷ cs) h =
    let rest = leading_digits-all cs (ground (arith, h)) in ground (arith, h, rest)

-- On digits `parseInt` and `Number` agree.
pub parse_int-digits : (text : Text) → is_digits text ≡ true → parse_int text ≡ some (decimal text)
parse_int-digits [] h = absurd (cc h)
parse_int-digits (c ∷ cs) h =
    let rest = leading_digits-all (c ∷ cs) (ground (arith, h)) in ground (arith, h, rest)

-- The numbers are there, and lie within the bounds.
abbrev pub Within : ℕ → ℕ → Numbers → Type 0
Within low high numbers = (is_ : List ℕ) × (numbers ≡ some is_) × (all (within low high) is_ ≡ true)

all-append :
    (p : ℕ → Bool) (xs ys : List ℕ) → all p xs ≡ true → all p ys ≡ true → all p (xs ++ ys) ≡ true
all-append p [] ys h g = g
all-append p (x ∷ xs) ys h g =
    let rest = all-append p xs ys (ground (arith, h)) g in ground (arith, h, rest)

all-within :
    (low end_ high : ℕ) (is_ : List ℕ)
    → end_ ≤ high
    → all (within low end_) is_ ≡ true
    → all (within low high) is_ ≡ true
all-within low end_ high [] hi h = refl
all-within low end_ high (i ∷ is_) hi h =
    let rest = all-within low end_ high is_ hi (ground (arith, h)) in ground (arith, h, hi, rest)

valid_ends-digits :
    (low high : ℕ) (a b : Text) (more : List Text)
    → valid_ends low high (a ∷ b ∷ more) ≡ true
    → (is_digits a ≡ true) × (is_digits b ≡ true) × (low ≤ decimal a) × (decimal b ≤ high)
valid_ends-digits low high a b [] h =
    (ground (arith, h), ground (arith, h), ground (arith, h), ground (arith, h))
valid_ends-digits low high a b (c ∷ more) h = absurd (cc h)

module _ (other : NumberOf) (fuel low high : ℕ) (enough : suc (suc high) ≤ fuel) where
  count-Within :
      (start end_ step : ℕ)
      → 1 ≤ step
      → low ≤ start
      → end_ ≤ high
      → Within low high (count fuel (some start) (some end_) (some step))
  count-Within start end_ step hs lo hi =
      let (is_, h, ok) =
        count_from-within fuel start end_ step low (omega (arith, enough, hi))
          (omega (arith, enough)) hs lo in
      (is_, h, all-within low end_ high is_ hi ok)

  ends-Within :
      (range : Text) (ends : List Text) (step : ℕ)
      → 1 ≤ step
      → (is_star range || valid_ends low high ends) ≡ true
      → Within low high (
          count fuel
            (start_of other fuel low high range ends)
            (end_of other fuel low high range ends)
            (some step))
  ends-Within range [] step hs h = ([], refl, refl)
  ends-Within range (a ∷ []) step hs h = elim (Bool-cases (is_star range)) [
    | inl e ↦ rw e (count-Within low high step hs (omega arith) (omega arith))
    | inr e ↦ absurd (ground (arith, h, e))
  ]
  ends-Within range (a ∷ b ∷ more) step hs h = elim (Bool-cases (is_star range)) [
    | inl e ↦ rw e (count-Within low high step hs (omega arith) (omega arith))
    | inr e ↦
        let (da, db, la, hb) = valid_ends-digits low high a b more (ground (arith, h, e)) in
        rw (e, da, db) (count-Within (decimal a) (decimal b) step hs la hb)
  ]

  -- A range that the validator accepts, alone and before a step.
  range_part-Within :
      (ends : List Text)
      → valid_ends low high ends ≡ true
      → Within low high (range_part other fuel low high ends)
  range_part-Within [] h = ([], refl, refl)
  range_part-Within (a ∷ []) h = absurd (cc h)
  range_part-Within (a ∷ b ∷ more) h =
      let (da, db, la, hb) = valid_ends-digits low high a b more h in
      rw (da, db) (count-Within (decimal a) (decimal b) 1 (omega arith) la hb)

  stepped_part-Within :
      (parts : List Text)
      → valid_stepped other low high parts ≡ true
      → step_in_digits parts ≡ true
      → Within low high (stepped_part other fuel low high parts)
  unfolding validate_range
  stepped_part-Within [] h d = absurd (cc h)
  stepped_part-Within (range ∷ []) h d = absurd (cc h)
  stepped_part-Within (range ∷ step ∷ more) h d = rw (parse_int-digits step d) (
      ends-Within range (split b'-' range) (decimal step) (ground (arith, h, d))
        (ground (arith, h)))

  one-Within :
      (part : Text)
      → (is_digits part && leb low (decimal part) && leb (decimal part) high) ≡ true
      → Within low high (one_part other fuel low high (number other part))
  one-Within part h =
      let d : is_digits part ≡ true = ground (arith, h) in
      rw d (decimal part ∷ [], refl, ground (arith, h))

  part-Within :
      (part : Text)
      → validate_cron_atom other part low high ≡ true
      → step_in_digits (split b'/' part) ≡ true
      → Within low high (parse_cron_part other fuel low high part)
  unfolding validate_cron_atom validate_range
  part-Within part h d = elim (Bool-cases (has_char b'/' part)) [
    | inl slash ↦ rw slash (stepped_part-Within (split b'/' part) (rw slash at h) d)
    | inr slash ↦ elim (Bool-cases (has_char b'-' part)) [
      | inl dash ↦ rw (slash, dash) (range_part-Within (split b'-' part) (rw (slash, dash) at h))
      | inr dash ↦ elim (Bool-cases (is_star part)) [
        | inl star ↦
            rw (slash, dash, star)
              (count-Within low high 1 (omega arith) (omega arith) (omega arith))
        | inr star ↦ rw (slash, dash, star) (one-Within part (rw (slash, dash) at h))
      ]
    ]
  ]

  parts-Within :
      (parts : List Text)
      → all (λ part. validate_cron_atom other part low high) parts ≡ true
      → all (λ part. step_in_digits (split b'/' part)) parts ≡ true
      → Within low high (parse_parts other fuel low high parts)
  parts-Within [] h d = ([], refl, refl)
  parts-Within (part ∷ parts) h d =
      let (is_, e, ok) = part-Within part (ground (arith, h)) (ground (arith, d)) in
      let (js, f, more) = parts-Within parts (ground (arith, h)) (ground (arith, d)) in
      (is_ ++ js, rw (e, f) refl, all-append (within low high) is_ js ok more)

  star-Within :
      (field : Text)
      → is_star field ≡ true
      → Within low high (parse_parts other fuel low high (split b',' field))
  unfolding split
  star-Within [] h = absurd (cc h)
  star-Within (c ∷ []) h =
      subst (λ c. Within low high (parse_parts other fuel low high (split b',' (c ∷ []))))
        (sym ((nat_beq_iff c b'*').0 h))
        (let (is_, e, ok) = count-Within low high 1 (omega arith) (omega arith) (omega arith) in
          (is_ ++ [], rw e refl, all-append (within low high) is_ [] ok refl))
  star-Within (c ∷ d ∷ cs) h = absurd (cc h)

  as_days-Within :
      (is_ : List ℕ)
      → low ≡ 0
      → all (within low high) is_ ≡ true
      → Within low high (as_days true (some is_))
  as_days-Within [] z h = ([], refl, refl)
  as_days-Within (i ∷ is_) z h =
      let (js, e, ok) = as_days-Within is_ z (ground (arith, h)) in
      (as_day true i ∷ js, rw e refl, ground (arith, h, z, ok))

  as_days-same : (is_ : List ℕ) → as_days false (some is_) ≡ some is_
  as_days-same [] = refl
  as_days-same (i ∷ is_) = rw (as_days-same is_) refl

  day-Within :
      (is_day_of_week : Bool) (is_ : List ℕ)
      → (is_day_of_week ≡ true → low ≡ 0)
      → all (within low high) is_ ≡ true
      → Within low high (as_days is_day_of_week (some is_))
  day-Within true is_ z h = as_days-Within is_ (z refl) h
  day-Within false is_ z h = (is_, as_days-same is_, h)

  field_parts-Within :
      (field : Text)
      → validate_cron_field other field low high ≡ true
      → plain_steps field ≡ true
      → Within low high (parse_parts other fuel low high (split b',' field))
  unfolding validate_cron_field
  field_parts-Within field h d = elim (Bool-cases (is_star field)) [
    | inl star ↦ star-Within field star
    | inr star ↦ parts-Within (split b',' field) (ground (arith, h, star)) d
  ]

-- The evaluator's loops over a field end, and give numbers within the field's bounds only, if the
-- validator accepts the field, its steps are written in digits, and each loop may take two turns more than
-- the upper bound; Sunday is 0 where 7 is one of the bounds' numbers.
pub parse_cron_field-Within :
    (other : NumberOf) (fuel low high : ℕ) (is_day_of_week : Bool) (field : Text)
    → suc (suc high) ≤ fuel
    → (is_day_of_week ≡ true → low ≡ 0)
    → validate_cron_field other field low high ≡ true
    → plain_steps field ≡ true
    → Within low high (parse_cron_field other fuel field low high is_day_of_week)
unfolding parse_cron_field
parse_cron_field-Within other fuel low high is_day_of_week field enough sunday h d =
    let (is_, e, ok) = field_parts-Within other fuel low high enough field h d in
    rw e (day-Within other fuel low high enough is_day_of_week is_ sunday ok)
