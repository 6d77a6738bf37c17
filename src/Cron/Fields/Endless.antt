-- ===== src/Cron/Fields/Endless.antt =====
-- packages/core/src/backup/cron-validator.ts and cron-evaluator.ts: a step that the validator reads with
-- `Number` and the evaluator with `parseInt`.
use zima_control.Common.{ℕ, ◌≤◌, ◌≡◌, refl, true, false, [], ◌∷◌, none, some, arith}
use zima_control.Cron.Words.{Text, is_empty, NumberOf, number, parse_int, split, has_char}
use zima_control.Cron.Validator.{validate_cron_atom}
use zima_control.Cron.Fields.{parse_cron_part}
use zima_control.Cron.Fields.Members.{count_from-zero}

parsed_text : (text : Text) (n : ℕ) → parse_int text ≡ some n → is_empty text ≡ false
parsed_text [] n h = absurd (cc h)
parsed_text (c ∷ cs) n h = refl

-- A step of every number of a field whose text `Number` reads as a number from 1 to the upper bound, and
-- `parseInt` as 0, such as 0x5, is accepted by the validator, and the evaluator's loop over it does not
-- end, whatever number of turns it is given.
pub endless_step :
    (other : NumberOf) (part step : Text) (n low high : ℕ)
    → has_char b'/' part ≡ true
    → split b'/' part ≡ (b'*' ∷ []) ∷ step ∷ []
    → number other step ≡ some n
    → 1 ≤ n
    → n ≤ high
    → parse_int step ≡ some 0
    → low ≤ high
    → (validate_cron_atom other part low high ≡ true)
      × ((fuel : ℕ) → parse_cron_part other fuel low high part ≡ none)
unfolding validate_cron_atom split
endless_step other part step n low high slash cut read lo hi zero_read order = (
  rw (slash, cut, read, parsed_text step 0 zero_read) (ground (arith, lo, hi)),
  λ fuel. rw (slash, cut, zero_read) (count_from-zero fuel low high order),
)
