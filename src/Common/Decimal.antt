-- ===== src/Common/Decimal.antt =====
-- Numbers as text, as a template literal prints them, and the length of a text in UTF-16 units.
use Prim.Native.Nat.{ℕ, zero, suc, ◌+◌, ◌/◌, ◌%◌}
use Prim.Native.Char.{Char, code}
use Prim.Native.String.{String, [], ◌∷◌}
use mathlib.Core.List
use zima_control.Common.Tests.{ltb, if◌then◌else◌}
use zima_control.Common.Lists.{nth_or}

abbrev digit : ℕ → Char
digit = nth_or "9" (
    List.◌∷◌ "0" (
      List.◌∷◌ "1" (
        List.◌∷◌ "2" (
          List.◌∷◌ "3"
            (List.◌∷◌ "4" (List.◌∷◌ "5" (List.◌∷◌ "6" (List.◌∷◌ "7" (List.◌∷◌ "8" List.[])))))))))

-- `n + 1` digits are enough for a number `n`.
unfoldable pub show_onto : ℕ → ℕ → String → String
show_onto zero n rest = rest
show_onto (suc fuel) n rest =
    let longer = show_onto fuel (n / 10) (◌∷◌ (digit (n % 10)) rest) in
    if ltb n 10 then ◌∷◌ (digit n) rest else longer

unfoldable pub show : ℕ → String
unfolding show_onto
show n = show_onto (suc n) n ""

-- `text.length`
unfoldable pub utf16_length : String → ℕ
utf16_length [] = 0
utf16_length (◌∷◌ c s) = (if ltb (code c) 65536 then 1 else 2) + utf16_length s
