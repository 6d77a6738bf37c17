-- ===== src/Common/Text.antt =====
-- Texts by their characters: joining, classes of characters, and bytes in hexadecimal.
use Prim.Native.Nat.{ℕ, ◌/◌, ◌%◌}
use Prim.Native.Char.{Char, code}
use Prim.Native.String
use mathlib.Core.Bool.{Bool, false, ◌&&◌, ◌||◌}
use mathlib.Core.List.{List, [], ◌∷◌}
use text.Mathlib.Text.{◌==◌ as str_eq}
use zima_control.Common.Tests.{leb, nat_beq, if◌then◌else◌}
use zima_control.Common.Lists.{nth_or}

infixl 65 ◌⧺◌
abbrev pub ◌⧺◌ : String.String → String.String → String.String
◌⧺◌ = String.◌++◌

-- The characters of a text, as code points.
abbrev pub codes : String.String → List ℕ
codes String.[] = []
codes (String.◌∷◌ first rest) = code first ∷ codes rest

abbrev pub is_alphanumeric : ℕ → Bool
is_alphanumeric c =
    (leb b'A' c && leb c b'Z') || (leb b'a' c && leb c b'z') || (leb b'0' c && leb c b'9')

-- [A-Za-z0-9._:-]
abbrev pub is_identifier_character : ℕ → Bool
is_identifier_character c =
    is_alphanumeric c || nat_beq c b'.' || nat_beq c b'_' || nat_beq c b':' || nat_beq c b'-'

-- [a-f0-9]
abbrev pub is_hex : ℕ → Bool
is_hex c = (leb b'a' c && leb c b'f') || (leb b'0' c && leb c b'9')

abbrev pub starts_alphanumeric : List ℕ → Bool
starts_alphanumeric [] = false
starts_alphanumeric (c ∷ cs) = is_alphanumeric c

abbrev hex_digit : ℕ → Char
hex_digit =
    nth_or "f"
      ("0" ∷ "1" ∷ "2" ∷ "3" ∷ "4" ∷ "5" ∷ "6" ∷ "7" ∷ "8" ∷ "9" ∷ "a" ∷ "b" ∷ "c" ∷ "d" ∷ "e" ∷ [])

-- `buffer.toString("hex")`
unfoldable pub to_hex : List ℕ → String.String
to_hex [] = ""
to_hex (b ∷ bs) = String.◌∷◌ (hex_digit (b / 16)) (String.◌∷◌ (hex_digit (b % 16)) (to_hex bs))

-- `text.endsWith(suffix)`
abbrev pub ends_with : String.String → String.String → Bool
ends_with suffix String.[] = str_eq String.[] suffix
ends_with suffix (String.◌∷◌ c cs) = str_eq (String.◌∷◌ c cs) suffix || ends_with suffix cs

-- A text that ends with the suffix, without it.
abbrev pub without_suffix : String.String → String.String → String.String
without_suffix suffix String.[] = String.[]
without_suffix suffix (String.◌∷◌ c cs) =
    let rest = without_suffix suffix cs in
    if str_eq (String.◌∷◌ c cs) suffix then String.[] else String.◌∷◌ c rest
