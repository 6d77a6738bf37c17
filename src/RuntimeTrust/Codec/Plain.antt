-- ===== src/RuntimeTrust/Codec/Plain.antt =====
-- packages/runtime-trust-contracts/src/codec.ts: no text that a validator admits starts with a byte
-- order mark.
use zima_control.Common.{
  ◌≡◌, refl, ap, ◌∙◌, true, false, ℕ, List, [], ◌∷◌, String, ◌==◌, string_eq, eq_iff, arith, all,
}
use zima_control.Common.Text.{codes, is_hex, is_identifier_character, ◌⧺◌}
use zima_control.Common.Action.{returned}
use zima_control.RuntimeTrust.Policy.{
  uuid_from, is_canonical_uuid, is_boundary_identifier, is_fingerprint,
}
use zima_control.RuntimeTrust.Codec.{
  Validator, starts_bom, after_prefix, assert_canonical_uuid, assert_boundary_identifier,
  assert_fingerprint, assert_runtime_id, is_runtime_id, exact_purpose, surface_code, purpose_text,
}

-- What the validator admits does not start with a byte order mark.
abbrev pub IsPlain : Validator → String → Type 0
IsPlain validate value = validate value ≡ returned tt → starts_bom (codes value) ≡ false

uuid_plain : (cs : List ℕ) → uuid_from 0 cs ≡ true → starts_bom cs ≡ false
uuid_plain [] h = refl
uuid_plain (c ∷ cs) h = ground (arith, h)

hex_plain : (cs : List ℕ) → all is_hex cs ≡ true → starts_bom cs ≡ false
hex_plain [] h = refl
hex_plain (c ∷ cs) h = ground (arith, h)

identifier_plain : (cs : List ℕ) → all is_identifier_character cs ≡ true → starts_bom cs ≡ false
identifier_plain [] h = refl
identifier_plain (c ∷ cs) h = ground (arith, h)

prefix_plain :
    (ps cs : List ℕ) → starts_bom ps ≡ false → after_prefix ps cs ≡ true → starts_bom cs ≡ false
prefix_plain [] cs h g = hex_plain cs (ground (arith, g))
prefix_plain (p ∷ ps) [] h g = refl
prefix_plain (p ∷ ps) (c ∷ cs) h g = ground (arith, h, g)

literal_plain :
    (value literal : String)
    → starts_bom (codes literal) ≡ false
    → (value == literal) ≡ true
    → starts_bom (codes value) ≡ false
literal_plain value literal h e = ap (λ x. starts_bom (codes x)) ((eq_iff value literal).0 e) ∙ h

pub assert_canonical_uuid-IsPlain : (value : String) → IsPlain assert_canonical_uuid value
unfolding assert_canonical_uuid is_canonical_uuid
assert_canonical_uuid-IsPlain value h = uuid_plain (codes value) (ground (arith, h))

pub assert_boundary_identifier-IsPlain : (value : String) → IsPlain assert_boundary_identifier value
unfolding assert_boundary_identifier is_boundary_identifier
assert_boundary_identifier-IsPlain value h = identifier_plain (codes value) (ground (arith, h))

pub assert_fingerprint-IsPlain : (value : String) → IsPlain assert_fingerprint value
unfolding assert_fingerprint is_fingerprint
assert_fingerprint-IsPlain value h = hex_plain (codes value) (ground (arith, h))

pub assert_runtime_id-IsPlain :
    (prefix value : String)
    → starts_bom (codes (prefix ⧺ "-")) ≡ false
    → IsPlain (assert_runtime_id prefix) value
unfolding assert_runtime_id is_runtime_id
assert_runtime_id-IsPlain prefix value p h =
    prefix_plain (codes (prefix ⧺ "-")) (codes value) p (ground (arith, h))

pub exact_purpose-IsPlain : (value : String) → IsPlain exact_purpose value
unfolding exact_purpose
exact_purpose-IsPlain value h = literal_plain value purpose_text refl (ground (arith, h))

pub surface_code-IsPlain : (value : String) → IsPlain surface_code value
unfolding surface_code
surface_code-IsPlain value h = ground (
  arith,
  h,
  literal_plain value "UNSUPPORTED_PROTOCOL" refl,
  literal_plain value "EXPIRED" refl,
  literal_plain value "SESSION_INVALIDATED" refl,
  literal_plain value "RETRY_LATER" refl,
  literal_plain value "ADMISSION_DENIED" refl,
)
