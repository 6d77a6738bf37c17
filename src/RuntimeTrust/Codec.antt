-- ===== src/RuntimeTrust/Codec.antt =====
-- packages/runtime-trust-contracts/src/codec.ts: the writer and the reader of the wire format. The
-- writer's state is what it has written, and the reader's is what it has not read. UTF-8 is the
-- platform's.
pub mod Messages
pub mod Plain
pub mod Fields
pub mod RoundTrip
pub mod Frames
pub mod Kinds
pub mod Delivery
use zima_control.Common.{
  ◌≡◌, ℕ, zero, suc, ◌+◌, ◌*◌, ◌/◌, ◌%◌, ◌^◌, String, Bool, true, false, not, ◌||◌, ◌&&◌, List, [],
  ◌∷◌, ◌++◌, Option, none, some, ◌==◌, nat_beq, leb, ltb, all, length, take, drop, if◌then◌else◌,
  string_eq, nat_eq, option_eq,
}
use zima_control.Common.Text.{codes, is_hex, ◌⧺◌}
use zima_control.Common.Action.{
  Action, Outcome, returned, thrown, ◌>>=◌, ◌>>◌, pure, lift, throw, throw_if, gets, modify,
}
use zima_control.RuntimeTrust.Types.{
  RuntimeTrustErrorCode, malformed_envelope, unsupported_protocol, invalid_identity, invalid_key,
  Buffer,
}
use zima_control.RuntimeTrust.Policy.{
  is_canonical_uuid, is_boundary_identifier, is_fingerprint, is_safe_integer,
}

-- The text starts with a byte order mark, which `TextDecoder` leaves out.
abbrev pub starts_bom : List ℕ → Bool
starts_bom [] = false
starts_bom (c ∷ cs) = nat_beq c 0xfeff

-- `encode` is `Buffer.from(value, "utf8")`, `to_text` is `toString("utf8")`, which does not throw, and
-- `decode` gives nothing where `TextDecoder` with `fatal` throws. A text that `toString` reads back from
-- its buffer, `TextDecoder` reads back too, but for a byte order mark at its start.
pub record Utf8 : Type 0 where
  pub encode : String → Buffer
  pub to_text : Buffer → String
  pub decode : Buffer → Option String
  pub decode-encode_plain :
      (value : String)
      → starts_bom (codes value) ≡ false
      → to_text (encode value) ≡ value
      → decode (encode value) ≡ some value

abbrev pub Stream : Type 0 → Type 0
Stream A = Action Buffer RuntimeTrustErrorCode A

-- What a field's text has to be: the check, and the code that is thrown.
abbrev pub Validator : Type 0
Validator = String → Outcome RuntimeTrustErrorCode (Unit {0})

abbrev pub valid_if : Bool → RuntimeTrustErrorCode → Outcome RuntimeTrustErrorCode (Unit {0})
valid_if test e = if test then returned tt else thrown e

abbrev pub max_frame_bytes : ℕ
max_frame_bytes = 16384

abbrev pub purpose_text : String
purpose_text = "ZCC_RUNTIME_TRUST_ADMISSION"

unfoldable pub assert_canonical_uuid : Validator
assert_canonical_uuid value = valid_if (is_canonical_uuid value) invalid_identity

unfoldable pub assert_boundary_identifier : Validator
assert_boundary_identifier value = valid_if (is_boundary_identifier value) invalid_identity

unfoldable pub assert_fingerprint : Validator
assert_fingerprint value = valid_if (is_fingerprint value) invalid_key

abbrev pub after_prefix : List ℕ → List ℕ → Bool
after_prefix [] rest = all is_hex rest && nat_beq (length rest) 64
after_prefix (p ∷ ps) [] = false
after_prefix (p ∷ ps) (c ∷ rest) = nat_beq p c && after_prefix ps rest

-- The prefix with its dash, and then 64 hexadecimal digits.
unfoldable pub is_runtime_id : String → String → Bool
is_runtime_id value prefix = after_prefix (codes (prefix ⧺ "-")) (codes value)

unfoldable pub assert_runtime_id : String → Validator
unfolding is_runtime_id
assert_runtime_id prefix value = valid_if (is_runtime_id value prefix) invalid_identity

unfoldable pub exact_purpose : Validator
exact_purpose value = valid_if (value == purpose_text) unsupported_protocol

unfoldable pub surface_code : Validator
surface_code value =
    valid_if
      (value == "UNSUPPORTED_PROTOCOL"
        || value == "EXPIRED"
        || value == "SESSION_INVALIDATED"
        || value == "RETRY_LATER"
        || value == "ADMISSION_DENIED")
      malformed_envelope

-- `writeUInt16BE`, `writeUInt32BE` and `writeBigUInt64BE`.
abbrev pub u16_bytes : ℕ → Buffer
u16_bytes n = n / 256 % 256 ∷ n % 256 ∷ []

abbrev pub u32_bytes : ℕ → Buffer
u32_bytes n = n / 2 ^ 24 % 256 ∷ n / 2 ^ 16 % 256 ∷ n / 256 % 256 ∷ n % 256 ∷ []

abbrev pub u64_bytes : ℕ → Buffer
u64_bytes n =
    n / 2 ^ 56 % 256
    ∷ n / 2 ^ 48 % 256
    ∷ n / 2 ^ 40 % 256
    ∷ n / 2 ^ 32 % 256
    ∷ u32_bytes (n % 2 ^ 32)

-- `readUInt16BE`, `readUInt32BE` and `readBigUInt64BE`.
abbrev pub read_be : ℕ → Buffer → ℕ
read_be acc [] = acc
read_be acc (b ∷ bs) = read_be (acc * 256 + b) bs

unfoldable pub write_raw : Buffer → Stream (Unit {0})
write_raw value = do
  too_long ← gets (λ written. ltb max_frame_bytes (length written + length value))
  throw_if too_long malformed_envelope
  modify (λ written. written ++ value)

unfoldable pub write_string : Utf8 → String → Validator → Stream (Unit {0})
write_string utf8 value validate = do
  lift (validate value)
  let bytes = utf8.encode value
  throw_if
      (nat_beq (length bytes) 0 || ltb 65535 (length bytes) || not (utf8.to_text bytes == value))
      malformed_envelope
  write_raw (u16_bytes (length bytes))
  write_raw bytes

unfoldable pub write_u64 : ℕ → Bool → Stream (Unit {0})
write_u64 value positive = do
  throw_if (not (is_safe_integer value positive)) malformed_envelope
  write_raw (u64_bytes value)

abbrev finish_stream : Stream (Unit {0}) → Stream Buffer
finish_stream write = do
  write
  wrong ← gets (λ written. ltb (length written) 1 || ltb max_frame_bytes (length written))
  throw_if wrong malformed_envelope
  gets (λ written. written)

-- `finish`, on what a writer that started empty has written.
unfoldable pub finish : Stream (Unit {0}) → Outcome RuntimeTrustErrorCode Buffer
finish write = (finish_stream write []).0

unfoldable pub read_raw : ℕ → Stream Buffer
read_raw n = do
  rest ← gets (λ rest. rest)
  throw_if (ltb (length rest) n) malformed_envelope
  modify (drop n)
  pure (take n rest)

-- The text that was decoded has as many bytes as it was read from.
abbrev decoded : Utf8 → ℕ → Option String → Stream String
decoded utf8 n none = throw malformed_envelope
decoded utf8 n (some value) =
    if not (nat_beq (length (utf8.encode value)) n) then throw malformed_envelope else pure value

-- A text of `n` bytes.
abbrev pub read_text : Utf8 → Validator → ℕ → Stream String
read_text utf8 validate n = do
  throw_if (nat_beq n 0) malformed_envelope
  bytes ← read_raw n
  value ← decoded utf8 n (utf8.decode bytes)
  lift (validate value)
  pure value

unfoldable pub read_string : Utf8 → Validator → Stream String
read_string utf8 validate = do prefix ← read_raw 2; read_text utf8 validate (read_be 0 prefix)

unfoldable pub read_u64 : Bool → Stream ℕ
read_u64 positive = do
  bytes ← read_raw 8
  let value = read_be 0 bytes
  throw_if (leb (2 ^ 53) value) malformed_envelope
  throw_if (not (is_safe_integer value positive)) malformed_envelope
  pure value

abbrev whole : {A : Type 0} → Stream A → Stream A
whole read = do
  wrong ← gets (λ input. ltb (length input) 11 || ltb max_frame_bytes (length input))
  throw_if wrong malformed_envelope
  value ← read
  left ← gets (λ rest. not (nat_beq (length rest) 0))
  throw_if left malformed_envelope
  pure value

-- A reader over the payload, and `done` after what it reads.
unfoldable pub read_all : {A : Type 0} → Stream A → Buffer → Outcome RuntimeTrustErrorCode A
read_all read payload = (whole read payload).0

-- "ZCCRTV1\0"
abbrev pub magic : Buffer
magic = 90 ∷ 67 ∷ 67 ∷ 82 ∷ 84 ∷ 86 ∷ 49 ∷ 0 ∷ []

unfoldable pub write_header : ℕ → Stream (Unit {0})
write_header message_type = do
  write_raw magic
  write_raw (message_type ∷ [])
  write_raw (u16_bytes 1)

abbrev same_bytes : Buffer → Buffer → Bool
same_bytes [] [] = true
same_bytes [] (b ∷ bs) = false
same_bytes (a ∷ as_) [] = false
same_bytes (a ∷ as_) (b ∷ bs) = nat_beq a b && same_bytes as_ bs

unfoldable pub read_header : ℕ → Stream (Unit {0})
read_header expected_type = do
  start ← read_raw 8
  throw_if (not (same_bytes start magic)) unsupported_protocol
  kind ← read_raw 1
  throw_if (not (same_bytes kind (expected_type ∷ []))) malformed_envelope
  version ← read_raw 2
  throw_if (not (nat_beq (read_be 0 version) 1)) unsupported_protocol
