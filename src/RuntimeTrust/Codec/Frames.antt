-- ===== src/RuntimeTrust/Codec/Frames.antt =====
-- packages/runtime-trust-contracts/src/codec.ts: frames, and the accumulator that puts a frame
-- together from the chunks that a socket delivers. The accumulator's state is what it has buffered.
use zima_control.Common.{
  ℕ, zero, suc, ◌+◌, ◌≤◌, ◌≡◌, refl, sym, ap, ◌∙◌, inl, inr, Bool-cases, Bool, not, ◌||◌, List, [],
  ◌∷◌, ◌++◌, Option, none, some, length, take, drop, arith, length-append, append_nil, nat_beq, ltb,
  if◌then◌else◌,
}
use zima_control.Common.Action.{
  Outcome, returned, thrown, ◌>>=◌, ◌>>◌, pure, throw_if, gets, modify,
}
use zima_control.RuntimeTrust.Types.{RuntimeTrustErrorCode, malformed_envelope, Buffer}
use zima_control.RuntimeTrust.Codec.{Stream, u32_bytes, read_be, max_frame_bytes}

-- `readUInt32BE(0)`
abbrev read_u32 : Buffer → ℕ
read_u32 bytes = read_be 0 (take 4 bytes)

abbrev fits : ℕ → Bool
fits n = not (ltb n 1 || ltb max_frame_bytes n)

unfoldable pub encode_runtime_trust_frame : Buffer → Outcome RuntimeTrustErrorCode Buffer
encode_runtime_trust_frame payload =
    if not (fits (length payload))
    then thrown malformed_envelope
    else returned (u32_bytes (length payload) ++ payload)

unfoldable pub decode_runtime_trust_frame : Buffer → Outcome RuntimeTrustErrorCode Buffer
decode_runtime_trust_frame frame =
    let n = read_u32 frame in
    if ltb (length frame) 5 || ltb (max_frame_bytes + 4) (length frame)
    then thrown malformed_envelope
    else if not (fits n) || not (nat_beq (length frame) (n + 4))
    then thrown malformed_envelope
    else returned (drop 4 frame)

-- What is left of `push`, once the chunk is in the buffer and the length is there to read.
abbrev completed : ℕ → Stream (Option Buffer)
completed n = do
  throw_if (not (fits n)) malformed_envelope
  size ← gets (λ buffered. length buffered)
  if ltb size (n + 4) then pure none else do
    throw_if (not (nat_beq size (n + 4))) malformed_envelope
    payload ← gets (drop 4)
    modify (λ _. [])
    pure (some payload)

unfoldable pub push : Buffer → Stream (Option Buffer)
push chunk = do
  wrong ← gets (λ buffered.
      nat_beq (length chunk) 0 || ltb (max_frame_bytes + 4) (length buffered + length chunk))
  throw_if wrong malformed_envelope
  modify (λ buffered. buffered ++ chunk)
  buffered ← gets (λ buffered. buffered)
  if ltb (length buffered) 4 then pure none else completed (read_u32 buffered)

unfoldable pub end_of_stream : Stream (Unit {0})
end_of_stream = do
  left ← gets (λ buffered. not (nat_beq (length buffered) 0))
  throw_if left malformed_envelope

-- The chunks of a connection, one after another, and what each `push` gives.
unfoldable pub push_each : List Buffer → Stream (List (Option Buffer))
push_each [] = pure []
push_each (chunk ∷ chunks) = do
  result ← push chunk
  results ← push_each chunks
  pure (result ∷ results)

pub encoded_frame :
    (payload frame : Buffer)
    → encode_runtime_trust_frame payload ≡ returned frame
    → (1 ≤ length payload)
      × (length payload ≤ max_frame_bytes)
      × (u32_bytes (length payload) ++ payload ≡ frame)
unfolding encode_runtime_trust_frame
encoded_frame payload frame h = (ground arith, ground arith, ground arith)

read_be-u32_bytes : (n : ℕ) → n ≤ max_frame_bytes → read_be 0 (u32_bytes n) ≡ n
read_be-u32_bytes n h = omega arith

-- A frame is decoded to the payload that it was encoded from.
pub decode_frame-encode_frame :
    (payload frame : Buffer)
    → encode_runtime_trust_frame payload ≡ returned frame
    → decode_runtime_trust_frame frame ≡ returned payload
unfolding decode_runtime_trust_frame
decode_frame-encode_frame payload frame h =
    let (some_bytes, small, same) = encoded_frame payload frame h in
    ap decode_runtime_trust_frame (sym same)
    ∙ ground (arith, read_be-u32_bytes (length payload) small, some_bytes, small)

take-prefix : (n : ℕ) (xs ys : Buffer) → n ≤ length xs → take n (xs ++ ys) ≡ take n xs
take-prefix zero xs ys h = refl
take-prefix (suc n) [] ys h = absurd (omega (arith, h))
take-prefix (suc n) (x ∷ xs) ys h = ap (λ r. x ∷ r) (take-prefix n xs ys (omega (arith, h)))

read_u32-part :
    (payload part more : Buffer)
    → length payload ≤ max_frame_bytes
    → u32_bytes (length payload) ++ payload ≡ part ++ more
    → 4 ≤ length part
    → read_u32 part ≡ length payload
read_u32-part payload part more small same long =
    ap (λ p. read_be 0 p) (sym (take-prefix 4 part more long) ∙ ap (λ p. take 4 p) (sym same))
    ∙ read_be-u32_bytes (length payload) small

-- A chunk that does not complete the frame is only buffered.
pub push-part :
    (payload buffered chunk more : Buffer)
    → 1 ≤ length payload
    → length payload ≤ max_frame_bytes
    → u32_bytes (length payload) ++ payload ≡ (buffered ++ chunk) ++ more
    → 1 ≤ length chunk
    → 1 ≤ length more
    → push chunk buffered ≡ (returned none, buffered ++ chunk)
unfolding push
push-part payload buffered chunk more some_bytes small same hc hm =
    let size = length-append (buffered ++ chunk) more in
    let own = length-append buffered chunk in
    let total = ap (λ p. length p) same in
    elim (Bool-cases (ltb (length (buffered ++ chunk)) 4)) [
      | inl e ↦ ground (arith, size, own, total, e)
      | inr e ↦
          let n = read_u32-part payload (buffered ++ chunk) more small same (ground (arith, e)) in
          ground (arith, size, own, total, e, n)
    ]

pub push-last :
    (payload buffered chunk : Buffer)
    → 1 ≤ length payload
    → length payload ≤ max_frame_bytes
    → u32_bytes (length payload) ++ payload ≡ buffered ++ chunk
    → 1 ≤ length chunk
    → push chunk buffered ≡ (returned (some payload), [])
unfolding push
push-last payload buffered chunk some_bytes small same hc =
    let own = length-append buffered chunk in
    let total = ap (λ p. length p) same in
    let n =
      read_u32-part payload (buffered ++ chunk) [] small
        (same ∙ sym (append_nil (buffered ++ chunk))) (omega (arith, own, total)) in
    let rest = ap (λ p. drop 4 p) same in ground (arith, own, total, n, rest)
