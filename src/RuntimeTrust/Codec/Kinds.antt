-- ===== src/RuntimeTrust/Codec/Kinds.antt =====
-- packages/runtime-trust-contracts/src/codec.ts: the header tells the kinds of message apart.
use zima_control.Common.{ℕ, ◌≡◌, ◌≢◌, refl, inl, inr, true, [], ◌∷◌, arith, take, drop}
use zima_control.Common.Action.{Outcome, returned, thrown, Outcome-cases, ◌>>=◌}
use zima_control.RuntimeTrust.Types.{RuntimeTrustErrorCode, Buffer}
use zima_control.RuntimeTrust.Codec.{Utf8, Stream, read_all, read_header, read_raw, same_bytes}
use zima_control.RuntimeTrust.Codec.RoundTrip.{decode-encode}
use zima_control.RuntimeTrust.Codec.Messages.{
  Message, hello, challenge, response, admitted, error, as_message, encode_message,
  decode_message_like, message_type, read_hello, read_challenge, read_response, read_admitted,
  read_error, decode_runtime_trust_hello, decode_runtime_trust_challenge,
  decode_runtime_trust_response, decode_runtime_trust_admitted, decode_runtime_trust_error,
}

-- The byte after the magic.
abbrev kind_of : Buffer → Buffer
kind_of payload = take 1 (drop 8 payload)

header_kind :
    {A : Type 0} (t : ℕ) (k : Unit {0} → Stream A) (payload : Buffer) (a : A)
    → ((read_header t >>= k) payload).0 ≡ returned a
    → same_bytes (kind_of payload) (t ∷ []) ≡ true
unfolding read_header read_raw
header_kind t k payload a h = ground arith

accepted_kind :
    {A : Type 0} (t : ℕ) (k : Unit {0} → Stream A) (payload : Buffer) (a : A)
    → read_all (read_header t >>= k) payload ≡ returned a
    → same_bytes (kind_of payload) (t ∷ []) ≡ true
unfolding read_all
accepted_kind t k payload a h = elim (Outcome-cases ((read_header t >>= k) payload).0) [
  | inl (b, e) ↦ header_kind t k payload b e
  | inr (x, e) ↦ absurd (ground (arith, h, e))
]

as_message-returned :
    {A : Type 0} (f : A → Message) (o : Outcome RuntimeTrustErrorCode A) (m : Message)
    → as_message f o ≡ returned m
    → (a : A) × (o ≡ returned a)
as_message-returned f (returned a) m h = (a, refl)
as_message-returned f (thrown e) m h = absurd (cc h)

decoded_kind :
    (utf8 : Utf8) (like message : Message) (payload : Buffer)
    → decode_message_like utf8 like payload ≡ returned message
    → same_bytes (kind_of payload) (message_type like ∷ []) ≡ true
unfolding decode_message_like decode_runtime_trust_hello decode_runtime_trust_challenge
    decode_runtime_trust_response decode_runtime_trust_admitted decode_runtime_trust_error
    read_hello read_challenge read_response read_admitted read_error
decoded_kind utf8 (hello v) m payload h =
    let (a, e) = as_message-returned hello _ m h in accepted_kind 1 _ payload a e
decoded_kind utf8 (challenge v) m payload h =
    let (a, e) = as_message-returned challenge _ m h in accepted_kind 2 _ payload a e
decoded_kind utf8 (response v) m payload h =
    let (a, e) = as_message-returned response _ m h in accepted_kind 3 _ payload a e
decoded_kind utf8 (admitted v) m payload h =
    let (a, e) = as_message-returned admitted _ m h in accepted_kind 4 _ payload a e
decoded_kind utf8 (error v) m payload h =
    let (a, e) = as_message-returned error _ m h in accepted_kind 0x7f _ payload a e

same_bytes-one :
    (bytes : Buffer) (a b : ℕ)
    → same_bytes bytes (a ∷ []) ≡ true
    → same_bytes bytes (b ∷ []) ≡ true
    → a ≡ b
same_bytes-one [] a b h g = absurd (cc h)
same_bytes-one (c ∷ cs) a b h g = ground arith

-- The payload of a message is not accepted by the decoder of a message of another kind.
pub other_kind_refused :
    (utf8 : Utf8) (message like : Message) (payload : Buffer)
    → encode_message utf8 message ≡ returned payload
    → message_type like ≢ message_type message
    → (decoded : Message) → decode_message_like utf8 like payload ≢ returned decoded
other_kind_refused utf8 message like payload h differs decoded g = differs (
    same_bytes-one (kind_of payload) (message_type like) (message_type message)
      (decoded_kind utf8 like decoded payload g)
      (decoded_kind utf8 message message payload (decode-encode utf8 message payload h)))
