-- ===== src/Tests/Codec.antt =====
-- The theorems on the wire format at concrete messages, with the characters of ASCII as the coder.
use Prim.Native.Nat.{◌-◌}
use Prim.Native.Char.{Char}
use Prim.Native.String
use mathlib.Core.List
use zima_control.Common.{
  ap, zero, suc, ℕ, ◌≡◌, ◌≢◌, refl, none, some, arith, ◌++◌, length, drop, take,
}
use zima_control.Common.Text.{codes, ◌⧺◌}
use zima_control.Common.Action.{returned}
use zima_control.RuntimeTrust.Types.{Buffer}
use zima_control.RuntimeTrust.Codec.{
  Utf8, magic, finish, write_header, write_string, write_raw, assert_runtime_id, is_runtime_id,
  u16_bytes, u32_bytes,
}
use zima_control.RuntimeTrust.Codec.Messages.{
  Message, response, error, encode_message, decode_message_like, encode_runtime_trust_response,
  write_response,
}
use zima_control.RuntimeTrust.Codec.RoundTrip.{decode-encode}
use zima_control.RuntimeTrust.Codec.Kinds.{other_kind_refused}
use zima_control.RuntimeTrust.Codec.Frames.{
  encode_runtime_trust_frame, decode_runtime_trust_frame, decode_frame-encode_frame, push_each,
}
use zima_control.RuntimeTrust.Codec.Delivery.{push_each-chunks}

abbrev printable : String.String
printable =
    " !?#$%&'()*+,-./0123456789:;<=>?@ABCDEFGHIJKLMNOPQRSTUVWXYZ[?]^_`abcdefghijklmnopqrstuvwxyz"

abbrev nth_character : String.String → ℕ → Char
nth_character (String.[]) i = "?"
nth_character (String.◌∷◌ c cs) zero = c
nth_character (String.◌∷◌ c cs) (suc i) = nth_character cs i

abbrev text_of : Buffer → String.String
text_of List.[] = ""
text_of (List.◌∷◌ b bs) = String.◌∷◌ (nth_character printable (b - 32)) (text_of bs)

abbrev ascii : Utf8
ascii = record {
  encode = codes;
  to_text = text_of;
  decode = λ bytes. some (text_of bytes);
  decode-encode_plain = λ value plain same. ap some same;
}

abbrev digits : String.String
digits = "0123456789abcdef0123456789abcdef0123456789abcdef0123456789abcdef"

abbrev zeros : ℕ → Buffer
zeros zero = List.[]
zeros (suc n) = List.◌∷◌ 0 (zeros n)

abbrev answer : Message
answer = response (record {
  challenge_id = "ch1-" ⧺ digits;
  runtime_instance_id = "ri1-" ⧺ digits;
  signature = zeros 64;
})

abbrev wire_text : String.String → Buffer
wire_text s = u16_bytes (length (codes s)) ++ codes s

abbrev answer_payload : Buffer
answer_payload =
    magic
    ++ (List.◌∷◌ 3 (u16_bytes 1))
    ++ wire_text ("ch1-" ⧺ digits)
    ++ wire_text ("ri1-" ⧺ digits)
    ++ zeros 64

answer_encoded : encode_message ascii answer ≡ returned answer_payload
unfolding encode_message encode_runtime_trust_response write_response finish write_header
    write_string write_raw assert_runtime_id is_runtime_id
answer_encoded = refl

decode-encode_example : decode_message_like ascii answer answer_payload ≡ returned answer
decode-encode_example = decode-encode ascii answer answer_payload answer_encoded

other_kind_refused_example :
    decode_message_like ascii (error "EXPIRED") answer_payload ≢ returned (error "EXPIRED")
other_kind_refused_example =
    other_kind_refused ascii answer (error "EXPIRED") answer_payload answer_encoded (omega arith)
      (error "EXPIRED")

abbrev answer_frame : Buffer
answer_frame = u32_bytes (length answer_payload) ++ answer_payload

answer_framed : encode_runtime_trust_frame answer_payload ≡ returned answer_frame
unfolding encode_runtime_trust_frame
answer_framed = refl

decode_frame-encode_frame_example :
    decode_runtime_trust_frame answer_frame ≡ returned answer_payload
decode_frame-encode_frame_example =
    decode_frame-encode_frame answer_payload answer_frame answer_framed

abbrev pieces : List.List Buffer
pieces = List.◌∷◌ (take 3 answer_frame) (List.◌∷◌ (take 60 (drop 3 answer_frame)) List.[])

push_each-chunks_example :
    push_each
      (List.◌∷◌
        (take 3 answer_frame)
        (List.◌∷◌ (take 60 (drop 3 answer_frame)) (List.◌∷◌ (drop 63 answer_frame) List.[])))
      List.[]
    ≡ (returned (List.◌∷◌ none (List.◌∷◌ none (List.◌∷◌ (some answer_payload) List.[]))), List.[])
push_each-chunks_example =
    push_each-chunks answer_payload answer_frame pieces (drop 63 answer_frame) answer_framed refl
      refl (omega arith)
