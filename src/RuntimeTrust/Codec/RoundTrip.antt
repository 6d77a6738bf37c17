-- ===== src/RuntimeTrust/Codec/RoundTrip.antt =====
-- packages/runtime-trust-contracts/src/codec.ts: what an encoder gives, its decoder takes back.
use zima_control.Common.{
  ℕ, ◌≤◌, ◌≡◌, refl, sym, ap, ◌∙◌, inl, inr, true, false, String, [], length, append_nil, arith,
  nat_beq, not,
}
use zima_control.Common.Action.{returned, Outcome-cases}
use zima_control.RuntimeTrust.Types.{
  Buffer, RuntimeTrustHello, RuntimeTrustChallenge, RuntimeTrustResponse,
}
use zima_control.RuntimeTrust.Codec.Plain.{
  assert_canonical_uuid-IsPlain, assert_boundary_identifier-IsPlain, assert_fingerprint-IsPlain,
  assert_runtime_id-IsPlain, exact_purpose-IsPlain, surface_code-IsPlain,
}
use zima_control.RuntimeTrust.Codec.{
  Utf8, Stream, finish, read_all, max_frame_bytes, assert_canonical_uuid,
  assert_boundary_identifier, assert_fingerprint, assert_runtime_id, exact_purpose, surface_code,
  purpose_text,
}
use zima_control.RuntimeTrust.Codec.Fields.{
  Carries, then_field, last_field, when_not, sized_field, text_field, u64_field, header_field,
}
use zima_control.RuntimeTrust.Codec.Messages.{
  RuntimeTrustAdmitted, Binding, Message, hello, challenge, response, admitted, error, as_message,
  encode_message, decode_message_like, write_binding, read_binding, write_hello, read_hello,
  write_challenge, read_challenge, write_response, read_response, write_admitted, read_admitted,
  write_error, read_error, encode_runtime_trust_hello, decode_runtime_trust_hello,
  encode_runtime_trust_challenge, decode_runtime_trust_challenge, encode_runtime_trust_response,
  decode_runtime_trust_response, encode_runtime_trust_admitted, decode_runtime_trust_admitted,
  encode_runtime_trust_error, decode_runtime_trust_error,
}

finish-written :
    (w : Stream (Unit {0})) (payload : Buffer)
    → finish w ≡ returned payload
    → ((w []).0 ≡ returned tt) × ((w []).1 ≡ payload) × (length payload ≤ max_frame_bytes)
unfolding finish
finish-written w payload h = elim (Outcome-cases (w []).0) [
  | inl (u, e) ↦ (e, ground (arith, e, h), ground (arith, e, h))
  | inr (x, e) ↦ ground (arith, e, h)
]

whole-read :
    {A : Type 0} (r : Stream A) (a : A) (payload : Buffer)
    → 11 ≤ length payload
    → length payload ≤ max_frame_bytes
    → r payload ≡ (returned a, [])
    → read_all r payload ≡ returned a
unfolding read_all
whole-read r a payload long small h = ground (arith, h)

read_all-finish :
    {A : Type 0} {w : Stream (Unit {0})} {r : Stream A} {a : A} {n : ℕ} (payload : Buffer)
    → Carries n w r a
    → 11 ≤ n
    → finish w ≡ returned payload
    → read_all r payload ≡ returned a
read_all-finish {w = w} {r = r} {a = a} payload message long h =
    let (hw, written, small) = finish-written w payload h in
    let (xs, sx, nx, rx) = message.carried [] hw in
    let same = sym written ∙ sx in
    whole-read r a payload (omega (arith, long, nx, ap (λ p. length p) same)) small
      (ap r (same ∙ sym (append_nil xs)) ∙ rx [])

module _ (utf8 : Utf8) where
  binding_field : (value : Binding) → Carries 8 (write_binding utf8 value) (read_binding utf8) value
  unfolding write_binding read_binding
  binding_field value =
      then_field _
        (text_field utf8 value.authority_id assert_canonical_uuid
          (assert_canonical_uuid-IsPlain value.authority_id))
        (then_field _
          (text_field utf8 value.issuer_id assert_canonical_uuid
            (assert_canonical_uuid-IsPlain value.issuer_id))
          (then_field _
            (text_field utf8 value.service_boundary_id assert_boundary_identifier
              (assert_boundary_identifier-IsPlain value.service_boundary_id))
            (last_field _ (λ rest. refl)
              (text_field utf8 value.binding_epoch assert_boundary_identifier
                (assert_boundary_identifier-IsPlain value.binding_epoch)))))

  hello_field :
      (value : RuntimeTrustHello) → Carries 25 (write_hello utf8 value) (read_hello utf8) value
  unfolding write_hello read_hello
  hello_field value = then_field _ (header_field 1) (
      then_field _ (text_field utf8 purpose_text exact_purpose (exact_purpose-IsPlain purpose_text))
        (then_field _ (binding_field _) (
          then_field _
            (text_field utf8 value.public_key_fingerprint assert_fingerprint
              (assert_fingerprint-IsPlain value.public_key_fingerprint))
            (last_field _ (λ rest. refl)
              (text_field utf8 value.runtime_instance_id (assert_runtime_id "ri1")
                (assert_runtime_id-IsPlain "ri1" value.runtime_instance_id refl))))))

  challenge_field :
      (value : RuntimeTrustChallenge)
      → Carries 75 (write_challenge utf8 value) (read_challenge utf8) value
  unfolding write_challenge read_challenge
  challenge_field value = then_field _ (header_field 2) (
      then_field _ (text_field utf8 purpose_text exact_purpose (exact_purpose-IsPlain purpose_text))
        (then_field _ (binding_field _) (
          then_field _ (u64_field value.binding.key_version true) (
            then_field _
              (text_field utf8 value.binding.public_key_fingerprint assert_fingerprint
                (assert_fingerprint-IsPlain value.binding.public_key_fingerprint))
              (then_field _ (u64_field value.state_version false) (
                then_field _
                  (text_field utf8 value.runtime_instance_id (assert_runtime_id "ri1")
                    (assert_runtime_id-IsPlain "ri1" value.runtime_instance_id refl))
                  (then_field _
                    (text_field utf8 value.challenge_id (assert_runtime_id "ch1")
                      (assert_runtime_id-IsPlain "ch1" value.challenge_id refl))
                    (when_not (not (nat_beq (length value.nonce) 32)) _ λ ok.
                      last_field _ (λ rest. refl)
                        (sized_field value.nonce 32 (ground arith))))))))))

  response_field :
      (value : RuntimeTrustResponse)
      → Carries 79 (write_response utf8 value) (read_response utf8) value
  unfolding write_response read_response
  response_field value = then_field _ (header_field 3) (
      then_field _
        (text_field utf8 value.challenge_id (assert_runtime_id "ch1")
          (assert_runtime_id-IsPlain "ch1" value.challenge_id refl))
        (then_field _
          (text_field utf8 value.runtime_instance_id (assert_runtime_id "ri1")
            (assert_runtime_id-IsPlain "ri1" value.runtime_instance_id refl))
          (when_not (not (nat_beq (length value.signature) 64)) _
            λ ok. last_field _ (λ rest. refl) (sized_field value.signature 64 (ground arith)))))

  admitted_field :
      (value : RuntimeTrustAdmitted)
      → Carries 33 (write_admitted utf8 value) (read_admitted utf8) value
  unfolding write_admitted read_admitted
  admitted_field value = then_field _ (header_field 4) (
      then_field _
        (text_field utf8 value.session_id (assert_runtime_id "rs1")
          (assert_runtime_id-IsPlain "rs1" value.session_id refl))
        (then_field _
          (text_field utf8 value.runtime_instance_id (assert_runtime_id "ri1")
            (assert_runtime_id-IsPlain "ri1" value.runtime_instance_id refl))
          (then_field _ (u64_field value.key_version true) (
            then_field _
              (text_field utf8 value.binding_epoch assert_boundary_identifier
                (assert_boundary_identifier-IsPlain value.binding_epoch))
              (last_field _ (λ rest. refl) (u64_field value.state_version false))))))

  error_field : (code : String) → Carries 13 (write_error utf8 code) (read_error utf8) code
  unfolding write_error read_error
  error_field code =
      then_field _ (header_field 0x7f)
        (text_field utf8 code surface_code (surface_code-IsPlain code))

-- Whatever the UTF-8 coder, a message that is encoded is taken back by the decoder of its kind from
-- the payload that its encoder gives, for each of the five kinds of message.
pub decode-encode :
    (utf8 : Utf8) (message : Message) (payload : Buffer)
    → encode_message utf8 message ≡ returned payload
    → decode_message_like utf8 message payload ≡ returned message
unfolding encode_message decode_message_like encode_runtime_trust_hello decode_runtime_trust_hello
    encode_runtime_trust_challenge decode_runtime_trust_challenge encode_runtime_trust_response
    decode_runtime_trust_response encode_runtime_trust_admitted decode_runtime_trust_admitted
    encode_runtime_trust_error decode_runtime_trust_error
decode-encode utf8 (hello m) payload h =
    ap (as_message hello) (read_all-finish payload (hello_field utf8 m) (omega arith) h)
decode-encode utf8 (challenge m) payload h =
    ap (as_message challenge) (read_all-finish payload (challenge_field utf8 m) (omega arith) h)
decode-encode utf8 (response m) payload h =
    ap (as_message response) (read_all-finish payload (response_field utf8 m) (omega arith) h)
decode-encode utf8 (admitted m) payload h =
    ap (as_message admitted) (read_all-finish payload (admitted_field utf8 m) (omega arith) h)
decode-encode utf8 (error m) payload h =
    ap (as_message error) (read_all-finish payload (error_field utf8 m) (omega arith) h)
