-- ===== src/RuntimeTrust/Codec/Messages.antt =====
-- packages/runtime-trust-contracts/src/codec.ts: the encoder and the decoder of each message. The
-- protocol version and the purpose, which a message's type fixes, are not in the message's record, and
-- `immutable` gives back its argument.
use zima_control.Common.{ℕ, String, true, false, not, nat_beq, nat_eq, length}
use zima_control.Common.Action.{Outcome, returned, thrown, ◌>>=◌, ◌>>◌, pure, throw_if}
use zima_control.RuntimeTrust.Types.{
  RuntimeTrustErrorCode, malformed_envelope, Buffer, RuntimeTrustHello, RuntimeTrustChallenge,
  RuntimeTrustResponse,
}
use zima_control.RuntimeTrust.Codec.{
  Utf8, Stream, assert_canonical_uuid, assert_boundary_identifier, assert_fingerprint,
  assert_runtime_id, exact_purpose, surface_code, write_raw, write_string, write_u64, write_header,
  finish, read_raw, read_string, read_u64, read_header, read_all, purpose_text,
}

pub record RuntimeTrustAdmitted : Type 0 where
  pub session_id : String
  pub runtime_instance_id : String
  pub key_version : ℕ
  pub binding_epoch : String
  pub state_version : ℕ

pub record Binding : Type 0 where
  pub authority_id : String
  pub issuer_id : String
  pub service_boundary_id : String
  pub binding_epoch : String

module _ (utf8 : Utf8) where
  unfoldable pub write_binding : Binding → Stream (Unit {0})
  write_binding value = do
    write_string utf8 value.authority_id assert_canonical_uuid
    write_string utf8 value.issuer_id assert_canonical_uuid
    write_string utf8 value.service_boundary_id assert_boundary_identifier
    write_string utf8 value.binding_epoch assert_boundary_identifier

  unfoldable pub read_binding : Stream Binding
  read_binding = do
    authority_id ← read_string utf8 assert_canonical_uuid
    issuer_id ← read_string utf8 assert_canonical_uuid
    service_boundary_id ← read_string utf8 assert_boundary_identifier
    binding_epoch ← read_string utf8 assert_boundary_identifier
    pure (record {
      authority_id = authority_id;
      issuer_id = issuer_id;
      service_boundary_id = service_boundary_id;
      binding_epoch = binding_epoch;
    })

  unfoldable pub write_hello : RuntimeTrustHello → Stream (Unit {0})
  write_hello value = do
    write_header 1
    write_string utf8 purpose_text exact_purpose
    write_binding (record {
      authority_id = value.authority_id;
      issuer_id = value.issuer_id;
      service_boundary_id = value.service_boundary_id;
      binding_epoch = value.binding_epoch;
    })
    write_string utf8 value.public_key_fingerprint assert_fingerprint
    write_string utf8 value.runtime_instance_id (assert_runtime_id "ri1")

  unfoldable pub read_hello : Stream RuntimeTrustHello
  read_hello = do
    read_header 1
    _ ← read_string utf8 exact_purpose
    binding ← read_binding
    public_key_fingerprint ← read_string utf8 assert_fingerprint
    runtime_instance_id ← read_string utf8 (assert_runtime_id "ri1")
    pure (record {
      authority_id = binding.authority_id;
      issuer_id = binding.issuer_id;
      service_boundary_id = binding.service_boundary_id;
      binding_epoch = binding.binding_epoch;
      public_key_fingerprint = public_key_fingerprint;
      runtime_instance_id = runtime_instance_id;
    })

  unfoldable pub encode_runtime_trust_hello :
      RuntimeTrustHello → Outcome RuntimeTrustErrorCode Buffer
  encode_runtime_trust_hello value = finish (write_hello value)

  unfoldable pub decode_runtime_trust_hello :
      Buffer → Outcome RuntimeTrustErrorCode RuntimeTrustHello
  decode_runtime_trust_hello = read_all read_hello

  unfoldable pub write_challenge : RuntimeTrustChallenge → Stream (Unit {0})
  write_challenge value = do
    write_header 2
    write_string utf8 purpose_text exact_purpose
    write_binding (record {
      authority_id = value.binding.authority_id;
      issuer_id = value.binding.issuer_id;
      service_boundary_id = value.binding.service_boundary_id;
      binding_epoch = value.binding.binding_epoch;
    })
    write_u64 value.binding.key_version true
    write_string utf8 value.binding.public_key_fingerprint assert_fingerprint
    write_u64 value.state_version false
    write_string utf8 value.runtime_instance_id (assert_runtime_id "ri1")
    write_string utf8 value.challenge_id (assert_runtime_id "ch1")
    throw_if (not (nat_beq (length value.nonce) 32)) malformed_envelope
    write_raw value.nonce

  unfoldable pub read_challenge : Stream RuntimeTrustChallenge
  read_challenge = do
    read_header 2
    _ ← read_string utf8 exact_purpose
    binding ← read_binding
    key_version ← read_u64 true
    public_key_fingerprint ← read_string utf8 assert_fingerprint
    state_version ← read_u64 false
    runtime_instance_id ← read_string utf8 (assert_runtime_id "ri1")
    challenge_id ← read_string utf8 (assert_runtime_id "ch1")
    nonce ← read_raw 32
    pure (record {
      binding = record {
        authority_id = binding.authority_id;
        issuer_id = binding.issuer_id;
        service_boundary_id = binding.service_boundary_id;
        binding_epoch = binding.binding_epoch;
        key_version = key_version;
        public_key_fingerprint = public_key_fingerprint;
      };
      state_version = state_version;
      runtime_instance_id = runtime_instance_id;
      challenge_id = challenge_id;
      nonce = nonce;
    })

  unfoldable pub encode_runtime_trust_challenge :
      RuntimeTrustChallenge → Outcome RuntimeTrustErrorCode Buffer
  encode_runtime_trust_challenge value = finish (write_challenge value)

  unfoldable pub decode_runtime_trust_challenge :
      Buffer → Outcome RuntimeTrustErrorCode RuntimeTrustChallenge
  decode_runtime_trust_challenge = read_all read_challenge

  unfoldable pub write_response : RuntimeTrustResponse → Stream (Unit {0})
  write_response value = do
    write_header 3
    write_string utf8 value.challenge_id (assert_runtime_id "ch1")
    write_string utf8 value.runtime_instance_id (assert_runtime_id "ri1")
    throw_if (not (nat_beq (length value.signature) 64)) malformed_envelope
    write_raw value.signature

  unfoldable pub read_response : Stream RuntimeTrustResponse
  read_response = do
    read_header 3
    challenge_id ← read_string utf8 (assert_runtime_id "ch1")
    runtime_instance_id ← read_string utf8 (assert_runtime_id "ri1")
    signature ← read_raw 64
    pure (record {
      challenge_id = challenge_id;
      runtime_instance_id = runtime_instance_id;
      signature = signature;
    })

  unfoldable pub encode_runtime_trust_response :
      RuntimeTrustResponse → Outcome RuntimeTrustErrorCode Buffer
  encode_runtime_trust_response value = finish (write_response value)

  unfoldable pub decode_runtime_trust_response :
      Buffer → Outcome RuntimeTrustErrorCode RuntimeTrustResponse
  decode_runtime_trust_response = read_all read_response

  unfoldable pub write_admitted : RuntimeTrustAdmitted → Stream (Unit {0})
  write_admitted value = do
    write_header 4
    write_string utf8 value.session_id (assert_runtime_id "rs1")
    write_string utf8 value.runtime_instance_id (assert_runtime_id "ri1")
    write_u64 value.key_version true
    write_string utf8 value.binding_epoch assert_boundary_identifier
    write_u64 value.state_version false

  unfoldable pub read_admitted : Stream RuntimeTrustAdmitted
  read_admitted = do
    read_header 4
    session_id ← read_string utf8 (assert_runtime_id "rs1")
    runtime_instance_id ← read_string utf8 (assert_runtime_id "ri1")
    key_version ← read_u64 true
    binding_epoch ← read_string utf8 assert_boundary_identifier
    state_version ← read_u64 false
    pure (record {
      session_id = session_id;
      runtime_instance_id = runtime_instance_id;
      key_version = key_version;
      binding_epoch = binding_epoch;
      state_version = state_version;
    })

  unfoldable pub encode_runtime_trust_admitted :
      RuntimeTrustAdmitted → Outcome RuntimeTrustErrorCode Buffer
  encode_runtime_trust_admitted value = finish (write_admitted value)

  unfoldable pub decode_runtime_trust_admitted :
      Buffer → Outcome RuntimeTrustErrorCode RuntimeTrustAdmitted
  decode_runtime_trust_admitted = read_all read_admitted

  -- An error's envelope is its code, as text.
  unfoldable pub write_error : String → Stream (Unit {0})
  write_error code = do write_header 0x7f; write_string utf8 code surface_code

  unfoldable pub read_error : Stream String
  read_error = do read_header 0x7f; read_string utf8 surface_code

  unfoldable pub encode_runtime_trust_error : String → Outcome RuntimeTrustErrorCode Buffer
  encode_runtime_trust_error code = finish (write_error code)

  unfoldable pub decode_runtime_trust_error : Buffer → Outcome RuntimeTrustErrorCode String
  decode_runtime_trust_error = read_all read_error

-- The messages of the protocol, and the number that the header of each holds.
pub data Message : Type 0 where
  hello : RuntimeTrustHello → Message
  challenge : RuntimeTrustChallenge → Message
  response : RuntimeTrustResponse → Message
  admitted : RuntimeTrustAdmitted → Message
  error : String → Message

abbrev pub message_type : Message → ℕ
message_type (hello _) = 1
message_type (challenge _) = 2
message_type (response _) = 3
message_type (admitted _) = 4
message_type (error _) = 0x7f

abbrev pub as_message :
    {A : Type 0}
    → (A → Message)
    → Outcome RuntimeTrustErrorCode A
    → Outcome RuntimeTrustErrorCode Message
as_message f (returned a) = returned (f a)
as_message f (thrown e) = thrown e

module _ (utf8 : Utf8) where
  unfoldable pub encode_message : Message → Outcome RuntimeTrustErrorCode Buffer
  encode_message (hello value) = encode_runtime_trust_hello utf8 value
  encode_message (challenge value) = encode_runtime_trust_challenge utf8 value
  encode_message (response value) = encode_runtime_trust_response utf8 value
  encode_message (admitted value) = encode_runtime_trust_admitted utf8 value
  encode_message (error code) = encode_runtime_trust_error utf8 code

  -- The decoder of the kind of the message `like`.
  unfoldable pub decode_message_like : Message → Buffer → Outcome RuntimeTrustErrorCode Message
  decode_message_like (hello _) payload = as_message hello (decode_runtime_trust_hello utf8 payload)
  decode_message_like (challenge _) payload =
      as_message challenge (decode_runtime_trust_challenge utf8 payload)
  decode_message_like (response _) payload =
      as_message response (decode_runtime_trust_response utf8 payload)
  decode_message_like (admitted _) payload =
      as_message admitted (decode_runtime_trust_admitted utf8 payload)
  decode_message_like (error _) payload = as_message error (decode_runtime_trust_error utf8 payload)
