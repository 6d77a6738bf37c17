-- ===== src/RuntimeTrust/Challenges.antt =====
-- packages/runtime-trust-authority/src/challenge-registry.ts: the challenges that are outstanding, each
-- of them for one issuer and one connection. A `for` over the map that deletes from it visits the
-- entries that it held at the start. The encoder of the wire format is a parameter.
pub mod Ended
pub mod Spent
pub mod SingleUse
pub mod Meanwhile
use zima_control.Common.{
  zero, ℕ, suc, ◌+◌, ◌-◌, String, Bool, true, false, not, ◌||◌, ◌&&◌, List, [], ◌∷◌, Option, none,
  some, ◌==◌, lookup, insert, delete, values, has, leb, ltb, length, includes, if◌then◌else◌,
  string_eq, nat_eq, option_eq,
}
use zima_control.Common.Text.{◌⧺◌, to_hex}
use zima_control.Common.Action.{Outcome, ◌>>=◌, ◌>>◌, pure, lift, throw, throw_if, gets, modify}
use zima_control.RuntimeTrust.Types.{
  RuntimeTrustErrorCode, replay, expired, transport_failure, Buffer, RuntimeTrustChallenge,
  RuntimeTrustResponse, RuntimeConnectionContext,
}
use zima_control.RuntimeTrust.Policy.{AdmissibleRuntimeTrustSnapshot, snapshot_binding}
use zima_control.RuntimeTrust.State.{
  Authority, M, ChallengeRecord, ReservedRuntimeChallenge, now_ns, draw_bytes, add_number, add_text,
  remove_text,
}

abbrev pub challenge_lifetime_ns : ℕ
challenge_lifetime_ns = 10000000000

abbrev pub max_handshake_ns : ℕ
max_handshake_ns = 15000000000

abbrev pub max_outstanding : ℕ
max_outstanding = 16

-- `encodeRuntimeTrustChallenge` of packages/runtime-trust-contracts/src/codec.ts, which validates and
-- may throw.
abbrev pub Encoder : Type 0
Encoder = RuntimeTrustChallenge → Outcome RuntimeTrustErrorCode Buffer

-- The object that the registry holds under this challenge's id is this one.
abbrev pub is_current : ReservedRuntimeChallenge → Option ChallengeRecord → Bool
is_current reserved none = false
is_current reserved (some current) = current.reserved.object == reserved.object

unfoldable pub consume : ReservedRuntimeChallenge → Authority → Authority
consume reserved s =
    if is_current reserved (lookup reserved.challenge.challenge_id s.records)
    then record s {
      records = delete reserved.challenge.challenge_id s.records;
      issuer_challenges = delete reserved.challenge.binding.issuer_id s.issuer_challenges;
      connection_challenges = delete reserved.connection.identity s.connection_challenges;
      nonce_values = remove_text (to_hex reserved.challenge.nonce) s.nonce_values;
    }
    else s

abbrev pub is_overdue : ℕ → Option String → ChallengeRecord → Bool
is_overdue now except entry =
    not (some entry.reserved.challenge.challenge_id == except) && leb entry.reserved.deadline_ns now

unfoldable pub consume_overdue : ℕ → Option String → List ChallengeRecord → Authority → Authority
unfolding consume
consume_overdue now except [] s = s
consume_overdue now except (entry ∷ entries) s =
    consume_overdue now except entries
      (if is_overdue now except entry then consume entry.reserved s else s)

unfoldable pub remove_expired : Option String → M (Unit {0})
unfolding consume_overdue
remove_expired except = do
  now ← now_ns
  modify (λ s. consume_overdue now except (values s.records) s)

-- The attempts that are left.
unfoldable pub unique_identifier : ℕ → M String
unfolding to_hex
unique_identifier zero = throw transport_failure
unique_identifier (suc attempts) = do
  bytes ← draw_bytes 32
  throw_if (not (length bytes == 32)) transport_failure
  let candidate = "ch1-" ⧺ to_hex bytes
  taken ← gets (λ s. has candidate s.records)
  if taken then unique_identifier attempts else pure candidate

unfoldable pub unique_nonce : ℕ → M Buffer
unfolding to_hex
unique_nonce zero = throw transport_failure
unique_nonce (suc attempts) = do
  nonce ← draw_bytes 32
  throw_if (not (length nonce == 32)) transport_failure
  taken ← gets (λ s. includes s.nonce_values (to_hex nonce))
  if taken then unique_nonce attempts else pure nonce

-- The new object, and its entries in the four collections.
unfoldable pub store_challenge :
    RuntimeTrustChallenge
    → Buffer
    → AdmissibleRuntimeTrustSnapshot
    → RuntimeConnectionContext
    → ℕ
    → Authority
    → Authority
store_challenge challenge payload snapshot connection deadline s = record s {
  records =
      insert challenge.challenge_id
        (record {
          reserved = record {
            object = s.objects;
            challenge = challenge;
            canonical_payload = payload;
            initial_snapshot = snapshot;
            connection = connection;
            deadline_ns = deadline;
          };
          is_verifying = false;
        })
        s.records;
  issuer_challenges = insert snapshot.snapshot.issuer_id challenge.challenge_id s.issuer_challenges;
  connection_challenges = insert connection.identity challenge.challenge_id s.connection_challenges;
  nonce_values = add_text (to_hex challenge.nonce) s.nonce_values;
  objects = suc s.objects;
}

abbrev pub out_of_handshake : ℕ → RuntimeConnectionContext → Bool
out_of_handshake now connection =
    ltb now connection.accepted_monotonic_ns
    || leb max_handshake_ns (now - connection.accepted_monotonic_ns)

unfoldable pub issue :
    Encoder
    → AdmissibleRuntimeTrustSnapshot
    → String
    → RuntimeConnectionContext
    → M RuntimeTrustChallenge
unfolding snapshot_binding
issue encode snapshot runtime_instance_id connection = do
  remove_expired none
  now ← now_ns
  throw_if (out_of_handshake now connection) expired
  busy ← gets (λ s.
      includes s.closed_connections connection.identity
      || leb max_outstanding (length s.records)
      || has snapshot.snapshot.issuer_id s.issuer_challenges
      || has connection.identity s.connection_challenges)
  throw_if busy transport_failure
  challenge_id ← unique_identifier 8
  nonce ← unique_nonce 8
  let challenge : RuntimeTrustChallenge = record {
    binding = snapshot_binding snapshot;
    state_version = snapshot.snapshot.state_version;
    runtime_instance_id = runtime_instance_id;
    challenge_id = challenge_id;
    nonce = nonce;
  }
  payload ← lift (encode challenge)
  modify (store_challenge challenge payload snapshot connection (now + challenge_lifetime_ns))
  pure challenge

-- The object that is under the id is in the state ISSUED.
abbrev pub issued_record : Option ChallengeRecord → Option ReservedRuntimeChallenge
issued_record none = none
issued_record (some entry) = if entry.is_verifying then none else some entry.reserved

abbrev pub set_verifying : ReservedRuntimeChallenge → Authority → Authority
set_verifying reserved s = record s {
  records =
      insert reserved.challenge.challenge_id (record { reserved = reserved; is_verifying = true })
        s.records;
}

unfoldable pub reserve_record :
    RuntimeTrustResponse
    → RuntimeConnectionContext
    → Option ReservedRuntimeChallenge
    → M ReservedRuntimeChallenge
reserve_record response connection none = throw replay
reserve_record response connection (some reserved) = do
  now ← now_ns
  if leb reserved.deadline_ns now then modify (consume reserved) >> throw expired else do
    modify (set_verifying reserved)
    closed ← gets (λ s. includes s.closed_connections connection.identity)
    if not (reserved.connection.identity == connection.identity)
          || not (reserved.challenge.runtime_instance_id == response.runtime_instance_id)
          || closed
        then modify (consume reserved) >> throw replay
        else pure reserved

unfoldable pub reserve :
    RuntimeTrustResponse → RuntimeConnectionContext → M ReservedRuntimeChallenge
reserve response connection = do
  remove_expired (some response.challenge_id)
  entry ← gets (λ s. lookup response.challenge_id s.records)
  reserve_record response connection (issued_record entry)

abbrev is_verifying_entry : Option ChallengeRecord → Bool
is_verifying_entry none = false
is_verifying_entry (some entry) = entry.is_verifying

unfoldable pub is_reserved : ReservedRuntimeChallenge → Authority → Bool
is_reserved reserved s =
    let current = lookup reserved.challenge.challenge_id s.records in
    is_current reserved current
    && is_verifying_entry current
    && not (includes s.closed_connections reserved.connection.identity)

abbrev consume_entry : Option ChallengeRecord → Authority → Authority
consume_entry none s = s
consume_entry (some entry) s = consume entry.reserved s

-- The challenge of the connection, where there is one.
abbrev consume_id : Option String → Authority → Authority
consume_id none s = s
consume_id (some id) s = consume_entry (lookup id s.records) s

unfoldable pub close_challenges : ℕ → Authority → Authority
close_challenges identity s =
    let closed : Authority = record s {
      closed_connections = add_number identity s.closed_connections;
    } in
    consume_id (lookup identity closed.connection_challenges) closed

unfoldable pub clear_challenges : Authority → Authority
clear_challenges s = record s {
  records = [];
  issuer_challenges = [];
  connection_challenges = [];
  nonce_values = [];
  closed_connections = [];
}
