-- ===== src/RuntimeTrust/Policy.antt =====
-- packages/runtime-trust-authority/src/policy.ts, with packages/runtime-trust-contracts/src/validation.ts
-- and the two checks of crypto.ts and peer-credentials.ts that it needs: which snapshot of the
-- stored trust state admits an issuer. What node:crypto does is a parameter.
use zima_control.Common.{
  ℕ, suc, ◌^◌, ◌-◌, String, Bool, true, false, not, ◌||◌, ◌&&◌, List, [], ◌∷◌, Option, none, some,
  ◌==◌, is_some, nat_beq, leb, ltb, all, length, get_or_else, includes, if◌then◌else◌, string_eq,
  nat_eq, option_eq,
}
use zima_control.Common.Text.{codes, is_identifier_character, is_hex}
use zima_control.Common.Action.{Outcome, returned, thrown}
use zima_control.RuntimeTrust.Types.{
  RuntimeTrustErrorCode, invalid_identity, invalid_key, malformed_envelope, rebind_required,
  revoked_key, uncertain_trust, trust_state_not_admissible, wrong_authority, wrong_binding,
  unsupported_algorithm, Buffer, RuntimeTrustSnapshot, RuntimeTrustHello, RuntimeTrustBinding,
  RuntimePeerCredentials,
}

-- A hyphen at the places 8, 13, 18 and 23, and a hexadecimal digit at the other 32.
abbrev pub uuid_from : ℕ → List ℕ → Bool
uuid_from i [] = nat_beq i 36
uuid_from i (c ∷ cs) =
    (if includes (8 ∷ 13 ∷ 18 ∷ 23 ∷ []) i then nat_beq c b'-' else is_hex c)
    && uuid_from (suc i) cs

-- `assertCanonicalUuid` does not throw.
unfoldable pub is_canonical_uuid : String → Bool
is_canonical_uuid value = uuid_from 0 (codes value)

-- `assertBoundaryIdentifier` does not throw.
unfoldable pub is_boundary_identifier : String → Bool
is_boundary_identifier value =
    all is_identifier_character (codes value)
    && leb 1 (length (codes value))
    && leb (length (codes value)) 128

-- `assertFingerprint` does not throw.
unfoldable pub is_fingerprint : String → Bool
is_fingerprint value = all is_hex (codes value) && nat_beq (length (codes value)) 64

-- `assertSafeInteger` does not throw, on a number that is an integer and not negative.
unfoldable pub is_safe_integer : ℕ → Bool → Bool
is_safe_integer value positive = ltb value (2 ^ 53) && leb (if positive then 1 else 0) value

-- `CanonicalEd25519PublicKey`, whose other fields are constants.
pub record CanonicalEd25519PublicKey : Type 0 where
  pub public_key : String
  pub public_key_fingerprint : String

-- `canonicalEd25519PublicKey` and `verifyRuntimeTrustSignature`, which call node:crypto, and the
-- encoder `encodeRuntimeTrustChallenge` of the wire format is beside them in the registry.
pub record Crypto : Type 0 where
  pub canonical_ed25519_public_key :
      String → Outcome RuntimeTrustErrorCode CanonicalEd25519PublicKey
  pub verify_runtime_trust_signature : String → Buffer → Buffer → Outcome RuntimeTrustErrorCode Bool

-- `assertEd25519PublicKeyMetadata`
unfoldable pub assert_ed25519_public_key_metadata :
    Crypto
    → String
    → String
    → String
    → String
    → String
    → Outcome RuntimeTrustErrorCode CanonicalEd25519PublicKey
assert_ed25519_public_key_metadata crypto algorithm encoding public_key fingerprint
      fingerprint_algorithm =
    if not (algorithm == "Ed25519")
    then thrown unsupported_algorithm
    else if not (encoding == "SPKI_DER_BASE64") || not (fingerprint_algorithm == "SHA-256")
    then thrown invalid_key
    else if not (is_fingerprint fingerprint)
    then thrown invalid_key
    else elim (crypto.canonical_ed25519_public_key public_key) [
      | thrown e ↦ thrown e
      | returned canonical ↦
          if not (canonical.public_key_fingerprint == fingerprint)
          then thrown invalid_key
          else returned canonical
    ]

-- The snapshot with the fields that an admissible one has; the others of
-- `AdmissibleRuntimeTrustSnapshot` are constants, or the same as one of these.
pub record AdmissibleRuntimeTrustSnapshot : Type 0 where
  pub snapshot : RuntimeTrustSnapshot
  pub active_key_id : String
  pub key_version : ℕ
  pub public_key : String
  pub public_key_fingerprint : String

-- Neither `null` nor empty.
abbrev pub is_present : Option String → Bool
is_present none = false
is_present (some value) = not (value == "")

abbrev pub text_of : Option String → String
text_of value = get_or_else value ""

abbrev pub narrow : RuntimeTrustSnapshot → AdmissibleRuntimeTrustSnapshot
narrow snapshot = record {
  snapshot = snapshot;
  active_key_id = text_of snapshot.active_key_id;
  key_version = get_or_else snapshot.key_version 0;
  public_key = text_of snapshot.public_key;
  public_key_fingerprint = text_of snapshot.public_key_fingerprint;
}

-- The key's own metadata, at the end of the check.
assert_key :
    Crypto → RuntimeTrustSnapshot → Outcome RuntimeTrustErrorCode AdmissibleRuntimeTrustSnapshot
unfolding assert_ed25519_public_key_metadata
assert_key crypto snapshot =
    elim (assert_ed25519_public_key_metadata crypto (text_of snapshot.algorithm)
      (text_of snapshot.public_key_encoding) (text_of snapshot.public_key)
      (text_of snapshot.public_key_fingerprint) (text_of snapshot.fingerprint_algorithm)) [
        | thrown e ↦ thrown e
        | returned canonical ↦
            if not (some canonical.public_key == snapshot.public_key)
              || not (some canonical.public_key_fingerprint == snapshot.public_key_fingerprint)
            then thrown invalid_key
            else returned (narrow snapshot)
      ]

unfoldable pub assert_admissible_runtime_trust_snapshot :
    Crypto
    → Option RuntimeTrustSnapshot
    → Outcome RuntimeTrustErrorCode AdmissibleRuntimeTrustSnapshot
unfolding assert_key
assert_admissible_runtime_trust_snapshot crypto none = thrown invalid_identity
assert_admissible_runtime_trust_snapshot crypto (some snapshot) =
    if not (is_canonical_uuid snapshot.authority_id)
      || not (is_canonical_uuid snapshot.issuer_id)
      || not (is_boundary_identifier snapshot.service_boundary_id)
      || not (is_boundary_identifier snapshot.binding_epoch)
    then thrown invalid_identity
    else if not (is_safe_integer snapshot.state_version false)
    then thrown malformed_envelope
    else if snapshot.trust_status == "REBIND_REQUIRED"
    then thrown rebind_required
    else if snapshot.trust_status == "REVOKED"
    then thrown revoked_key
    else if snapshot.trust_status == "UNCERTAIN"
    then thrown uncertain_trust
    else if not (snapshot.trust_status == "ACTIVE")
    then thrown trust_state_not_admissible
    else if is_some snapshot.pending_key_id || is_some snapshot.current_operation_id
    then thrown trust_state_not_admissible
    else if not (is_present snapshot.active_key_id)
        || not (snapshot.key_id == snapshot.active_key_id)
        || not (snapshot.key_issuer_id == some snapshot.issuer_id)
    then thrown invalid_key
    else if snapshot.key_status == some "REVOKED"
    then thrown revoked_key
    else if not (snapshot.key_status == some "ACTIVE") || not (is_some snapshot.key_version)
    then thrown trust_state_not_admissible
    else if not (is_safe_integer (get_or_else snapshot.key_version 0) true)
    then thrown malformed_envelope
    else if not (is_present snapshot.algorithm)
        || not (is_present snapshot.public_key_encoding)
        || not (is_present snapshot.public_key)
        || not (is_present snapshot.public_key_fingerprint)
        || not (is_present snapshot.fingerprint_algorithm)
    then thrown invalid_key
    else assert_key crypto snapshot

unfoldable pub assert_hello_matches_snapshot :
    RuntimeTrustHello → AdmissibleRuntimeTrustSnapshot → Outcome RuntimeTrustErrorCode (Unit {0})
assert_hello_matches_snapshot hello admissible =
    let snapshot = admissible.snapshot in
    if not (hello.authority_id == snapshot.authority_id)
    then thrown wrong_authority
    else if not (hello.issuer_id == snapshot.issuer_id)
    then thrown invalid_identity
    else if not (hello.service_boundary_id == snapshot.service_boundary_id)
        || not (hello.binding_epoch == snapshot.binding_epoch)
    then thrown wrong_binding
    else if not (hello.public_key_fingerprint == admissible.public_key_fingerprint)
    then thrown invalid_key
    else returned tt

unfoldable pub snapshot_binding : AdmissibleRuntimeTrustSnapshot → RuntimeTrustBinding
snapshot_binding admissible = record {
  authority_id = admissible.snapshot.authority_id;
  issuer_id = admissible.snapshot.issuer_id;
  service_boundary_id = admissible.snapshot.service_boundary_id;
  binding_epoch = admissible.snapshot.binding_epoch;
  key_version = admissible.key_version;
  public_key_fingerprint = admissible.public_key_fingerprint;
}

unfoldable pub same_admissible_snapshot :
    AdmissibleRuntimeTrustSnapshot → AdmissibleRuntimeTrustSnapshot → Bool
same_admissible_snapshot a b =
    let left = a.snapshot in
    let right = b.snapshot in
    left.authority_id == right.authority_id
    && left.issuer_id == right.issuer_id
    && left.service_boundary_id == right.service_boundary_id
    && left.binding_epoch == right.binding_epoch
    && left.state_version == right.state_version
    && a.active_key_id == b.active_key_id
    && left.pending_key_id == right.pending_key_id
    && left.current_operation_id == right.current_operation_id
    && left.key_id == right.key_id
    && left.key_issuer_id == right.key_issuer_id
    && a.key_version == b.key_version
    && left.key_status == right.key_status
    && left.algorithm == right.algorithm
    && left.public_key_encoding == right.public_key_encoding
    && a.public_key == b.public_key
    && a.public_key_fingerprint == b.public_key_fingerprint
    && left.fingerprint_algorithm == right.fingerprint_algorithm
    && left.trust_status == right.trust_status

-- `assertIssuerPeer` does not throw, on numbers that are integers and not negative.
unfoldable pub is_issuer_peer : RuntimePeerCredentials → Bool
is_issuer_peer credentials =
    leb credentials.pid (2 ^ 31 - 1) && credentials.uid == 21011 && credentials.gid == 21011
