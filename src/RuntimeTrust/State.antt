-- ===== src/RuntimeTrust/State.antt =====
-- packages/runtime-trust-authority: the state of the challenge registry, of the session manager and of
-- the connection limiter, which one admission service owns. The clock and the random source that they
-- share are sequences, of which `readings` and `draws` have been used; the objects that the registry
-- creates are numbered, as it compares them by identity.
use zima_control.Common.{
  ℕ, suc, String, List, [], ◌∷◌, ◌++◌, Map, Bool, includes, select, not, ◌==◌, if◌then◌else◌,
  nat_eq, string_eq,
}
use zima_control.Common.Action.{Action, returned}
use zima_control.RuntimeTrust.Types.{
  RuntimeTrustErrorCode, Buffer, RuntimeTrustChallenge, RuntimeConnectionContext,
  RuntimeTrustSession,
}
use zima_control.RuntimeTrust.Policy.{AdmissibleRuntimeTrustSnapshot}

-- `ReservedRuntimeChallenge`, with the number of the object.
pub record ReservedRuntimeChallenge : Type 0 where
  pub object : ℕ
  pub challenge : RuntimeTrustChallenge
  pub canonical_payload : Buffer
  pub initial_snapshot : AdmissibleRuntimeTrustSnapshot
  pub connection : RuntimeConnectionContext
  pub deadline_ns : ℕ

-- `ChallengeRecord`: `is_verifying` is `state === "VERIFYING"`.
pub record ChallengeRecord : Type 0 where
  pub reserved : ReservedRuntimeChallenge
  pub is_verifying : Bool

pub record Authority : Type 0 where
  pub records : Map String ChallengeRecord
  pub issuer_challenges : Map String String
  pub connection_challenges : Map ℕ String
  pub nonce_values : List String
  pub closed_connections : List ℕ
  pub sessions : Map ℕ RuntimeTrustSession
  pub boundaries : Map String ℕ
  pub unauthenticated : List ℕ
  pub objects : ℕ
  pub clock : ℕ → ℕ
  pub readings : ℕ
  pub random_bytes : ℕ → ℕ → Buffer
  pub draws : ℕ

abbrev pub M : Type 0 → Type 0
M A = Action Authority RuntimeTrustErrorCode A

-- `clock.nowNs()`
abbrev pub now_ns : M ℕ
now_ns s = (returned (s.clock s.readings), record s { readings = suc s.readings })

-- `random.bytes(length)`
abbrev pub draw_bytes : ℕ → M Buffer
draw_bytes n s = (returned (s.random_bytes s.draws n), record s { draws = suc s.draws })

-- `set.add(a)` and `set.delete(a)`
abbrev pub add_number : ℕ → List ℕ → List ℕ
add_number a xs = if includes xs a then xs else xs ++ a ∷ []

abbrev pub remove_number : ℕ → List ℕ → List ℕ
remove_number a xs = select (λ x. not (x == a)) xs

abbrev pub add_text : String → List String → List String
add_text a xs = if includes xs a then xs else xs ++ a ∷ []

abbrev pub remove_text : String → List String → List String
remove_text a xs = select (λ x. not (x == a)) xs
