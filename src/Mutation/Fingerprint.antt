-- ===== src/Mutation/Fingerprint.antt =====
-- packages/core/src/durable-mutation.ts: the fingerprint of a plan, and the check of a claim for a
-- parent with one child step. `JSON.stringify` of an array of texts and nulls, and SHA-256 with a
-- hexadecimal digest, are parameters.
use zima_control.Common.{
  String, Bool, not, ◌&&◌, ◌||◌, List, [], ◌∷◌, Option, some, ◌==◌, nat_beq, leb, ltb, is_some,
  length, all, if◌then◌else◌, nat_eq, string_eq,
}
use zima_control.Common.Text.{◌⧺◌, codes, starts_alphanumeric, is_identifier_character, is_hex}
use zima_control.Mutation.Status.{
  ActionType, start, stop, restart, Result, ok, err, mutation_error, invalid_request,
  invalid_target, action_eq, domain_eq,
}
use zima_control.Mutation.Types.{ActionPlan, ParentChildClaimInput}

pub record Hashing : Type 0 where
  pub json_stringify : List (Option String) → String
  pub sha256_hex : String → String

abbrev pub action_name : ActionType → String
action_name start = "START"
action_name stop = "STOP"
action_name restart = "RESTART"

unfoldable pub mutation_fingerprint : Hashing → ActionPlan → String
mutation_fingerprint h plan = h.sha256_hex (
    h.json_stringify (
      some (action_name plan.action)
      ∷ some plan.target.application_id
      ∷ plan.target.service_id
      ∷ plan.target.container_id
      ∷ []))

-- /^[A-Za-z0-9][A-Za-z0-9._:-]{0,127}$/
unfoldable pub is_step_id : String → Bool
is_step_id s =
    starts_alphanumeric (codes s)
    && all is_identifier_character (codes s)
    && leb (length (codes s)) 128

-- /^[a-f0-9]{64}$/
unfoldable pub is_digest : String → Bool
is_digest s = all is_hex (codes s) && nat_beq (length (codes s)) 64

-- /^[A-Za-z0-9._:-]{1,128}$/
unfoldable pub is_evidence : String → Bool
is_evidence s =
    all is_identifier_character (codes s) && leb 1 (length (codes s)) && leb (length (codes s)) 128

unfoldable pub assert_parent_child_claim_input : Hashing → ParentChildClaimInput → Result (Unit {0})
assert_parent_child_claim_input h input =
    let target = input.plan.target in
    if is_some target.service_id
      || is_some target.container_id
      || not (target.application_id == input.snapshot.application_id)
      || not (input.plan.action == input.snapshot.action)
      || not (input.plan.execution_domain == input.snapshot.execution_domain)
      || not (input.plan.operation_key == ("application:" ⧺ target.application_id))
      || not (input.fingerprint == mutation_fingerprint h input.plan)
    then err (mutation_error invalid_request)
    else if not (is_step_id input.step_id)
        || not (is_digest input.snapshot.container_id)
        || not (is_digest input.snapshot.target_fingerprint)
        || not (is_evidence input.snapshot.authority_evidence)
        || ltb input.now input.snapshot.snapshot_at
        || leb input.idempotency_expires_at input.now
        || leb input.deadline_at input.now
    then err (mutation_error invalid_target)
    else ok tt
