-- ===== src/Tests/Claims.antt =====
-- The theorems on claims at a concrete claim.
use zima_control.Common.{
  ◌∷◌, ◌≡◌, refl, true, false, [], none, some, arith, lookup, insert, string_eq,
}
use zima_control.Mutation.Status.{
  succeeded, start, docker, operator, ok, err, mutation_error, idempotency_conflict,
  audit_persistence_failed,
}
use zima_control.Mutation.Types.{ClaimInput, created}
use zima_control.Mutation.Repository.{Repository, append}
use zima_control.Mutation.Repository.Claims.{claim, claim_with, new_claim}
use zima_control.Mutation.Repository.Idempotency.{
  claimed_operation, key_of_claim, claim_without_audit, claim_again,
}

abbrev empty : Repository
empty = record {
  operations = [];
  claims = [];
  locks = [];
  fences = [];
  audits = [];
  steps = [];
  fail_next_audit = false;
  random_uuid = λ n. "uuid";
  draws = 0;
}

abbrev request : ClaimInput
request = record {
  plan = record {
    operation_id = "op";
    actor_id = "ann";
    actor_role = operator;
    action = start;
    target = record { application_id = "app"; service_id = none; container_id = none };
    execution_domain = docker;
    operation_key = "application:app";
    idempotency_key = "once";
  };
  fingerprint = "f";
  now = 10;
  idempotency_expires_at = 100;
  deadline_at = 50;
}

-- The same key for another request.
abbrev other_request : ClaimInput
other_request = record request { fingerprint = "g"; now = 20 }

claim_without_audit_example :
    ((claim request (record empty { fail_next_audit = true })).0
      ≡ err (mutation_error audit_persistence_failed))
    × (lookup "op" (claim request (record empty { fail_next_audit = true })).1.operations
        ≡ some (claimed_operation request))
    × (lookup
          (key_of_claim request)
          (claim request (record empty { fail_next_audit = true })).1.claims
        ≡ some (new_claim request))
    × ((claim request (record empty { fail_next_audit = true })).1.audits ≡ [])
unfolding lookup
claim_without_audit_example =
    claim_without_audit request (record empty { fail_next_audit = true }) refl refl refl

request_created : (claim request empty).0 ≡ ok (created (claimed_operation request))
unfolding claim claim_with append lookup insert
request_created = refl

-- A later state: the operation has been executed.
abbrev later : Repository
later = record (claim request empty).1 {
  operations = ("op", record (claimed_operation request) { status = succeeded }) ∷ [];
}

same_claim :
    lookup (key_of_claim request) later.claims
    ≡ lookup (key_of_claim request) (claim request empty).1.claims
same_claim = refl

executed_operation :
    lookup "op" later.operations ≡ some (record (claimed_operation request) { status = succeeded })
unfolding lookup
executed_operation = refl

claim_again_example :
    ((claim other_request later).0 ≡ err (mutation_error idempotency_conflict))
    × ((claim other_request later).1.operations ≡ later.operations)
    × ((claim other_request later).1.claims ≡ later.claims)
claim_again_example =
    claim_again request other_request (claimed_operation request)
      (record (claimed_operation request) { status = succeeded }) empty later request_created
      same_claim executed_operation refl (omega arith)
