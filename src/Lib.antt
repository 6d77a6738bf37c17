-- ===== src/Lib.antt =====
-- A verification library for zima-control: the core of the mutation engine, the trust
-- authority that admits a runtime issuer, and the small state machines beside them.
--
-- The parts and how they interact:
--
-- - Mutation (packages/core/src). A mutation is a parent operation with durable child steps. The
--   repository keeps the operations, the steps, the idempotency claims, the leases with their fence
--   counters and the audit trails; every method either changes its objects and appends an audit event,
--   or throws.
--     Mutation/Status       mutation-safety.ts: the statuses, their transition table, the error codes
--     Mutation/Types        durable-mutation.ts: the records
--     Mutation/Aggregate    durable-mutation.ts: the parent's state computed from its steps
--     Mutation/Fingerprint  durable-mutation.ts: mutationFingerprint, assertParentChildClaimInput
--     Mutation/Repository   in-memory-durable-mutation-repository.ts: the state and the private helpers;
--                           Claims, Dispatch, Leases, Steps, Recovery and Transitions are its methods,
--                           and Calls is a history of them
--     Mutation/Repository/Fences, Locks, Fencing   what the calls do to leases and counters
--     Mutation/Repository/Rollback                 what a failed audit write leaves
--     Mutation/Repository/Idempotency              what a claim stores, and a second one under its key
--     Mutation/Stores       mutation-safety.ts: the bounded stores in memory and the default policy
-- - Lifecycle (packages/core/src): Backup is backup/state-machine.ts, Authority is
--   authority/lifecycle.ts, Trust is authority/trust-lifecycle.ts.
-- - RuntimeTrust (packages/runtime-trust-authority/src, with the data of
--   packages/runtime-trust-contracts/src): a connection asks for a challenge (challenge-registry.ts), signs
--   it, and gets the one session of its service boundary (session-manager.ts), if the stored snapshot
--   is admissible (policy.ts). The limiter (connection-limiter.ts) bounds the connections that are not
--   admitted yet. Admission (admission.ts) composes them. Codec is the wire format
--   (packages/runtime-trust-contracts/src/codec.ts): the writer and the reader, Codec/Messages the encoder
--   and the decoder of each message, Codec/Frames the frames and the accumulator of a socket's chunks.
-- - Cron (packages/core/src/backup): Validator is cron-validator.ts; Fields and Occurrence are
--   cron-evaluator.ts: the numbers of a field, and the occurrence before and after a time. Calendar is the
--   calendar behind JavaScript's Date, and Occurrence/Reference is when a schedule is due, minute by minute.
-- - Retention (packages/core/src/backup/retention-service.ts): which backups a pass prunes, what it
--   removes and what it writes (Pass), and what does not fit between the rows and the files (Storage).
-- - Adapter (apps/runtime-adapter-daemon/src/mutex.ts): one mutation of an application at a time.
-- - Issuer (apps/runtime-issuer/src/retry.ts): the schedule of the attempts to connect.
-- - Common: tests, lists, equality, dictionaries, texts, and code that may throw.
-- - Tests: the theorems at concrete inputs.
--
-- How the code is modelled. A method is a function from the state to its result, or what it throws,
-- and the state that it leaves. A `Map` is an association list in insertion order; an object that the
-- code changes in place is written back under its id. Texts are compared by `===` as they are. Times
-- are numbers. `randomUUID`, the clock and the random source are sequences that the state holds, with
-- the number of values used. Object identity, where the code compares it, is a number given at
-- creation. A handler of the admission service waits once, for the stored snapshot; what other
-- handlers do until then is an arbitrary function of the state.
--
-- Bounds and fuel. Printing a number takes as fuel one more than the number, and it has no more digits.
-- The loops that draw an unused identifier make eight attempts, as the code does, and then throw.
-- A loop over a cron field has fuel for 61 turns, which is enough for steps written in digits, and the
-- search for an occurrence has fuel for a turn in every minute of its five years. Times in a schedule are
-- minutes from 1970 on; the search back is defined from five years and a minute later. Every other function is
-- by structural recursion.
--
-- Parameters: JSON.stringify and SHA-256 (Hashing); the Ed25519 functions that call node:crypto (Crypto);
-- the UTF-8 coder (Utf8), with its law: a text that toString reads back from its buffer, TextDecoder reads
-- back too, but for a byte order mark at its start; the set of authenticated connections, and the encoders that the handlers use to
-- validate a message, which service_environment takes from Codec (Environment); Number of a text that is not
-- made of digits (NumberOf); node:path, the destination providers, what the file system refuses, and when the
-- database updates the row of an artifact, or that it rejects the update (Surroundings); the order of texts of localeCompare (list_recoverable);
-- toUpperCase (evaluate); the abort signal, the scheduler and the attempt (RetryEnvironment).
--
-- Not modelled: the orchestrator and the services of durable-mutation.ts, the planner and the service of
-- mutation-safety.ts, the orchestrator of backups, the authority
-- domain services. The rest of the apps, the database repositories, the native
-- code and the deployment are input and output around these.
pub mod Common
pub mod Mutation
pub mod Lifecycle
pub mod RuntimeTrust
pub mod Adapter
pub mod Issuer
pub mod Cron
pub mod Retention
pub mod Tests
