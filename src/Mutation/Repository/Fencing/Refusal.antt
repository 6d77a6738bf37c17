-- ===== src/Mutation/Repository/Fencing/Refusal.antt =====
-- A fencing token that has been superseded is refused from then on.
use zima_control.Common.{ℕ, ◌<◌, String, ◌≡◌, string_eq}
use zima_control.Mutation.Fingerprint.{Hashing}
use zima_control.Mutation.Repository.{Repository}
use zima_control.Mutation.Repository.Leases.{grant, acquire_lease, decide_lease}
use zima_control.Mutation.Repository.Locks.{HasKeyedLocks}

module _ (h : Hashing) (s : Repository) (keyed : HasKeyedLocks s) (key id : String)
    (now expires : ℕ) (soon : now < expires) (free : decide_lease key id now s ≡ grant) where
  abbrev after_grant : Repository
  after_grant = (acquire_lease key id now expires s).1
