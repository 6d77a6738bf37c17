-- ===== src/Lifecycle/Laws.antt =====
-- Runs of the lifecycle tables.
use zima_control.Common.{◌≢◌, ℕ, suc, ◌≤◌, ◌≡◌, ◌↔◌, ◌⊎◌, refl, Bool, true, false, not, arith, ◌==◌}
use zima_control.Common.Action.{returned, thrown}
use zima_control.Lifecycle.Backup
use zima_control.Lifecycle.Backup.{
  BackupJobStatus, transition_backup_job_status, is_terminal_backup_job_status,
  is_active_backup_job_status, can_transition_backup_job_status,
}
use zima_control.Lifecycle.Trust
use zima_control.Lifecycle.Trust.{AuthorityTrustState, transition_authority_trust}
use zima_control.Lifecycle.Authority.{
  AuthorityLifecycleState, transition_authority_lifecycle, recover_authority_lifecycle,
  is_terminal_authority_lifecycle, active, provisioning, lifecycle_eq,
}

-- Any number of accepted transitions of a backup job.
pub data BackupRun (a : BackupJobStatus) : BackupJobStatus → ℕ → Type 0 where
  here : BackupRun a a 0
  next :
      {b c : BackupJobStatus} {n : ℕ}
      → BackupRun a b n
      → transition_backup_job_status b c ≡ returned c
      → BackupRun a c (suc n)

abbrev pub backup_progress : BackupJobStatus → ℕ
backup_progress Backup.queued = 0
backup_progress Backup.initializing = 1
backup_progress Backup.capturing = 2
backup_progress Backup.verifying = 3
backup_progress _ = 4

abbrev pub backup_fewest : BackupJobStatus → ℕ
backup_fewest Backup.queued = 0
backup_fewest Backup.initializing = 1
backup_fewest Backup.capturing = 2
backup_fewest Backup.verifying = 3
backup_fewest Backup.completed = 4
backup_fewest Backup.failed = 2
backup_fewest Backup.cancelled = 1

backup_step :
    (a b : BackupJobStatus)
    → transition_backup_job_status a b ≡ returned b
    → (suc (backup_progress a) ≤ backup_progress b) × (backup_fewest b ≤ suc (backup_fewest a))
unfolding transition_backup_job_status
backup_step a b h = (ground arith, ground arith)

-- Every run of accepted transitions from QUEUED to a status `b` has at least `backup_fewest b` and at
-- most `backup_progress b` of them: a completed job took exactly four.
pub BackupRun-bounds :
    {b : BackupJobStatus} {n : ℕ}
    → BackupRun Backup.queued b n
    → (backup_fewest b ≤ n) × (n ≤ backup_progress b)
BackupRun-bounds here = (omega arith, omega arith)
BackupRun-bounds (next {b = b} {c = c} r h) = (
  omega (arith, BackupRun-bounds r, backup_step b c h),
  omega (arith, BackupRun-bounds r, backup_step b c h),
)

-- A backup job status is terminal exactly when it is not active, and exactly when every transition
-- from it throws.
pub backup_terminal_iff :
    (a : BackupJobStatus)
    → (is_terminal_backup_job_status a ≡ not (is_active_backup_job_status a))
      × ((is_terminal_backup_job_status a ≡ true) ↔ (
          (b : BackupJobStatus)
          → transition_backup_job_status a b ≡ thrown (Backup.illegal_backup_state_transition a b)))
unfolding is_terminal_backup_job_status is_active_backup_job_status transition_backup_job_status
backup_terminal_iff Backup.queued = (refl, ((λ h. cc), λ h. cc (h Backup.initializing)))
backup_terminal_iff Backup.initializing = (refl, ((λ h. cc), λ h. cc (h Backup.capturing)))
backup_terminal_iff Backup.capturing = (refl, ((λ h. cc), λ h. cc (h Backup.verifying)))
backup_terminal_iff Backup.verifying = (refl, ((λ h. cc), λ h. cc (h Backup.completed)))
backup_terminal_iff Backup.completed = (refl, ((λ h b. refl), λ h. refl))
backup_terminal_iff Backup.failed = (refl, ((λ h b. refl), λ h. refl))
backup_terminal_iff Backup.cancelled = (refl, ((λ h b. refl), λ h. refl))

-- What a restart makes of a generation: doing it again changes nothing, it never leaves
-- PROVISIONING, a terminal state stays, a state that is not kept is one that the table allows next,
-- and nothing becomes ACTIVE that was not.
pub recover_lem :
    (state : AuthorityLifecycleState) (consistent : Bool)
    → let next = recover_authority_lifecycle state consistent in
      (recover_authority_lifecycle next consistent ≡ next)
      × ((next == provisioning) ≡ false)
      × (is_terminal_authority_lifecycle state ≡ true → next ≡ state)
      × ((next ≡ state) ⊎ (transition_authority_lifecycle state next ≡ returned next))
      × (next ≡ active → (state ≡ active) × (consistent ≡ true))
unfolding recover_authority_lifecycle transition_authority_lifecycle
recover_lem state consistent =
    (ground arith, ground arith, ground arith, ground arith, ground arith)

-- Accepted transitions of an authority's trust state that do not go through PROVISIONING.
pub data UnprovisionedRun (a : AuthorityTrustState) : AuthorityTrustState → Type 0 where
  here : UnprovisionedRun a a
  next :
      {b c : AuthorityTrustState}
      → UnprovisionedRun a b
      → transition_authority_trust b c ≡ returned c
      → c ≢ Trust.provisioning
      → UnprovisionedRun a c

-- The trust was lost, or may have been.
abbrev pub is_distrusted : AuthorityTrustState → Bool
is_distrusted Trust.revoked = true
is_distrusted Trust.failed = true
is_distrusted Trust.uncertain = true
is_distrusted Trust.rebind_required = true
is_distrusted _ = false

distrusted_step :
    (b c : AuthorityTrustState)
    → is_distrusted b ≡ true
    → transition_authority_trust b c ≡ returned c
    → c ≢ Trust.provisioning
    → is_distrusted c ≡ true
unfolding transition_authority_trust
distrusted_step b c d h n = ground arith

-- An authority whose trust is REVOKED, FAILED, UNCERTAIN or REBIND_REQUIRED stays in one of these
-- states, whatever transitions are accepted, until it is provisioned again.
pub distrusted_until_provisioned :
    {a b : AuthorityTrustState}
    → is_distrusted a ≡ true
    → UnprovisionedRun a b
    → is_distrusted b ≡ true
distrusted_until_provisioned d here = d
distrusted_until_provisioned d (next {b = b} {c = c} r h n) =
    distrusted_step b c (distrusted_until_provisioned d r) h n
