-- ===== src/Tests/Lifecycle.antt =====
-- The theorems on lifecycles at concrete inputs.
use zima_control.Common.{◌≡◌, ◌⊎◌, ◌≤◌, ◌↔◌, refl, true, false, not, ◌==◌}
use zima_control.Common.Action.{returned, thrown}
use zima_control.Lifecycle.Backup
use zima_control.Lifecycle.Backup.{
  BackupJobStatus, transition_backup_job_status, is_terminal_backup_job_status,
  is_active_backup_job_status, can_transition_backup_job_status, legal_transitions,
}
use zima_control.Lifecycle.Authority
use zima_control.Lifecycle.Authority.{
  transition_authority_lifecycle, recover_authority_lifecycle, is_terminal_authority_lifecycle,
  lifecycle_eq,
}
use zima_control.Lifecycle.Trust
use zima_control.Lifecycle.Trust.{transition_authority_trust, trust_transitions}
use zima_control.Lifecycle.Laws.{
  BackupRun, UnprovisionedRun, BackupRun-bounds, backup_terminal_iff, recover_lem, is_distrusted,
  distrusted_until_provisioned,
}

cancelled_run : BackupRun Backup.queued Backup.cancelled 2
unfolding transition_backup_job_status
cancelled_run =
    BackupRun.next {b = Backup.initializing}
      (BackupRun.next {b = Backup.queued} BackupRun.here refl) refl

BackupRun-bounds_example : (1 ≤ 2) × (2 ≤ 4)
BackupRun-bounds_example = BackupRun-bounds cancelled_run

backup_terminal_iff_example :
    (is_terminal_backup_job_status Backup.verifying
      ≡ not (is_active_backup_job_status Backup.verifying))
    × ((is_terminal_backup_job_status Backup.verifying ≡ true) ↔ (
        (b : BackupJobStatus)
        → transition_backup_job_status Backup.verifying b
          ≡ thrown (Backup.illegal_backup_state_transition Backup.verifying b)))
backup_terminal_iff_example = backup_terminal_iff Backup.verifying

recover_lem_example :
    let next = recover_authority_lifecycle Authority.active false in
    (recover_authority_lifecycle next false ≡ next)
    × ((next == Authority.provisioning) ≡ false)
    × (is_terminal_authority_lifecycle Authority.active ≡ true → next ≡ Authority.active)
    × ((next ≡ Authority.active)
        ⊎ (transition_authority_lifecycle Authority.active next ≡ returned next))
    × (next ≡ Authority.active → (Authority.active ≡ Authority.active) × (false ≡ true))
recover_lem_example = recover_lem Authority.active false

revoked_run : UnprovisionedRun Trust.revoked Trust.rebind_required
unfolding transition_authority_trust
revoked_run = UnprovisionedRun.next {b = Trust.revoked} UnprovisionedRun.here refl (λ e. cc)

distrusted_until_provisioned_example : is_distrusted Trust.rebind_required ≡ true
distrusted_until_provisioned_example = distrusted_until_provisioned refl revoked_run
