-- ===== src/Lifecycle/Backup.antt =====
-- packages/core/src/backup/state-machine.ts: the states of a backup job.
use zima_control.Common.{
  ℕ, ◌≡◌, ◌↔◌, refl, Bool, true, not, List, [], ◌∷◌, Eq, nat_beq, nth_or, code_beq_iff, includes,
  if◌then◌else◌,
}
use zima_control.Common.Action.{Outcome, returned, thrown}

pub data BackupJobStatus : Type 0 where
  queued initializing capturing verifying completed failed cancelled : BackupJobStatus

-- `IllegalBackupStateTransitionError`
pub data BackupError : Type 0 where
  illegal_backup_state_transition : BackupJobStatus → BackupJobStatus → BackupError

abbrev pub backup_code : BackupJobStatus → ℕ
backup_code queued = 0
backup_code initializing = 1
backup_code capturing = 2
backup_code verifying = 3
backup_code completed = 4
backup_code failed = 5
backup_code cancelled = 6

abbrev backup_statuses : List BackupJobStatus
backup_statuses =
    queued ∷ initializing ∷ capturing ∷ verifying ∷ completed ∷ failed ∷ cancelled ∷ []

backup-decode : (a : BackupJobStatus) → nth_or queued backup_statuses (backup_code a) ≡ a
backup-decode queued = refl
backup-decode initializing = refl
backup-decode capturing = refl
backup-decode verifying = refl
backup-decode completed = refl
backup-decode failed = refl
backup-decode cancelled = refl

pub backup_beq_iff :
    (a b : BackupJobStatus) → (nat_beq (backup_code a) (backup_code b) ≡ true) ↔ (a ≡ b)
backup_beq_iff = code_beq_iff backup_code (nth_or queued backup_statuses) backup-decode

instance abbrev pub backup_eq : Eq BackupJobStatus
backup_eq = record {
  beq = λ a b. nat_beq (backup_code a) (backup_code b);
  beq_iff = backup_beq_iff;
}

unfoldable pub legal_transitions : BackupJobStatus → List BackupJobStatus
legal_transitions queued = initializing ∷ cancelled ∷ []
legal_transitions initializing = capturing ∷ failed ∷ cancelled ∷ []
legal_transitions capturing = verifying ∷ failed ∷ []
legal_transitions verifying = completed ∷ failed ∷ []
legal_transitions completed = []
legal_transitions failed = []
legal_transitions cancelled = []

unfoldable pub is_terminal_backup_job_status : BackupJobStatus → Bool
is_terminal_backup_job_status status = includes (completed ∷ failed ∷ cancelled ∷ []) status

unfoldable pub is_active_backup_job_status : BackupJobStatus → Bool
is_active_backup_job_status status =
    includes (queued ∷ initializing ∷ capturing ∷ verifying ∷ []) status

unfoldable pub can_transition_backup_job_status : BackupJobStatus → BackupJobStatus → Bool
unfolding legal_transitions
can_transition_backup_job_status from to = includes (legal_transitions from) to

unfoldable pub transition_backup_job_status :
    BackupJobStatus → BackupJobStatus → Outcome BackupError BackupJobStatus
unfolding can_transition_backup_job_status
transition_backup_job_status current next =
    if not (can_transition_backup_job_status current next)
    then thrown (illegal_backup_state_transition current next)
    else returned next
