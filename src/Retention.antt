-- ===== src/Retention.antt =====
-- packages/core/src/backup/retention-service.ts: the pruning of an application's backups. The database's
-- answers are arguments, in the order in which the query gives them; the file system is the list of the
-- paths of its files.
pub mod Pass
pub mod Turns
pub mod Newest
pub mod Accounts
pub mod Rows
pub mod Left
pub mod Storage
pub mod Consistency
use zima_control.Common.{
  ℕ, zero, suc, max, ◌+◌, ◌-◌, String, Bool, true, false, not, ◌||◌, ◌&&◌, List, [], ◌∷◌, ◌++◌,
  Option, none, some, ◌==◌, string_eq, leb, ltb, length, take, drop, select, find, includes,
  is_some, get_or_else, if◌then◌else◌,
}
use zima_control.Common.Text.{◌⧺◌}

pub record BackupArtifact : Type 0 where
  pub id : String
  pub job_id : String
  pub destination_id : String
  pub bundle_file_name : String
  pub verification_status : String
  pub is_retained : Bool
  pub verified_at : Option ℕ
  pub created_at : ℕ
  pub pruned_at : Option ℕ

pub record BackupDestination : Type 0 where
  pub id : String
  pub base_path : String

pub record BackupConfig : Type 0 where
  pub retention_versions : Option ℕ
  pub destination : Option BackupDestination
  pub application_name : String

-- destination.ts: a provider's answers. `preflight` gives nothing where the destination is available, and
-- else what the error says of it.
pub record Provider : Type 0 where
  pub preflight : BackupDestination → Option String
  pub resolve_storage_directory : BackupDestination → String → String
  pub is_path_contained : String → String → Bool

-- The registry of providers (none where it throws), `join` and `basename` of node:path, the paths that
-- the file system refuses to remove, and the time at which the database updates the row of an artifact
-- (none where it rejects that update).
pub record Surroundings : Type 0 where
  pub resolve : BackupDestination → Option Provider
  pub join : String → String → String
  pub basename : String → String
  pub refuses : String → Bool
  pub updated_at : String → Option ℕ

pub record RetentionPruneResult : Type 0 where
  pub retained_versions_limit : ℕ
  pub total_verified_count : ℕ
  pub retained_count : ℕ
  pub pruned_artifact_ids : List String
  pub protected_artifact_ids : List String
  pub errors : List (String × String)

abbrev pub is_counted : BackupArtifact → Bool
is_counted a = a.verification_status == "VERIFIED" && a.is_retained

abbrev pub verified_time : BackupArtifact → ℕ
verified_time a = get_or_else a.verified_at a.created_at

-- The newest first; where two are as new, their order stays.
abbrev pub insert_newest : BackupArtifact → List BackupArtifact → List BackupArtifact
insert_newest a [] = a ∷ []
insert_newest a (b ∷ bs) =
    let rest = insert_newest a bs in
    if leb (verified_time b) (verified_time a) then a ∷ b ∷ bs else b ∷ rest

abbrev pub newest_first : List BackupArtifact → List BackupArtifact
newest_first [] = []
newest_first (a ∷ as_) = insert_newest a (newest_first as_)

abbrev pub verified_artifacts : List BackupArtifact → List BackupArtifact
verified_artifacts artifacts = newest_first (select is_counted artifacts)

abbrev pub versions_limit : BackupConfig → ℕ
versions_limit config = max 1 (get_or_else config.retention_versions 3)
