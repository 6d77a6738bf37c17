-- ===== src/Retention/Storage.antt =====
-- packages/core/src/backup/retention-service.ts, reconcileStorage: what does not fit between the rows of
-- the database and the files of a destination. The details, texts for people, are left out.
use zima_control.Common.{
  ℕ, ◌+◌, String, Bool, false, ◌||◌, ◌&&◌, List, [], ◌∷◌, ◌++◌, Option, none, some, ◌==◌, string_eq,
  length, select, map, includes, insert, values, if◌then◌else◌,
}
use zima_control.Common.Text.{◌⧺◌, without_suffix}
use zima_control.Common.Action.{Outcome, returned, thrown}
use zima_control.Retention.{BackupArtifact, BackupDestination, BackupConfig, Provider, Surroundings}

pub data ReconciliationAnomalyType : Type 0 where
  artifact_file_missing bundle_incomplete orphan_file_detected pruned_file_present :
      ReconciliationAnomalyType
  destination_unavailable : ReconciliationAnomalyType

pub record ReconciliationAnomaly : Type 0 where
  pub anomaly_type : ReconciliationAnomalyType
  pub artifact_id : Option String
  pub file_name : String
  pub file_path : String

pub record ReconciliationResult : Type 0 where
  pub storage_directory : String
  pub total_artifacts_checked : ℕ
  pub total_files_on_disk : ℕ
  pub anomalies : List ReconciliationAnomaly

pub data ReconciliationError : Type 0 where
  no_destination_configured unresolved_provider unreadable_directory : ReconciliationError

abbrev pub manifest_file : BackupArtifact → String
manifest_file a = without_suffix ".tar.zst" a.bundle_file_name ⧺ ".manifest.json"

abbrev pub sha256_file : BackupArtifact → String
sha256_file a = without_suffix ".tar.zst" a.bundle_file_name ⧺ ".sha256"

-- Whether a file is one of those that the artifact is known by.
abbrev pub belongs_to : String → BackupArtifact → Bool
belongs_to file a = file == a.bundle_file_name || file == manifest_file a || file == sha256_file a

module _ (join : String → String → String) (directory : String) where
  abbrev anomaly : ReconciliationAnomalyType → Option String → String → ReconciliationAnomaly
  anomaly kind id file = record {
    anomaly_type = kind;
    artifact_id = id;
    file_name = file;
    file_path = join directory file;
  }

  abbrev pub missing_file :
      List String → ReconciliationAnomalyType → BackupArtifact → String → List ReconciliationAnomaly
  missing_file files kind a file =
      if includes files file then [] else anomaly kind (some a.id) file ∷ []

  -- The first of its files that is still there.
  abbrev pub lingering_file : List String → BackupArtifact → List ReconciliationAnomaly
  lingering_file files a =
      if includes files a.bundle_file_name
      then anomaly pruned_file_present (some a.id) a.bundle_file_name ∷ []
      else if includes files (manifest_file a)
      then anomaly pruned_file_present (some a.id) (manifest_file a) ∷ []
      else if includes files (sha256_file a)
      then anomaly pruned_file_present (some a.id) (sha256_file a) ∷ []
      else []

  unfoldable pub artifact_anomalies : List String → BackupArtifact → List ReconciliationAnomaly
  artifact_anomalies files a =
      if a.is_retained
      then missing_file files artifact_file_missing a a.bundle_file_name
        ++ (missing_file files bundle_incomplete a (manifest_file a)
            ++ missing_file files bundle_incomplete a (sha256_file a))
      else lingering_file files a

  unfoldable pub all_artifact_anomalies :
      List String → List BackupArtifact → List ReconciliationAnomaly
  all_artifact_anomalies files [] = []
  all_artifact_anomalies files (a ∷ as_) =
      artifact_anomalies files a ++ all_artifact_anomalies files as_

  abbrev pub is_recognized : List BackupArtifact → String → Bool
  is_recognized [] file = false
  is_recognized (a ∷ as_) file = belongs_to file a || is_recognized as_ file

  unfoldable pub orphans : List BackupArtifact → List String → List ReconciliationAnomaly
  orphans artifacts [] = []
  orphans artifacts (file ∷ files) =
      let rest = orphans artifacts files in
      if is_recognized artifacts file then rest else anomaly orphan_file_detected none file ∷ rest

  unfoldable pub directory_anomalies :
      List BackupArtifact → List String → List ReconciliationAnomaly
  directory_anomalies artifacts files =
      all_artifact_anomalies files artifacts ++ orphans artifacts files

abbrev pub unavailable : BackupDestination → ReconciliationAnomaly
unavailable dest = record {
  anomaly_type = destination_unavailable;
  artifact_id = none;
  file_name = "";
  file_path = dest.base_path;
}

module _ (env : Surroundings) (read_directory : String → Option (List String))
    (config : BackupConfig) (own : BackupDestination) (artifacts : List BackupArtifact) where
  abbrev is_at : BackupDestination → BackupArtifact → Bool
  is_at dest a = a.destination_id == dest.id || (a.destination_id == "" && dest.id == own.id)

  abbrev Found : Type 0
  Found = Outcome ReconciliationError (ℕ × List ReconciliationAnomaly)

  abbrev read_files : BackupDestination → String → Option (List String) → Found
  read_files dest directory none = thrown unreadable_directory
  read_files dest directory (some files) =
      returned
        (length files, directory_anomalies env.join directory (select (is_at dest) artifacts) files)

  abbrev healthy : Provider → BackupDestination → Option String → Found
  healthy provider dest (some detail) = returned (0, unavailable dest ∷ [])
  healthy provider dest none =
      let directory = provider.resolve_storage_directory dest config.application_name in
      read_files dest directory (read_directory directory)

  abbrev inspect : BackupDestination → Option Provider → Found
  inspect dest none = returned (0, unavailable dest ∷ [])
  inspect dest (some provider) = healthy provider dest (provider.preflight dest)

  abbrev joined : Found → Found → Found
  joined (returned (n, found)) (returned (m, more)) = returned (n + m, found ++ more)
  joined (returned _) (thrown e) = thrown e
  joined (thrown e) _ = thrown e

  unfoldable pub reconcile_each : List BackupDestination → Found
  reconcile_each [] = returned (0, [])
  reconcile_each (dest ∷ dests) = joined (inspect dest (env.resolve dest)) (reconcile_each dests)

  abbrev result : String → Found → Outcome ReconciliationError ReconciliationResult
  result directory (thrown e) = thrown e
  result directory (returned (n, found)) = returned (record {
    storage_directory = directory;
    total_artifacts_checked = length artifacts;
    total_files_on_disk = n;
    anomalies = found;
  })

  abbrev with_provider :
      List BackupDestination → Option Provider → Outcome ReconciliationError ReconciliationResult
  with_provider destinations none = thrown unresolved_provider
  with_provider destinations (some provider) =
      result (provider.resolve_storage_directory own config.application_name)
        (reconcile_each (values (insert own.id own (map (λ d. (d.id, d)) destinations))))

abbrev of_destination :
    Surroundings
    → (String → Option (List String))
    → BackupConfig
    → List BackupArtifact
    → List BackupDestination
    → Option BackupDestination
    → Outcome ReconciliationError ReconciliationResult
of_destination env read_directory config artifacts destinations none =
    thrown no_destination_configured
of_destination env read_directory config artifacts destinations (some own) =
    with_provider env read_directory config own artifacts destinations (env.resolve own)

-- `read_directory` gives no file for a directory that is missing, and nothing where it cannot be read. The
-- destinations are those that the artifacts name, or the one that was asked for.
unfoldable pub reconcile_storage :
    Surroundings
    → (String → Option (List String))
    → Option BackupConfig
    → List BackupArtifact
    → List BackupDestination
    → Outcome ReconciliationError ReconciliationResult
reconcile_storage env read_directory none artifacts destinations = thrown no_destination_configured
reconcile_storage env read_directory (some config) artifacts destinations =
    of_destination env read_directory config artifacts destinations config.destination
