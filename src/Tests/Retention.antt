-- ===== src/Tests/Retention.antt =====
-- The theorems on the pruning of backups at concrete artifacts.
use mathlib.Core.List.{Perm}
use zima_control.Common.{ℕ, String, ◌≡◌, refl, true, false, List, [], ◌∷◌, none, some, all, map}
use zima_control.Common.Text.{◌⧺◌}
use zima_control.Retention.{BackupArtifact, BackupDestination, BackupConfig, Surroundings}
use zima_control.Retention.Pass.{
  decide, prune_candidate, prune_each, prune_pass, execute_prune_internal,
}
use zima_control.Retention.Accounts.{names_candidate, final_pass, pruned-candidates}
use zima_control.Retention.Storage.{directory_anomalies}
use zima_control.Retention.Consistency.{is_nil, directory_anomalies-nil}
use zima_control.Retention.Rows.{row_after, rows_after_pass}

abbrev artifact : String → String → ℕ → BackupArtifact
artifact id job at = record {
  id = id;
  job_id = job;
  destination_id = "disk";
  bundle_file_name = id ⧺ ".tar.zst";
  verification_status = "VERIFIED";
  is_retained = true;
  verified_at = some at;
  created_at = at;
  pruned_at = none;
}

abbrev stored_artifacts : List BackupArtifact
stored_artifacts =
    artifact "old" "job-1" 10 ∷ artifact "busy" "job-2" 20 ∷ artifact "new" "job-3" 30 ∷ []

abbrev disk : BackupDestination
disk = record { id = "disk"; base_path = "/backups" }

abbrev one_version : BackupConfig
one_version = record {
  retention_versions = some 1;
  destination = some disk;
  application_name = "app";
}

abbrev around : Surroundings
around = record {
  resolve = λ d. some (record {
    preflight = λ d. none;
    resolve_storage_directory = λ d name. d.base_path ⧺ "/" ⧺ name;
    is_path_contained = λ path directory. true;
  });
  join = λ directory name. directory ⧺ "/" ⧺ name;
  basename = λ name. name;
  refuses = λ path. false;
  updated_at = λ id. some 99;
}

abbrev stored_files : List String
stored_files = "/backups/app/old.tar.zst" ∷ "/backups/app/new.tar.zst" ∷ []

-- The older of the two that are too many is pruned, and the other's job is active.
old_is_pruned :
    final_pass around one_version [] ("job-2" ∷ []) stored_artifacts stored_files ≡ record {
      files = "/backups/app/new.tar.zst" ∷ [];
      artifacts =
          row_after around ("old" ∷ []) (artifact "old" "job-1" 10)
          ∷ artifact "busy" "job-2" 20
          ∷ artifact "new" "job-3" 30
          ∷ [];
      remaining = 2;
      pruned = "old" ∷ [];
      protected = "busy" ∷ [];
      errors = [];
      is_rejected = false;
    }
unfolding execute_prune_internal prune_pass prune_each prune_candidate decide
old_is_pruned = refl

-- Where the database rejects the update, the files are gone, and the row is as it was.
old_is_rejected :
    final_pass
      (record around { updated_at = λ id. none })
      one_version
      []
      ("job-2" ∷ [])
      stored_artifacts
      stored_files
    ≡ record {
      files = "/backups/app/new.tar.zst" ∷ [];
      artifacts = stored_artifacts;
      remaining = 3;
      pruned = [];
      protected = "busy" ∷ [];
      errors = [];
      is_rejected = true;
    }
unfolding execute_prune_internal prune_pass prune_each prune_candidate decide
old_is_rejected = refl

pruned-candidates_example :
    (all
        (names_candidate around one_version []
          ("job-2" ∷ [])
          (artifact "busy" "job-2" 20 ∷ artifact "old" "job-1" 10 ∷ []))
        (final_pass around one_version [] ("job-2" ∷ []) stored_artifacts stored_files).pruned
      ≡ true)
    × Perm
        (artifact "new" "job-3" 30 ∷ artifact "busy" "job-2" 20 ∷ artifact "old" "job-1" 10 ∷ [])
        stored_artifacts
    × (true ≡ true)
pruned-candidates_example =
    pruned-candidates around one_version [] ("job-2" ∷ []) stored_artifacts stored_files

rows_after_pass_example :
    ((final_pass around one_version [] ("job-2" ∷ []) stored_artifacts stored_files).artifacts
      ≡ map
          (row_after around
            (final_pass around one_version [] ("job-2" ∷ []) stored_artifacts stored_files).pruned)
          stored_artifacts)
    × (all
          (λ id. true)
          (final_pass around one_version [] ("job-2" ∷ []) stored_artifacts stored_files).pruned
        ≡ true)
rows_after_pass_example =
    rows_after_pass around one_version [] ("job-2" ∷ []) stored_artifacts stored_files

-- A destination with the three files of a kept artifact, and one file too many.
abbrev found_files : List String
found_files = "new.tar.zst" ∷ "new.manifest.json" ∷ "new.sha256" ∷ "notes.txt" ∷ []

directory_anomalies-nil_example :
    is_nil
      (directory_anomalies around.join "/backups/app" (artifact "new" "job-3" 30 ∷ []) found_files)
    ≡ false
directory_anomalies-nil_example =
    directory_anomalies-nil around.join "/backups/app" (artifact "new" "job-3" 30 ∷ []) found_files
