-- ===== src/Retention/Pass.antt =====
-- packages/core/src/backup/retention-service.ts, executePruneInternal: a pass over the candidates, which
-- ends with an exception where the database rejects the update of an artifact.
use zima_control.Common.{
  ℕ, ◌-◌, String, Bool, true, false, not, ◌||◌, List, [], ◌∷◌, ◌++◌, Option, none, some, ◌==◌,
  string_eq, leb, map, length, drop, select, find, includes, is_some, if◌then◌else◌,
}
use zima_control.Common.Text.{◌⧺◌, ends_with, without_suffix}
use zima_control.Retention.{
  BackupArtifact, BackupDestination, BackupConfig, Provider, Surroundings, RetentionPruneResult,
  verified_artifacts, versions_limit,
}

-- What the loop makes of a candidate: it is protected, or an error is recorded, or its three files are to
-- be removed.
pub data Decision : Type 0 where
  protect : Decision
  refuse : String → Decision
  delete_files : String → String → String → Decision

-- `is_rejected`: the database has rejected an update, and the pass ends with its exception.
pub record Pass : Type 0 where
  pub files : List String
  pub artifacts : List BackupArtifact
  pub remaining : ℕ
  pub pruned : List String
  pub protected : List String
  pub errors : List (String × String)
  pub is_rejected : Bool

abbrev pub empty_report : ℕ → List (String × String) → RetentionPruneResult
empty_report limit errors = record {
  retained_versions_limit = limit;
  total_verified_count = 0;
  retained_count = 0;
  pruned_artifact_ids = [];
  protected_artifact_ids = [];
  errors = errors;
}

module _ (env : Surroundings) (config : BackupConfig) where
  abbrev paths : Provider → String → BackupArtifact → Decision
  paths provider directory c =
      let bundle = env.join directory c.bundle_file_name in
      let base = without_suffix ".tar.zst" c.bundle_file_name in
      let manifest = env.join directory (base ⧺ ".manifest.json") in
      let sha256 = env.join directory (base ⧺ ".sha256") in
      if not (env.basename c.bundle_file_name == c.bundle_file_name)
        || not (ends_with ".tar.zst" c.bundle_file_name)
      then refuse ("Malformed bundleFileName: '" ⧺ c.bundle_file_name ⧺ "'")
      else if not (provider.is_path_contained bundle directory)
          || not (provider.is_path_contained manifest directory)
          || not (provider.is_path_contained sha256 directory)
      then refuse ("Path traversal detected for artifact files in '" ⧺ directory ⧺ "'")
      else delete_files bundle manifest sha256

  abbrev checked : Provider → BackupDestination → BackupArtifact → Option String → Decision
  checked provider dest c none =
      paths provider (provider.resolve_storage_directory dest config.application_name) c
  checked provider dest c (some detail) =
      refuse ("Destination '" ⧺ dest.id ⧺ "' unavailable for pruning: " ⧺ detail)

  abbrev resolved : BackupDestination → BackupArtifact → Option Provider → Decision
  resolved dest c none = refuse ("Failed to resolve provider for destination '" ⧺ dest.id ⧺ "'")
  resolved dest c (some provider) = checked provider dest c (provider.preflight dest)

  abbrev located : BackupArtifact → Option BackupDestination → Decision
  located c none =
      refuse ("Destination '" ⧺ c.destination_id ⧺ "' not found for artifact '" ⧺ c.id ⧺ "'")
  located c (some dest) = resolved dest c (env.resolve dest)

  -- The destination of the configuration, which the map holds under its id, comes first; an artifact without a
  -- destination has that of the configuration.
  abbrev destination_for :
      List BackupDestination → BackupArtifact → Option BackupDestination → Option BackupDestination
  destination_for destinations c none = find (λ d. d.id == c.destination_id) destinations
  destination_for destinations c (some own) =
      if own.id == c.destination_id || c.destination_id == ""
      then some own
      else find (λ d. d.id == c.destination_id) destinations

  unfoldable pub decide : List BackupDestination → List String → ℕ → BackupArtifact → Decision
  decide destinations active_job_ids remaining c =
      if includes active_job_ids c.job_id
      then protect
      else if leb remaining 1
      then protect
      else located c (destination_for destinations c config.destination)

  -- `unlink` of each path in turn, of which a missing file is no error: whether all were removed, and what is
  -- left of the files.
  abbrev pub unlink_each : List String → List String → Bool × List String
  unlink_each [] files = (true, files)
  unlink_each (path ∷ paths) files =
      let rest = unlink_each paths (select (λ f. not (f == path)) files) in
      if env.refuses path then (false, files) else rest

  -- The database's row of an artifact that was pruned at the time `now`.
  abbrev pub mark_pruned : ℕ → String → BackupArtifact → BackupArtifact
  mark_pruned now id a =
      if id == a.id then record a { is_retained = false; pruned_at = some now } else a

  -- The end of the turn of an artifact whose files are gone, with the database's answer to its update.
  abbrev pub updated : BackupArtifact → Option ℕ → Pass → Pass
  updated c none pass = record pass { is_rejected = true }
  updated c (some now) pass = record pass {
    artifacts = map (mark_pruned now c.id) pass.artifacts;
    remaining = pass.remaining - 1;
    pruned = pass.pruned ++ (c.id ∷ []);
  }

  abbrev pub removed : BackupArtifact → Bool × List String → Pass → Pass
  removed c (true, files) pass = updated c (env.updated_at c.id) (record pass { files = files })
  removed c (false, files) pass = record pass {
    files = files;
    errors = pass.errors ++ ((c.id, "Filesystem deletion failed") ∷ []);
  }

  abbrev pub perform_decision : BackupArtifact → Decision → Pass → Pass
  perform_decision c protect pass = record pass { protected = pass.protected ++ (c.id ∷ []) }
  perform_decision c (refuse e) pass = record pass { errors = pass.errors ++ ((c.id, e) ∷ []) }
  perform_decision c (delete_files bundle manifest sha256) pass =
      removed c (unlink_each (bundle ∷ manifest ∷ sha256 ∷ []) pass.files) pass

  unfoldable pub prune_candidate :
      List BackupDestination → List String → BackupArtifact → Pass → Pass
  prune_candidate destinations active_job_ids c pass =
      perform_decision c (decide destinations active_job_ids pass.remaining c) pass

  unfoldable pub prune_each :
      List BackupDestination → List String → List BackupArtifact → Pass → Pass
  prune_each destinations active_job_ids [] pass = pass
  prune_each destinations active_job_ids (c ∷ cs) pass =
      let next = prune_candidate destinations active_job_ids c pass in
      let rest = prune_each destinations active_job_ids cs next in
      if next.is_rejected then next else rest

  -- The pass over what is older than the newest versions, once there are too many.
  unfoldable pub prune_pass :
      List BackupDestination → List String → List BackupArtifact → List String → Pass
  prune_pass destinations active_job_ids artifacts files =
      prune_each destinations active_job_ids
        (drop (versions_limit config) (verified_artifacts artifacts))
        (record {
          files = files;
          artifacts = artifacts;
          remaining = length (verified_artifacts artifacts);
          pruned = [];
          protected = [];
          errors = [];
          is_rejected = false;
        })

  -- There is none where the pass ends with an exception.
  abbrev pub report : ℕ → Pass → Option RetentionPruneResult
  report total pass =
      if pass.is_rejected
      then none
      else some (record {
        retained_versions_limit = versions_limit config;
        total_verified_count = total;
        retained_count = pass.remaining;
        pruned_artifact_ids = pass.pruned;
        protected_artifact_ids = pass.protected;
        errors = pass.errors;
      })

  abbrev pub untouched : List BackupArtifact → List String → Pass
  untouched artifacts files = record {
    files = files;
    artifacts = artifacts;
    remaining = length (verified_artifacts artifacts);
    pruned = [];
    protected = [];
    errors = [];
    is_rejected = false;
  }

  -- What is reported, and what becomes of the files and the artifacts.
  unfoldable pub execute_prune_internal :
      List BackupDestination
      → List String
      → List BackupArtifact
      → List String
      → Option RetentionPruneResult × Pass
  execute_prune_internal destinations active_job_ids artifacts files =
      let total = length (verified_artifacts artifacts) in
      let pass = prune_pass destinations active_job_ids artifacts files in
      if not (is_some config.destination)
      then (some (empty_report 3 []), untouched artifacts files)
      else if leb total (versions_limit config)
      then (report total (untouched artifacts files), untouched artifacts files)
      else (report total pass, pass)

abbrev of_config :
    Surroundings
    → List BackupDestination
    → List String
    → List BackupArtifact
    → List String
    → Option BackupConfig
    → Option RetentionPruneResult × Pass
of_config env destinations active_job_ids artifacts files none = (
  some (empty_report 3 []),
  record {
    files = files;
    artifacts = artifacts;
    remaining = length (verified_artifacts artifacts);
    pruned = [];
    protected = [];
    errors = [];
    is_rejected = false;
  },
)
of_config env destinations active_job_ids artifacts files (some config) =
    execute_prune_internal env config destinations active_job_ids artifacts files

-- The pass of an application, and the locks after it: while a pass holds the application's lock another one
-- does nothing.
unfoldable pub prune_application_backups :
    Surroundings
    → Option BackupConfig
    → List BackupDestination
    → List String
    → List BackupArtifact
    → List String
    → String
    → List String
    → Option RetentionPruneResult × Pass × List String
prune_application_backups env config destinations active_job_ids artifacts files application_id
      active_locks =
    let (result, pass) = of_config env destinations active_job_ids artifacts files config in
    if includes active_locks application_id
    then (
      some (empty_report 0 (("", "Retention pass already in progress for this application") ∷ [])),
      record {
        files = files;
        artifacts = artifacts;
        remaining = length (verified_artifacts artifacts);
        pruned = [];
        protected = [];
        errors = [];
        is_rejected = false;
      },
      active_locks,
    )
    else (result, pass, select (λ id. not (id == application_id)) (application_id ∷ active_locks))
