-- ===== src/Retention/Consistency.antt =====
-- packages/core/src/backup/retention-service.ts, reconcileStorage: when a destination is reported to be
-- in order.
use zima_control.Common.{
  String, ◌≡◌, refl, ◌∙◌, Bool, true, false, not, ◌&&◌, List, [], ◌∷◌, ◌++◌, string_eq, all,
  includes, if◌then◌else◌, arith,
}
use zima_control.Retention.{BackupArtifact}
use zima_control.Retention.Storage.{
  ReconciliationAnomaly, manifest_file, sha256_file, artifact_anomalies, all_artifact_anomalies,
  is_recognized, orphans, directory_anomalies,
}

abbrev pub is_nil : List ReconciliationAnomaly → Bool
is_nil [] = true
is_nil (a ∷ as_) = false

-- A kept artifact has its three files, and one that was pruned has none.
abbrev pub artifact_fits : List String → BackupArtifact → Bool
artifact_fits files a =
    if a.is_retained
    then includes files a.bundle_file_name
      && (includes files (manifest_file a) && includes files (sha256_file a))
    else not (includes files a.bundle_file_name)
      && (not (includes files (manifest_file a)) && not (includes files (sha256_file a)))

is_nil-append : (xs ys : List ReconciliationAnomaly) → is_nil (xs ++ ys) ≡ (is_nil xs && is_nil ys)
is_nil-append [] ys = refl
is_nil-append (x ∷ xs) ys = refl

and_cong : {a b c d : Bool} → a ≡ b → c ≡ d → (a && c) ≡ (b && d)
and_cong e f = rw (e, f) refl

module _ (join : String → String → String) (directory : String) where
  artifact_anomalies-nil :
      (files : List String) (a : BackupArtifact)
      → is_nil (artifact_anomalies join directory files a) ≡ artifact_fits files a
  unfolding artifact_anomalies
  artifact_anomalies-nil files a = ground arith

  all_artifact_anomalies-nil :
      (files : List String) (artifacts : List BackupArtifact)
      → is_nil (all_artifact_anomalies join directory files artifacts)
        ≡ all (artifact_fits files) artifacts
  unfolding all_artifact_anomalies
  all_artifact_anomalies-nil files [] = refl
  all_artifact_anomalies-nil files (a ∷ as_) =
      is_nil-append (artifact_anomalies join directory files a)
        (all_artifact_anomalies join directory files as_)
      ∙ and_cong (artifact_anomalies-nil files a) (all_artifact_anomalies-nil files as_)

  orphans-nil :
      (artifacts : List BackupArtifact) (files : List String)
      → is_nil (orphans join directory artifacts files)
        ≡ all (is_recognized join directory artifacts) files
  unfolding orphans
  orphans-nil artifacts [] = refl
  orphans-nil artifacts (file ∷ files) =
      let rest = orphans-nil artifacts files in ground (arith, rest)

  -- No anomaly is reported for the files of a destination exactly if each artifact that is kept there has its
  -- three files, each that was pruned has none, and each file is one of an artifact.
  pub directory_anomalies-nil :
      (artifacts : List BackupArtifact) (files : List String)
      → is_nil (directory_anomalies join directory artifacts files) ≡ (
          all (artifact_fits files) artifacts && all (is_recognized join directory artifacts) files)
  unfolding directory_anomalies
  directory_anomalies-nil artifacts files =
      is_nil-append (all_artifact_anomalies join directory files artifacts)
        (orphans join directory artifacts files)
      ∙ and_cong (all_artifact_anomalies-nil files artifacts) (orphans-nil artifacts files)
