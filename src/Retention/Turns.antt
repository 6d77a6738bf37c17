-- ===== src/Retention/Turns.antt =====
-- packages/core/src/backup/retention-service.ts: what the loop makes of a candidate.
use zima_control.Common.{
  ℕ, ◌-◌, ◌≤◌, ◌≡◌, refl, ap, inl, inr, ◌⊎◌, String, Bool, true, false, List, [], ◌∷◌, ◌++◌,
  string_eq, leb, map, includes, Bool-cases, Option-cases, some, arith,
}
use zima_control.Retention.{BackupArtifact, BackupDestination, BackupConfig, Surroundings}
use zima_control.Retention.Pass.{
  Decision, protect, refuse, delete_files, Pass, decide, unlink_each, mark_pruned, updated, removed,
  perform_decision, prune_candidate,
}

abbrev is_deletion : Decision → Bool
is_deletion protect = false
is_deletion (refuse e) = false
is_deletion (delete_files bundle manifest sha256) = true

module _ (env : Surroundings) (config : BackupConfig) (destinations : List BackupDestination)
    (active_job_ids : List String) where
  protected_first :
      (remaining : ℕ) (c : BackupArtifact)
      → includes active_job_ids c.job_id ≡ true
      → decide env config destinations active_job_ids remaining c ≡ protect
  unfolding decide
  protected_first remaining c e = rw e refl

  protected_last :
      (remaining : ℕ) (c : BackupArtifact)
      → includes active_job_ids c.job_id ≡ false
      → leb remaining 1 ≡ true
      → decide env config destinations active_job_ids remaining c ≡ protect
  unfolding decide
  protected_last remaining c e f = rw (e, f) refl

  -- Files are removed for an artifact whose job is not active, while others are left.
  decide-deletion :
      (remaining : ℕ) (c : BackupArtifact)
      → is_deletion (decide env config destinations active_job_ids remaining c) ≡ true
      → (includes active_job_ids c.job_id ≡ false) × (2 ≤ remaining)
  unfolding decide
  decide-deletion remaining c h = elim (Bool-cases (includes active_job_ids c.job_id)) [
    | inl e ↦ absurd (cc (ap is_deletion (protected_first remaining c e)))
    | inr e ↦ elim (Bool-cases (leb remaining 1)) [
      | inl f ↦ absurd (cc (ap is_deletion (protected_last remaining c e f)))
      | inr f ↦ (e, ground (arith, f))
    ]
  ]

  -- What the loop makes of the pass: the candidate is protected, or has an error, or its update is
  -- rejected, or it is pruned.
  abbrev pub Turn : BackupArtifact → Pass → Pass → Type 0
  Turn c p q =
      (q ≡ record p { protected = p.protected ++ (c.id ∷ []) })
      ⊎ ((files : List String) × (e : String) × (q
            ≡ record p { files = files; errors = p.errors ++ ((c.id, e) ∷ []) }))
      ⊎ ((files : List String) × (q ≡ record p { files = files; is_rejected = true }))
      ⊎ ((files : List String) × (now : ℕ) × (q ≡ record p {
        files = files;
        artifacts = map (mark_pruned env config now c.id) p.artifacts;
        remaining = p.remaining - 1;
        pruned = p.pruned ++ (c.id ∷ []);
      })
          × (env.updated_at c.id ≡ some now)
          × (includes active_job_ids c.job_id ≡ false)
          × (2 ≤ p.remaining))

  updated-Turn :
      (c : BackupArtifact) (files : List String) (p : Pass)
      → (includes active_job_ids c.job_id ≡ false) × (2 ≤ p.remaining)
      → Turn c p (updated env config c (env.updated_at c.id) (record p { files = files }))
  updated-Turn c files p (job, others) = elim (Option-cases (env.updated_at c.id)) [
    | inl e ↦ rw e (inr (inr (inl (files, refl))))
    | inr (now, e) ↦ inr (inr (inr (files, now, rw e refl, e, job, others)))
  ]

  removed-Turn :
      (c : BackupArtifact) (r : Bool × List String) (p : Pass)
      → (includes active_job_ids c.job_id ≡ false) × (2 ≤ p.remaining)
      → Turn c p (removed env config c r p)
  removed-Turn c (true, files) p kept = updated-Turn c files p kept
  removed-Turn c (false, files) p kept = inr (inl (files, "Filesystem deletion failed", refl))

  perform_decision-Turn :
      (c : BackupArtifact) (d : Decision) (p : Pass)
      → (is_deletion d ≡ true → (includes active_job_ids c.job_id ≡ false) × (2 ≤ p.remaining))
      → Turn c p (perform_decision env config c d p)
  perform_decision-Turn c protect p h = inl refl
  perform_decision-Turn c (refuse e) p h = inr (inl (p.files, e, refl))
  perform_decision-Turn c (delete_files bundle manifest sha256) p h =
      removed-Turn c (unlink_each env config (bundle ∷ manifest ∷ sha256 ∷ []) p.files) p (h refl)

  pub prune_candidate-Turn :
      (c : BackupArtifact) (p : Pass)
      → Turn c p (prune_candidate env config destinations active_job_ids c p)
  unfolding prune_candidate
  prune_candidate-Turn c p =
      perform_decision-Turn c (decide env config destinations active_job_ids p.remaining c) p
        (decide-deletion p.remaining c)
