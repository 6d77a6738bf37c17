-- ===== src/Retention/Accounts.antt =====
-- packages/core/src/backup/retention-service.ts: what a pass keeps, counts, and writes to the database.
use mathlib.Core.List.{Perm}
use zima_control.Common.{
  some, take, select, ℕ, zero, suc, ◌+◌, ◌≤◌, ◌≡◌, refl, ap, inl, inr, ◌⊎◌, String, Bool, true,
  false, not, ◌||◌, ◌&&◌, List, [], ◌∷◌, ◌++◌, ◌==◌, string_eq, leb, length, length-append, drop,
  all, any, includes, is_some, Bool-cases, arith, eq_self,
}
use zima_control.Retention.{
  BackupArtifact, BackupDestination, BackupConfig, Surroundings, verified_artifacts, versions_limit,
  verified_time, is_counted,
}
use zima_control.Retention.Pass.{
  Pass, prune_candidate, prune_each, prune_pass, untouched, report, empty_report,
  execute_prune_internal,
}
use zima_control.Retention.Newest.{verified-perm, drop-verified}
use zima_control.Retention.Turns.{Turn, prune_candidate-Turn}

pub all-append :
    {A : Type 0} (p : A → Bool) (xs ys : List A)
    → all p xs ≡ true
    → all p ys ≡ true
    → all p (xs ++ ys) ≡ true
all-append p [] ys h g = g
all-append p (x ∷ xs) ys h g =
    let rest = all-append p xs ys (ground (arith, h)) g in ground (arith, h, rest)

all-implies :
    {A : Type 0} (p q : A → Bool) (xs : List A)
    → ((x : A) → p x ≡ true → q x ≡ true)
    → all p xs ≡ true
    → all q xs ≡ true
all-implies p q [] f h = refl
all-implies p q (x ∷ xs) f h =
    let rest = all-implies p q xs f (ground (arith, h)) in
    let here = f x (ground (arith, h)) in ground (arith, rest, here)

length-drop :
    {A : Type 0} (n : ℕ) (xs : List A) → n ≤ length xs → length (drop n xs) + n ≡ length xs
length-drop zero xs h = omega arith
length-drop (suc n) [] h = absurd (omega (arith, h))
length-drop (suc n) (x ∷ xs) h = omega (arith, length-drop n xs (omega (arith, h)))

module _ (env : Surroundings) (config : BackupConfig) (destinations : List BackupDestination)
    (active_job_ids : List String) where
  -- A turn prunes at most one artifact.
  Turn-length :
      (c : BackupArtifact) (p q : Pass)
      → Turn env config destinations active_job_ids c p q
      → length q.pruned ≤ 1 + length p.pruned
  Turn-length c p q (inl e) = rw e (omega arith)
  Turn-length c p q (inr (inl (files, x, e))) = rw e (omega arith)
  Turn-length c p q (inr (inr (inl (files, e)))) = rw e (omega arith)
  Turn-length c p q (inr (inr (inr (files, now, e, time, job, others)))) =
      let more = length-append p.pruned (c.id ∷ []) in rw e (omega (arith, more))

  pub prune_each-length :
      (cs : List BackupArtifact) (p : Pass)
      → length (prune_each env config destinations active_job_ids cs p).pruned
        ≤ length cs + length p.pruned
  unfolding prune_each
  prune_each-length [] p = omega arith
  prune_each-length (c ∷ cs) p =
      let q = prune_candidate env config destinations active_job_ids c p in
      let one =
        Turn-length c p q (prune_candidate-Turn env config destinations active_job_ids c p) in
      elim (Bool-cases q.is_rejected) [
        | inl e ↦ simp e (omega (arith, one))
        | inr e ↦ simp e (omega (arith, one, prune_each-length cs q))
      ]

  -- A text that names a candidate without an active job.
  abbrev pub names_candidate : List BackupArtifact → String → Bool
  names_candidate cs id = any (λ c. c.id == id && not (includes active_job_ids c.job_id)) cs

  abbrev Allowed : (String → Bool) → List BackupArtifact → Type 0
  Allowed allowed cs = all (λ c. includes active_job_ids c.job_id || allowed c.id) cs ≡ true

  Turn-pruned :
      (allowed : String → Bool) (c : BackupArtifact) (p q : Pass)
      → Turn env config destinations active_job_ids c p q
      → (includes active_job_ids c.job_id || allowed c.id) ≡ true
      → all allowed p.pruned ≡ true
      → all allowed q.pruned ≡ true
  Turn-pruned allowed c p q (inl e) ok h = rw e h
  Turn-pruned allowed c p q (inr (inl (files, x, e))) ok h = rw e h
  Turn-pruned allowed c p q (inr (inr (inl (files, e)))) ok h = rw e h
  Turn-pruned allowed c p q (inr (inr (inr (files, now, e, time, job, others)))) ok h =
      rw e (all-append allowed p.pruned (c.id ∷ []) h (ground (arith, ok, job)))

  prune_each-pruned :
      (allowed : String → Bool) (cs : List BackupArtifact) (p : Pass)
      → Allowed allowed cs
      → all allowed p.pruned ≡ true
      → all allowed (prune_each env config destinations active_job_ids cs p).pruned ≡ true
  unfolding prune_each
  prune_each-pruned allowed [] p ok h = h
  prune_each-pruned allowed (c ∷ cs) p ok h =
      let q = prune_candidate env config destinations active_job_ids c p in
      let one =
        Turn-pruned allowed c p q (prune_candidate-Turn env config destinations active_job_ids c p)
          (ground (arith, ok)) h in
      elim (Bool-cases q.is_rejected) [
        | inl e ↦ simp e one
        | inr e ↦ simp e (prune_each-pruned allowed cs q (ground (arith, ok)) one)
      ]

  names_itself : (cs : List BackupArtifact) → Allowed (names_candidate cs) cs
  names_itself [] = refl
  names_itself (c ∷ cs) =
      let rest =
        all-implies (λ d. includes active_job_ids d.job_id || names_candidate cs d.id)
          (λ d. includes active_job_ids d.job_id || names_candidate (c ∷ cs) d.id) cs
          (λ d h. ground (arith, h)) (names_itself cs) in
      let self = eq_self c.id in ground (arith, rest, self)

  abbrev pub candidates : List BackupArtifact → List BackupArtifact
  candidates artifacts = drop (versions_limit config) (verified_artifacts artifacts)

  -- The pass of `execute_prune_internal`.
  abbrev pub final_pass : List BackupArtifact → List String → Pass
  final_pass artifacts files =
      (execute_prune_internal env config destinations active_job_ids artifacts files).1

  without_destination :
      (artifacts : List BackupArtifact) (files : List String)
      → is_some config.destination ≡ false
      → execute_prune_internal env config destinations active_job_ids artifacts files
        ≡ (some (empty_report 3 []), untouched env config artifacts files)
  unfolding execute_prune_internal
  without_destination artifacts files e = rw e refl

  within_limit :
      (artifacts : List BackupArtifact) (files : List String)
      → is_some config.destination ≡ true
      → leb (length (verified_artifacts artifacts)) (versions_limit config) ≡ true
      → execute_prune_internal env config destinations active_job_ids artifacts files ≡ (
        report env config
            (length (verified_artifacts artifacts))
            (untouched env config artifacts files),
        untouched env config artifacts files,
      )
  unfolding execute_prune_internal
  within_limit artifacts files e f = rw (e, f) refl

  over_limit :
      (artifacts : List BackupArtifact) (files : List String)
      → is_some config.destination ≡ true
      → leb (length (verified_artifacts artifacts)) (versions_limit config) ≡ false
      → execute_prune_internal env config destinations active_job_ids artifacts files ≡ (
        report env config
            (length (verified_artifacts artifacts))
            (prune_pass env config destinations active_job_ids artifacts files),
        prune_pass env config destinations active_job_ids artifacts files,
      )
  unfolding execute_prune_internal
  over_limit artifacts files e f = rw (e, f) refl

  pub execute-cases :
      (artifacts : List BackupArtifact) (files : List String)
      → (final_pass artifacts files ≡ untouched env config artifacts files)
        ⊎ ((final_pass artifacts files
              ≡ prune_pass env config destinations active_job_ids artifacts files)
            × (versions_limit config ≤ length (verified_artifacts artifacts)))
  unfolding execute_prune_internal
  execute-cases artifacts files = elim (Bool-cases (is_some config.destination)) [
    | inr e ↦ inl (ap (λ x. x.1) (without_destination artifacts files e))
    | inl e ↦
        elim (Bool-cases (leb (length (verified_artifacts artifacts)) (versions_limit config))) [
          | inl f ↦ inl (ap (λ x. x.1) (within_limit artifacts files e f))
          | inr f ↦ inr (ap (λ x. x.1) (over_limit artifacts files e f), ground (arith, f))
        ]
  ]

  -- Each id that a pass prunes is that of a candidate whose job is not active. The candidates are
  -- what follows the first ones, up to the limit, in a rearrangement of the verified artifacts that are
  -- kept, and none of them was verified after one of those first ones.
  pub pruned-candidates :
      (artifacts : List BackupArtifact) (files : List String)
      → (all (names_candidate (candidates artifacts)) (final_pass artifacts files).pruned ≡ true)
        × Perm (verified_artifacts artifacts) (select is_counted artifacts)
        × (all
              (λ k. all (λ c. leb (verified_time c) (verified_time k)) (candidates artifacts))
              (take (versions_limit config) (verified_artifacts artifacts))
            ≡ true)
  unfolding prune_pass
  pruned-candidates artifacts files = (
    elim (execute-cases artifacts files) [
      | inl e ↦ rw e refl
      | inr (e, late) ↦ rw e (
          prune_each-pruned (names_candidate (candidates artifacts)) (candidates artifacts)
            (untouched env config artifacts files) (names_itself (candidates artifacts)) refl)
    ],
    verified-perm artifacts,
    drop-verified (versions_limit config) artifacts,
  )

  -- The pruned artifacts, and as many as the limit, are at most all the verified ones.
  pub length-pruned :
      (artifacts : List BackupArtifact) (files : List String)
      → ((final_pass artifacts files).pruned ≡ [])
        ⊎ (length (final_pass artifacts files).pruned + versions_limit config
            ≤ length (verified_artifacts artifacts))
  unfolding prune_pass
  length-pruned artifacts files = elim (execute-cases artifacts files) [
    | inl e ↦ rw e (inl refl)
    | inr (e, late) ↦
        let few = prune_each-length (candidates artifacts) (untouched env config artifacts files) in
        let left = length-drop (versions_limit config) (verified_artifacts artifacts) late in
        rw e (inr (omega (arith, few, left)))
  ]
