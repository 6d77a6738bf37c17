-- ===== src/Retention/Rows.antt =====
-- packages/core/src/backup/retention-service.ts: what a pass writes to the database.
use zima_control.Common.{
  ℕ, eq_iff, all, is_some, true, ◌≡◌, refl, sym, ap, ◌∙◌, inl, inr, String, false, ◌||◌, List, [],
  ◌∷◌, ◌++◌, some, ◌==◌, string_eq, map, includes, if◌then◌else◌, Bool-cases, arith,
}
use zima_control.Retention.{BackupArtifact, BackupDestination, BackupConfig, Surroundings}
use zima_control.Retention.Pass.{
  Pass, mark_pruned, prune_candidate, prune_each, prune_pass, untouched,
}
use zima_control.Retention.Turns.{Turn, prune_candidate-Turn}
use zima_control.Retention.Accounts.{final_pass, execute-cases, candidates, all-append}

-- The row of an artifact after a pass that prunes the artifacts of these ids.
abbrev pub row_after : Surroundings → List String → BackupArtifact → BackupArtifact
row_after env pruned a =
    if includes pruned a.id
    then record a { is_retained = false; pruned_at = env.updated_at a.id }
    else a

map-map :
    (f g h : BackupArtifact → BackupArtifact) (xs : List BackupArtifact)
    → ((a : BackupArtifact) → f (g a) ≡ h a)
    → map f (map g xs) ≡ map h xs
map-map f g h [] e = refl
map-map f g h (x ∷ xs) e = rw (e x, map-map f g h xs e) refl

map-same :
    (f : BackupArtifact → BackupArtifact) (xs : List BackupArtifact)
    → ((a : BackupArtifact) → f a ≡ a)
    → map f xs ≡ xs
map-same f [] e = refl
map-same f (x ∷ xs) e = rw (e x, map-same f xs e) refl

includes-append :
    (xs ys : List String) (id : String)
    → includes (xs ++ ys) id ≡ (includes xs id || includes ys id)
includes-append [] ys id = refl
includes-append (x ∷ xs) ys id = let rest = includes-append xs ys id in ground (arith, rest)

module _ (env : Surroundings) (config : BackupConfig) (destinations : List BackupDestination)
    (active_job_ids : List String) where
  mark-row_after :
      (pruned : List String) (id : String) (now : ℕ) (a : BackupArtifact)
      → env.updated_at id ≡ some now
      → mark_pruned env config now id (row_after env pruned a)
        ≡ row_after env (pruned ++ (id ∷ [])) a
  mark-row_after pruned id now a time =
      let both = includes-append pruned (id ∷ []) a.id in
      let same = eq_iff id a.id in
      elim (Bool-cases (includes pruned a.id)) [
        | inl e ↦ elim (Bool-cases (id == a.id)) [
          | inl f ↦
              rw (e, f, both, e) (let at = ap env.updated_at (same.0 f) in ground (arith, at, time))
          | inr f ↦ rw (e, f, both, e) refl
        ]
        | inr e ↦ elim (Bool-cases (id == a.id)) [
          | inl f ↦
              rw (e, f, both, e, f)
                (let at = ap env.updated_at (same.0 f) in ground (arith, at, time))
          | inr f ↦ rw (e, f, both, e, f) refl
        ]
      ]

  -- The rows so far, and each pruned id's time.
  record Written (rows : List BackupArtifact) (p : Pass) : Type 0 where
    written : p.artifacts ≡ map (row_after env p.pruned) rows
    timed : all (λ id. is_some (env.updated_at id)) p.pruned ≡ true

  Turn-Written :
      (c : BackupArtifact) (rows : List BackupArtifact) (p q : Pass)
      → Turn env config destinations active_job_ids c p q
      → Written rows p
      → Written rows q
  Turn-Written c rows p q (inl e) h = rw e (record { written = h.written; timed = h.timed })
  Turn-Written c rows p q (inr (inl (files, x, e))) h =
      rw e (record { written = h.written; timed = h.timed })
  Turn-Written c rows p q (inr (inr (inl (files, e)))) h =
      rw e (record { written = h.written; timed = h.timed })
  Turn-Written c rows p q (inr (inr (inr (files, now, e, time, job, others)))) h = rw e (record {
    written =
        ap (map (mark_pruned env config now c.id)) h.written
        ∙ map-map (mark_pruned env config now c.id) (row_after env p.pruned)
            (row_after env (p.pruned ++ (c.id ∷ []))) rows
            (λ a. mark-row_after p.pruned c.id now a time);
    timed =
        all-append (λ id. is_some (env.updated_at id)) p.pruned (c.id ∷ []) h.timed (rw time refl);
  })

  prune_each-Written :
      (cs rows : List BackupArtifact) (p : Pass)
      → Written rows p
      → Written rows (prune_each env config destinations active_job_ids cs p)
  unfolding prune_each
  prune_each-Written [] rows p h = h
  prune_each-Written (c ∷ cs) rows p h =
      let q = prune_candidate env config destinations active_job_ids c p in
      let one =
        Turn-Written c rows p q (prune_candidate-Turn env config destinations active_job_ids c p)
          h in
      elim (Bool-cases q.is_rejected) [
        | inl e ↦ simp e one
        | inr e ↦ simp e (prune_each-Written cs rows q one)
      ]

  untouched-Written :
      (artifacts : List BackupArtifact) (files : List String)
      → Written artifacts (untouched env config artifacts files)
  untouched-Written artifacts files = record {
    written = sym (map-same (row_after env []) artifacts (λ a. refl));
    timed = refl;
  }

  -- After a pass, also one that ends because the database rejects an update, the rows are those before
  -- it, of which the pruned artifacts' are no longer kept and bear the time of the artifact's own
  -- update, which the database accepted, and no other has changed.
  pub rows_after_pass :
      (artifacts : List BackupArtifact) (files : List String)
      → let pass = final_pass env config destinations active_job_ids artifacts files in
        (pass.artifacts ≡ map (row_after env pass.pruned) artifacts)
        × (all (λ id. is_some (env.updated_at id)) pass.pruned ≡ true)
  unfolding prune_pass
  rows_after_pass artifacts files =
      elim (execute-cases env config destinations active_job_ids artifacts files) [
        | inl e ↦ let w = untouched-Written artifacts files in rw e (w.written, w.timed)
        | inr (e, late) ↦
            let w =
              prune_each-Written (candidates env config destinations active_job_ids artifacts)
                artifacts (untouched env config artifacts files)
                (untouched-Written artifacts files) in
            rw e (w.written, w.timed)
      ]
