-- ===== src/Retention/Left.antt =====
-- packages/core/src/backup/retention-service.ts: how many verified artifacts a pass leaves.
use zima_control.Common.{
  ℕ, String, Bool, true, not, ◌&&◌, List, [], ◌∷◌, ◌==◌, string_eq, length, select, map, includes,
}
use zima_control.Retention.{BackupArtifact, is_counted}

-- No two rows have the same id.
abbrev pub has_distinct_ids : List BackupArtifact → Bool
has_distinct_ids [] = true
has_distinct_ids (a ∷ rows) = not (includes (map (λ b. b.id) rows) a.id) && has_distinct_ids rows

abbrev counted : List BackupArtifact → ℕ
counted rows = length (select is_counted rows)

abbrev hits : List String → List BackupArtifact → ℕ
hits pruned rows = length (select (λ a. includes pruned a.id) rows)

abbrev without : String → List String → List String
without id pruned = select (λ x. not (x == id)) pruned
