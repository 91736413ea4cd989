-- ===== src/Snapshot/Diff.antt =====
-- crates/rewind-snapshot/src/diff.rs: the comparison of two snapshots by a merge of their entries.
pub mod Exact
pub mod Reverse
pub mod Patch
use mathlib.Core.Logic.{ite}
use native.Mathlib.Decide.{ℕ_discrete}
use rewind_git_for_ai_agent.Prelude.{Ordering, List, [], ◌∷◌, map}
use rewind_git_for_ai_agent.Bytes.{cmp}
use rewind_git_for_ai_agent.Domain.Path.{SnapshotPath}
use rewind_git_for_ai_agent.Domain.Digest.{SnapshotId}
use rewind_git_for_ai_agent.Domain.Manifest.{SnapshotEntry, Snapshot, path_text}

pub data EntryChange : Type 0 where
  added : (entry : SnapshotEntry) → EntryChange
  removed : (entry : SnapshotEntry) → EntryChange
  modified : (before after : SnapshotEntry) → EntryChange

-- `EntryChange::path`
abbrev pub path : EntryChange → SnapshotPath
path (added entry) = entry.path
path (removed entry) = entry.path
path (modified before after) = before.path

-- `EntryChange::reverse`
unfoldable pub reverse_change : EntryChange → EntryChange
reverse_change (added entry) = removed entry
reverse_change (removed entry) = added entry
reverse_change (modified before after) = modified after before

pub record SnapshotDiff : Type 0 where
  pub from : SnapshotId
  pub to : SnapshotId
  pub changes : List EntryChange

unfoldable pub reversed : SnapshotDiff → SnapshotDiff
reversed d = record { from = d.to; to = d.from; changes = map reverse_change d.changes }

-- The derived `PartialEq` of entries.
unfoldable pub entry_eq : Discrete SnapshotEntry
unfolding ℕ_discrete
entry_eq = hlevel ℕ_discrete

-- The changes that the loop has still to push when `left[left_index..]` and
-- `right[right_index..]` are left.
unfoldable pub merge : List SnapshotEntry → List SnapshotEntry → List EntryChange
merge [] [] = []
merge (entry ∷ left) [] = removed entry ∷ merge left []
merge [] (entry ∷ right) = added entry ∷ merge [] right
merge (before ∷ left) (after ∷ right) = elim (cmp (path_text before) (path_text after)) [
  | Ordering.lt ↦ removed before ∷ merge left (after ∷ right)
  | Ordering.gt ↦ added after ∷ merge (before ∷ left) right
  | Ordering.eq ↦
      let rest = merge left right in ite (entry_eq before after) rest (modified before after ∷ rest)
]

unfoldable pub diff_snapshots : Snapshot → Snapshot → SnapshotDiff
unfolding merge
diff_snapshots before after = record {
  from = before.id;
  to = after.id;
  changes = merge before.manifest.entries after.manifest.entries;
}
