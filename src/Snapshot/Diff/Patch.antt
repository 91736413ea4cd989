-- ===== src/Snapshot/Diff/Patch.antt =====
-- Carrying out the changes that `diff_snapshots` of crates/rewind-snapshot/src/diff.rs reports.
use mathlib.Core.Logic.{ite, if_pos, if_neg}
use rewind_git_for_ai_agent.Prelude.{
  List, [], ◌∷◌, ◌≡◌, refl, ap, ap₂, ◌∙◌, All, arith, if◌then◌else◌,
}
use rewind_git_for_ai_agent.Bytes.{Bytes, Lt, bytes_eq, bytes_lt}
use rewind_git_for_ai_agent.Bytes.Compare.{
  bytes_eq_iff, bytes_lt_iff, Lt-ne, less, equal, greater, Compared-cases, cmp-lt_iff-gt,
}
use rewind_git_for_ai_agent.Bytes.Sorting.{IsSorted}
use rewind_git_for_ai_agent.Domain.Manifest.{SnapshotEntry, Snapshot, path_text}
use rewind_git_for_ai_agent.Snapshot.Diff.{
  EntryChange, added, removed, modified, entry_eq, merge, diff_snapshots,
}
use rewind_git_for_ai_agent.Snapshot.Diff.Exact.{
  merge_less, merge_greater, merge_equal, merge_left, merge_right, merge_nil,
}
use rewind_git_for_ai_agent.Snapshot.Diff.Reverse.{change_text, All-merge, below_other}

-- A new entry before the first one with a greater path.
place : SnapshotEntry → List SnapshotEntry → List SnapshotEntry
place entry [] = entry ∷ []
place entry (e ∷ es) =
    if bytes_lt (path_text entry) (path_text e) then entry ∷ e ∷ es else e ∷ place entry es

-- The entry at a path is taken out, or another one put in its place.
take_out : Bytes → List SnapshotEntry → List SnapshotEntry
take_out t [] = []
take_out t (e ∷ es) = if bytes_eq (path_text e) t then es else e ∷ take_out t es

replace : Bytes → SnapshotEntry → List SnapshotEntry → List SnapshotEntry
replace t entry [] = []
replace t entry (e ∷ es) = if bytes_eq (path_text e) t then entry ∷ es else e ∷ replace t entry es

unfoldable pub apply_change : EntryChange → List SnapshotEntry → List SnapshotEntry
unfolding place take_out replace
apply_change (added entry) es = place entry es
apply_change (removed entry) es = take_out (path_text entry) es
apply_change (modified before after) es = replace (path_text before) after es

unfoldable pub apply_changes : List EntryChange → List SnapshotEntry → List SnapshotEntry
apply_changes [] es = es
apply_changes (c ∷ cs) es = apply_changes cs (apply_change c es)

-- A change further on leaves the first entry alone.
apply_change_later :
    (c : EntryChange) (e : SnapshotEntry) (es : List SnapshotEntry)
    → Lt (path_text e) (change_text c)
    → apply_change c (e ∷ es) ≡ e ∷ apply_change c es
unfolding apply_change
apply_change_later (added a) e es h =
    ground
      (arith, bytes_lt_iff (path_text a) (path_text e), cmp-lt_iff-gt (path_text e) (path_text a))
apply_change_later (removed a) e es h =
    ground (arith, bytes_eq_iff (path_text e) (path_text a), Lt-ne (path_text e) (path_text a) h)
apply_change_later (modified b a) e es h =
    ground (arith, bytes_eq_iff (path_text e) (path_text b), Lt-ne (path_text e) (path_text b) h)

apply_changes_later :
    (cs : List EntryChange) (e : SnapshotEntry) (es : List SnapshotEntry)
    → All (λ c. Lt (path_text e) (change_text c)) cs
    → apply_changes cs (e ∷ es) ≡ e ∷ apply_changes cs es
unfolding apply_changes
apply_changes_later [] e es h = refl
apply_changes_later (c ∷ cs) e es h =
    ap (apply_changes cs) (apply_change_later c e es h.0)
    ∙ apply_changes_later cs e (apply_change c es) h.1

module _ (cs : List EntryChange) (e : SnapshotEntry) (es : List SnapshotEntry) where
  -- The first change at the first entry, and the rest further on.
  remove_first : apply_changes (removed e ∷ cs) (e ∷ es) ≡ apply_changes cs es
  unfolding apply_changes apply_change
  remove_first = ground (arith, bytes_eq_iff (path_text e) (path_text e))

  add_first :
      (a : SnapshotEntry)
      → Lt (path_text a) (path_text e)
      → apply_changes (added a ∷ cs) (e ∷ es) ≡ apply_changes cs (a ∷ e ∷ es)
  unfolding apply_changes apply_change
  add_first a h = ground (arith, bytes_lt_iff (path_text a) (path_text e))

  modify_first :
      (a : SnapshotEntry) → apply_changes (modified e a ∷ cs) (e ∷ es) ≡ apply_changes cs (a ∷ es)
  unfolding apply_changes apply_change
  modify_first a = ground (arith, bytes_eq_iff (path_text e) (path_text e))

add_last :
    (cs : List EntryChange) (a : SnapshotEntry)
    → apply_changes (added a ∷ cs) [] ≡ apply_changes cs (a ∷ [])
unfolding apply_changes apply_change
add_last cs a = refl

changed_or_same :
    (b a : SnapshotEntry) (cs : List EntryChange) (l r : List SnapshotEntry)
    → path_text b ≡ path_text a
    → All (λ c. Lt (path_text b) (change_text c)) cs
    → apply_changes cs l ≡ r
    → apply_changes (ite (entry_eq b a) cs (modified b a ∷ cs)) (b ∷ l) ≡ a ∷ r
changed_or_same b a cs l r h above ih = elim (entry_eq b a) [
  | yes same ↦ rw (if_pos _ same) (apply_changes_later cs b l above ∙ ap₂ (λ e es. e ∷ es) same ih)
  | no other ↦
      rw (if_neg _ other)
        (modify_first cs b l a ∙ apply_changes_later cs a l (rw (← h) above) ∙ ap (λ es. a ∷ es) ih)
]

apply_changes-merge :
    (l r : List SnapshotEntry)
    → IsSorted path_text l
    → IsSorted path_text r
    → apply_changes (merge l r) l ≡ r
apply_changes-merge [] [] hl hr = rw merge_nil (unfold apply_changes in refl)
apply_changes-merge (b ∷ l) [] hl hr =
    rw merge_left (remove_first (merge l []) b l ∙ apply_changes-merge l [] hl.1 tt)
apply_changes-merge [] (a ∷ r) hl hr = rw merge_right (
    add_last (merge [] r) a
    ∙ apply_changes_later (merge [] r) a [] (All-merge (path_text a) [] r tt hr.0)
    ∙ ap (λ es. a ∷ es) (apply_changes-merge [] r tt hr.1))
apply_changes-merge (b ∷ l) (a ∷ r) hl hr = elim (Compared-cases (path_text b) (path_text a)) [
  | less h ↦
      rw (merge_less b a l r h)
        (remove_first (merge l (a ∷ r)) b l ∙ apply_changes-merge l (a ∷ r) hl.1 hr)
  | equal h ↦ rw (merge_equal b a l r h) (
      changed_or_same b a (merge l r) l r h (All-merge (path_text b) l r hl.0 (rw h hr.0))
        (apply_changes-merge l r hl.1 hr.1))
  | greater h ↦ rw (merge_greater b a l r h) (
      add_first (merge (b ∷ l) r) b l a h
      ∙ apply_changes_later (merge (b ∷ l) r) a (b ∷ l)
          (All-merge (path_text a) (b ∷ l) r (below_other a b l h hl.0) hr.0)
      ∙ ap (λ es. a ∷ es) (apply_changes-merge (b ∷ l) r hl hr.1))
]

-- Carrying out the changes of a diff, in their order, on the entries of the earlier snapshot makes
-- exactly the entries of the later one, where both have their entries in path order.
pub apply_changes-diff_snapshots :
    (before after : Snapshot)
    → IsSorted path_text before.manifest.entries
    → IsSorted path_text after.manifest.entries
    → apply_changes (diff_snapshots before after).changes before.manifest.entries
      ≡ after.manifest.entries
unfolding diff_snapshots
apply_changes-diff_snapshots before after hb ha =
    apply_changes-merge before.manifest.entries after.manifest.entries hb ha
