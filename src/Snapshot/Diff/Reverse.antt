-- ===== src/Snapshot/Diff/Reverse.antt =====
-- The order of the changes, and the diff in the opposite direction.
use mathlib.Core.Logic.{ite, if_pos, if_neg}
use rewind_git_for_ai_agent.Prelude.{List, [], ◌∷◌, map, ◌≡◌, sym, ap, All, All-imp}
use rewind_git_for_ai_agent.Bytes.{Bytes, Lt}
use rewind_git_for_ai_agent.Bytes.Compare.{Lt_trans, less, equal, greater, Compared-cases}
use rewind_git_for_ai_agent.Bytes.Sorting.{IsSorted}
use rewind_git_for_ai_agent.Domain.Manifest.{SnapshotEntry, Snapshot, path_text}
use rewind_git_for_ai_agent.Snapshot.Diff.{
  EntryChange, added, removed, modified, path, reverse_change, reversed, entry_eq, merge,
  diff_snapshots,
}
use rewind_git_for_ai_agent.Snapshot.Diff.Exact.{
  merge_less, merge_greater, merge_equal, merge_left, merge_right, merge_nil,
}

-- The text by which changes are ordered.
abbrev pub change_text : EntryChange → Bytes
change_text c = (path c).as_str

All-ite :
    (P : EntryChange → Type 0) (b a : SnapshotEntry) (cs : List EntryChange)
    → P (modified b a)
    → All P cs
    → All P (ite (entry_eq b a) cs (modified b a ∷ cs))
All-ite P b a cs h hs = elim (entry_eq b a) [
  | yes same ↦ rw (if_pos _ same) hs
  | no other ↦ rw (if_neg _ other) (h, hs)
]

-- Nothing that the merge pushes lies at or before a path below both trees.
pub All-merge :
    (k : Bytes) (l r : List SnapshotEntry)
    → All (λ e. Lt k (path_text e)) l
    → All (λ e. Lt k (path_text e)) r
    → All (λ c. Lt k (change_text c)) (merge l r)
All-merge k [] [] hl hr = rw merge_nil tt
All-merge k (b ∷ l) [] hl hr = rw merge_left (hl.0, All-merge k l [] hl.1 tt)
All-merge k [] (a ∷ r) hl hr = rw merge_right (hr.0, All-merge k [] r tt hr.1)
All-merge k (b ∷ l) (a ∷ r) hl hr = elim (Compared-cases (path_text b) (path_text a)) [
  | less h ↦ rw (merge_less b a l r h) (hl.0, All-merge k l (a ∷ r) hl.1 hr)
  | equal h ↦
      rw (merge_equal b a l r h)
        (All-ite (λ c. Lt k (change_text c)) b a (merge l r) hl.0 (All-merge k l r hl.1 hr.1))
  | greater h ↦ rw (merge_greater b a l r h) (hr.0, All-merge k (b ∷ l) r hl hr.1)
]

pub below_other :
    (b a : SnapshotEntry) (r : List SnapshotEntry)
    → Lt (path_text b) (path_text a)
    → All (λ e. Lt (path_text a) (path_text e)) r
    → All (λ e. Lt (path_text b) (path_text e)) (a ∷ r)
below_other b a r h above =
    (h, All-imp (λ e k. Lt_trans (path_text b) (path_text a) (path_text e) h k) r above)

IsSorted-ite :
    (b a : SnapshotEntry) (cs : List EntryChange)
    → All (λ c. Lt (path_text b) (change_text c)) cs
    → IsSorted change_text cs
    → IsSorted change_text (ite (entry_eq b a) cs (modified b a ∷ cs))
IsSorted-ite b a cs above s = elim (entry_eq b a) [
  | yes same ↦ rw (if_pos _ same) s
  | no other ↦ rw (if_neg _ other) (above, s)
]

merge-IsSorted :
    (l r : List SnapshotEntry)
    → IsSorted path_text l
    → IsSorted path_text r
    → IsSorted change_text (merge l r)
merge-IsSorted [] [] hl hr = rw merge_nil tt
merge-IsSorted (b ∷ l) [] hl hr =
    rw merge_left (All-merge (path_text b) l [] hl.0 tt, merge-IsSorted l [] hl.1 tt)
merge-IsSorted [] (a ∷ r) hl hr =
    rw merge_right (All-merge (path_text a) [] r tt hr.0, merge-IsSorted [] r tt hr.1)
merge-IsSorted (b ∷ l) (a ∷ r) hl hr = elim (Compared-cases (path_text b) (path_text a)) [
  | less h ↦ rw (merge_less b a l r h) (
    All-merge (path_text b) l (a ∷ r) hl.0 (below_other b a r h hr.0),
    merge-IsSorted l (a ∷ r) hl.1 hr,
  )
  | equal h ↦ rw (merge_equal b a l r h) (
      IsSorted-ite b a (merge l r) (All-merge (path_text b) l r hl.0 (rw h hr.0))
        (merge-IsSorted l r hl.1 hr.1))
  | greater h ↦ rw (merge_greater b a l r h) (
    All-merge (path_text a) (b ∷ l) r (below_other a b l h hl.0) hr.0,
    merge-IsSorted (b ∷ l) r hl hr.1,
  )
]

-- The changes between two snapshots in path order are in strictly increasing path order: each path
-- changes once.
pub diff_snapshots-IsSorted :
    (before after : Snapshot)
    → IsSorted path_text before.manifest.entries
    → IsSorted path_text after.manifest.entries
    → IsSorted change_text (diff_snapshots before after).changes
unfolding diff_snapshots
diff_snapshots-IsSorted before after hb ha =
    merge-IsSorted before.manifest.entries after.manifest.entries hb ha

map-reverse-ite :
    (b a : SnapshotEntry) (cs ds : List EntryChange)
    → ds ≡ map reverse_change cs
    → ite (entry_eq a b) ds (modified a b ∷ ds)
      ≡ map reverse_change (ite (entry_eq b a) cs (modified b a ∷ cs))
unfolding reverse_change
map-reverse-ite b a cs ds h = elim (entry_eq b a) [
  | yes same ↦ rw (if_pos _ same, if_pos _ (sym same)) h
  | no other ↦
      rw (if_neg _ other, if_neg _ (λ same. other (sym same))) (ap (λ es. modified a b ∷ es) h)
]

merge-reverse : (l r : List SnapshotEntry) → merge r l ≡ map reverse_change (merge l r)
unfolding reverse_change
merge-reverse [] [] = rw merge_nil
merge-reverse (b ∷ l) [] =
    rw (merge_left, merge_right) (ap (λ es. added b ∷ es) (merge-reverse l []))
merge-reverse [] (a ∷ r) =
    rw (merge_left, merge_right) (ap (λ es. removed a ∷ es) (merge-reverse [] r))
merge-reverse (b ∷ l) (a ∷ r) = elim (Compared-cases (path_text b) (path_text a)) [
  | less h ↦
      rw (merge_less b a l r h, merge_greater a b r l h)
        (ap (λ es. added b ∷ es) (merge-reverse l (a ∷ r)))
  | equal h ↦
      rw (merge_equal b a l r h, merge_equal a b r l (sym h))
        (map-reverse-ite b a (merge l r) (merge r l) (merge-reverse l r))
  | greater h ↦
      rw (merge_greater b a l r h, merge_less a b r l h)
        (ap (λ es. removed a ∷ es) (merge-reverse (b ∷ l) r))
]

-- The diff of two snapshots in the opposite direction is the reversed diff.
pub diff_snapshots-reversed :
    (before after : Snapshot) → diff_snapshots after before ≡ reversed (diff_snapshots before after)
unfolding diff_snapshots reversed
diff_snapshots-reversed before after =
    rw (merge-reverse before.manifest.entries after.manifest.entries)
