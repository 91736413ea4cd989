-- ===== src/Snapshot/Diff/Exact.antt =====
-- The changes of `diff_snapshots` of crates/rewind-snapshot/src/diff.rs, path by path.
use mathlib.Core.Logic.{ite}
use rewind_git_for_ai_agent.Prelude.{
  List, [], ◌∷◌, ◌≡◌, refl, ap, subst, true, Option, none, some, All, All-imp, arith, if◌then◌else◌,
}
use rewind_git_for_ai_agent.Bytes.{Bytes, Lt, bytes_eq}
use rewind_git_for_ai_agent.Bytes.Compare.{
  bytes_eq_iff, eq-cmp, cmp-lt_iff-gt, Lt_trans, Lt-ne, less, equal, greater, Compared-cases,
}
use rewind_git_for_ai_agent.Bytes.Sorting.{IsSorted}
use rewind_git_for_ai_agent.Domain.Manifest.{SnapshotEntry, Snapshot, path_text}
use rewind_git_for_ai_agent.Snapshot.Diff.{
  EntryChange, added, removed, modified, path, entry_eq, merge, diff_snapshots,
}

-- The entry at a path.
unfoldable pub lookup : Bytes → List SnapshotEntry → Option SnapshotEntry
lookup t [] = none
lookup t (e ∷ es) = if bytes_eq (path_text e) t then some e else lookup t es

-- All changes at a path.
unfoldable pub changes_at : Bytes → List EntryChange → List EntryChange
changes_at t [] = []
changes_at t (c ∷ cs) =
    let rest = changes_at t cs in if bytes_eq (path c).as_str t then c ∷ rest else rest

-- The changes that lead from what one tree has at a path to what the other has there: one or none.
unfoldable pub difference : Option SnapshotEntry → Option SnapshotEntry → List EntryChange
difference none none = []
difference none (some after) = added after ∷ []
difference (some before) none = removed before ∷ []
difference (some before) (some after) = ite (entry_eq before after) [] (modified before after ∷ [])

pub merge_left :
    (b : SnapshotEntry) (l : List SnapshotEntry) → merge (b ∷ l) [] ≡ removed b ∷ merge l []
unfolding merge
merge_left b l = refl

pub merge_right :
    (a : SnapshotEntry) (r : List SnapshotEntry) → merge [] (a ∷ r) ≡ added a ∷ merge [] r
unfolding merge
merge_right a r = refl

pub merge_nil : merge [] [] ≡ []
unfolding merge
merge_nil = refl

module _ (b a : SnapshotEntry) (l r : List SnapshotEntry) where
  pub merge_less :
      Lt (path_text b) (path_text a) → merge (b ∷ l) (a ∷ r) ≡ removed b ∷ merge l (a ∷ r)
  unfolding merge
  merge_less h = ground arith

  pub merge_greater :
      Lt (path_text a) (path_text b) → merge (b ∷ l) (a ∷ r) ≡ added a ∷ merge (b ∷ l) r
  unfolding merge
  merge_greater h = ground (arith, cmp-lt_iff-gt (path_text a) (path_text b))

  pub merge_equal :
      path_text b ≡ path_text a
      → merge (b ∷ l) (a ∷ r) ≡ ite (entry_eq b a) (merge l r) (modified b a ∷ merge l r)
  unfolding merge
  merge_equal h = let e = eq-cmp h in rw (e, merge)

lookup_below :
    (t : Bytes) (es : List SnapshotEntry) → All (λ e. Lt t (path_text e)) es → lookup t es ≡ none
unfolding lookup
lookup_below t [] h = refl
lookup_below t (e ∷ es) h =
    ground (arith, bytes_eq_iff (path_text e) t, Lt-ne t (path_text e) h.0, lookup_below t es h.1)

lookup_nil : (t : Bytes) → lookup t [] ≡ none
unfolding lookup
lookup_nil t = refl

-- A tree has a path once.
absent_later :
    (t : Bytes) (e : SnapshotEntry) (es : List SnapshotEntry)
    → All (λ y. Lt (path_text e) (path_text y)) es
    → bytes_eq (path_text e) t ≡ true
    → lookup t es ≡ none
absent_later t e es above h =
    subst (λ k. lookup k es ≡ none) ((bytes_eq_iff (path_text e) t).0 h)
      (lookup_below (path_text e) es above)

module _ (t : Bytes) where
  left_only :
      (left : List SnapshotEntry)
      → IsSorted path_text left
      → changes_at t (merge left []) ≡ difference (lookup t left) none
  unfolding changes_at difference lookup merge
  left_only [] h = refl
  left_only (e ∷ es) h = ground (arith, left_only es h.1, absent_later t e es h.0)

  right_only :
      (right : List SnapshotEntry)
      → IsSorted path_text right
      → changes_at t (merge [] right) ≡ difference none (lookup t right)
  unfolding changes_at difference lookup merge
  right_only [] h = refl
  right_only (e ∷ es) h = ground (arith, right_only es h.1, absent_later t e es h.0)

-- What one tree has first, and the other only further on, it does not have at that path.
absent :
    (t : Bytes) (b a : SnapshotEntry) (r : List SnapshotEntry)
    → Lt (path_text b) (path_text a)
    → All (λ e. Lt (path_text a) (path_text e)) r
    → bytes_eq (path_text b) t ≡ true
    → lookup t (a ∷ r) ≡ none
absent t b a r h above e =
    subst (λ k. lookup k (a ∷ r) ≡ none) ((bytes_eq_iff (path_text b) t).0 e)
      (lookup_below (path_text b) (a ∷ r)
        (h, All-imp (λ e k. Lt_trans (path_text b) (path_text a) (path_text e) h k) r above))

module _ (t : Bytes) (b a : SnapshotEntry) (l r : List SnapshotEntry) where
  removed_step :
      Lt (path_text b) (path_text a)
      → All (λ e. Lt (path_text b) (path_text e)) l
      → All (λ e. Lt (path_text a) (path_text e)) r
      → changes_at t (merge l (a ∷ r)) ≡ difference (lookup t l) (lookup t (a ∷ r))
      → changes_at t (removed b ∷ merge l (a ∷ r))
        ≡ difference (lookup t (b ∷ l)) (lookup t (a ∷ r))
  unfolding changes_at difference lookup
  removed_step h hl hr ih = ground (arith, absent t b a r h hr, absent_later t b l hl)

  added_step :
      Lt (path_text a) (path_text b)
      → All (λ e. Lt (path_text b) (path_text e)) l
      → All (λ e. Lt (path_text a) (path_text e)) r
      → changes_at t (merge (b ∷ l) r) ≡ difference (lookup t (b ∷ l)) (lookup t r)
      → changes_at t (added a ∷ merge (b ∷ l) r) ≡ difference (lookup t (b ∷ l)) (lookup t (a ∷ r))
  unfolding changes_at difference lookup
  added_step h hl hr ih = ground (arith, absent t a b l h hl, absent_later t a r hr)

  modified_step :
      path_text b ≡ path_text a
      → All (λ e. Lt (path_text b) (path_text e)) l
      → All (λ e. Lt (path_text a) (path_text e)) r
      → changes_at t (merge l r) ≡ difference (lookup t l) (lookup t r)
      → changes_at t (ite (entry_eq b a) (merge l r) (modified b a ∷ merge l r))
        ≡ difference (lookup t (b ∷ l)) (lookup t (a ∷ r))
  unfolding changes_at difference lookup
  modified_step h hl hr ih = elim (entry_eq b a) [
    | yes same ↦
        ground (arith, absent_later t b l hl, absent_later t a r hr, ap (λ k. bytes_eq k t) h, same)
    | no other ↦
        ground
          (arith, absent_later t b l hl, absent_later t a r hr, ap (λ k. bytes_eq k t) h, other)
  ]

merge_exact :
    (t : Bytes) (left right : List SnapshotEntry)
    → IsSorted path_text left
    → IsSorted path_text right
    → changes_at t (merge left right) ≡ difference (lookup t left) (lookup t right)
merge_exact t [] right hl hr = rw (lookup_nil t) (right_only t right hr)
merge_exact t (b ∷ l) [] hl hr = rw (lookup_nil t) (left_only t (b ∷ l) hl)
merge_exact t (b ∷ l) (a ∷ r) hl hr = elim (Compared-cases (path_text b) (path_text a)) [
  | less h ↦
      rw (merge_less b a l r h)
        (removed_step t b a l r h hl.0 hr.0 (merge_exact t l (a ∷ r) hl.1 hr))
  | equal h ↦
      rw (merge_equal b a l r h) (modified_step t b a l r h hl.0 hr.0 (merge_exact t l r hl.1 hr.1))
  | greater h ↦
      rw (merge_greater b a l r h)
        (added_step t b a l r h hl.0 hr.0 (merge_exact t (b ∷ l) r hl hr.1))
]

-- For every path, the changes that the diff of two snapshots in path order has there are exactly these:
-- one addition if only the later one has an entry, one removal if only the earlier one has, one
-- modification from the one entry to the other if both have and they differ, and else none.
pub diff_snapshots_exact :
    (before after : Snapshot) (t : Bytes)
    → IsSorted path_text before.manifest.entries
    → IsSorted path_text after.manifest.entries
    → changes_at t (diff_snapshots before after).changes
      ≡ difference (lookup t before.manifest.entries) (lookup t after.manifest.entries)
unfolding diff_snapshots
diff_snapshots_exact before after t hb ha =
    merge_exact t before.manifest.entries after.manifest.entries hb ha
