-- ===== src/Domain/Manifest/Canonical.antt =====
-- About `SnapshotManifest::new` and `from_canonical_entries` of crates/rewind-domain/src/snapshot.rs.
use mathlib.Core.Bool.{xor}
use mathlib.Core.List.{Permᴰ}
use mathlib.Core.List.Permᴰ
use rewind_git_for_ai_agent.Prelude.{
  ℕ, ◌+◌, ◌≤◌, List, [], ◌∷◌, length, ◌≡◌, ◌≢◌, refl, ◌↔◌, Option, none, some, Bool, true, false,
  All, arith, ok,
}
use rewind_git_for_ai_agent.Bytes.{Lt}
use rewind_git_for_ai_agent.Bytes.Compare.{bytes_eq_iff}
use rewind_git_for_ai_agent.Bytes.Separator.{contains}
use rewind_git_for_ai_agent.Bytes.Sorting.{
  sort_by, IsSorted, HasDistinctKeys, LtFirst, IsAdjacent, IsAdjacent-IsSorted, IsSorted-IsAdjacent,
  sort_by-IsSorted, sort_by_unique, All-perm, sort_by-perm, HasDistinctKeys-perm,
  IsSorted-HasDistinctKeys,
}
use rewind_git_for_ai_agent.Domain.Path.{SnapshotPath, max_snapshot_path_bytes}
use rewind_git_for_ai_agent.Domain.Permissions.{UnixPermissions, is_executable}
use rewind_git_for_ai_agent.Domain.Manifest.{
  SnapshotEntryKind, directory, file, symlink, SnapshotEntry, SnapshotManifest, path_text, validate,
  check_order, check_entries, from_canonical_entries, new, snapshot_schema_version,
}

-- The entry's own rules: the executable flag agrees with the mode, and a link has a usable target.
abbrev pub IsKindValid : SnapshotEntryKind → UnixPermissions → Type 0
IsKindValid directory permissions = Unit {0}
IsKindValid (file object_id size executable) permissions = executable ≡ is_executable permissions
IsKindValid (symlink target) permissions =
    (target ≢ []) × (contains 0 target ≡ false) × (length target ≤ max_snapshot_path_bytes)

abbrev pub IsValid : SnapshotEntry → Type 0
IsValid entry = IsKindValid entry.kind entry.permissions

xor-false_iff : (a b : Bool) → (xor a b ≡ false) ↔ (a ≡ b)
unfolding xor
xor-false_iff true true = (λ h. refl, λ h. refl)
xor-false_iff true false = (λ h. cc h, λ h. cc h)
xor-false_iff false true = (λ h. cc h, λ h. cc h)
xor-false_iff false false = (λ h. refl, λ h. refl)

validate_iff_kind :
    (path : SnapshotPath) (kind : SnapshotEntryKind) (permissions : UnixPermissions)
    → (validate (record { path = path; kind = kind; permissions = permissions }) ≡ ok tt)
      ↔ IsKindValid kind permissions
unfolding validate
validate_iff_kind path directory permissions = (λ h. tt, λ h. refl)
validate_iff_kind path (file object_id size executable) permissions =
    ground (arith, xor-false_iff executable (is_executable permissions))
validate_iff_kind path (symlink target) permissions = ground (arith, bytes_eq_iff target [])

validate_entry_iff : (entry : SnapshotEntry) → (validate entry ≡ ok tt) ↔ IsValid entry
validate_entry_iff entry = validate_iff_kind entry.path entry.kind entry.permissions

abbrev Follows : Option SnapshotEntry → List SnapshotEntry → Type 0
Follows none entries = Unit {0}
Follows (some previous) entries = LtFirst path_text (path_text previous) entries

check_order_iff :
    (index : ℕ) (previous entry : SnapshotEntry)
    → (check_order index (some previous) entry ≡ ok tt) ↔ Lt (path_text previous) (path_text entry)
unfolding check_order
check_order_iff index previous entry = ground arith

check_entries-cons :
    (index : ℕ) (previous : Option SnapshotEntry) (entry : SnapshotEntry)
    (entries : List SnapshotEntry)
    → (check_entries index previous (entry ∷ entries) ≡ ok tt) ↔ (
        IsValid entry
        × (check_order index previous entry ≡ ok tt)
        × (check_entries (index + 1) (some entry) entries ≡ ok tt))
unfolding check_entries
check_entries-cons index previous entry entries = ground (arith, validate_entry_iff entry)

check_entries_sound :
    (index : ℕ) (previous : Option SnapshotEntry) (entries : List SnapshotEntry)
    → check_entries index previous entries ≡ ok tt
    → All IsValid entries × Follows previous entries × IsAdjacent path_text entries
check_entries_sound index none [] h = (tt, tt, tt)
check_entries_sound index (some p) [] h = (tt, tt, tt)
check_entries_sound index none (e ∷ es) h =
    let (v, o, rest) = (check_entries-cons index none e es).0 h in
    let (vs, f, a) = check_entries_sound (index + 1) (some e) es rest in ((v, vs), tt, (f, a))
check_entries_sound index (some p) (e ∷ es) h =
    let (v, o, rest) = (check_entries-cons index (some p) e es).0 h in
    let (vs, f, a) = check_entries_sound (index + 1) (some e) es rest in
    ((v, vs), (check_order_iff index p e).0 o, (f, a))

check_entries_complete :
    (index : ℕ) (previous : Option SnapshotEntry) (entries : List SnapshotEntry)
    → All IsValid entries
    → Follows previous entries
    → IsAdjacent path_text entries
    → check_entries index previous entries ≡ ok tt
check_entries_complete index none [] v f a = unfold check_entries in refl
check_entries_complete index (some p) [] v f a = unfold check_entries in refl
check_entries_complete index none (e ∷ es) v f a =
    (check_entries-cons index none e es).1
      (v.0, unfold check_order in refl, check_entries_complete (index + 1) (some e) es v.1 a.0 a.1)
check_entries_complete index (some p) (e ∷ es) v f a = (check_entries-cons index (some p) e es).1 (
  v.0,
  (check_order_iff index p e).1 f,
  check_entries_complete (index + 1) (some e) es v.1 a.0 a.1,
)

from_canonical_entries-eq-ok :
    (version : ℕ) (entries : List SnapshotEntry) (m : SnapshotManifest)
    → (from_canonical_entries version entries ≡ ok m) ↔ (
        (version ≡ snapshot_schema_version)
        × (check_entries 0 none entries ≡ ok tt)
        × (m ≡ record { schema_version = version; entries = entries }))
unfolding from_canonical_entries
from_canonical_entries-eq-ok version entries m = ground arith

-- `from_canonical_entries` accepts exactly the current version with valid entries in strictly
-- increasing path order, and keeps the entries as they are.
pub from_canonical_entries_iff :
    (version : ℕ) (entries : List SnapshotEntry) (m : SnapshotManifest)
    → (from_canonical_entries version entries ≡ ok m) ↔ (
        (version ≡ snapshot_schema_version)
        × All IsValid entries
        × IsSorted path_text entries
        × (m ≡ record { schema_version = version; entries = entries }))
from_canonical_entries_iff version entries m = (
  λ h.
      let (v, c, e) = (from_canonical_entries-eq-ok version entries m).0 h in
      let (valid, _, a) = check_entries_sound 0 none entries c in
      (v, valid, IsAdjacent-IsSorted path_text entries a, e),
  λ h. (from_canonical_entries-eq-ok version entries m).1 (
    h.0,
    check_entries_complete 0 none entries h.1 tt (IsSorted-IsAdjacent path_text entries h.2),
    h.3,
  ),
)

-- `new` accepts exactly the lists of valid entries with distinct paths, in any order, and returns
-- them sorted by path under the current version.
pub new_iff :
    (entries : List SnapshotEntry) (m : SnapshotManifest)
    → (new entries ≡ ok m) ↔ (
        All IsValid entries
        × HasDistinctKeys path_text entries
        × (m ≡ record {
          schema_version = snapshot_schema_version;
          entries = sort_by path_text entries;
        }))
unfolding new
new_iff entries m = (
  λ h.
      let (_, v, s, e) = (from_canonical_entries_iff snapshot_schema_version sorted m).0 h in
      (
        All-perm path_text IsValid (Permᴰ.symm kept) v,
        HasDistinctKeys-perm path_text (Permᴰ.symm kept)
            (IsSorted-HasDistinctKeys path_text sorted s),
        e,
      ),
  λ h.
      (from_canonical_entries_iff snapshot_schema_version sorted m).1
        (refl, All-perm path_text IsValid kept h.0, sort_by-IsSorted path_text entries h.1, h.2),
)
  where
    sorted : List SnapshotEntry
    sorted = sort_by path_text entries

    kept : Permᴰ entries sorted
    kept = sort_by-perm path_text entries

-- The manifest of a set of entries does not depend on the order in which they are given.
pub new_unique :
    {xs ys : List SnapshotEntry} (m : SnapshotManifest)
    → Permᴰ xs ys
    → new xs ≡ ok m
    → new ys ≡ ok m
unfolding new
new_unique {xs} m p h = rw (← sort_by_unique path_text p ((new_iff xs m).0 h).1) h
