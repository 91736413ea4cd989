-- ===== src/Domain/Manifest.antt =====
-- crates/rewind-domain/src/snapshot.rs: entries, manifests and snapshots. A manifest is made by `new`
-- from entries in any order, or by `from_canonical_entries` (also on deserialization) from entries
-- that must already be in order.
pub mod Canonical
use mathlib.Core.Bool.{xor}
use rewind_git_for_ai_agent.Prelude.{
  ℕ, zero, suc, ◌+◌, Ordering, List, [], ◌∷◌, length, Bool, not, Option, none, some, ltb, ◌==◌,
  if◌then◌else◌, Result, ok, err, ◌>>=◌, ◌>>◌, fail_if, map_err,
}
use rewind_git_for_ai_agent.Bytes.{Bytes, cmp, bytes_eq}
use rewind_git_for_ai_agent.Bytes.Sorting.{sort_by}
use rewind_git_for_ai_agent.Bytes.Separator.{contains}
use rewind_git_for_ai_agent.Domain.Path.{SnapshotPath, max_snapshot_path_bytes}
use rewind_git_for_ai_agent.Domain.Permissions.{UnixPermissions, is_executable}
use rewind_git_for_ai_agent.Domain.Digest.{ObjectId, SnapshotId}

pub data SnapshotEntryKind : Type 0 where
  directory : SnapshotEntryKind
  file : (object_id : ObjectId) (size : ℕ) (executable : Bool) → SnapshotEntryKind
  symlink : (target : Bytes) → SnapshotEntryKind

pub record SnapshotEntry : Type 0 where
  pub path : SnapshotPath
  pub kind : SnapshotEntryKind
  pub permissions : UnixPermissions

pub data SnapshotEntryError : Type 0 where
  executable_bit_mismatch empty_symlink_target nul_symlink_target symlink_target_too_long :
      SnapshotEntryError

abbrev pub snapshot_schema_version : ℕ
snapshot_schema_version = 1

validate_kind : SnapshotEntryKind → UnixPermissions → Result (Unit {0}) SnapshotEntryError
validate_kind directory permissions = ok tt
validate_kind (file object_id size executable) permissions =
    fail_if (xor executable (is_executable permissions)) executable_bit_mismatch
validate_kind (symlink target) permissions = do
  fail_if (bytes_eq target []) empty_symlink_target
  fail_if (contains 0 target) nul_symlink_target
  fail_if (ltb max_snapshot_path_bytes (length target)) symlink_target_too_long

-- `SnapshotEntry::validate`
unfoldable pub validate : SnapshotEntry → Result (Unit {0}) SnapshotEntryError
unfolding validate_kind xor
validate entry = validate_kind entry.kind entry.permissions

-- The fields are private in the source: every manifest comes from `from_canonical_entries`.
pub record SnapshotManifest : Type 0 where
  pub schema_version : ℕ
  pub entries : List SnapshotEntry

pub record Snapshot : Type 0 where
  pub id : SnapshotId
  pub manifest : SnapshotManifest

pub data SnapshotManifestError : Type 0 where
  unsupported_schema_version : (found supported : ℕ) → SnapshotManifestError
  invalid_entry : (path : SnapshotPath) (source : SnapshotEntryError) → SnapshotManifestError
  duplicate_path : (path : SnapshotPath) → SnapshotManifestError
  non_canonical_order : (index : ℕ) → SnapshotManifestError

-- The text by which entries are ordered.
abbrev pub path_text : SnapshotEntry → Bytes
path_text entry = entry.path.as_str

-- The comparison with `entries.get(index - 1)`, which is not there for the first entry.
unfoldable pub check_order :
    ℕ → Option SnapshotEntry → SnapshotEntry → Result (Unit {0}) SnapshotManifestError
check_order index none entry = ok tt
check_order index (some previous) entry = elim (cmp (path_text previous) (path_text entry)) [
  | Ordering.eq ↦ err (duplicate_path entry.path)
  | Ordering.gt ↦ err (non_canonical_order index)
  | Ordering.lt ↦ ok tt
]

unfoldable pub check_entries :
    ℕ → Option SnapshotEntry → List SnapshotEntry → Result (Unit {0}) SnapshotManifestError
check_entries index previous [] = ok tt
check_entries index previous (entry ∷ entries) = do
  map_err (invalid_entry entry.path) (validate entry)
  check_order index previous entry
  check_entries (index + 1) (some entry) entries

unfoldable pub from_canonical_entries :
    ℕ → List SnapshotEntry → Result SnapshotManifest SnapshotManifestError
from_canonical_entries schema_version entries = do
  fail_if (not (schema_version == snapshot_schema_version))
      (unsupported_schema_version schema_version snapshot_schema_version)
  check_entries 0 none entries
  ok (record { schema_version = schema_version; entries = entries })

-- `SnapshotManifest::new`
unfoldable pub new : List SnapshotEntry → Result SnapshotManifest SnapshotManifestError
new entries = from_canonical_entries snapshot_schema_version (sort_by path_text entries)
