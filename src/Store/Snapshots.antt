-- ===== src/Store/Snapshots.antt =====
-- crates/rewind-store/src/snapshot.rs: the tables `snapshots` and `snapshot_entries`. The parameter
-- `digest` is `SnapshotId::digest` of the JSON text of a manifest. The identifier of an object stands
-- in a row as its value.
pub mod RoundTrip
pub mod Stored
use mathlib.Core.Logic.{ite}
use native.Mathlib.Decide.{ℕ_discrete}
use rewind_git_for_ai_agent.Prelude.{
  ℕ, zero, suc, ◌+◌, List, [], ◌∷◌, ◌++◌, length, Bool, true, false, not, ◌&&◌, ◌||◌, Option, none,
  some, ltb, leb, ◌==◌, if◌then◌else◌, is_some, Result, ok, err, ◌>>=◌, ◌>>◌, map_err, fail_if,
}
use rewind_git_for_ai_agent.Bytes.{Bytes, bytes_eq}
use rewind_git_for_ai_agent.Bytes.Sorting.{sort_by}
use rewind_git_for_ai_agent.Bytes.Text.{ascii}
use rewind_git_for_ai_agent.Domain.Digest.{ObjectId, SnapshotId}
use rewind_git_for_ai_agent.Domain.Ids.{Timestamp}
use rewind_git_for_ai_agent.Domain.Path.{SnapshotPath, SnapshotPathError, from_str}
use rewind_git_for_ai_agent.Domain.Permissions.{UnixPermissions, InvalidUnixPermissions, new}
use rewind_git_for_ai_agent.Domain.Manifest.{
  SnapshotEntryKind, directory, file, symlink, SnapshotEntry, SnapshotManifest, Snapshot,
  SnapshotManifestError, from_canonical_entries,
}
use rewind_git_for_ai_agent.Store.Tables.{SnapshotRow, EntryRow}
use rewind_git_for_ai_agent.Store.Timeline.{
  Database, Store, StoreError, read_only, not_found, numeric_range, database, invalid_snapshot,
  ObjectRow, i64_limit, u64_limit, sql_u64, object_size,
}

abbrev directory_text : Bytes
directory_text = ascii "directory"

abbrev file_text : Bytes
file_text = ascii "file"

abbrev symlink_text : Bytes
symlink_text = ascii "symlink"

-- `total.checked_add(*size)` for a file, with the error for the overflow.
unfoldable pub add_size : StoreError → ℕ → SnapshotEntryKind → Result ℕ StoreError
add_size problem total (file object_id size executable) =
    if ltb (total + size) u64_limit then ok (total + size) else err problem
add_size problem total kind = ok total

unfoldable pub sum_sizes : ℕ → List SnapshotEntry → Result ℕ StoreError
sum_sizes total [] = ok total
sum_sizes total (entry ∷ entries) =
    add_size numeric_range total entry.kind >>= λ next. sum_sizes next entries

-- The columns of an entry.
unfoldable pub columns : SnapshotId → SnapshotEntry → SnapshotEntryKind → EntryRow
columns id entry directory = record {
  snapshot_id = id;
  path = entry.path.as_str;
  kind = directory_text;
  object_id = none;
  symlink_target = none;
  executable = false;
  unix_mode = entry.permissions.bits;
  logical_size = 0;
}
columns id entry (file object_id size executable) = record {
  snapshot_id = id;
  path = entry.path.as_str;
  kind = file_text;
  object_id = some object_id;
  symlink_target = none;
  executable = executable;
  unix_mode = entry.permissions.bits;
  logical_size = size;
}
columns id entry (symlink target) = record {
  snapshot_id = id;
  path = entry.path.as_str;
  kind = symlink_text;
  object_id = none;
  symlink_target = some target;
  executable = false;
  unix_mode = entry.permissions.bits;
  logical_size = 0;
}

-- `PRIMARY KEY (snapshot_id, path)`
unfoldable pub has_entry : SnapshotId → Bytes → List EntryRow → Bool
has_entry id path [] = false
has_entry id path (row ∷ rows) =
    (bytes_eq row.snapshot_id.bytes id.bytes && bytes_eq row.path path) || has_entry id path rows

-- `object_id TEXT REFERENCES objects(id)`
unfoldable pub has_object : Option ObjectId → List ObjectRow → Bool
has_object none rows = true
has_object (some id) rows = is_some (object_size id rows)

-- `INSERT INTO snapshot_entries`
unfoldable pub insert_entry : Database → EntryRow → Result Database StoreError
insert_entry db row = do
  size ← sql_u64 row.logical_size
  fail_if (bytes_eq row.path [] || ltb 4095 row.unix_mode) database
  fail_if (has_entry row.snapshot_id row.path db.entries) database
  fail_if (not (has_object row.object_id db.objects)) database
  ok (record db { entries = db.entries ++ (row ∷ []) })

unfoldable pub insert_entries :
    SnapshotId → Database → List SnapshotEntry → Result Database StoreError
insert_entries id db [] = ok db
insert_entries id db (entry ∷ entries) =
    insert_entry db (columns id entry entry.kind) >>= λ changed. insert_entries id changed entries

-- `SELECT … FROM snapshots WHERE id = ?1`
unfoldable pub find_snapshot : SnapshotId → List SnapshotRow → Option SnapshotRow
find_snapshot id [] = none
find_snapshot id (row ∷ rows) =
    let rest = find_snapshot id rows in if bytes_eq row.id.bytes id.bytes then some row else rest

-- The rows of `snapshot_entries` with this `snapshot_id`.
unfoldable pub entries_of : SnapshotId → List EntryRow → List EntryRow
entries_of id [] = []
entries_of id (row ∷ rows) =
    let rest = entries_of id rows in
    if bytes_eq row.snapshot_id.bytes id.bytes then row ∷ rest else rest

abbrev pub row_path : EntryRow → Bytes
row_path row = row.path

-- The arms of the `match` on the columns of a row.
unfoldable pub decode_directory :
    Option ObjectId → Option Bytes → Bool → ℕ → Result SnapshotEntryKind StoreError
decode_directory none none false zero = ok directory
decode_directory object_id target executable size = err invalid_snapshot

unfoldable pub decode_file :
    Option ObjectId → Option Bytes → Bool → ℕ → Result SnapshotEntryKind StoreError
decode_file (some object_id) none executable size = ok (file object_id size executable)
decode_file object_id target executable size = err invalid_snapshot

unfoldable pub decode_symlink :
    Option ObjectId → Option Bytes → Bool → ℕ → Result SnapshotEntryKind StoreError
decode_symlink none (some target) false zero = ok (symlink target)
decode_symlink object_id target executable size = err invalid_snapshot

unfoldable pub decode_kind : EntryRow → Result SnapshotEntryKind StoreError
decode_kind row =
    if bytes_eq row.kind directory_text
    then decode_directory row.object_id row.symlink_target row.executable row.logical_size
    else if bytes_eq row.kind file_text
    then decode_file row.object_id row.symlink_target row.executable row.logical_size
    else if bytes_eq row.kind symlink_text
    then decode_symlink row.object_id row.symlink_target row.executable row.logical_size
    else err invalid_snapshot

abbrev refused_permissions : InvalidUnixPermissions → StoreError
refused_permissions problem = invalid_snapshot

abbrev refused_path : SnapshotPathError → StoreError
refused_path problem = invalid_snapshot

abbrev refused_manifest : SnapshotManifestError → StoreError
refused_manifest problem = invalid_snapshot

-- The entry of a row; the first test is `u16::try_from`.
unfoldable pub decode_row : EntryRow → Result SnapshotEntry StoreError
decode_row row = do
  fail_if (leb 65536 row.unix_mode) invalid_snapshot
  permissions ← map_err refused_permissions (new row.unix_mode)
  kind ← decode_kind row
  path ← map_err refused_path (from_str row.path)
  ok (record { path = path; kind = kind; permissions = permissions })

pub record Loaded : Type 0 where
  pub entries : List SnapshotEntry
  pub logical_bytes : ℕ

-- The loop over the rows, with the total so far.
unfoldable pub decode_rows : ℕ → List EntryRow → Result Loaded StoreError
decode_rows total [] = ok (record { entries = []; logical_bytes = total })
decode_rows total (row ∷ rows) = do
  entry ← decode_row row
  next ← add_size invalid_snapshot total entry.kind
  loaded ← decode_rows next rows
  ok (record loaded { entries = entry ∷ loaded.entries })

-- `SELECT schema_version, …` with the error for a missing row.
unfoldable pub metadata : Option SnapshotRow → Result SnapshotRow StoreError
metadata none = err not_found
metadata (some row) = ok row

-- The derived `PartialEq` of snapshots.
unfoldable pub snapshot_eq : Discrete Snapshot
unfolding ℕ_discrete
snapshot_eq = hlevel ℕ_discrete

module _ (digest : SnapshotManifest → SnapshotId) where
  unfoldable pub validate_snapshot : Snapshot → Result (Unit {0}) StoreError
  validate_snapshot snapshot =
      fail_if (not (bytes_eq (digest snapshot.manifest).bytes snapshot.id.bytes)) invalid_snapshot

  -- The tests behind the loop of `load_snapshot_from`.
  unfoldable pub assemble : SnapshotId → SnapshotRow → Loaded → Result Snapshot StoreError
  assemble id row loaded = do
    fail_if
        (leb i64_limit (length loaded.entries) || not (length loaded.entries == row.entry_count))
        invalid_snapshot
    bytes ← sql_u64 loaded.logical_bytes
    fail_if (not (bytes == row.logical_bytes)) invalid_snapshot
    manifest ← map_err refused_manifest (from_canonical_entries row.schema_version loaded.entries)
    validate_snapshot (record { id = id; manifest = manifest })
    ok (record { id = id; manifest = manifest })

  unfoldable pub load_snapshot_from : Database → SnapshotId → Result Snapshot StoreError
  load_snapshot_from db id = do
    row ← metadata (find_snapshot id db.snapshots)
    loaded ← decode_rows 0 (sort_by row_path (entries_of id db.entries))
    assemble id row loaded

  -- `ON CONFLICT(id) DO NOTHING`, and what follows where a row was inserted and where none was.
  unfoldable pub insert_snapshot :
      Database → Option SnapshotRow → Snapshot → SnapshotRow → Result Database StoreError
  insert_snapshot db none snapshot row = do
    fail_if (row.schema_version == 0) database
    insert_entries snapshot.id (record db { snapshots = db.snapshots ++ (row ∷ []) })
        snapshot.manifest.entries
  insert_snapshot db (some old) snapshot row = do
    existing ← load_snapshot_from db snapshot.id
    ite (snapshot_eq existing snapshot) (ok db) (err invalid_snapshot)

  unfoldable pub store_snapshot_in : Database → Snapshot → Timestamp → Result Database StoreError
  store_snapshot_in db snapshot created = do
    fail_if (leb i64_limit (length snapshot.manifest.entries)) numeric_range
    total ← sum_sizes 0 snapshot.manifest.entries
    bytes ← sql_u64 total
    insert_snapshot db (find_snapshot snapshot.id db.snapshots) snapshot (record {
      id = snapshot.id;
      schema_version = snapshot.manifest.schema_version;
      entry_count = length snapshot.manifest.entries;
      logical_bytes = bytes;
      created = created;
    })

  unfoldable pub store_snapshot : Store → Snapshot → Timestamp → Result Store StoreError
  store_snapshot store snapshot created = do
    fail_if (not store.is_writer) read_only
    validate_snapshot snapshot
    tables ← store_snapshot_in store.tables snapshot created
    ok (record store { tables = tables })

  unfoldable pub load_snapshot : Store → SnapshotId → Result Snapshot StoreError
  load_snapshot store id = load_snapshot_from store.tables id
