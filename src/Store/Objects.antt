-- ===== src/Store/Objects.antt =====
-- crates/rewind-store/src/object.rs and lib.rs: storing and loading objects. The files below `objects/`
-- are a list with a file for each identifier; that a file is installed as a whole is the atomic
-- `hard_link`, and failures of the file system are left out. The parameter `digest` is
-- `ObjectId::digest`. An operation that fails has no store behind it: the file that a put has installed
-- before its row is refused stays on the disk and is left out here.
pub mod Kept
pub mod Tests
use rewind_git_for_ai_agent.Prelude.{
  ℕ, ◌+◌, List, [], ◌∷◌, ◌++◌, length, take, drop, Bool, not, ◌&&◌, Option, none, some, ltb, leb,
  ◌==◌, if◌then◌else◌, Result, ok, err, ◌>>=◌, ◌>>◌, map_err, fail_if,
}
use rewind_git_for_ai_agent.Bytes.{Bytes, bytes_eq}
use rewind_git_for_ai_agent.Domain.Digest.{ObjectId}
use rewind_git_for_ai_agent.Domain.Ids.{Timestamp}
use rewind_git_for_ai_agent.Store.Envelope.{
  header_len, usize_limit, decode_header, encode, malformed, length_does_not_match_stored_size,
}
use rewind_git_for_ai_agent.Store.Timeline.{
  Database, ObjectRow, ObjectFile, Store, StoreError, read_only, invariant, input_output,
  object_digest_mismatch, object_collision, object_read_limit, object_too_large, envelope_invalid,
  sql_u64,
}

pub record StoredObject : Type 0 where
  pub id : ObjectId
  pub logical_size : ℕ
  pub stored_size : ℕ

-- The file at `path_for(id)`
unfoldable pub find_file : ObjectId → List ObjectFile → Option Bytes
find_file id [] = none
find_file id (file ∷ files) =
    let rest = find_file id files in
    if bytes_eq file.id.bytes id.bytes then some file.envelope else rest

-- The row of `objects` with its two sizes.
unfoldable pub find_object : ObjectId → List ObjectRow → Option ObjectRow
find_object id [] = none
find_object id (row ∷ rows) =
    let rest = find_object id rows in if bytes_eq row.id.bytes id.bytes then some row else rest

unfoldable pub check_recorded : Option ObjectRow → ℕ → ℕ → Result (Unit {0}) StoreError
check_recorded none logical stored = err invariant
check_recorded (some row) logical stored =
    fail_if (not (row.logical_size == logical && row.stored_size == stored)) invariant

-- `ON CONFLICT(id) DO NOTHING`
unfoldable pub add_object : Option ObjectRow → ObjectRow → List ObjectRow → List ObjectRow
add_object none row rows = rows ++ (row ∷ [])
add_object (some old) row rows = rows

unfoldable pub record_object : Database → StoredObject → Timestamp → Result Database StoreError
record_object db stored created = do
  logical ← sql_u64 stored.logical_size
  size ← sql_u64 stored.stored_size
  check_recorded
      (find_object stored.id (
        add_object (find_object stored.id db.objects)
          (record { id = stored.id; logical_size = logical; stored_size = size; created = created })
          db.objects))
      logical size
  ok (record db {
    objects =
        add_object (find_object stored.id db.objects)
          (record { id = stored.id; logical_size = logical; stored_size = size; created = created })
          db.objects;
  })

pub record Installed : Type 0 where
  pub object : StoredObject
  pub files : List ObjectFile

pub record Put : Type 0 where
  pub object : StoredObject
  pub store : Store

module _ (digest : Bytes → ObjectId) where
  -- `ObjectStore::get` on the contents of the file: the header with the tests of `open_reader`, then
  -- the payload, whose digest is compared at its end.
  unfoldable pub read_envelope : ObjectId → ℕ → Bytes → Result Bytes StoreError
  read_envelope id maximum envelope = do
    fail_if (ltb (length envelope) header_len) input_output
    logical ← map_err envelope_invalid (decode_header (take header_len envelope))
    fail_if (leb usize_limit (logical + header_len)) object_too_large
    fail_if (not (length envelope == logical + header_len))
        (envelope_invalid (malformed length_does_not_match_stored_size))
    fail_if (ltb maximum logical) object_read_limit
    fail_if (not (bytes_eq (digest (drop header_len envelope)).bytes id.bytes)) input_output
    ok (drop header_len envelope)

  unfoldable pub read_file : ObjectId → ℕ → Option Bytes → Result Bytes StoreError
  read_file id maximum none = err input_output
  read_file id maximum (some envelope) = read_envelope id maximum envelope

  -- `verify_existing` where the file is there, and the installation of a new one.
  unfoldable pub put_file :
      Option Bytes → List ObjectFile → ObjectId → Bytes → Result Installed StoreError
  put_file (some envelope) files id bytes = do
    found ← read_envelope id (length bytes) envelope
    fail_if (not (bytes_eq found bytes)) object_collision
    ok (record {
      object = record { id = id; logical_size = length found; stored_size = length envelope };
      files = files;
    })
  put_file none files id bytes = do
    envelope ← map_err envelope_invalid (encode bytes)
    ok (record {
      object = record { id = id; logical_size = length bytes; stored_size = length envelope };
      files = files ++ (record { id = id; envelope = envelope } ∷ []);
    })

  unfoldable pub put_verified : List ObjectFile → ObjectId → Bytes → Result Installed StoreError
  put_verified files expected bytes = do
    fail_if (not (bytes_eq (digest bytes).bytes expected.bytes)) object_digest_mismatch
    put_file (find_file expected files) files expected bytes

  unfoldable pub import_object : Store → ObjectId → Bytes → Timestamp → Result Put StoreError
  import_object store expected bytes created = do
    fail_if (not store.is_writer) read_only
    installed ← put_verified store.files expected bytes
    tables ← record_object store.tables installed.object created
    ok (record {
      object = installed.object;
      store = record store { tables = tables; files = installed.files };
    })

  -- `put` of the object store is `put_verified` under the digest of the bytes.
  unfoldable pub put_object : Store → Bytes → Timestamp → Result Put StoreError
  put_object store bytes created = import_object store (digest bytes) bytes created

  unfoldable pub load_object : Store → ObjectId → ℕ → Result Bytes StoreError
  load_object store id maximum = read_file id maximum (find_file id store.files)
