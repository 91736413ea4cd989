-- ===== src/Store/Snapshots/RoundTrip.antt =====
-- About `store_snapshot` and `load_snapshot` of crates/rewind-store/src/snapshot.rs.
use rewind_git_for_ai_agent.Prelude.{
  ℕ, ◌<◌, List, [], ◌∷◌, ◌++◌, ◌≡◌, refl, ap, ◌∙◌, none, some, true, false, leb, Bool-cases,
  is_some, inl, inr, All, arith, ok, with_ok_of_bind, append_assoc, append-nil,
}
use rewind_git_for_ai_agent.Bytes.{cmp, bytes_eq, Lt}
use rewind_git_for_ai_agent.Bytes.Compare.{bytes_eq_iff}
use rewind_git_for_ai_agent.Bytes.Sorting.{IsSorted}
use rewind_git_for_ai_agent.Domain.Digest.{SnapshotId}
use rewind_git_for_ai_agent.Domain.Path.{from_str}
use rewind_git_for_ai_agent.Domain.Permissions.{new}
use rewind_git_for_ai_agent.Domain.Manifest.{
  SnapshotEntryKind, directory, file, symlink, SnapshotEntry, path_text,
}
use rewind_git_for_ai_agent.Store.Tables.{SnapshotRow, EntryRow}
use rewind_git_for_ai_agent.Store.Timeline.{Database, StoreError, numeric_range, invalid_snapshot}
use rewind_git_for_ai_agent.Store.Snapshots.{
  add_size, sum_sizes, columns, insert_entry, insert_entries, find_snapshot, entries_of, row_path,
  decode_directory, decode_file, decode_symlink, decode_kind, decode_row, decode_rows,
}

-- What the private fields of its types guarantee for an entry.
pub record IsWellTyped (entry : SnapshotEntry) : Type 0 where
  pub path : from_str entry.path.as_str ≡ ok entry.path
  pub permissions : new entry.permissions.bits ≡ ok entry.permissions
  pub two_bytes : entry.permissions.bits < 65536

-- The rows of the entries of a snapshot.
abbrev pub rows_of : SnapshotId → List SnapshotEntry → List EntryRow
rows_of id [] = []
rows_of id (entry ∷ entries) = columns id entry entry.kind ∷ rows_of id entries

pub bytes_eq_refl : (bytes : List ℕ) → bytes_eq bytes bytes ≡ true
bytes_eq_refl bytes = (bytes_eq_iff bytes bytes).1 refl

columns_keep :
    (id : SnapshotId) (entry : SnapshotEntry) (kind : SnapshotEntryKind)
    → ((columns id entry kind).snapshot_id ≡ id)
      × ((columns id entry kind).path ≡ entry.path.as_str)
      × ((columns id entry kind).unix_mode ≡ entry.permissions.bits)
unfolding columns
columns_keep id entry directory = (refl, refl, refl)
columns_keep id entry (file object_id size executable) = (refl, refl, refl)
columns_keep id entry (symlink target) = (refl, refl, refl)

decode_kind-columns :
    (id : SnapshotId) (entry : SnapshotEntry) (kind : SnapshotEntryKind)
    → decode_kind (columns id entry kind) ≡ ok kind
unfolding columns decode_kind decode_directory decode_file decode_symlink bytes_eq cmp
decode_kind-columns id entry directory = refl
decode_kind-columns id entry (file object_id size executable) = refl
decode_kind-columns id entry (symlink target) = refl

decode_row-columns :
    (id : SnapshotId) (entry : SnapshotEntry)
    → IsWellTyped entry
    → decode_row (columns id entry entry.kind) ≡ ok entry
unfolding decode_row
decode_row-columns id entry h =
    let (_, p, m) = columns_keep id entry entry.kind in
    let k = decode_kind-columns id entry entry.kind in
    let small : leb 65536 entry.permissions.bits ≡ false = ground (arith, h.two_bytes) in
    rw (k, m, p, small, h.permissions, h.path) refl

add_size_any :
    (total n : ℕ) (kind : SnapshotEntryKind) (problem : StoreError)
    → add_size numeric_range total kind ≡ ok n
    → add_size problem total kind ≡ ok n
unfolding add_size
add_size_any total n directory problem h = cc
add_size_any total n (file object_id size executable) problem h = ground arith
add_size_any total n (symlink target) problem h = cc

pub decode_rows-rows_of :
    (id : SnapshotId) (total n : ℕ) (entries : List SnapshotEntry)
    → All IsWellTyped entries
    → sum_sizes total entries ≡ ok n
    → decode_rows total (rows_of id entries) ≡ ok (record { entries = entries; logical_bytes = n })
unfolding decode_rows sum_sizes
decode_rows-rows_of id total n [] w h = cc
decode_rows-rows_of id total n (e ∷ es) w h =
    with_ok_of_bind (add_size numeric_range total e.kind) _ _ h (λ next a rest.
      rw
        (
          decode_row-columns id e w.0,
          add_size_any total next e.kind invalid_snapshot a,
          decode_rows-rows_of id next n es w.1 rest,
        )
        refl)

insert_entry_sound :
    (db db' : Database) (row : EntryRow)
    → insert_entry db row ≡ ok db'
    → db' ≡ record db { entries = db.entries ++ (row ∷ []) }
unfolding insert_entry
insert_entry_sound db db' row h = ground arith

pub insert_entries_sound :
    (id : SnapshotId) (db db' : Database) (entries : List SnapshotEntry)
    → insert_entries id db entries ≡ ok db'
    → db' ≡ record db { entries = db.entries ++ rows_of id entries }
unfolding insert_entries
insert_entries_sound id db db' [] h = cc (append-nil db.entries)
insert_entries_sound id db db' (e ∷ es) h =
    with_ok_of_bind (insert_entry db (columns id e e.kind)) _ _ h (λ next a k.
      let one = insert_entry_sound db next (columns id e e.kind) a in
      let rest = insert_entries_sound id next db' es k in
      rest
      ∙ ap (λ (d : Database). record d { entries = d.entries ++ rows_of id es }) one
      ∙ ap (λ rows. record db { entries = rows })
          (append_assoc db.entries (columns id e e.kind ∷ []) (rows_of id es)))

pub entries_of-append :
    (id : SnapshotId) (xs ys : List EntryRow)
    → entries_of id (xs ++ ys) ≡ entries_of id xs ++ entries_of id ys
unfolding entries_of
entries_of-append id [] ys = refl
entries_of-append id (x ∷ xs) ys = ground (arith, entries_of-append id xs ys)

pub entries_of-rows_of :
    (id : SnapshotId) (entries : List SnapshotEntry)
    → entries_of id (rows_of id entries) ≡ rows_of id entries
unfolding entries_of
entries_of-rows_of id [] = refl
entries_of-rows_of id (e ∷ es) =
    let (s, _, _) = columns_keep id e e.kind in
    rw (s, bytes_eq_refl id.bytes, entries_of-rows_of id es) refl

-- Rows only of snapshots that are there, by `REFERENCES snapshots(id)`.
abbrev pub HasOwners : Database → Type 0
HasOwners db = All (λ row. is_some (find_snapshot row.snapshot_id db.snapshots) ≡ true) db.entries

find_snapshot_same :
    (id other : SnapshotId) (rows : List SnapshotRow)
    → other.bytes ≡ id.bytes
    → find_snapshot other rows ≡ find_snapshot id rows
unfolding find_snapshot
find_snapshot_same id other rows h = ap (λ b. find_snapshot (record { bytes = b }) rows) h

pub entries_of-none :
    (id : SnapshotId) (snapshots : List SnapshotRow) (rows : List EntryRow)
    → find_snapshot id snapshots ≡ none
    → All (λ row. is_some (find_snapshot row.snapshot_id snapshots) ≡ true) rows
    → entries_of id rows ≡ []
unfolding entries_of
entries_of-none id snapshots [] h o = refl
entries_of-none id snapshots (row ∷ rows) h o =
    elim (Bool-cases (bytes_eq row.snapshot_id.bytes id.bytes)) [
      | inl same ↦
          let e = (bytes_eq_iff row.snapshot_id.bytes id.bytes).0 same in
          absurd (cc (o.0, h, find_snapshot_same id row.snapshot_id snapshots e))
      | inr other ↦ rw other (entries_of-none id snapshots rows h o.1)
    ]

pub find_snapshot_last :
    (rows : List SnapshotRow) (row : SnapshotRow)
    → find_snapshot row.id rows ≡ none
    → find_snapshot row.id (rows ++ (row ∷ [])) ≡ some row
unfolding find_snapshot
find_snapshot_last [] row h = rw (bytes_eq_refl row.id.bytes) refl
find_snapshot_last (r ∷ rows) row h = ground (arith, find_snapshot_last rows row)

pub IsSorted-rows_of :
    (id : SnapshotId) (entries : List SnapshotEntry)
    → IsSorted path_text entries
    → IsSorted row_path (rows_of id entries)
IsSorted-rows_of id [] s = tt
IsSorted-rows_of id (e ∷ es) s = (All-rows_of id e es s.0, IsSorted-rows_of id es s.1)
  where
    All-rows_of :
        (id : SnapshotId) (e : SnapshotEntry) (es : List SnapshotEntry)
        → All (λ y. Lt (path_text e) (path_text y)) es
        → All (λ y. Lt (row_path (columns id e e.kind)) (row_path y)) (rows_of id es)
    All-rows_of id e [] h = tt
    All-rows_of id e (d ∷ ds) h =
        let (_, p, _) = columns_keep id e e.kind in
        let (_, q, _) = columns_keep id d d.kind in (rw (p, q) h.0, All-rows_of id e ds h.1)
