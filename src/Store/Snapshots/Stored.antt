-- ===== src/Store/Snapshots/Stored.antt =====
-- About what `store_snapshot` of crates/rewind-store/src/snapshot.rs leaves for `load_snapshot`.
use rewind_git_for_ai_agent.Prelude.{
  ◌++◌, ◌∷◌, [], length, ◌≡◌, refl, sym, ap, subst, ◌∙◌, none, some, true, false, not, ◌==◌, leb,
  Option-cases, inl, inr, All, arith, ok, ok_of_then, with_ok_of_bind, fail_if, ok_of_ite,
}
use rewind_git_for_ai_agent.Bytes.Sorting.{sort_by-sorted}
use rewind_git_for_ai_agent.Domain.Digest.{SnapshotId}
use rewind_git_for_ai_agent.Domain.Ids.{Timestamp}
use rewind_git_for_ai_agent.Domain.Manifest.{SnapshotManifest, Snapshot, from_canonical_entries}
use rewind_git_for_ai_agent.Domain.Manifest.Canonical.{from_canonical_entries_iff}
use rewind_git_for_ai_agent.Store.Tables.{SnapshotRow}
use rewind_git_for_ai_agent.Store.Timeline.{
  Database, Store, read_only, numeric_range, database, invalid_snapshot, i64_limit, sql_u64,
}
use rewind_git_for_ai_agent.Store.Snapshots.{
  sum_sizes, find_snapshot, entries_of, row_path, metadata, snapshot_eq, validate_snapshot,
  assemble, load_snapshot_from, insert_snapshot, store_snapshot_in, store_snapshot, load_snapshot,
}
use rewind_git_for_ai_agent.Store.Snapshots.RoundTrip.{
  IsWellTyped, rows_of, HasOwners, insert_entries_sound, decode_rows-rows_of, entries_of-append,
  entries_of-rows_of, entries_of-none, find_snapshot_last, IsSorted-rows_of,
}

-- What the private fields of its types guarantee for a snapshot.
pub record IsManifest (manifest : SnapshotManifest) : Type 0 where
  pub canonical : from_canonical_entries manifest.schema_version manifest.entries ≡ ok manifest
  pub entries : All IsWellTyped manifest.entries

module _ (digest : SnapshotManifest → SnapshotId) where
  -- The row that belongs to a snapshot.
  pub record IsRow (snapshot : Snapshot) (row : SnapshotRow) : Type 0 where
    pub same : row.id ≡ snapshot.id
    pub version : row.schema_version ≡ snapshot.manifest.schema_version
    pub count : row.entry_count ≡ length snapshot.manifest.entries
    pub few : leb i64_limit (length snapshot.manifest.entries) ≡ false
    pub total : sum_sizes 0 snapshot.manifest.entries ≡ ok row.logical_bytes
    pub small : sql_u64 row.logical_bytes ≡ ok row.logical_bytes

  pub store_snapshot_in-eq-ok :
      (db db' : Database) (snapshot : Snapshot) (created : Timestamp)
      → store_snapshot_in digest db snapshot created ≡ ok db'
      → (row : SnapshotRow) × IsRow snapshot row
        × (insert_snapshot digest db (find_snapshot snapshot.id db.snapshots) snapshot row ≡ ok db')
  unfolding store_snapshot_in
  store_snapshot_in-eq-ok db db' snapshot created h =
      let entries = snapshot.manifest.entries in
      let (few, k) = ok_of_then (fail_if (leb i64_limit (length entries)) numeric_range) _ _ h in
      with_ok_of_bind (sum_sizes 0 entries) _ _ k (λ total s l.
        with_ok_of_bind (sql_u64 total) _ _ l (λ bytes b m.
          let same : bytes ≡ total = unfold sql_u64 in ground arith in
          (
            record {
              id = snapshot.id;
              schema_version = snapshot.manifest.schema_version;
              entry_count = length entries;
              logical_bytes = bytes;
              created = created;
            },
            record {
              same = refl;
              version = refl;
              count = refl;
              few = ground arith;
              total = s ∙ ap ok (sym same);
              small = ap sql_u64 same ∙ b;
            },
            m,
          )))

  assemble_same :
      (snapshot : Snapshot) (row : SnapshotRow)
      → IsManifest snapshot.manifest
      → validate_snapshot digest snapshot ≡ ok tt
      → IsRow snapshot row
      → assemble digest snapshot.id row
          (record { entries = snapshot.manifest.entries; logical_bytes = row.logical_bytes })
        ≡ ok snapshot
  unfolding assemble
  assemble_same snapshot row m v r =
      let same : row.logical_bytes == row.logical_bytes ≡ true = ground arith in
      let counted : length snapshot.manifest.entries == row.entry_count ≡ true =
        ground (arith, r.count) in
      rw (r.few, counted, r.small, same, r.version, m.canonical, v) refl

  insert_snapshot-eq-ok :
      (db db' : Database) (snapshot : Snapshot) (row : SnapshotRow)
      → insert_snapshot digest db none snapshot row ≡ ok db'
      → db' ≡ record db {
        snapshots = db.snapshots ++ (row ∷ []);
        entries = db.entries ++ rows_of snapshot.id snapshot.manifest.entries;
      }
  unfolding insert_snapshot
  insert_snapshot-eq-ok db db' snapshot row h =
      let (_, k) = ok_of_then (fail_if (row.schema_version == 0) database) _ _ h in
      insert_entries_sound snapshot.id (record db { snapshots = db.snapshots ++ (row ∷ []) }) db'
        snapshot.manifest.entries k

  insert_snapshot_old :
      (db db' : Database) (snapshot : Snapshot) (old row : SnapshotRow)
      → insert_snapshot digest db (some old) snapshot row ≡ ok db'
      → (db ≡ db') × (load_snapshot_from digest db snapshot.id ≡ ok snapshot)
  unfolding insert_snapshot
  insert_snapshot_old db db' snapshot old row h =
      with_ok_of_bind (load_snapshot_from digest db snapshot.id) _ _ h (λ existing l k.
        let (e, same) = ok_of_ite (snapshot_eq existing snapshot) db invalid_snapshot db' k in
        (same, l ∙ ap ok e))

  load_snapshot_new :
      (db db' : Database) (snapshot : Snapshot) (row : SnapshotRow)
      → IsManifest snapshot.manifest
      → HasOwners db
      → validate_snapshot digest snapshot ≡ ok tt
      → IsRow snapshot row
      → find_snapshot snapshot.id db.snapshots ≡ none
      → insert_snapshot digest db none snapshot row ≡ ok db'
      → load_snapshot_from digest db' snapshot.id ≡ ok snapshot
  unfolding load_snapshot_from metadata
  load_snapshot_new db db' snapshot row m o v r absent h =
      let id = snapshot.id in
      let entries = snapshot.manifest.entries in
      let e = insert_snapshot-eq-ok db db' snapshot row h in
      let (_, _, sorted, _) =
        (from_canonical_entries_iff snapshot.manifest.schema_version entries snapshot.manifest).0
          m.canonical in
      let found : find_snapshot id (db.snapshots ++ (row ∷ [])) ≡ some row =
        subst (λ i. find_snapshot i (db.snapshots ++ (row ∷ [])) ≡ some row) r.same
          (find_snapshot_last db.snapshots row
            (ap (λ i. find_snapshot i db.snapshots) r.same ∙ absent)) in
      let own : entries_of id (db.entries ++ rows_of id entries) ≡ rows_of id entries =
        entries_of-append id db.entries (rows_of id entries)
        ∙ ap (λ xs. xs ++ entries_of id (rows_of id entries))
            (entries_of-none id db.snapshots db.entries absent o)
        ∙ entries_of-rows_of id entries in
      rw
        (
          e,
          found,
          own,
          sort_by-sorted row_path (rows_of id entries) (IsSorted-rows_of id entries sorted),
          decode_rows-rows_of id 0 row.logical_bytes entries m.entries r.total,
          assemble_same snapshot row m v r,
        )
        refl

  pub store_snapshot-eq-ok :
      (store store' : Store) (snapshot : Snapshot) (created : Timestamp)
      → store_snapshot digest store snapshot created ≡ ok store'
      → (validate_snapshot digest snapshot ≡ ok tt)
        × (store_snapshot_in digest store.tables snapshot created ≡ ok store'.tables)
  unfolding store_snapshot
  store_snapshot-eq-ok store store' snapshot created h =
      let (_, k) = ok_of_then (fail_if (not store.is_writer) read_only) _ _ h in
      let (v, l) = ok_of_then (validate_snapshot digest snapshot) _ _ k in
      with_ok_of_bind (store_snapshot_in digest store.tables snapshot created) _ _ l
        (λ db r n. (v, r ∙ cc))

  pub load_snapshot-store_snapshot_in :
      (db db' : Database) (snapshot : Snapshot) (created : Timestamp)
      → IsManifest snapshot.manifest
      → HasOwners db
      → validate_snapshot digest snapshot ≡ ok tt
      → store_snapshot_in digest db snapshot created ≡ ok db'
      → load_snapshot_from digest db' snapshot.id ≡ ok snapshot
  load_snapshot-store_snapshot_in db db' snapshot created m o v h =
      let (row, r, k) = store_snapshot_in-eq-ok db db' snapshot created h in
      elim (Option-cases (find_snapshot snapshot.id db.snapshots)) [
        | inl absent ↦ load_snapshot_new db db' snapshot row m o v r absent (rw absent at k)
        | inr (old, there) ↦
            let (same, l) = insert_snapshot_old db db' snapshot old row (rw there at k) in
            subst (λ d. load_snapshot_from digest d snapshot.id ≡ ok snapshot) same l
      ]

  -- In tables whose entry rows belong to snapshots that are there, a snapshot with a canonical
  -- manifest that has been stored is loaded again as it was.
  pub load_snapshot-store_snapshot :
      (store store' : Store) (snapshot : Snapshot) (created : Timestamp)
      → IsManifest snapshot.manifest
      → HasOwners store.tables
      → store_snapshot digest store snapshot created ≡ ok store'
      → load_snapshot digest store' snapshot.id ≡ ok snapshot
  unfolding load_snapshot
  load_snapshot-store_snapshot store store' snapshot created m o h =
      let (v, k) = store_snapshot-eq-ok store store' snapshot created h in
      load_snapshot-store_snapshot_in store.tables store'.tables snapshot created m o v k
