-- ===== src/Store/Checkpoints/Effects.antt =====
-- About what `store_snapshot_in` and `commit_checkpoint_in` of crates/rewind-store/src/snapshot.rs
-- change in the tables.
use rewind_git_for_ai_agent.Prelude.{
  List, [], ◌∷◌, ◌++◌, length, ◌≡◌, refl, sym, ap, subst, ◌∙◌, Option, none, some, not, ◌==◌, leb,
  arith, ok, ok_of_then, ok_of_ite, with_ok_of_bind, fail_if,
}
use rewind_git_for_ai_agent.Domain.Digest.{SnapshotId}
use rewind_git_for_ai_agent.Domain.Ids.{RunId, Timestamp}
use rewind_git_for_ai_agent.Domain.Manifest.{SnapshotManifest, Snapshot}
use rewind_git_for_ai_agent.Domain.Run.{
  Run, Checkpoint, CheckpointReason, initial, manual, process_boundary, filesystem_quiescence,
  agent_adapter, final,
}
use rewind_git_for_ai_agent.Domain.Event.{Event}
use rewind_git_for_ai_agent.Store.Tables.{SnapshotRow, EntryRow}
use rewind_git_for_ai_agent.Store.Timeline.{
  Database, Store, read_only, numeric_range, database, invalid_snapshot, invalid_checkpoint,
  i64_limit, sql_u64, append_event_batch_in,
}
use rewind_git_for_ai_agent.Store.Runs.{update_run}
use rewind_git_for_ai_agent.Store.Creation.{find_run}
use rewind_git_for_ai_agent.Store.Snapshots.{
  sum_sizes, find_snapshot, load_snapshot_from, snapshot_eq, insert_snapshot, store_snapshot_in,
}
use rewind_git_for_ai_agent.Store.Snapshots.RoundTrip.{insert_entries_sound}
use rewind_git_for_ai_agent.Store.Checkpoints.{
  insert_checkpoint, set_initial, set_final, with_initial, with_final, link_snapshot,
  validate_checkpoint_snapshot, event_matches, commit_checkpoint_in, commit_checkpoint,
  commit_checkpoint_with_event,
}

-- The tables with other rows about snapshots.
abbrev pub with_snapshots : Database → List SnapshotRow → List EntryRow → Database
with_snapshots db snapshots entries = record db { snapshots = snapshots; entries = entries }

set_initial_sound :
    (found : Option Run) (db db' : Database) (id : SnapshotId)
    → set_initial found db id ≡ ok db'
    → (run : Run) × (found ≡ some run)
      × (db' ≡ record db { runs = update_run run.id (with_initial id) db.runs })
unfolding set_initial
set_initial_sound none db db' id h = cc
set_initial_sound (some run) db db' id h = (run, refl, ground arith)

set_final_sound :
    (found : Option Run) (db db' : Database) (id : SnapshotId)
    → set_final found db id ≡ ok db'
    → (run : Run) × (found ≡ some run)
      × (db' ≡ record db { runs = update_run run.id (with_final id) db.runs })
unfolding set_final
set_final_sound none db db' id h = cc
set_final_sound (some run) db db' id h = (run, refl, ground arith)

-- The update of the run's row that goes with a checkpoint.
pub data IsLink (id : SnapshotId) : (Run → Run) → Type 0 where
  links_nothing : IsLink id (λ run. run)
  links_initial : IsLink id (with_initial id)
  links_final : IsLink id (with_final id)

update_run-same : (id : RunId) (runs : List Run) → update_run id (λ run. run) runs ≡ runs
unfolding update_run
update_run-same id [] = refl
update_run-same id (run ∷ runs) = ground (arith, update_run-same id runs)

pub record Linked (snapshot : SnapshotId) (old new : Database) : Type 0 where
  pub run : RunId
  pub change : Run → Run
  pub is_link : IsLink snapshot change
  pub rows : new ≡ record old { runs = update_run run change old.runs }

no_link : (run : RunId) (id : SnapshotId) (db db' : Database) → db ≡ db' → Linked id db db'
no_link run id db db' e = record {
  run = run;
  change = λ r. r;
  is_link = links_nothing;
  rows = sym e ∙ ap (λ runs. record db { runs = runs }) (sym (update_run-same run db.runs));
}

pub link_snapshot_sound :
    (reason : CheckpointReason) (db db' : Database) (run : RunId) (id : SnapshotId)
    → link_snapshot reason db run id ≡ ok db'
    → Linked id db db'
unfolding link_snapshot
link_snapshot_sound initial db db' run id h =
    let (row, _, e) = set_initial_sound (find_run run db.runs) db db' id h in
    record { run = row.id; change = with_initial id; is_link = links_initial; rows = e }
link_snapshot_sound final db db' run id h =
    let (row, _, e) = set_final_sound (find_run run db.runs) db db' id h in
    record { run = row.id; change = with_final id; is_link = links_final; rows = e }
link_snapshot_sound manual db db' run id h = no_link run id db db' (cc h)
link_snapshot_sound process_boundary db db' run id h = no_link run id db db' (cc h)
link_snapshot_sound filesystem_quiescence db db' run id h = no_link run id db db' (cc h)
link_snapshot_sound agent_adapter db db' run id h = no_link run id db db' (cc h)

insert_checkpoint_sound :
    (db db' : Database) (checkpoint : Checkpoint)
    → insert_checkpoint db checkpoint ≡ ok db'
    → db' ≡ record db { checkpoints = db.checkpoints ++ (checkpoint ∷ []) }
unfolding insert_checkpoint
insert_checkpoint_sound db db' checkpoint h = ground arith

module _ (digest : SnapshotManifest → SnapshotId) where
  insert_snapshot_sound :
      (db db' : Database) (found : Option SnapshotRow) (snapshot : Snapshot) (row : SnapshotRow)
      → insert_snapshot digest db found snapshot row ≡ ok db'
      → db' ≡ with_snapshots db db'.snapshots db'.entries
  unfolding insert_snapshot
  insert_snapshot_sound db db' none snapshot row h =
      let (_, k) = ok_of_then (fail_if (row.schema_version == 0) database) _ _ h in
      let e =
        insert_entries_sound snapshot.id (record db { snapshots = db.snapshots ++ (row ∷ []) }) db'
          snapshot.manifest.entries k in
      cc e
  insert_snapshot_sound db db' (some old) snapshot row h =
      with_ok_of_bind (load_snapshot_from digest db snapshot.id) _ _ h (λ existing l k.
        let (_, e) = ok_of_ite (snapshot_eq existing snapshot) db invalid_snapshot db' k in cc e)

  pub store_snapshot_in_sound :
      (db db' : Database) (snapshot : Snapshot) (created : Timestamp)
      → store_snapshot_in digest db snapshot created ≡ ok db'
      → db' ≡ with_snapshots db db'.snapshots db'.entries
  unfolding store_snapshot_in
  store_snapshot_in_sound db db' snapshot created h =
      let entries = snapshot.manifest.entries in
      let (_, k) = ok_of_then (fail_if (leb i64_limit (length entries)) numeric_range) _ _ h in
      with_ok_of_bind (sum_sizes 0 entries) _ _ k (λ total s l.
        with_ok_of_bind (sql_u64 total) _ _ l (λ bytes b m.
          insert_snapshot_sound db db' (find_snapshot snapshot.id db.snapshots) snapshot _ m))

  pub commit_checkpoint_in-eq-ok :
      (db db' : Database) (checkpoint : Checkpoint) (snapshot : Snapshot)
      → commit_checkpoint_in digest db checkpoint snapshot ≡ ok db'
      → (stored : Database) × (store_snapshot_in digest db snapshot checkpoint.created_at
          ≡ ok stored)
        × Linked checkpoint.snapshot_id
            (record stored { checkpoints = stored.checkpoints ++ (checkpoint ∷ []) })
            db'
  unfolding commit_checkpoint_in
  commit_checkpoint_in-eq-ok db db' checkpoint snapshot h =
      with_ok_of_bind (store_snapshot_in digest db snapshot checkpoint.created_at) _ _ h
        (λ stored s k. with_ok_of_bind (insert_checkpoint stored checkpoint) _ _ k (λ inserted i l.
          let e = insert_checkpoint_sound stored inserted checkpoint i in
          (
            stored,
            s,
            subst (λ d. Linked checkpoint.snapshot_id d db') e
                (link_snapshot_sound checkpoint.reason inserted db' checkpoint.run_id
                  checkpoint.snapshot_id l),
          )))

  -- What a committed checkpoint changes: the rows about snapshots, its own row at the end of
  -- `checkpoints`, and at most one column of one run.
  pub record Committed (checkpoint : Checkpoint) (old new : Database) : Type 0 where
    pub run : RunId
    pub change : Run → Run
    pub is_link : IsLink checkpoint.snapshot_id change
    pub runs : new.runs ≡ update_run run change old.runs
    pub events : new.events ≡ old.events
    pub objects : new.objects ≡ old.objects
    pub checkpoints : new.checkpoints ≡ old.checkpoints ++ (checkpoint ∷ [])

  pub commit_checkpoint_in-Committed :
      (db db' : Database) (checkpoint : Checkpoint) (snapshot : Snapshot)
      → commit_checkpoint_in digest db checkpoint snapshot ≡ ok db'
      → Committed checkpoint db db'
  commit_checkpoint_in-Committed db db' checkpoint snapshot h =
      let (stored, s, l) = commit_checkpoint_in-eq-ok db db' checkpoint snapshot h in
      let e = store_snapshot_in_sound db stored snapshot checkpoint.created_at s in
      let r = l.rows in
      record {
        run = l.run;
        change = l.change;
        is_link = l.is_link;
        runs = cc (e, r);
        events = cc (e, r);
        objects = cc (e, r);
        checkpoints = cc (e, r);
      }

  pub commit_checkpoint-eq-ok :
      (store store' : Store) (checkpoint : Checkpoint) (snapshot : Snapshot)
      → commit_checkpoint digest store checkpoint snapshot ≡ ok store'
      → (validate_checkpoint_snapshot digest checkpoint snapshot ≡ ok tt)
        × (commit_checkpoint_in digest store.tables checkpoint snapshot ≡ ok store'.tables)
  unfolding commit_checkpoint
  commit_checkpoint-eq-ok store store' checkpoint snapshot h =
      let (_, k) = ok_of_then (fail_if (not store.is_writer) read_only) _ _ h in
      let (v, l) = ok_of_then (validate_checkpoint_snapshot digest checkpoint snapshot) _ _ k in
      with_ok_of_bind (commit_checkpoint_in digest store.tables checkpoint snapshot) _ _ l
        (λ db r n. (v, r ∙ cc))

  pub commit_checkpoint_with_event-eq-ok :
      (store store' : Store) (checkpoint : Checkpoint) (snapshot : Snapshot) (event : Event)
      → commit_checkpoint_with_event digest store checkpoint snapshot event ≡ ok store'
      → (validate_checkpoint_snapshot digest checkpoint snapshot ≡ ok tt)
        × (fail_if (not (event_matches checkpoint event)) invalid_checkpoint ≡ ok tt)
        × (committed : Database) × (commit_checkpoint_in digest store.tables checkpoint snapshot
            ≡ ok committed)
        × (append_event_batch_in committed (event ∷ []) ≡ ok store'.tables)
  unfolding commit_checkpoint_with_event
  commit_checkpoint_with_event-eq-ok store store' checkpoint snapshot event h =
      let (_, k) = ok_of_then (fail_if (not store.is_writer) read_only) _ _ h in
      let (v, l) = ok_of_then (validate_checkpoint_snapshot digest checkpoint snapshot) _ _ k in
      let (m, n) =
        ok_of_then (fail_if (not (event_matches checkpoint event)) invalid_checkpoint) _ _ l in
      with_ok_of_bind (commit_checkpoint_in digest store.tables checkpoint snapshot) _ _ n
        (λ committed c o.
          with_ok_of_bind (append_event_batch_in committed (event ∷ [])) _ _ o
            (λ db r q. (v, m, committed, c, r ∙ cc)))
