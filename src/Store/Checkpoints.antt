-- ===== src/Store/Checkpoints.antt =====
-- crates/rewind-store/src/snapshot.rs: committing a checkpoint with its snapshot, alone or with the
-- event that reports it, and loading checkpoints.
pub mod Effects
pub mod Committing
pub mod Tests
use mathlib.Core.Logic.{ite}
use native.Mathlib.Decide.{ℕ_discrete}
use rewind_git_for_ai_agent.Prelude.{
  ℕ, List, [], ◌∷◌, ◌++◌, Bool, true, false, not, ◌&&◌, ◌||◌, Option, none, some, leb, ◌==◌,
  if◌then◌else◌, is_some, Result, ok, err, ◌>>=◌, ◌>>◌, map_err, fail_if,
}
use rewind_git_for_ai_agent.Bytes.{bytes_eq}
use rewind_git_for_ai_agent.Domain.Digest.{SnapshotId}
use rewind_git_for_ai_agent.Domain.Ids.{RunId, CheckpointId, Timestamp}
use rewind_git_for_ai_agent.Domain.Manifest.{SnapshotManifest, Snapshot}
use rewind_git_for_ai_agent.Domain.Run.{
  Run, Checkpoint, CheckpointReason, initial, manual, process_boundary, filesystem_quiescence,
  agent_adapter, final, CheckpointValidationError, validate_checkpoint,
}
use rewind_git_for_ai_agent.Domain.Event.{Event, EventPayload, checkpoint_committed}
use rewind_git_for_ai_agent.Store.Timeline.{
  Database, Store, StoreError, read_only, not_found, database, invalid_checkpoint, sql_u64,
  run_status, append_event_batch_in,
}
use rewind_git_for_ai_agent.Store.Runs.{has_snapshot, update_run}
use rewind_git_for_ai_agent.Store.Creation.{find_run}
use rewind_git_for_ai_agent.Store.Snapshots.{validate_snapshot, store_snapshot_in}

abbrev refused_checkpoint : CheckpointValidationError → StoreError
refused_checkpoint problem = invalid_checkpoint

-- The keys of `checkpoints`: id is primary, and (run_id, sequence) is unique.
unfoldable pub checkpoint_conflicts : Checkpoint → List Checkpoint → Bool
checkpoint_conflicts checkpoint [] = false
checkpoint_conflicts checkpoint (row ∷ rows) =
    (row.id.uuid == checkpoint.id.uuid
      || (row.run_id.uuid == checkpoint.run_id.uuid && row.sequence.get == checkpoint.sequence.get))
    || checkpoint_conflicts checkpoint rows

-- `INSERT INTO checkpoints` with its references to `runs` and `snapshots`.
unfoldable pub insert_checkpoint : Database → Checkpoint → Result Database StoreError
insert_checkpoint db checkpoint = do
  sequence ← sql_u64 checkpoint.sequence.get
  offset ← sql_u64 checkpoint.monotonic_offset.nanoseconds
  fail_if (checkpoint_conflicts checkpoint db.checkpoints) database
  fail_if (not (is_some (run_status checkpoint.run_id db.runs))) database
  fail_if (not (has_snapshot (some checkpoint.snapshot_id) db.snapshots)) database
  ok (record db { checkpoints = db.checkpoints ++ (checkpoint ∷ []) })

-- `… IS NULL OR … = ?2`
unfoldable pub is_open : SnapshotId → Option SnapshotId → Bool
is_open id none = true
is_open id (some old) = bytes_eq old.bytes id.bytes

abbrev pub with_initial : SnapshotId → Run → Run
with_initial id run = record run { initial_snapshot = some id }

abbrev pub with_final : SnapshotId → Run → Run
with_final id run = record run { final_snapshot = some id }

-- `set_run_snapshot` for each of the two columns: the update changes one row or none.
unfoldable pub set_initial : Option Run → Database → SnapshotId → Result Database StoreError
set_initial none db id = err invalid_checkpoint
set_initial (some run) db id = do
  fail_if (not (is_open id run.initial_snapshot)) invalid_checkpoint
  ok (record db { runs = update_run run.id (with_initial id) db.runs })

unfoldable pub set_final : Option Run → Database → SnapshotId → Result Database StoreError
set_final none db id = err invalid_checkpoint
set_final (some run) db id = do
  fail_if (not (is_open id run.final_snapshot)) invalid_checkpoint
  ok (record db { runs = update_run run.id (with_final id) db.runs })

unfoldable pub link_snapshot :
    CheckpointReason → Database → RunId → SnapshotId → Result Database StoreError
link_snapshot initial db run id = set_initial (find_run run db.runs) db id
link_snapshot final db run id = set_final (find_run run db.runs) db id
link_snapshot manual db run id = ok db
link_snapshot process_boundary db run id = ok db
link_snapshot filesystem_quiescence db run id = ok db
link_snapshot agent_adapter db run id = ok db

-- The derived `PartialEq` of `Timestamp`.
unfoldable pub timestamp_eq : Discrete Timestamp
unfolding ℕ_discrete
timestamp_eq = hlevel ℕ_discrete

abbrev pub is_yes {ℓ} : {P : Type ℓ} → Dec P → Bool
is_yes (yes p) = true
is_yes (no p) = false

unfoldable pub describes : Checkpoint → EventPayload → Bool
describes checkpoint (checkpoint_committed checkpoint_id snapshot_id) =
    checkpoint_id.uuid == checkpoint.id.uuid
    && bytes_eq snapshot_id.bytes checkpoint.snapshot_id.bytes
describes checkpoint payload = false

-- `matches` in `commit_checkpoint_with_event`
unfoldable pub event_matches : Checkpoint → Event → Bool
event_matches checkpoint event =
    event.run_id.uuid == checkpoint.run_id.uuid
    && event.sequence.get == checkpoint.sequence.get
    && is_yes (timestamp_eq event.wall_clock checkpoint.created_at)
    && event.monotonic_offset.nanoseconds == checkpoint.monotonic_offset.nanoseconds
    && describes checkpoint event.payload

-- `SELECT … FROM checkpoints WHERE id = ?1`
unfoldable pub find_checkpoint : CheckpointId → List Checkpoint → Option Checkpoint
find_checkpoint id [] = none
find_checkpoint id (row ∷ rows) =
    let rest = find_checkpoint id rows in if row.id.uuid == id.uuid then some row else rest

unfoldable pub decode_checkpoint : Option Checkpoint → Result Checkpoint StoreError
decode_checkpoint none = err not_found
decode_checkpoint (some row) = do
  fail_if (row.sequence.get == 0) invalid_checkpoint
  map_err refused_checkpoint (validate_checkpoint row)
  ok row

unfoldable pub load_checkpoint : Store → CheckpointId → Result Checkpoint StoreError
load_checkpoint store id = decode_checkpoint (find_checkpoint id store.tables.checkpoints)

module _ (digest : SnapshotManifest → SnapshotId) where
  unfoldable pub validate_checkpoint_snapshot : Checkpoint → Snapshot → Result (Unit {0}) StoreError
  validate_checkpoint_snapshot checkpoint snapshot = do
    map_err refused_checkpoint (validate_checkpoint checkpoint)
    fail_if (not (bytes_eq checkpoint.snapshot_id.bytes snapshot.id.bytes)) invalid_checkpoint
    validate_snapshot digest snapshot

  unfoldable pub commit_checkpoint_in :
      Database → Checkpoint → Snapshot → Result Database StoreError
  commit_checkpoint_in db checkpoint snapshot = do
    stored ← store_snapshot_in digest db snapshot checkpoint.created_at
    inserted ← insert_checkpoint stored checkpoint
    link_snapshot checkpoint.reason inserted checkpoint.run_id checkpoint.snapshot_id

  unfoldable pub commit_checkpoint : Store → Checkpoint → Snapshot → Result Store StoreError
  commit_checkpoint store checkpoint snapshot = do
    fail_if (not store.is_writer) read_only
    validate_checkpoint_snapshot checkpoint snapshot
    tables ← commit_checkpoint_in store.tables checkpoint snapshot
    ok (record store { tables = tables })

  unfoldable pub commit_checkpoint_with_event :
      Store → Checkpoint → Snapshot → Event → Result Store StoreError
  commit_checkpoint_with_event store checkpoint snapshot event = do
    fail_if (not store.is_writer) read_only
    validate_checkpoint_snapshot checkpoint snapshot
    fail_if (not (event_matches checkpoint event)) invalid_checkpoint
    committed ← commit_checkpoint_in store.tables checkpoint snapshot
    tables ← append_event_batch_in committed (event ∷ [])
    ok (record store { tables = tables })
