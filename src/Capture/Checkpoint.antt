-- ===== src/Capture/Checkpoint.antt =====
-- crates/rewind-capture/src/recorder.rs: the checkpoints of a recorder. The parameter `digest` is
-- `compute_snapshot_id`, and `scan` is `scan_workspace` with the workspace as it is: what it does to the
-- store, and its report.
pub mod Committed
pub mod Refused
pub mod Tests
use rewind_git_for_ai_agent.Prelude.{
  ℕ, ◌+◌, ◌^◌, List, [], ◌∷◌, ◌++◌, length, Bool, true, false, Option, none, some, ltb,
  if◌then◌else◌, Result, ok, err,
}
use rewind_git_for_ai_agent.Bytes.{Bytes, bytes_eq}
use rewind_git_for_ai_agent.Bytes.Text.{ascii}
use rewind_git_for_ai_agent.Domain.Path.{SnapshotPath}
use rewind_git_for_ai_agent.Domain.Digest.{ObjectId, SnapshotId}
use rewind_git_for_ai_agent.Domain.Ids.{RunId, CheckpointId, EventSequence, Timestamp}
use rewind_git_for_ai_agent.Domain.Manifest.{
  SnapshotEntry, SnapshotEntryKind, directory, file, symlink, SnapshotManifest, Snapshot,
}
use rewind_git_for_ai_agent.Domain.Run.{Checkpoint, CheckpointReason, manual}
use rewind_git_for_ai_agent.Domain.Event.{
  Event, EventPayload, checkpoint_started, checkpoint_committed, checkpoint_failed, marker_created,
  RecorderFailureKind, snapshot, resource_limit,
}
use rewind_git_for_ai_agent.Store.Timeline.{Store, StoreError}
use rewind_git_for_ai_agent.Store.Checkpoints.{commit_checkpoint_with_event}
use rewind_git_for_ai_agent.Capture.Session.{
  CaptureOptions, CaptureError, clock_out_of_range, store_failed,
}
use rewind_git_for_ai_agent.Capture.Actions.{Ran, Action, return, throw, resume, ◌>>=◌, ◌>>◌}
use rewind_git_for_ai_agent.Capture.Recorder.{
  Reading, Recorder, Candidate, projected_object_bytes, account_objects, flush, now, next_event,
  emit, warn_run_storage_limit,
}

-- The exclusions are their paths here, without the reasons.
pub record ScanReport : Type 0 where
  pub snapshot : Snapshot
  pub exclusions : List SnapshotPath

pub record CheckpointCommit : Type 0 where
  pub id : CheckpointId
  pub snapshot_id : SnapshotId
  pub exclusions : ℕ

-- The insertion of `BTreeMap`, which replaces the size of a key that is there.
unfoldable pub insert_candidate : ObjectId → ℕ → List Candidate → List Candidate
insert_candidate id size [] = record { object_id = id; logical_size = size } ∷ []
insert_candidate id size (c ∷ cs) =
    let rest = insert_candidate id size cs in
    if bytes_eq c.object_id.bytes id.bytes
    then record { object_id = id; logical_size = size } ∷ cs
    else c ∷ rest

unfoldable pub add_file : SnapshotEntryKind → List Candidate → List Candidate
add_file (file object_id size executable) found = insert_candidate object_id size found
add_file directory found = found
add_file (symlink target) found = found

unfoldable pub file_objects : List SnapshotEntry → List Candidate → List Candidate
file_objects [] found = found
file_objects (entry ∷ entries) found = file_objects entries (add_file entry.kind found)

unfoldable pub exclude : List SnapshotPath → Action Recorder (Unit {0})
exclude paths r = record {
  result = ok tt;
  state = record r { excluded_paths = r.excluded_paths ++ paths };
}

abbrev pub checkpoint_of :
    CheckpointId → CheckpointReason → Option Bytes → RunId → SnapshotId → Event → Checkpoint
checkpoint_of id reason label run_id snapshot_id committed = record {
  id = id;
  run_id = run_id;
  sequence = committed.sequence;
  label = label;
  reason = reason;
  snapshot_id = snapshot_id;
  created_at = committed.wall_clock;
  monotonic_offset = committed.monotonic_offset;
}

-- `?` on the store's result: the pending events stay as they are.
unfoldable pub take_store : Result Store StoreError → Action Recorder (Unit {0})
take_store (err problem) r = record { result = err (store_failed problem); state = r }
take_store (ok store) r = record { result = ok tt; state = record r { store = store } }

unfoldable pub count_checkpoint : Action Recorder (Unit {0})
count_checkpoint r =
    if ltb (r.checkpoint_count + 1) (2 ^ 64)
    then record { result = ok tt; state = record r { checkpoint_count = r.checkpoint_count + 1 } }
    else record { result = err clock_out_of_range; state = r }

module _ (digest : SnapshotManifest → SnapshotId) (clock : ℕ → Result Reading CaptureError)
    (options : CaptureOptions) where
  unfoldable pub commit_event :
      CheckpointId → CheckpointReason → Option Bytes → Snapshot → Event → Action Recorder (Unit {0})
  commit_event id reason label tree committed r =
      take_store
        (commit_checkpoint_with_event digest r.store
          (checkpoint_of id reason label r.run_id tree.id committed) tree committed)
        r

  unfoldable pub fail_checkpoint :
      CheckpointId → RecorderFailureKind → Bytes → Action Recorder (Unit {0})
  fail_checkpoint id kind message = do
    sequence ← emit clock options (checkpoint_failed id (record { kind = kind; message = message }))
    flush

  -- `match self.projected_object_bytes(&objects)`
  unfoldable pub commit_projected :
      CheckpointId
      → CheckpointReason
      → Option Bytes
      → ScanReport
      → Result ℕ CaptureError
      → Action Recorder CheckpointCommit
  commit_projected id reason label report (err problem) = do
    warn_run_storage_limit clock options
    fail_checkpoint id resource_limit
        (ascii "Run storage limit prevented this checkpoint from committing.")
    throw problem
  commit_projected id reason label report (ok projected) = do
    committed ← next_event clock options (checkpoint_committed id report.snapshot.id)
    commit_event id reason label report.snapshot committed
    account_objects (file_objects report.snapshot.manifest.entries []) projected
    count_checkpoint
    return (record {
      id = id;
      snapshot_id = report.snapshot.id;
      exclusions = length report.exclusions;
    })

  unfoldable pub commit_scanned :
      CheckpointId → CheckpointReason → Option Bytes → ScanReport → Action Recorder CheckpointCommit
  commit_scanned id reason label report = do
    exclude report.exclusions
    λ r.
        commit_projected id reason label report
          (projected_object_bytes options r (file_objects report.snapshot.manifest.entries [])) r

  -- `match scan_workspace(…)`
  unfoldable pub commit_found :
      CheckpointId
      → CheckpointReason
      → Option Bytes
      → Result ScanReport CaptureError
      → Action Recorder CheckpointCommit
  commit_found id reason label (ok report) = commit_scanned id reason label report
  commit_found id reason label (err problem) = do
    fail_checkpoint id snapshot
        (ascii "Authoritative workspace scan failed; no checkpoint was committed.")
    throw problem

  module _ (scan : Store → Timestamp → Ran Store ScanReport) where
    unfoldable pub scan_and_commit :
        CheckpointId
        → CheckpointReason
        → Option Bytes
        → Timestamp
        → Action Recorder CheckpointCommit
    scan_and_commit id reason label created r =
        commit_found id reason label (scan r.store created).result
          (record r { store = (scan r.store created).state })

    unfoldable pub checkpoint_allocated :
        CheckpointId → CheckpointReason → Option Bytes → Action Recorder CheckpointCommit
    checkpoint_allocated id reason label = do
      sequence ← emit clock options (checkpoint_started id reason)
      flush
      reading ← now clock options
      scan_and_commit id reason label reading.wall_clock

    -- The identifier is the one that `CheckpointId::generate` gives.
    unfoldable pub manual_checkpoint : CheckpointId → Option Bytes → Action Recorder CheckpointId
    manual_checkpoint id (some label) = do
      sequence ← emit clock options (marker_created id label)
      commit ← checkpoint_allocated id manual (some label)
      return commit.id
    manual_checkpoint id none = do commit ← checkpoint_allocated id manual none; return commit.id
