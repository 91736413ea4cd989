-- ===== src/Store/History.antt =====
-- Histories of a store: sequences of the calls of crates/rewind-store/src/event.rs, run.rs and
-- snapshot.rs that change runs, events, snapshots and checkpoints. The parameters are those of the
-- operations.
pub mod Changes
pub mod Closed
pub mod Consistent
pub mod Invariants
pub mod Tests
use rewind_git_for_ai_agent.Prelude.{List, ◌≡◌, Bool, ok}
use rewind_git_for_ai_agent.Bytes.{Bytes}
use rewind_git_for_ai_agent.Domain.Digest.{SnapshotId}
use rewind_git_for_ai_agent.Domain.Ids.{RunId, Timestamp}
use rewind_git_for_ai_agent.Domain.Manifest.{SnapshotManifest, Snapshot}
use rewind_git_for_ai_agent.Domain.Run.{Run, Checkpoint}
use rewind_git_for_ai_agent.Domain.Event.{Event}
use rewind_git_for_ai_agent.Store.Timeline.{Store, append_event_batch}
use rewind_git_for_ai_agent.Store.Runs.{
  RunFinish, mark_run_running, finish_run, finish_run_with_events,
}
use rewind_git_for_ai_agent.Store.Creation.{create_run}
use rewind_git_for_ai_agent.Store.Snapshots.{store_snapshot}
use rewind_git_for_ai_agent.Store.Checkpoints.{commit_checkpoint, commit_checkpoint_with_event}

-- One successful call of an operation.
pub data Step (is_utf8 : Bytes → Bool) (digest : SnapshotManifest → SnapshotId)
    : Store → Store → Type 0 where
  creating :
      {s s' : Store} (run : Run) → create_run is_utf8 s run ≡ ok s' → Step is_utf8 digest s s'
  storing :
      {s s' : Store} (snapshot : Snapshot) (created : Timestamp)
      → store_snapshot digest s snapshot created ≡ ok s'
      → Step is_utf8 digest s s'
  checkpointing :
      {s s' : Store} (checkpoint : Checkpoint) (snapshot : Snapshot)
      → commit_checkpoint digest s checkpoint snapshot ≡ ok s'
      → Step is_utf8 digest s s'
  checkpointing_with_event :
      {s s' : Store} (checkpoint : Checkpoint) (snapshot : Snapshot) (event : Event)
      → commit_checkpoint_with_event digest s checkpoint snapshot event ≡ ok s'
      → Step is_utf8 digest s s'
  appending :
      {s s' : Store} (events : List Event)
      → append_event_batch s events ≡ ok s'
      → Step is_utf8 digest s s'
  starting :
      {s s' : Store} (id : RunId) (snapshot : SnapshotId)
      → mark_run_running s id snapshot ≡ ok s'
      → Step is_utf8 digest s s'
  finishing :
      {s s' : Store} (id : RunId) (finish : RunFinish)
      → finish_run s id finish ≡ ok s'
      → Step is_utf8 digest s s'
  finishing_with_events :
      {s s' : Store} (id : RunId) (finish : RunFinish) (events : List Event)
      → finish_run_with_events s id finish events ≡ ok s'
      → Step is_utf8 digest s s'

pub data History (is_utf8 : Bytes → Bool) (digest : SnapshotManifest → SnapshotId)
    : Store → Store → Type 0 where
  nothing_yet : {s : Store} → History is_utf8 digest s s
  followed_by :
      {s s' s'' : Store}
      → Step is_utf8 digest s s'
      → History is_utf8 digest s' s''
      → History is_utf8 digest s s''
