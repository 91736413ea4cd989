-- ===== src/Store/Runs.antt =====
-- crates/rewind-store/src/run.rs: the two steps of a run's status in the table of runs, and the
-- finalization that stores the last events with the second. The messages of the errors are left out.
pub mod Updates
pub mod Finished
pub mod Tests
use mathlib.Core.Logic.{ite}
use native.Mathlib.Decide.{ℕ_discrete}
use rewind_git_for_ai_agent.Prelude.{
  ℕ, List, [], ◌∷◌, Bool, true, false, not, ◌&&◌, ◌||◌, Option, none, some, ◌==◌, if◌then◌else◌,
  Result, ok, err, ◌>>=◌, ◌>>◌, fail_if,
}
use rewind_git_for_ai_agent.Bytes.{Bytes, bytes_eq}
use rewind_git_for_ai_agent.Domain.Digest.{SnapshotId}
use rewind_git_for_ai_agent.Store.Tables.{SnapshotRow}
use rewind_git_for_ai_agent.Domain.Ids.{RunId, MonotonicDuration, Timestamp}
use rewind_git_for_ai_agent.Domain.Run.{
  Run, RunStatus, preparing, running, ProcessExitStatus, can_transition_to, is_terminal,
}
use rewind_git_for_ai_agent.Domain.Event.{Event, EventPayload, run_completed}
use rewind_git_for_ai_agent.Store.Timeline.{
  Database, Store, StoreError, read_only, event_order, not_found, invalid_event, invalid_run,
  database, sql_u64, run_status, append_event_batch_in,
}

pub record RunFinish : Type 0 where
  pub status : RunStatus
  pub finished_at : Timestamp
  pub monotonic_duration : MonotonicDuration
  pub final_snapshot : Option SnapshotId
  pub exit_status : Option ProcessExitStatus

-- `UPDATE runs SET … WHERE id = ?1`
unfoldable pub update_run : RunId → (Run → Run) → List Run → List Run
update_run id change [] = []
update_run id change (run ∷ runs) =
    let rest = update_run id change runs in
    (if run.id.uuid == id.uuid then change run else run) ∷ rest

-- `REFERENCES snapshots(id)` of a column that may be null.
unfoldable pub has_snapshot : Option SnapshotId → List SnapshotRow → Bool
has_snapshot none snapshots = true
has_snapshot (some id) [] = false
has_snapshot (some id) (row ∷ rows) = bytes_eq row.id.bytes id.bytes || has_snapshot (some id) rows

abbrev pub start : SnapshotId → Run → Run
start initial_snapshot run = record run {
  status = running;
  initial_snapshot = some initial_snapshot;
}

-- The update of the prepared run, or `missing_or_state_error`: the `WHERE` finds one row just when the
-- run is there and preparing.
unfoldable pub start_if_preparing :
    Option RunStatus → Database → RunId → SnapshotId → Result Database StoreError
start_if_preparing none db id initial_snapshot = err not_found
start_if_preparing (some preparing) db id initial_snapshot = do
  fail_if (not (has_snapshot (some initial_snapshot) db.snapshots)) database
  ok (record db { runs = update_run id (start initial_snapshot) db.runs })
start_if_preparing (some status) db id initial_snapshot = err invalid_run

unfoldable pub mark_run_running : Store → RunId → SnapshotId → Result Store StoreError
mark_run_running store id initial_snapshot = do
  fail_if (not store.is_writer) read_only
  tables ← start_if_preparing (run_status id store.tables.runs) store.tables id initial_snapshot
  ok (record store { tables = tables })

abbrev pub close : RunFinish → Run → Run
close finish run = record run {
  status = finish.status;
  finished_at = some finish.finished_at;
  monotonic_duration = some finish.monotonic_duration;
  final_snapshot = finish.final_snapshot;
  exit_status = finish.exit_status;
}

unfoldable pub check_current : Option RunStatus → RunStatus → Result (Unit {0}) StoreError
check_current none next = err not_found
check_current (some current) next = fail_if (not (can_transition_to current next)) invalid_run

unfoldable pub finish_run_in : Database → RunId → RunFinish → Result Database StoreError
finish_run_in db id finish = do
  fail_if (not (is_terminal finish.status)) invalid_run
  check_current (run_status id db.runs) finish.status
  duration ← sql_u64 finish.monotonic_duration.nanoseconds
  fail_if (not (has_snapshot finish.final_snapshot db.snapshots)) database
  ok (record db { runs = update_run id (close finish) db.runs })

unfoldable pub finish_run : Store → RunId → RunFinish → Result Store StoreError
finish_run store id finish = do
  fail_if (not store.is_writer) read_only
  tables ← finish_run_in store.tables id finish
  ok (record store { tables = tables })

-- `events.last()`
unfoldable pub last_event : Event → List Event → Event
last_event event [] = event
last_event event (next ∷ events) = last_event next events

-- The derived `PartialEq` of statuses.
unfoldable pub status_eq : Discrete RunStatus
status_eq = hlevel

unfoldable pub exit_status_eq : Discrete (Option ProcessExitStatus)
unfolding ℕ_discrete
exit_status_eq = hlevel ℕ_discrete

-- The last event against the data of the finalization.
unfoldable pub check_completion :
    RunId → RunFinish → Event → EventPayload → Result (Unit {0}) StoreError
check_completion id finish last (run_completed status exit_status) =
    ite (status_eq status finish.status)
      (ite (exit_status_eq exit_status finish.exit_status)
        (fail_if (not (last.run_id.uuid == id.uuid)) invalid_event) (err invalid_event))
      (err invalid_event)
check_completion id finish last payload = err invalid_event

unfoldable pub check_terminal_event : RunId → RunFinish → List Event → Result (Unit {0}) StoreError
check_terminal_event id finish [] = err event_order
check_terminal_event id finish (event ∷ events) =
    check_completion id finish (last_event event events) (last_event event events).payload

unfoldable pub finish_run_with_events :
    Store → RunId → RunFinish → List Event → Result Store StoreError
finish_run_with_events store id finish events = do
  fail_if (not store.is_writer) read_only
  check_terminal_event id finish events
  appended ← append_event_batch_in store.tables events
  tables ← finish_run_in appended id finish
  ok (record store { tables = tables })
