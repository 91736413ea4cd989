-- ===== src/Capture/Checkpoint/Tests.antt =====
-- The checkpoint of a directory with one file, committed, and refused by a store that is only read.
use rewind_git_for_ai_agent.Prelude.{[], ◌≡◌, refl, false, none, some, arith, ok, err}
use rewind_git_for_ai_agent.Bytes.{bytes_eq, cmp}
use rewind_git_for_ai_agent.Domain.Ids.{CheckpointId, event_sequence, checked_next}
use rewind_git_for_ai_agent.Domain.Run.{manual, validate_label, validate_checkpoint}
use rewind_git_for_ai_agent.Domain.Event
use rewind_git_for_ai_agent.Domain.Event.{validate_payload, run_interrupted}
use rewind_git_for_ai_agent.Store.Timeline.{
  read_only, sql_u64, run_status, object_size, events_of, highest, check_follows, validate_events,
  check_first, check_status, conflicts, validate_referenced_object, index_payload, insert_event,
  insert_events, append_event_batch_in, append_event_batch, event_order,
}
use rewind_git_for_ai_agent.Store.Runs.{has_snapshot}
use rewind_git_for_ai_agent.Store.Snapshots.{
  add_size, sum_sizes, columns, has_entry, has_object, insert_entry, insert_entries, find_snapshot,
  insert_snapshot, store_snapshot_in, store_snapshot, validate_snapshot,
}
use rewind_git_for_ai_agent.Store.Checkpoints.{
  checkpoint_conflicts, insert_checkpoint, link_snapshot, timestamp_eq, describes, event_matches,
  validate_checkpoint_snapshot, commit_checkpoint_in, commit_checkpoint_with_event,
}
use rewind_git_for_ai_agent.Store.Checkpoints.Tests.{tree, working, tree-IsManifest}
use rewind_git_for_ai_agent.Store.History.Tests.{one_digest}
use rewind_git_for_ai_agent.Capture.Session.{store_failed}
use rewind_git_for_ai_agent.Capture.Recorder.{
  Recorder, advance, next_at, contains_object, additional_bytes, within_limit,
  projected_object_bytes, account_objects, take_event, now, next_event, queue_event, push_pending,
  flush_if_full, flush, flush_pending, flushed, emit,
}
use rewind_git_for_ai_agent.Capture.Recorder.Trace.{InStep}
use rewind_git_for_ai_agent.Capture.Checkpoint.{
  ScanReport, insert_candidate, add_file, file_objects, exclude, take_store, count_checkpoint,
  commit_event, commit_projected, commit_scanned,
}
use rewind_git_for_ai_agent.Capture.Checkpoint.Committed.{IsCommit, commit_scanned-IsCommit}
use rewind_git_for_ai_agent.Capture.Checkpoint.Refused.{IsUntouched, commit_scanned-IsUntouched}
use rewind_git_for_ai_agent.Capture.Tests.{clock, options, recorder}

abbrev found : ScanReport
found = record { snapshot = tree; exclusions = [] }

abbrev ready : Recorder
ready = record recorder { store = working }

abbrev five : CheckpointId
five = record { uuid = 5 }

ready-InStep : InStep ready
unfolding events_of
ready-InStep = record {
  own = tt;
  contiguous = tt;
  next = refl;
  offset = omega arith;
  same_run = refl;
}

commit_scanned-found :
    (commit_scanned one_digest clock options five manual none found ready).result
    ≡ ok (record { id = five; snapshot_id = tree.id; exclusions = 0 })
unfolding commit_scanned exclude commit_projected commit_event count_checkpoint take_store
    file_objects add_file insert_candidate projected_object_bytes within_limit additional_bytes
    contains_object account_objects next_event now take_event next_at advance Event.new
    event_sequence checked_next commit_checkpoint_with_event validate_checkpoint_snapshot
    validate_checkpoint validate_label event_matches describes timestamp_eq commit_checkpoint_in
    insert_checkpoint checkpoint_conflicts has_snapshot link_snapshot store_snapshot
    validate_snapshot store_snapshot_in sum_sizes add_size sql_u64 find_snapshot insert_snapshot
    insert_entries insert_entry columns has_entry has_object object_size bytes_eq cmp
    append_event_batch_in validate_events Event.validate validate_payload check_follows check_status
    run_status check_first highest events_of insert_events insert_event conflicts
    validate_referenced_object index_payload
commit_scanned-found = refl

commit_scanned-IsCommit_example :
    IsCommit one_digest clock options five tree ready
      (commit_scanned one_digest clock options five manual none found ready).state
commit_scanned-IsCommit_example =
    commit_scanned-IsCommit one_digest clock options five manual none found ready
      (record { id = five; snapshot_id = tree.id; exclusions = 0 }) tree-IsManifest tt ready-InStep
      refl commit_scanned-found

abbrev reading_only : Recorder
reading_only = record recorder { store = record working { is_writer = false } }

commit_scanned-read_only :
    (commit_scanned one_digest clock options five manual none found reading_only).result
    ≡ err (store_failed read_only)
unfolding commit_scanned exclude commit_projected commit_event take_store file_objects add_file
    insert_candidate projected_object_bytes within_limit additional_bytes contains_object next_event
    now take_event next_at advance Event.new Event.validate validate_payload event_sequence
    checked_next commit_checkpoint_with_event bytes_eq cmp
commit_scanned-read_only = refl

commit_scanned-IsUntouched_example :
    IsUntouched reading_only
      (commit_scanned one_digest clock options five manual none found reading_only).state
commit_scanned-IsUntouched_example =
    commit_scanned-IsUntouched one_digest clock options five manual none found reading_only
      (store_failed read_only) (omega arith) commit_scanned-read_only

-- A refused commit has used up a number of the sequencer: what the recorder makes next is out of order.
flush_after_refusal :
    (flush
      (emit clock options
        (run_interrupted none)
        (commit_scanned one_digest clock options five manual
          (some [])
          found
          ready).state).state).result
    ≡ err (store_failed event_order)
unfolding commit_scanned exclude commit_projected commit_event take_store file_objects add_file
    insert_candidate projected_object_bytes within_limit additional_bytes contains_object next_event
    now take_event next_at advance Event.new Event.validate validate_payload event_sequence
    checked_next commit_checkpoint_with_event validate_checkpoint_snapshot validate_checkpoint
    validate_label bytes_eq cmp emit queue_event push_pending flush_if_full flush flush_pending
    flushed append_event_batch append_event_batch_in validate_events check_follows check_status
    run_status check_first highest events_of
flush_after_refusal = refl
