-- ===== src/Store/Checkpoints/Tests.antt =====
-- A checkpoint of a directory with one file, and the properties at it.
use rewind_git_for_ai_agent.Prelude.{[], ◌∷◌, ◌++◌, ◌≡◌, refl, none, arith, ok, pos}
use rewind_git_for_ai_agent.Bytes.{bytes_eq, cmp}
use rewind_git_for_ai_agent.Bytes.Separator.{contains, starts_with, split}
use rewind_git_for_ai_agent.Domain.Path.{check_component, check_components, from_str}
use rewind_git_for_ai_agent.Domain.Permissions.{new, is_executable}
use rewind_git_for_ai_agent.Domain.Manifest
use rewind_git_for_ai_agent.Domain.Manifest.{
  Snapshot, check_order, check_entries, from_canonical_entries,
}
use rewind_git_for_ai_agent.Domain.Tests.{source_directory, script}
use rewind_git_for_ai_agent.Domain.Run.{Checkpoint, manual, validate_label, validate_checkpoint}
use rewind_git_for_ai_agent.Domain.Event
use rewind_git_for_ai_agent.Domain.Event.{Event, checkpoint_committed, validate_payload}
use rewind_git_for_ai_agent.Store.Timeline.{
  Store, sql_u64, run_status, object_size, events_of, highest, check_follows, validate_events,
  check_first, check_status, conflicts, validate_referenced_object, index_payload, insert_event,
  insert_events, append_event_batch_in,
}
use rewind_git_for_ai_agent.Store.Timeline.Tests.{fresh, event_at}
use rewind_git_for_ai_agent.Store.Runs.{has_snapshot}
use rewind_git_for_ai_agent.Store.Snapshots.{
  add_size, sum_sizes, columns, has_entry, has_object, insert_entry, insert_entries, find_snapshot,
  load_snapshot, insert_snapshot, store_snapshot_in, store_snapshot, validate_snapshot,
}
use rewind_git_for_ai_agent.Store.Snapshots.RoundTrip.{rows_of}
use rewind_git_for_ai_agent.Store.Snapshots.Stored.{IsManifest, load_snapshot-store_snapshot}
use rewind_git_for_ai_agent.Store.Checkpoints.{
  checkpoint_conflicts, insert_checkpoint, link_snapshot, timestamp_eq, describes, event_matches,
  validate_checkpoint_snapshot, commit_checkpoint_in, commit_checkpoint_with_event,
}
use rewind_git_for_ai_agent.Store.Checkpoints.Committing.{commit_checkpoint_with_event_lem}
use rewind_git_for_ai_agent.Store.History.Tests.{one_digest}

abbrev pub tree : Snapshot
tree = record {
  id = record { bytes = 7 ∷ [] };
  manifest = record { schema_version = 1; entries = source_directory ∷ script ∷ [] };
}

pub tree-IsManifest : IsManifest tree.manifest
unfolding from_canonical_entries check_entries check_order Manifest.validate is_executable from_str
    check_components check_component contains starts_with split bytes_eq cmp new
tree-IsManifest = record {
  canonical = refl;
  entries = (
    record { path = refl; permissions = refl; two_bytes = omega arith },
    (record { path = refl; permissions = refl; two_bytes = omega arith }, tt),
  );
}

abbrev pub working : Store
working = record fresh {
  tables = record fresh.tables {
    objects =
        record {
          id = record { bytes = 7 ∷ [] };
          logical_size = 3;
          stored_size = 19;
          created = record { unix_milliseconds = pos 0 };
        }
        ∷ [];
  };
}

abbrev stored : Store
stored = record working {
  tables = record working.tables {
    snapshots =
        record {
          id = tree.id;
          schema_version = 1;
          entry_count = 2;
          logical_bytes = 3;
          created = record { unix_milliseconds = pos 0 };
        }
        ∷ [];
    entries = rows_of tree.id tree.manifest.entries;
  };
}

store_snapshot-stored :
    store_snapshot one_digest working tree (record { unix_milliseconds = pos 0 }) ≡ ok stored
unfolding store_snapshot validate_snapshot store_snapshot_in sum_sizes add_size sql_u64
    find_snapshot insert_snapshot insert_entries insert_entry columns has_entry has_object
    object_size bytes_eq cmp
store_snapshot-stored = refl

load_snapshot-store_snapshot_example : load_snapshot one_digest stored tree.id ≡ ok tree
load_snapshot-store_snapshot_example =
    load_snapshot-store_snapshot one_digest working stored tree
      (record { unix_milliseconds = pos 0 }) tree-IsManifest tt store_snapshot-stored

abbrev marked : Checkpoint
marked = record {
  id = record { uuid = 5 };
  run_id = record { uuid = 1 };
  sequence = record { get = 1 };
  label = none;
  reason = manual;
  snapshot_id = tree.id;
  created_at = record { unix_milliseconds = pos 0 };
  monotonic_offset = record { nanoseconds = 10 };
}

abbrev report : Event
report = event_at 1 (checkpoint_committed marked.id tree.id)

abbrev committed : Store
committed = record stored {
  tables = record stored.tables { checkpoints = marked ∷ []; events = report ∷ [] };
}

commit_checkpoint_with_event-committed :
    commit_checkpoint_with_event one_digest working marked tree report ≡ ok committed
unfolding commit_checkpoint_with_event validate_checkpoint_snapshot validate_checkpoint
    validate_label event_matches describes timestamp_eq commit_checkpoint_in insert_checkpoint
    checkpoint_conflicts has_snapshot link_snapshot store_snapshot validate_snapshot
    store_snapshot_in sum_sizes add_size sql_u64 find_snapshot insert_snapshot insert_entries
    insert_entry columns has_entry has_object object_size bytes_eq cmp append_event_batch_in
    validate_events Event.validate validate_payload check_follows check_status run_status
    check_first highest events_of insert_events insert_event conflicts validate_referenced_object
    index_payload
commit_checkpoint_with_event-committed = refl

commit_checkpoint_with_event_lem_example :
    (load_snapshot one_digest committed tree.id ≡ ok tree)
    × (committed.tables.checkpoints ≡ working.tables.checkpoints ++ (marked ∷ []))
    × (committed.tables.events ≡ working.tables.events ++ (report ∷ []))
    × (report.payload ≡ checkpoint_committed marked.id tree.id)
commit_checkpoint_with_event_lem_example =
    commit_checkpoint_with_event_lem one_digest working committed marked tree report tree-IsManifest
      tt commit_checkpoint_with_event-committed
