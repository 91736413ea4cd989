-- ===== src/Store/Runs/Tests.antt =====
-- A run that is finalized with its last event, and the properties at that history.
use rewind_git_for_ai_agent.Prelude.{[], ◌∷◌, ◌++◌, ◌≡◌, refl, true, none, some, ok, err, pos}
use rewind_git_for_ai_agent.Domain.Run.{completed, can_transition_to, is_terminal}
use rewind_git_for_ai_agent.Domain.Run.Tests.{active_run}
use rewind_git_for_ai_agent.Domain.Event.{Event, run_completed, validate_payload, validate}
use rewind_git_for_ai_agent.Store.Timeline.{
  Store, invalid_run, sql_u64, run_status, events_of, highest, check_follows, validate_events,
  check_first, check_status, conflicts, validate_referenced_object, index_payload, insert_event,
  insert_events, append_event_batch_in,
}
use rewind_git_for_ai_agent.Store.Timeline.Sequence.{last_of}
use rewind_git_for_ai_agent.Store.Timeline.Tests.{fresh, event_at}
use rewind_git_for_ai_agent.Store.Runs.{
  RunFinish, update_run, has_snapshot, close, start_if_preparing, mark_run_running, check_current,
  finish_run_in, finish_run, last_event, status_eq, exit_status_eq, check_completion,
  check_terminal_event, finish_run_with_events,
}
use rewind_git_for_ai_agent.Store.Runs.Finished.{finish_run_with_events_lem}

abbrev pub finish : RunFinish
finish = record {
  status = completed;
  finished_at = record { unix_milliseconds = pos 9 };
  monotonic_duration = record { nanoseconds = 10 };
  final_snapshot = none;
  exit_status = none;
}

abbrev pub completion : Event
completion = event_at 1 (run_completed completed none)

abbrev pub closed : Store
closed = record fresh {
  tables = record fresh.tables { runs = close finish active_run ∷ []; events = completion ∷ [] };
}

pub finish_run_with_events-closed :
    finish_run_with_events fresh (record { uuid = 1 }) finish (completion ∷ []) ≡ ok closed
unfolding finish_run_with_events check_terminal_event check_completion last_event status_eq
    exit_status_eq finish_run_in check_current update_run has_snapshot can_transition_to is_terminal
    append_event_batch_in validate_events validate validate_payload check_follows check_status
    run_status check_first highest events_of insert_events insert_event sql_u64 conflicts
    validate_referenced_object index_payload
finish_run_with_events-closed = refl

finish_run_twice : finish_run closed (record { uuid = 1 }) finish ≡ err invalid_run
unfolding finish_run finish_run_in check_current can_transition_to is_terminal run_status
finish_run_twice = refl

mark_run_running_twice :
    mark_run_running fresh (record { uuid = 1 }) (record { bytes = 7 ∷ [] }) ≡ err invalid_run
unfolding mark_run_running start_if_preparing run_status
mark_run_running_twice = refl

finish_run_with_events_lem_example :
    (is_terminal finish.status ≡ true)
    × (run_status (record { uuid = 1 }) closed.tables.runs ≡ some finish.status)
    × (closed.tables.events ≡ fresh.tables.events ++ (completion ∷ []))
    × (last : Event) × (last_of none (completion ∷ []) ≡ some last)
    × (last.payload ≡ run_completed finish.status finish.exit_status)
finish_run_with_events_lem_example =
    finish_run_with_events_lem fresh closed (record { uuid = 1 }) finish (completion ∷ [])
      finish_run_with_events-closed
