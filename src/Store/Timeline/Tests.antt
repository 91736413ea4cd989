-- ===== src/Store/Timeline/Tests.antt =====
-- A store with one running run and its first event, and the properties at it.
use rewind_git_for_ai_agent.Prelude.{
  ℕ, ◌+◌, [], ◌∷◌, ◌++◌, length, take, drop, ◌≡◌, refl, true, none, some, inr, ltb, All, arith, ok,
  err, pos,
}
use rewind_git_for_ai_agent.Domain.Run.Tests.{active_run}
use rewind_git_for_ai_agent.Domain.Event.{
  Event, EventPayload, run_interrupted, terminal_resized, validate_payload, validate,
}
use rewind_git_for_ai_agent.Store.Timeline.{
  Store, event_order, sql_u64, run_status, events_of, highest, check_follows, validate_events,
  check_first, check_status, conflicts, validate_referenced_object, index_payload, insert_event,
  insert_events, append_event_batch_in, append_event_batch,
}
use rewind_git_for_ai_agent.Store.Timeline.Query.{load_timeline}
use rewind_git_for_ai_agent.Store.Timeline.Sequence.{IsContiguous, IsTimeline, last_of}
use rewind_git_for_ai_agent.Store.Timeline.Accepting.{
  IsStorable, HasActive, append_event_batch_complete,
}
use rewind_git_for_ai_agent.Store.Timeline.Appending.{
  append_event_batch-IsTimeline, append_event_batch-rows,
}
use rewind_git_for_ai_agent.Store.Timeline.Paging.{load_timeline_lem}

abbrev pub event_at : ℕ → EventPayload → Event
event_at n payload = record {
  id = record { uuid = 100 + n };
  run_id = record { uuid = 1 };
  sequence = record { get = n };
  wall_clock = record { unix_milliseconds = pos 0 };
  monotonic_offset = record { nanoseconds = 10 };
  schema_version = 1;
  payload = payload;
}

abbrev resized : Event
resized = event_at 1 (terminal_resized (record { uuid = 3 }) 80 24)

abbrev interrupted : Event
interrupted = event_at 2 (run_interrupted none)

abbrev pub fresh : Store
fresh = record {
  is_writer = true;
  files = [];
  tables = record {
    objects = [];
    snapshots = [];
    entries = [];
    checkpoints = [];
    runs = active_run ∷ [];
    events = [];
    warnings = [];
    terminal_chunks = [];
  };
}

abbrev recorded : Store
recorded = record fresh {
  tables = record {
    objects = [];
    snapshots = [];
    entries = [];
    checkpoints = [];
    runs = active_run ∷ [];
    events = resized ∷ interrupted ∷ [];
    warnings = [];
    terminal_chunks = [];
  };
}

append_event_batch-recorded : append_event_batch fresh (resized ∷ interrupted ∷ []) ≡ ok recorded
unfolding append_event_batch append_event_batch_in validate_events validate validate_payload
    check_follows check_status run_status check_first highest events_of insert_events insert_event
    sql_u64 conflicts validate_referenced_object index_payload
append_event_batch-recorded = refl

append_event_batch_rejects_gap : append_event_batch fresh (interrupted ∷ []) ≡ err event_order
unfolding append_event_batch append_event_batch_in validate_events validate validate_payload
    check_follows check_status run_status check_first highest events_of
append_event_batch_rejects_gap = refl

fresh-IsTimeline : IsTimeline fresh.tables
unfolding events_of
fresh-IsTimeline = record { valid = tt; contiguous = λ id. tt }

recorded-IsTimeline : IsTimeline recorded.tables
recorded-IsTimeline =
    append_event_batch-IsTimeline fresh recorded (resized ∷ interrupted ∷ []) fresh-IsTimeline
      append_event_batch-recorded

append_event_batch-rows_example :
    (recorded.tables.events ≡ fresh.tables.events ++ (resized ∷ interrupted ∷ []))
    × (recorded.tables.runs ≡ fresh.tables.runs)
    × (recorded.tables.objects ≡ fresh.tables.objects)
append_event_batch-rows_example =
    append_event_batch-rows fresh recorded (resized ∷ interrupted ∷ []) append_event_batch-recorded

load_timeline_lem_example :
    load_timeline recorded (record { uuid = 1 }) (some (record { get = 1 })) 1
    ≡ ok (record {
      events = take 1 (drop 1 (events_of (record { uuid = 1 }) recorded.tables.events));
      has_more = ltb 2 (length (events_of (record { uuid = 1 }) recorded.tables.events));
    })
load_timeline_lem_example =
    load_timeline_lem recorded (record { uuid = 1 }) (some (record { get = 1 })) 1
      recorded-IsTimeline (omega arith) (omega arith) (omega arith)

fresh-HasActive : HasActive resized.run_id fresh.tables.runs
unfolding run_status
fresh-HasActive = inr refl

resized-IsContiguous :
    IsContiguous
      (last_of none (events_of resized.run_id fresh.tables.events))
      (resized ∷ interrupted ∷ [])
unfolding events_of
resized-IsContiguous = (refl, omega arith, (refl, omega arith, tt))

resized-IsStorable :
    All (IsStorable resized.run_id fresh.tables.objects) (resized ∷ interrupted ∷ [])
unfolding validate validate_payload validate_referenced_object
resized-IsStorable = (
  record {
    valid = refl;
    own = refl;
    small_sequence = omega arith;
    small_offset = omega arith;
    referenced = refl;
  },
  (
    record {
      valid = refl;
      own = refl;
      small_sequence = omega arith;
      small_offset = omega arith;
      referenced = refl;
    },
    tt,
  ),
)

append_event_batch_complete_example :
    (store' : Store) × (append_event_batch fresh (resized ∷ interrupted ∷ []) ≡ ok store')
append_event_batch_complete_example =
    append_event_batch_complete fresh resized (interrupted ∷ []) refl fresh-IsTimeline
      fresh-HasActive resized-IsContiguous resized-IsStorable
      (tt, ((λ e. omega (arith, e), tt), tt))
