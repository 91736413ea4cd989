-- ===== src/Capture/Tests.antt =====
-- A recorder of the run of the store's tests, with a clock that goes on by one at each reading.
use rewind_git_for_ai_agent.Prelude.{
  ℕ, ◌+◌, [], ◌∷◌, ◌≡◌, refl, true, false, some, inr, Result, ok, pos, arith,
}
use rewind_git_for_ai_agent.Domain.Run.{auto}
use rewind_git_for_ai_agent.Domain.Event.{terminal_resized, validate_payload}
use rewind_git_for_ai_agent.Store.Timeline.{events_of}
use rewind_git_for_ai_agent.Store.Timeline.Tests.{fresh}
use rewind_git_for_ai_agent.Store.Objects.Tests.{same_bytes}
use rewind_git_for_ai_agent.Capture.Session.{CaptureOptions, CaptureError, validate_options}
use rewind_git_for_ai_agent.Capture.Recorder.{
  Reading, Recorder, is_char_boundary, boundary_below, contains_object, additional_bytes,
  within_limit, projected_object_bytes, account_objects, emit_projected, emit_object_reference,
  advance, next_at, now, next_event, take_event, push_pending, queue_event, flush_if_full, emit,
}
use rewind_git_for_ai_agent.Capture.Recorder.Trace.{InStep}
use rewind_git_for_ai_agent.Capture.Recorder.Emitting.{IsAttempt, emit-IsAttempt}
use rewind_git_for_ai_agent.Capture.Terminal.{
  Coordinator, input_redaction, stored, put_bytes, record_retained_input, record_by, record_input,
}
use rewind_git_for_ai_agent.Capture.Terminal.Retention.{load_object-record_input}
use rewind_git_for_ai_agent.Bytes.{bytes_eq, cmp}
use rewind_git_for_ai_agent.Bytes.Words.{to_le}
use rewind_git_for_ai_agent.Domain.Event
use rewind_git_for_ai_agent.Domain.Ids.{event_sequence, checked_next}
use rewind_git_for_ai_agent.Store.Envelope.{encode}
use rewind_git_for_ai_agent.Store.Timeline.{sql_u64}
use rewind_git_for_ai_agent.Store.Objects.{
  find_file, find_object, check_recorded, add_object, record_object, put_file, put_verified,
  import_object, put_object, load_object,
}
use rewind_git_for_ai_agent.Capture.Terminal.Redaction.{record_input-IsPrivate}

abbrev pub clock : ℕ → Result Reading CaptureError
clock n = ok (record {
  event_id = record { uuid = 200 + n };
  wall_clock = record { unix_milliseconds = pos n };
  monotonic_offset = record { nanoseconds = n };
})

abbrev pub options : CaptureOptions
options = record {
  record_input = auto;
  capture_environment = false;
  terminal_chunk_size = 4096;
  terminal_max_bytes = 3;
  max_run_bytes = 100;
  channel_capacity = 8;
  event_batch_size = 2;
  process_poll_interval = 50;
  checkpoint_debounce = 250;
  checkpoint_min_interval = 1000;
  checkpoint_max_interval = 10_000;
  maximum_pending_dirty_paths = 100;
  snapshot_max_file_size = 1000;
  fallback_rows = 24;
  fallback_columns = 80;
}

validate_options-options : validate_options options ≡ ok tt
unfolding validate_options
validate_options-options = refl

abbrev pub recorder : Recorder
recorder = record {
  store = fresh;
  run_id = record { uuid = 1 };
  stream_id = record { uuid = 3 };
  sequencer = record {
    run_id = record { uuid = 1 };
    next = record { get = 1 };
    last_offset = record { nanoseconds = 0 };
  };
  pending = [];
  checkpoint_count = 0;
  excluded_paths = [];
  accounted_objects = [];
  logical_object_bytes = 0;
  readings = 0;
}

pub recorder-InStep : InStep recorder
unfolding events_of
recorder-InStep = record {
  own = tt;
  contiguous = tt;
  next = refl;
  offset = omega arith;
  same_run = refl;
}

emit-IsAttempt_example :
    InStep (emit clock options (terminal_resized (record { uuid = 3 }) 80 24) recorder).state
    × IsAttempt
        (terminal_resized (record { uuid = 3 }) 80 24)
        recorder
        (emit clock options (terminal_resized (record { uuid = 3 }) 80 24) recorder)
emit-IsAttempt_example =
    emit-IsAttempt clock options (terminal_resized (record { uuid = 3 }) 80 24) recorder
      recorder-InStep

abbrev coordinator : Coordinator
coordinator = record {
  recorder = recorder;
  terminal_output_bytes = 0;
  echo_warning_emitted = false;
}

record_input-IsPrivate_example :
    let after =
      (record_input same_bytes clock options
        (104 ∷ 105 ∷ [])
        (some false)
        coordinator).state.recorder.store in
    (after.files ≡ fresh.files)
    × (after.tables.objects ≡ fresh.tables.objects)
    × (record_input same_bytes clock options (104 ∷ 105 ∷ []) (some false) coordinator
        ≡ record_input same_bytes clock options (42 ∷ 42 ∷ []) (some false) coordinator)
record_input-IsPrivate_example =
    record_input-IsPrivate same_bytes clock options (104 ∷ 105 ∷ []) (42 ∷ 42 ∷ []) (some false)
      coordinator (inr (refl, λ e. cc e)) refl

record_input-echoed :
    (record_input same_bytes clock options (104 ∷ 105 ∷ []) (some true) coordinator).result ≡ ok tt
unfolding record_input record_by record_retained_input input_redaction put_bytes stored put_object
    import_object put_verified put_file find_file encode to_le record_object add_object find_object
    check_recorded sql_u64 bytes_eq cmp emit_object_reference emit_projected account_objects
    projected_object_bytes within_limit additional_bytes contains_object emit queue_event next_event
    now take_event push_pending flush_if_full next_at advance Event.new Event.validate
    validate_payload event_sequence checked_next
record_input-echoed = refl

load_object-record_input_example :
    load_object same_bytes
      (record_input same_bytes clock options
        (104 ∷ 105 ∷ [])
        (some true)
        coordinator).state.recorder.store
      (same_bytes (104 ∷ 105 ∷ []))
      2
    ≡ ok (104 ∷ 105 ∷ [])
load_object-record_input_example =
    load_object-record_input same_bytes clock options (104 ∷ 105 ∷ []) (some true) coordinator
      (inr (refl, refl)) record_input-echoed

-- The cut is at the start of a character: the limit falls inside the last one here.
boundary_below_cuts : boundary_below (97 ∷ 226 ∷ 130 ∷ 172 ∷ []) 3 ≡ 1
unfolding boundary_below is_char_boundary
boundary_below_cuts = refl
