-- ===== src/Capture/Recorder.antt =====
-- crates/rewind-capture/src/recorder.rs: the sequencer of events, and the recorder, which collects
-- them and stores them in batches. The parameter `clock` has, for each number of readings taken before,
-- what `EventId::generate`, `timestamp_now` and the monotonic clock give then.
pub mod Trace
pub mod Emitting
pub mod Keeping
pub mod Meters
use rewind_git_for_ai_agent.Prelude.{
  ℕ, zero, suc, ◌+◌, ◌^◌, max, List, [], ◌∷◌, ◌++◌, length, take, get_or, Bool, true, false, not,
  ◌&&◌, ◌||◌, Option, none, some, ltb, leb, ◌==◌, if◌then◌else◌, Result, ok, err,
}
use rewind_git_for_ai_agent.Bytes.{Bytes, bytes_eq}
use rewind_git_for_ai_agent.Bytes.Text.{ascii}
use rewind_git_for_ai_agent.Domain.Path.{SnapshotPath}
use rewind_git_for_ai_agent.Domain.Digest.{ObjectId}
use rewind_git_for_ai_agent.Domain.Ids.{
  RunId, EventId, TerminalStreamId, EventSequence, MonotonicDuration, Timestamp, first,
  checked_next,
}
use rewind_git_for_ai_agent.Domain.Run.{RunStatus, ProcessExitStatus}
use rewind_git_for_ai_agent.Domain.Event
use rewind_git_for_ai_agent.Domain.Event.{
  Event, EventPayload, run_completed, recorder_warning, RecorderWarningCode, storage_limit,
  EventValidationError, max_event_text_bytes,
}
use rewind_git_for_ai_agent.Domain.Digest.{SnapshotId}
use rewind_git_for_ai_agent.Store.Timeline.{Store, StoreError, append_event_batch}
use rewind_git_for_ai_agent.Store.Runs.{RunFinish, finish_run_with_events}
use rewind_git_for_ai_agent.Capture.Session.{
  CaptureOptions, CaptureError, event_sequence_exhausted, invalid_event, store_failed,
  run_storage_limit,
}
use rewind_git_for_ai_agent.Capture.Actions.{
  Ran, Action, return, throw, of_result, resume, ◌>>=◌, ◌>>◌,
}

pub record Sequencer : Type 0 where
  pub run_id : RunId
  pub next : EventSequence
  pub last_offset : MonotonicDuration

-- An event and the sequencer behind it.
pub record Sequenced : Type 0 where
  pub event : Event
  pub sequencer : Sequencer

pub record Reading : Type 0 where
  pub event_id : EventId
  pub wall_clock : Timestamp
  pub monotonic_offset : MonotonicDuration

-- `pending` are the events that are not stored yet, `accounted_objects` the objects that the limit of
-- the run has counted, and `readings` how many readings of the clock were taken.
pub record Recorder : Type 0 where
  pub store : Store
  pub run_id : RunId
  pub stream_id : TerminalStreamId
  pub sequencer : Sequencer
  pub pending : List Event
  pub checkpoint_count : ℕ
  pub excluded_paths : List SnapshotPath
  pub accounted_objects : List ObjectId
  pub logical_object_bytes : ℕ
  pub readings : ℕ

-- An object with its size, as `BTreeMap<ObjectId, u64>` holds them.
pub record Candidate : Type 0 where
  pub object_id : ObjectId
  pub logical_size : ℕ

abbrev pub later_of : MonotonicDuration → MonotonicDuration → MonotonicDuration
later_of a b = record { nanoseconds = max a.nanoseconds b.nanoseconds }

-- `Sequencer::next_at` with the event that `Event::new` made: the number is used up only when there is
-- one behind it.
unfoldable pub advance :
    Sequencer
    → MonotonicDuration
    → Result Event EventValidationError
    → Option EventSequence
    → Result Sequenced CaptureError
advance s offset (err problem) next = err (invalid_event problem)
advance s offset (ok event) none = err event_sequence_exhausted
advance s offset (ok event) (some next) =
    ok (record { event = event; sequencer = record s { next = next; last_offset = offset } })

unfoldable pub next_at : Sequencer → Reading → EventPayload → Result Sequenced CaptureError
next_at s reading payload =
    advance s (later_of reading.monotonic_offset s.last_offset)
      (Event.new reading.event_id s.run_id s.next reading.wall_clock
        (later_of reading.monotonic_offset s.last_offset) payload)
      (checked_next s.next)

-- `sanitize_text`: the longest prefix within the limit that ends at the start of a character, which is
-- any byte but a continuation byte of UTF-8.
unfoldable pub is_char_boundary : Bytes → ℕ → Bool
is_char_boundary text index =
    index == 0
    || index == length text
    || not (leb 128 (get_or text index 0) && ltb (get_or text index 0) 192)

unfoldable pub boundary_below : Bytes → ℕ → ℕ
boundary_below text zero = zero
boundary_below text (suc n) =
    let lower = boundary_below text n in if is_char_boundary text (suc n) then suc n else lower

unfoldable pub sanitize_text : Bytes → Bytes
sanitize_text message =
    if bytes_eq message []
    then ascii "Recorder operation failed without a diagnostic."
    else if leb (length message) max_event_text_bytes
    then message
    else take (boundary_below message max_event_text_bytes) message

unfoldable pub contains_object : ObjectId → List ObjectId → Bool
contains_object id [] = false
contains_object id (other ∷ others) = bytes_eq other.bytes id.bytes || contains_object id others

-- The fold with `checked_add` over the candidates that are not accounted yet.
unfoldable pub additional_bytes : List ObjectId → ℕ → List Candidate → Option ℕ
additional_bytes accounted total [] = some total
additional_bytes accounted total (c ∷ cs) =
    let counted = additional_bytes accounted total cs in
    let more = additional_bytes accounted (total + c.logical_size) cs in
    if contains_object c.object_id accounted
    then counted
    else if ltb (total + c.logical_size) (2 ^ 64)
    then more
    else none

unfoldable pub within_limit : ℕ → ℕ → Option ℕ → Result ℕ CaptureError
within_limit maximum counted none = err (run_storage_limit maximum)
within_limit maximum counted (some additional) =
    if leb (2 ^ 64) (counted + additional)
    then err (run_storage_limit maximum)
    else if ltb maximum (counted + additional)
    then err (run_storage_limit maximum)
    else ok (counted + additional)

unfoldable pub projected_object_bytes :
    CaptureOptions → Recorder → List Candidate → Result ℕ CaptureError
projected_object_bytes options r candidates =
    within_limit options.max_run_bytes r.logical_object_bytes
      (additional_bytes r.accounted_objects 0 candidates)

abbrev pub object_ids : List Candidate → List ObjectId
object_ids [] = []
object_ids (c ∷ cs) = c.object_id ∷ object_ids cs

unfoldable pub account_objects : List Candidate → ℕ → Action Recorder (Unit {0})
account_objects candidates projected r = record {
  result = ok tt;
  state = record r {
    accounted_objects = r.accounted_objects ++ object_ids candidates;
    logical_object_bytes = projected;
  };
}

-- `self.store.append_event_batch(&self.pending)?` and `clear`
unfoldable pub flushed : Recorder → Result Store StoreError → Ran Recorder (Unit {0})
flushed r (ok store) = record { result = ok tt; state = record r { store = store; pending = [] } }
flushed r (err problem) = record { result = err (store_failed problem); state = r }

unfoldable pub flush_pending : List Event → Action Recorder (Unit {0})
flush_pending [] r = record { result = ok tt; state = r }
flush_pending (event ∷ events) r = flushed r (append_event_batch r.store (event ∷ events))

unfoldable pub flush : Action Recorder (Unit {0})
flush r = flush_pending r.pending r

-- `commit_finish`
unfoldable pub commit_finish : RunFinish → Action Recorder (Unit {0})
commit_finish finish r = flushed r (finish_run_with_events r.store r.run_id finish r.pending)

-- The event of a sequencer that went on.
unfoldable pub take_event : Result Sequenced CaptureError → Action Recorder Event
take_event (err problem) r = record { result = err problem; state = r }
take_event (ok sequenced) r = record {
  result = ok sequenced.event;
  state = record r { sequencer = sequenced.sequencer };
}

unfoldable pub push_pending : Event → Action Recorder EventSequence
push_pending event r = record {
  result = ok event.sequence;
  state = record r { pending = r.pending ++ (event ∷ []) };
}

module _ (clock : ℕ → Result Reading CaptureError) (options : CaptureOptions) where
  -- `Sequencer::now`
  unfoldable pub now : Action Recorder Reading
  now r = record { result = clock r.readings; state = record r { readings = r.readings + 1 } }

  -- `Sequencer::next`
  unfoldable pub next_event : EventPayload → Action Recorder Event
  next_event payload = do reading ← now; λ r. take_event (next_at r.sequencer reading payload) r

  unfoldable pub queue_event : EventPayload → Action Recorder EventSequence
  queue_event payload = do event ← next_event payload; push_pending event

  unfoldable pub flush_if_full : Action Recorder (Unit {0})
  flush_if_full r =
      if leb options.event_batch_size (length r.pending)
      then flush r
      else record { result = ok tt; state = r }

  unfoldable pub emit : EventPayload → Action Recorder EventSequence
  emit payload = do sequence ← queue_event payload; flush_if_full; return sequence

  unfoldable pub warning : RecorderWarningCode → Bytes → Action Recorder (Unit {0})
  warning code message = do
    sequence ← emit (recorder_warning (record { code = code; message = sanitize_text message }))
    return tt

  -- The text of the warning names the limit; here it is without the number.
  unfoldable pub warn_run_storage_limit : Action Recorder (Unit {0})
  warn_run_storage_limit = warning storage_limit (
      ascii "Run objects reached the configured unique logical storage limit; capture was stopped.")

  -- `match self.projected_object_bytes(&candidates)`
  unfoldable pub emit_projected :
      List Candidate → EventPayload → Result ℕ CaptureError → Action Recorder EventSequence
  emit_projected candidates payload (err problem) = do warn_run_storage_limit; flush; throw problem
  emit_projected candidates payload (ok projected) = do
    sequence ← emit payload
    account_objects candidates projected
    return sequence

  unfoldable pub emit_object_reference : ObjectId → ℕ → EventPayload → Action Recorder EventSequence
  emit_object_reference object_id logical_size payload r =
      emit_projected (record { object_id = object_id; logical_size = logical_size } ∷ []) payload
        (projected_object_bytes options r
          (record { object_id = object_id; logical_size = logical_size } ∷ []))
        r

  -- `Recorder::finish`
  unfoldable pub finish_recording :
      RunStatus → ProcessExitStatus → Option SnapshotId → Action Recorder (Unit {0})
  finish_recording status exit_status final_snapshot = do
    sequence ← queue_event (run_completed status (some exit_status))
    reading ← now
    commit_finish (record {
      status = status;
      finished_at = reading.wall_clock;
      monotonic_duration = reading.monotonic_offset;
      final_snapshot = final_snapshot;
      exit_status = some exit_status;
    })
