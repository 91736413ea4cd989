-- ===== src/Store/Timeline.antt =====
-- crates/rewind-store/src/event.rs: the tables of
-- runs, events, warnings and terminal chunks, appending a batch of events, and reading a page of them. SQLite is the tables as lists of typed rows, with the constraints
-- of crates/rewind-store/src/schema.rs on what is inserted; identifiers and payloads stand in the rows
-- as the values whose text the columns hold. A transaction that fails is rolled back: the operations
-- return the new tables or an error, and after an error the old tables are still there.
pub mod Sequence
pub mod Appending
pub mod Accepting
pub mod Query
pub mod Paging
pub mod Tests
use rewind_git_for_ai_agent.Prelude.{
  ℕ, zero, suc, ◌+◌, ◌^◌, List, [], ◌∷◌, ◌++◌, length, take, Bool, true, false, not, ◌&&◌, ◌||◌,
  Option, none, some, ltb, leb, ◌==◌, if◌then◌else◌, Result, ok, err, ◌>>=◌, ◌>>◌, map_err, fail_if,
}
use rewind_git_for_ai_agent.Bytes.{Bytes, bytes_eq}
use rewind_git_for_ai_agent.Domain.Digest.{ObjectId}
use rewind_git_for_ai_agent.Domain.Ids.{
  RunId, EventId, TerminalStreamId, EventSequence, MonotonicDuration, Timestamp, event_sequence,
}
use rewind_git_for_ai_agent.Domain.Run.{
  Run, Checkpoint, RunStatus, preparing, running, ProcessExitStatus, RunValidationError,
  can_transition_to, is_terminal,
}
use rewind_git_for_ai_agent.Store.Envelope.{EnvelopeError}
use rewind_git_for_ai_agent.Store.Tables.{SnapshotRow, EntryRow}
use rewind_git_for_ai_agent.Domain.Event.{
  Event, EventPayload, terminal_input, terminal_output, recorder_warning, RecorderWarningCode,
  EventValidationError, validate,
}

abbrev pub i64_limit : ℕ
i64_limit = 2 ^ 63

abbrev pub u64_limit : ℕ
u64_limit = 2 ^ 64

-- The kinds of `StoreError` that these operations raise, without their messages.
pub data StoreError : Type 0 where
  read_only event_order not_found invalid_event numeric_range database invalid_run
        invalid_page_limit invalid_snapshot invalid_checkpoint invalid_identifier invalid_enum
        parent_cycle object_referenced invariant input_output object_digest_mismatch
        object_collision object_read_limit object_too_large :
      StoreError
  event_invalid : EventValidationError → StoreError
  envelope_invalid : EnvelopeError → StoreError

-- A row of `objects`; its compression is always none.
pub record ObjectRow : Type 0 where
  pub id : ObjectId
  pub logical_size : ℕ
  pub stored_size : ℕ
  pub created : Timestamp

pub record WarningRow : Type 0 where
  pub run_id : RunId
  pub sequence : ℕ
  pub code : RecorderWarningCode
  pub message : Bytes
  pub created : Timestamp

pub record ChunkRow : Type 0 where
  pub run_id : RunId
  pub stream_id : TerminalStreamId
  pub first_sequence : ℕ
  pub last_sequence : ℕ
  pub object_id : ObjectId
  pub byte_length : ℕ

pub record Database : Type 0 where
  pub objects : List ObjectRow
  pub snapshots : List SnapshotRow
  pub entries : List EntryRow
  pub checkpoints : List Checkpoint
  pub runs : List Run
  pub events : List Event
  pub warnings : List WarningRow
  pub terminal_chunks : List ChunkRow

-- A file below `objects/`, at the path that its identifier names.
pub record ObjectFile : Type 0 where
  pub id : ObjectId
  pub envelope : Bytes

pub record Store : Type 0 where
  pub is_writer : Bool
  pub tables : Database
  pub files : List ObjectFile

-- `sql_u64`
unfoldable pub sql_u64 : ℕ → Result ℕ StoreError
sql_u64 value = if ltb value i64_limit then ok value else err numeric_range

-- `SELECT status FROM runs WHERE id = ?1`
unfoldable pub run_status : RunId → List Run → Option RunStatus
run_status id [] = none
run_status id (run ∷ runs) =
    let rest = run_status id runs in if run.id.uuid == id.uuid then some run.status else rest

-- `SELECT logical_size FROM objects WHERE id = ?1`
unfoldable pub object_size : ObjectId → List ObjectRow → Option ℕ
object_size id [] = none
object_size id (row ∷ rows) =
    let rest = object_size id rows in
    if bytes_eq row.id.bytes id.bytes then some row.logical_size else rest

-- The rows of `events` with this `run_id`.
unfoldable pub events_of : RunId → List Event → List Event
events_of id [] = []
events_of id (event ∷ events) =
    let rest = events_of id events in if event.run_id.uuid == id.uuid then event ∷ rest else rest

-- `ORDER BY sequence DESC LIMIT 1`, over the rows behind the best one so far.
unfoldable pub highest : Option Event → List Event → Option Event
highest best [] = best
highest none (event ∷ events) = highest (some event) events
highest (some best) (event ∷ events) =
    let keep = highest (some best) events in
    let change = highest (some event) events in
    if ltb best.sequence.get event.sequence.get then change else keep

-- The two tests on neighbours in a batch; `previous_sequence` and `previous_offset` are set together.
unfoldable pub check_follows : Option Event → Event → Result (Unit {0}) StoreError
check_follows none event = ok tt
check_follows (some previous) event = do
  fail_if
      (not (
        ltb (previous.sequence.get + 1) u64_limit
        && (previous.sequence.get + 1) == event.sequence.get))
      event_order
  fail_if (ltb event.monotonic_offset.nanoseconds previous.monotonic_offset.nanoseconds) event_order

unfoldable pub validate_events : RunId → Option Event → List Event → Result (Unit {0}) StoreError
validate_events run_id previous [] = ok tt
validate_events run_id previous (event ∷ events) = do
  map_err event_invalid (validate event)
  fail_if (not (event.run_id.uuid == run_id.uuid)) event_order
  check_follows previous event
  validate_events run_id (some event) events

-- The first event of the batch against the last one in the table.
unfoldable pub check_first : Option Event → Event → Result (Unit {0}) StoreError
check_first none event = fail_if (not (event.sequence.get == 1)) event_order
check_first (some last) event = do
  fail_if (leb u64_limit (last.sequence.get + 1)) event_order
  fail_if (not (event.sequence.get == last.sequence.get + 1)) event_order
  fail_if (ltb event.monotonic_offset.nanoseconds last.monotonic_offset.nanoseconds) event_order

unfoldable pub check_status : Option RunStatus → Result (Unit {0}) StoreError
check_status none = err not_found
check_status (some preparing) = ok tt
check_status (some running) = ok tt
check_status (some status) = err event_order

-- The keys of `events`: (run_id, sequence) is primary, and id is unique.
unfoldable pub conflicts : Event → List Event → Bool
conflicts event [] = false
conflicts event (row ∷ rows) =
    (row.id.uuid == event.id.uuid
      || (row.run_id.uuid == event.run_id.uuid && row.sequence.get == event.sequence.get))
    || conflicts event rows

-- A recorded length that is there and agrees.
unfoldable pub check_size : Option ℕ → ℕ → Result (Unit {0}) StoreError
check_size none byte_len = err invalid_event
check_size (some recorded) byte_len = fail_if (not (recorded == byte_len)) invalid_event

unfoldable pub validate_referenced_object :
    List ObjectRow → EventPayload → Result (Unit {0}) StoreError
validate_referenced_object objects (terminal_input stream_id object_id byte_len) =
    sql_u64 byte_len >>= λ expected. check_size (object_size object_id objects) expected
validate_referenced_object objects (terminal_output stream_id object_id byte_len) =
    sql_u64 byte_len >>= λ expected. check_size (object_size object_id objects) expected
validate_referenced_object objects payload = ok tt

-- The rows that an event adds to the tables beside `events`.
unfoldable pub index_payload : Database → Event → EventPayload → Database
index_payload db event (recorder_warning warning) = record db {
  warnings =
      db.warnings
      ++ (record {
        run_id = event.run_id;
        sequence = event.sequence.get;
        code = warning.code;
        message = warning.message;
        created = event.wall_clock;
      }
          ∷ []);
}
index_payload db event (terminal_output stream_id object_id byte_len) = record db {
  terminal_chunks =
      db.terminal_chunks
      ++ (record {
        run_id = event.run_id;
        stream_id = stream_id;
        first_sequence = event.sequence.get;
        last_sequence = event.sequence.get;
        object_id = object_id;
        byte_length = byte_len;
      }
          ∷ []);
}
index_payload db event payload = db

unfoldable pub insert_event : Database → Event → Result Database StoreError
insert_event db event = do
  sequence ← sql_u64 event.sequence.get
  offset ← sql_u64 event.monotonic_offset.nanoseconds
  fail_if (conflicts event db.events) database
  validate_referenced_object db.objects event.payload
  ok (index_payload (record db { events = db.events ++ (event ∷ []) }) event event.payload)

unfoldable pub insert_events : Database → List Event → Result Database StoreError
insert_events db [] = ok db
insert_events db (event ∷ events) =
    insert_event db event >>= λ changed. insert_events changed events

unfoldable pub append_event_batch_in : Database → List Event → Result Database StoreError
append_event_batch_in db [] = ok db
append_event_batch_in db (event ∷ events) = do
  validate_events event.run_id none (event ∷ events)
  check_status (run_status event.run_id db.runs)
  check_first (highest none (events_of event.run_id db.events)) event
  insert_events db (event ∷ events)

unfoldable pub append_event_batch : Store → List Event → Result Store StoreError
append_event_batch store events = do
  fail_if (not store.is_writer) read_only
  tables ← append_event_batch_in store.tables events
  ok (record store { tables = tables })
