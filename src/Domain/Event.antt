-- ===== src/Domain/Event.antt =====
-- crates/rewind-domain/src/event.rs: the events of a run, their payloads and the bounds on them.
-- `EventId::generate` is the parameter `id` of `new`.
pub mod DirtyPaths
pub mod Tests
use rewind_git_for_ai_agent.Prelude.{
  ℕ, List, [], ◌∷◌, length, Bool, true, false, not, ◌||◌, Option, none, some, ltb, ◌==◌,
  if◌then◌else◌, Result, ok, err, ◌>>=◌, ◌>>◌, map_err, fail_if, ℤ,
}
use rewind_git_for_ai_agent.Bytes.{Bytes, bytes_eq, bytes_lt}
use rewind_git_for_ai_agent.Bytes.Sorting.{sort_by}
use rewind_git_for_ai_agent.Bytes.Ordered.{dedup}
use rewind_git_for_ai_agent.Domain.Path.{SnapshotPath}
use rewind_git_for_ai_agent.Domain.Digest.{ObjectId, SnapshotId}
use rewind_git_for_ai_agent.Domain.Ids.{
  RunId, CheckpointId, EventId, TerminalStreamId, ProcessId, EventSequence, MonotonicDuration,
  Timestamp,
}
use rewind_git_for_ai_agent.Domain.Run.{RunStatus, ProcessExitStatus, CheckpointReason, is_terminal}

abbrev pub event_schema_version : ℕ
event_schema_version = 1

abbrev pub max_dirty_paths_per_event : ℕ
max_dirty_paths_per_event = 4096

abbrev pub max_event_text_bytes : ℕ
max_event_text_bytes = 8192

pub data WorkspaceCloneStrategy : Type 0 where
  apfs_clone linux_reflink mixed recursive_copy : WorkspaceCloneStrategy

pub data InputRedactionReason : Type 0 where
  echo_disabled policy_never echo_detection_unavailable export_policy : InputRedactionReason

pub data ProcessRelationship : Type 0 where
  root descendant : ProcessRelationship

pub record ProcessObservation : Type 0 where
  pub process_id : ProcessId
  pub parent_process_id : Option ProcessId
  pub executable : Option Bytes
  pub command : Bytes
  pub relationship : ProcessRelationship

pub data RecorderFailureKind : Type 0 where
  snapshot storage concurrent_workspace_mutation resource_limit internal_invariant :
      RecorderFailureKind

pub record RecorderFailure : Type 0 where
  pub kind : RecorderFailureKind
  pub message : Bytes

pub data RecorderWarningCode : Type 0 where
  clone_fallback watcher_overflow process_observation_incomplete input_echo_detection_uncertain
        storage_limit filesystem_race privacy_cleanup_failed other :
      RecorderWarningCode

pub record RecorderWarning : Type 0 where
  pub code : RecorderWarningCode
  pub message : Bytes

pub data EventPayload : Type 0 where
  run_started : (root_process_id : ProcessId) (terminal_stream_id : TerminalStreamId) → EventPayload
  workspace_isolated : (strategy : WorkspaceCloneStrategy) → EventPayload
  terminal_input terminal_output :
      (stream_id : TerminalStreamId) (object_id : ObjectId) (byte_len : ℕ) → EventPayload
  terminal_input_redacted :
      (stream_id : TerminalStreamId) (byte_len : ℕ) (reason : InputRedactionReason) → EventPayload
  terminal_resized : (stream_id : TerminalStreamId) (columns rows : ℕ) → EventPayload
  process_observed : (process : ProcessObservation) → EventPayload
  process_exited : (process_id : ProcessId) (status : ProcessExitStatus) → EventPayload
  filesystem_paths_dirtied : (paths : List SnapshotPath) → EventPayload
  checkpoint_started : (checkpoint_id : CheckpointId) (reason : CheckpointReason) → EventPayload
  checkpoint_committed : (checkpoint_id : CheckpointId) (snapshot_id : SnapshotId) → EventPayload
  checkpoint_failed : (checkpoint_id : CheckpointId) (failure : RecorderFailure) → EventPayload
  marker_created : (checkpoint_id : CheckpointId) (label : Bytes) → EventPayload
  run_interrupted : (signal : Option ℤ) → EventPayload
  run_completed : (status : RunStatus) (exit_status : Option ProcessExitStatus) → EventPayload
  recorder_warning : (warning : RecorderWarning) → EventPayload

pub data EventPayloadError : Type 0 where
  empty_terminal_frame zero_terminal_dimension empty_dirty_paths : EventPayloadError
  too_many_dirty_paths : (actual maximum : ℕ) → EventPayloadError
  non_canonical_dirty_paths empty_marker_label empty_process_command empty_diagnostic text_too_long
        nonterminal_completion_status :
      EventPayloadError

-- `value.len() > MAX_EVENT_TEXT_BYTES` where there is a value.
unfoldable pub is_too_long : Option Bytes → Bool
is_too_long none = false
is_too_long (some value) = ltb max_event_text_bytes (length value)

-- `ProcessObservation::validate`
unfoldable pub validate_observation : ProcessObservation → Result (Unit {0}) EventPayloadError
validate_observation process = do
  fail_if (bytes_eq process.command []) empty_process_command
  fail_if (ltb max_event_text_bytes (length process.command) || is_too_long process.executable)
      text_too_long

unfoldable pub validate_diagnostic : Bytes → Result (Unit {0}) EventPayloadError
validate_diagnostic message = do
  fail_if (bytes_eq message []) empty_diagnostic
  fail_if (ltb max_event_text_bytes (length message)) text_too_long

-- `paths.windows(2).any(|pair| pair[0] >= pair[1])`
unfoldable pub any_not_less : List SnapshotPath → Bool
any_not_less [] = false
any_not_less (p ∷ []) = false
any_not_less (p ∷ q ∷ ps) = not (bytes_lt p.as_str q.as_str) || any_not_less (q ∷ ps)

unfoldable pub validate_dirty_paths : List SnapshotPath → Result (Unit {0}) EventPayloadError
validate_dirty_paths paths = do
  fail_if (length paths == 0) empty_dirty_paths
  fail_if (ltb max_dirty_paths_per_event (length paths))
      (too_many_dirty_paths (length paths) max_dirty_paths_per_event)
  fail_if (any_not_less paths) non_canonical_dirty_paths

-- `EventPayload::validate`
unfoldable pub validate_payload : EventPayload → Result (Unit {0}) EventPayloadError
validate_payload (terminal_input stream_id object_id byte_len) =
    fail_if (byte_len == 0) empty_terminal_frame
validate_payload (terminal_output stream_id object_id byte_len) =
    fail_if (byte_len == 0) empty_terminal_frame
validate_payload (terminal_input_redacted stream_id byte_len reason) =
    fail_if (byte_len == 0) empty_terminal_frame
validate_payload (terminal_resized stream_id columns rows) =
    fail_if (columns == 0 || rows == 0) zero_terminal_dimension
validate_payload (process_observed process) = validate_observation process
validate_payload (filesystem_paths_dirtied paths) = validate_dirty_paths paths
validate_payload (marker_created checkpoint_id label) = do
  fail_if (bytes_eq label []) empty_marker_label
  fail_if (ltb max_event_text_bytes (length label)) text_too_long
validate_payload (checkpoint_failed checkpoint_id failure) = validate_diagnostic failure.message
validate_payload (run_completed status exit_status) =
    fail_if (not (is_terminal status)) nonterminal_completion_status
validate_payload (recorder_warning warning) = validate_diagnostic warning.message
validate_payload payload = ok tt

abbrev pub path_text : SnapshotPath → Bytes
path_text path = path.as_str

-- `EventPayload::filesystem_paths_dirtied`
unfoldable pub dirtied : List SnapshotPath → Result EventPayload EventPayloadError
dirtied paths = do
  validate_payload (filesystem_paths_dirtied (dedup path_text (sort_by path_text paths)))
  ok (filesystem_paths_dirtied (dedup path_text (sort_by path_text paths)))

pub record Event : Type 0 where
  pub id : EventId
  pub run_id : RunId
  pub sequence : EventSequence
  pub wall_clock : Timestamp
  pub monotonic_offset : MonotonicDuration
  pub schema_version : ℕ
  pub payload : EventPayload

pub data EventValidationError : Type 0 where
  unsupported_schema_version : (found supported : ℕ) → EventValidationError
  invalid_payload : EventPayloadError → EventValidationError

-- `Event::validate`, also the test behind `Deserialize`
unfoldable pub validate : Event → Result (Unit {0}) EventValidationError
validate event = do
  fail_if (not (event.schema_version == event_schema_version))
      (unsupported_schema_version event.schema_version event_schema_version)
  map_err invalid_payload (validate_payload event.payload)

-- `Event::new`
unfoldable pub new :
    EventId
    → RunId
    → EventSequence
    → Timestamp
    → MonotonicDuration
    → EventPayload
    → Result Event EventValidationError
new id run_id sequence wall_clock monotonic_offset payload = do
  validate (record {
    id = id;
    run_id = run_id;
    sequence = sequence;
    wall_clock = wall_clock;
    monotonic_offset = monotonic_offset;
    schema_version = event_schema_version;
    payload = payload;
  })
  ok (record {
    id = id;
    run_id = run_id;
    sequence = sequence;
    wall_clock = wall_clock;
    monotonic_offset = monotonic_offset;
    schema_version = event_schema_version;
    payload = payload;
  })
