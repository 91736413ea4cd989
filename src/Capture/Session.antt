-- ===== src/Capture/Session.antt =====
-- crates/rewind-capture/src/lib.rs: the limits of a recording and its errors. A method with
-- `&mut self` is a function from the state to its result and the state behind it, also after an error.
use rewind_git_for_ai_agent.Prelude.{ℕ, Bool, ◌||◌, ltb, ◌==◌, ◌*◌, Result, ◌>>◌, fail_if}
use rewind_git_for_ai_agent.Domain.Run.{InputRecordingPolicy}
use rewind_git_for_ai_agent.Domain.Event.{EventValidationError}
use rewind_git_for_ai_agent.Store.Timeline.{StoreError}

abbrev max_terminal_chunk_bytes : ℕ
max_terminal_chunk_bytes = 1024 * 1024

abbrev max_channel_capacity : ℕ
max_channel_capacity = 65_536

abbrev max_event_batch_size : ℕ
max_event_batch_size = 10_000

abbrev max_pending_dirty_paths : ℕ
max_pending_dirty_paths = 1_000_000

-- Durations are in nanoseconds; `snapshot_max_file_size` is the one field of the scan options that is
-- tested here.
pub record CaptureOptions : Type 0 where
  pub record_input : InputRecordingPolicy
  pub capture_environment : Bool
  pub terminal_chunk_size : ℕ
  pub terminal_max_bytes : ℕ
  pub max_run_bytes : ℕ
  pub channel_capacity : ℕ
  pub event_batch_size : ℕ
  pub process_poll_interval : ℕ
  pub checkpoint_debounce : ℕ
  pub checkpoint_min_interval : ℕ
  pub checkpoint_max_interval : ℕ
  pub maximum_pending_dirty_paths : ℕ
  pub snapshot_max_file_size : ℕ
  pub fallback_rows : ℕ
  pub fallback_columns : ℕ

-- The kinds of `CaptureError` that are raised here; the texts of `InvalidOptions` are left out.
pub data CaptureError : Type 0 where
  invalid_options clock_out_of_range event_sequence_exhausted : CaptureError
  invalid_event : EventValidationError → CaptureError
  store_failed : StoreError → CaptureError
  terminal_output_limit run_storage_limit : (maximum : ℕ) → CaptureError

-- `CaptureOptions::validate`
unfoldable pub validate_options : CaptureOptions → Result (Unit {0}) CaptureError
validate_options o = do
  fail_if (o.terminal_chunk_size == 0 || ltb max_terminal_chunk_bytes o.terminal_chunk_size)
      invalid_options
  fail_if (o.terminal_max_bytes == 0) invalid_options
  fail_if (o.max_run_bytes == 0) invalid_options
  fail_if (o.channel_capacity == 0 || ltb max_channel_capacity o.channel_capacity) invalid_options
  fail_if (o.event_batch_size == 0 || ltb max_event_batch_size o.event_batch_size) invalid_options
  fail_if (o.process_poll_interval == 0) invalid_options
  fail_if
      (o.checkpoint_debounce == 0
        || o.checkpoint_min_interval == 0
        || o.checkpoint_max_interval == 0)
      invalid_options
  fail_if (ltb o.checkpoint_max_interval o.checkpoint_min_interval) invalid_options
  fail_if (ltb o.checkpoint_max_interval o.checkpoint_debounce) invalid_options
  fail_if
      (o.maximum_pending_dirty_paths == 0
        || ltb max_pending_dirty_paths o.maximum_pending_dirty_paths)
      invalid_options
  fail_if (o.snapshot_max_file_size == 0) invalid_options
  fail_if (o.fallback_rows == 0 || o.fallback_columns == 0) invalid_options
