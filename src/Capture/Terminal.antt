-- ===== src/Capture/Terminal.antt =====
-- crates/rewind-capture/src/recorder.rs: what the coordinator does with terminal output and terminal
-- input. The parameter `digest` is `ObjectId::digest`.
pub mod UniqueBytes
pub mod Accounting
pub mod Storing
pub mod Metered
pub mod Output
pub mod Limits
pub mod Redaction
pub mod Retention
use rewind_git_for_ai_agent.Prelude.{
  ℕ, ◌+◌, ◌^◌, length, Bool, true, false, Option, none, some, ltb, leb, if◌then◌else◌, Result, ok,
  err,
}
use rewind_git_for_ai_agent.Bytes.{Bytes}
use rewind_git_for_ai_agent.Bytes.Text.{ascii}
use rewind_git_for_ai_agent.Domain.Digest.{ObjectId}
use rewind_git_for_ai_agent.Domain.Ids.{EventSequence}
use rewind_git_for_ai_agent.Domain.Run.{InputRecordingPolicy, auto, always, never}
use rewind_git_for_ai_agent.Domain.Event.{
  EventPayload, terminal_input, terminal_output, terminal_input_redacted, InputRedactionReason,
  echo_disabled, policy_never, echo_detection_unavailable, storage_limit,
  input_echo_detection_uncertain,
}
use rewind_git_for_ai_agent.Store.Timeline.{StoreError}
use rewind_git_for_ai_agent.Store.Objects.{StoredObject, Put, put_object}
use rewind_git_for_ai_agent.Capture.Session.{
  CaptureOptions, CaptureError, store_failed, terminal_output_limit,
}
use rewind_git_for_ai_agent.Capture.Actions.{Ran, Action, return, throw, resume, ◌>>=◌, ◌>>◌}
use rewind_git_for_ai_agent.Capture.Recorder.{
  Recorder, Reading, flush, now, emit, warning, emit_object_reference,
}

-- The fields of `Coordinator` that terminal data changes.
pub record Coordinator : Type 0 where
  pub recorder : Recorder
  pub terminal_output_bytes : ℕ
  pub echo_warning_emitted : Bool

-- A method of the recorder called on the field.
abbrev pub on_recorder {ℓ} : {A : Type ℓ} → Action Recorder A → Action Coordinator A
on_recorder action c = record {
  result = (action c.recorder).result;
  state = record c { recorder = (action c.recorder).state };
}

unfoldable pub input_redaction : InputRecordingPolicy → Option Bool → Option InputRedactionReason
input_redaction always echo_enabled = none
input_redaction auto (some true) = none
input_redaction never echo_enabled = some policy_never
input_redaction auto (some false) = some echo_disabled
input_redaction auto none = some echo_detection_unavailable

unfoldable pub stored : Result Put StoreError → Action Recorder StoredObject
stored (err problem) r = record { result = err (store_failed problem); state = r }
stored (ok put) r = record { result = ok put.object; state = record r { store = put.store } }

unfoldable pub is_uncertain : InputRedactionReason → Bool
is_uncertain echo_detection_unavailable = true
is_uncertain reason = false

unfoldable pub set_echo_warning : Action Coordinator (Unit {0})
set_echo_warning c = record { result = ok tt; state = record c { echo_warning_emitted = true } }

unfoldable pub count_output : ℕ → Action Coordinator (Unit {0})
count_output next c = record { result = ok tt; state = record c { terminal_output_bytes = next } }

module _ (digest : Bytes → ObjectId) (clock : ℕ → Result Reading CaptureError)
    (options : CaptureOptions) where
  -- `timestamp_now` and `put_object`
  unfoldable pub put_bytes : Bytes → Action Recorder StoredObject
  put_bytes bytes = do
    reading ← now clock options
    λ r. stored (put_object digest r.store bytes reading.wall_clock) r

  -- The text of the warning names the limit; here it is without the number.
  unfoldable pub refuse_output : Action Recorder (Unit {0})
  refuse_output = do
    warning clock options storage_limit
        (ascii "Terminal output reached the configured limit; capture was stopped.")
    flush
    throw (terminal_output_limit options.terminal_max_bytes)

  unfoldable pub record_accepted_output : Bytes → ℕ → Action Coordinator (Unit {0})
  record_accepted_output bytes next = do
    object ← on_recorder (put_bytes bytes)
    sequence ← on_recorder (λ r.
        emit_object_reference clock options object.id object.logical_size
          (terminal_output r.stream_id object.id (length bytes)) r)
    count_output next

  -- A slice is shorter than 2^64 bytes, so that its length is a `u64`.
  unfoldable pub record_output : Bytes → Action Coordinator (Unit {0})
  record_output bytes c =
      if leb (2 ^ 64) (c.terminal_output_bytes + length bytes)
      then throw (terminal_output_limit options.terminal_max_bytes) c
      else if ltb options.terminal_max_bytes (c.terminal_output_bytes + length bytes)
      then on_recorder refuse_output c
      else record_accepted_output bytes (c.terminal_output_bytes + length bytes) c

  unfoldable pub record_retained_input : Bytes → ℕ → Action Recorder (Unit {0})
  record_retained_input bytes byte_len = do
    object ← put_bytes bytes
    sequence ← λ r.
        emit_object_reference clock options object.id object.logical_size
          (terminal_input r.stream_id object.id byte_len) r
    return tt

  -- The warning that is given once.
  unfoldable pub warn_uncertain_echo : InputRedactionReason → Action Coordinator (Unit {0})
  warn_uncertain_echo reason c =
      if is_uncertain reason
      then if c.echo_warning_emitted then return tt c else warn_and_mark c
      else return tt c
    where
      warn_and_mark : Action Coordinator (Unit {0})
      warn_and_mark = do
        on_recorder (
            warning clock options input_echo_detection_uncertain (
              ascii
                "Terminal echo state could not be read beside the input read; input bytes were redacted."))
        set_echo_warning

  unfoldable pub record_redacted : InputRedactionReason → ℕ → Action Coordinator (Unit {0})
  record_redacted reason byte_len = do
    warn_uncertain_echo reason
    sequence ←
        on_recorder
          (λ r. emit clock options (terminal_input_redacted r.stream_id byte_len reason) r)
    return tt

  unfoldable pub record_by : Option InputRedactionReason → Bytes → Action Coordinator (Unit {0})
  record_by none bytes = on_recorder (record_retained_input bytes (length bytes))
  record_by (some reason) bytes = record_redacted reason (length bytes)

  unfoldable pub record_input : Bytes → Option Bool → Action Coordinator (Unit {0})
  record_input bytes echo_enabled =
      record_by (input_redaction options.record_input echo_enabled) bytes
