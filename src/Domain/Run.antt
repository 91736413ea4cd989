-- ===== src/Domain/Run.antt =====
-- crates/rewind-domain/src/run.rs: the lifecycle of a run, its record and the spellings of its enums.
-- `to_string` and `Display` of an enum are `as_str`.
pub mod Lifecycle
pub mod Spelling
pub mod Consistent
pub mod Tests
use rewind_git_for_ai_agent.Prelude.{
  ℕ, List, [], ◌∷◌, Bool, true, false, not, ◌&&◌, ◌||◌, Option, none, some, is_some, ◌==◌,
  if◌then◌else◌, Result, ok, err, ◌>>=◌, ◌>>◌, fail_if, ℤ, pos, negsuc,
}
use rewind_git_for_ai_agent.Bytes.{Bytes, bytes_eq}
use rewind_git_for_ai_agent.Bytes.Text.{ascii}
use rewind_git_for_ai_agent.Domain.Digest.{SnapshotId}
use rewind_git_for_ai_agent.Domain.Ids.{
  RunId, BranchId, CheckpointId, EventSequence, MonotonicDuration, Timestamp,
}

pub data Platform : Type 0 where
  mac_os_aarch64 linux_x86_64 linux_aarch64 : Platform

pub data InputRecordingPolicy : Type 0 where
  auto always never : InputRecordingPolicy

pub record CapturePolicy : Type 0 where
  pub record_input : InputRecordingPolicy
  pub capture_environment : Bool

pub data RunStatus : Type 0 where
  preparing running completed failed interrupted crashed : RunStatus

unfoldable pub can_transition_to : RunStatus → RunStatus → Bool
can_transition_to preparing running = true
can_transition_to preparing failed = true
can_transition_to preparing interrupted = true
can_transition_to preparing crashed = true
can_transition_to running completed = true
can_transition_to running failed = true
can_transition_to running interrupted = true
can_transition_to running crashed = true
can_transition_to status next = false

pub record InvalidRunStatusTransition : Type 0 where
  pub from : RunStatus
  pub to : RunStatus

-- The value behind `&mut self` after the call, or the error, which leaves it as it was.
unfoldable pub transition_to : RunStatus → RunStatus → Result RunStatus InvalidRunStatusTransition
transition_to status next =
    if can_transition_to status next then ok next else err (record { from = status; to = next })

unfoldable pub is_terminal : RunStatus → Bool
is_terminal preparing = false
is_terminal running = false
is_terminal completed = true
is_terminal failed = true
is_terminal interrupted = true
is_terminal crashed = true

-- `Code` and `Signal` hold an `i32`.
pub data ProcessExitStatus : Type 0 where
  code signal : ℤ → ProcessExitStatus
  unknown : ProcessExitStatus

pub record RunParent : Type 0 where
  pub run_id : RunId
  pub checkpoint_id : CheckpointId

pub record Run : Type 0 where
  pub id : RunId
  pub branch_id : BranchId
  pub parent : Option RunParent
  pub command : Bytes
  pub arguments : List Bytes
  pub workspace_root : Bytes
  pub started_at : Timestamp
  pub finished_at : Option Timestamp
  pub monotonic_duration : Option MonotonicDuration
  pub status : RunStatus
  pub platform : Platform
  pub capture_policy : CapturePolicy
  pub initial_snapshot : Option SnapshotId
  pub final_snapshot : Option SnapshotId
  pub exit_status : Option ProcessExitStatus

pub data RunValidationError : Type 0 where
  empty_command self_parent active_run_has_finish_metadata running_without_initial_snapshot
        terminal_run_missing_finish_metadata :
      RunValidationError

-- `self.parent.is_some_and(|parent| parent.run_id == self.id)`
unfoldable pub is_own_parent : RunId → Option RunParent → Bool
is_own_parent id none = false
is_own_parent id (some parent) = parent.run_id.uuid == id.uuid

-- The tests that depend on the status.
unfoldable pub validate_status : RunStatus → Run → Result (Unit {0}) RunValidationError
validate_status preparing run =
    fail_if (is_some run.finished_at || is_some run.monotonic_duration)
      active_run_has_finish_metadata
validate_status running run = do
  fail_if (not (is_some run.initial_snapshot)) running_without_initial_snapshot
  fail_if (is_some run.finished_at || is_some run.monotonic_duration) active_run_has_finish_metadata
validate_status status run =
    fail_if (not (is_some run.finished_at) || not (is_some run.monotonic_duration))
      terminal_run_missing_finish_metadata

unfoldable pub validate : Run → Result (Unit {0}) RunValidationError
validate run = do
  fail_if (bytes_eq run.command []) empty_command
  fail_if (is_own_parent run.id run.parent) self_parent
  validate_status run.status run

pub data CheckpointReason : Type 0 where
  initial manual process_boundary filesystem_quiescence agent_adapter final : CheckpointReason

pub record Checkpoint : Type 0 where
  pub id : CheckpointId
  pub run_id : RunId
  pub sequence : EventSequence
  pub label : Option Bytes
  pub reason : CheckpointReason
  pub snapshot_id : SnapshotId
  pub created_at : Timestamp
  pub monotonic_offset : MonotonicDuration

pub data CheckpointValidationError : Type 0 where
  empty_label : CheckpointValidationError

-- `Checkpoint::validate`
unfoldable pub validate_label : Option Bytes → Result (Unit {0}) CheckpointValidationError
validate_label none = ok tt
validate_label (some label) = fail_if (bytes_eq label []) empty_label

unfoldable pub validate_checkpoint : Checkpoint → Result (Unit {0}) CheckpointValidationError
validate_checkpoint checkpoint = validate_label checkpoint.label

-- The rejected value; the name of the enum is left out.
pub record EnumParseError : Type 0 where
  pub value : Bytes

-- A `match` on a text whose arms are the spellings in this order.
unfoldable pub match_text {ℓ} : {A : Type ℓ} → List (Bytes × A) → Bytes → Result A EnumParseError
match_text [] input = err (record { value = input })
match_text ((text, value) ∷ arms) input =
    let rest = match_text arms input in if bytes_eq input text then ok value else rest

unfoldable pub platform_as_str : Platform → Bytes
platform_as_str mac_os_aarch64 = ascii "macos_aarch64"
platform_as_str linux_x86_64 = ascii "linux_x86_64"
platform_as_str linux_aarch64 = ascii "linux_aarch64"

unfoldable pub platform_from_str : Bytes → Result Platform EnumParseError
platform_from_str = match_text (
    (ascii "macos_aarch64", mac_os_aarch64)
    ∷ (ascii "linux_x86_64", linux_x86_64)
    ∷ (ascii "linux_aarch64", linux_aarch64)
    ∷ [])

unfoldable pub policy_as_str : InputRecordingPolicy → Bytes
policy_as_str auto = ascii "auto"
policy_as_str always = ascii "always"
policy_as_str never = ascii "never"

unfoldable pub policy_from_str : Bytes → Result InputRecordingPolicy EnumParseError
policy_from_str =
    match_text ((ascii "auto", auto) ∷ (ascii "always", always) ∷ (ascii "never", never) ∷ [])

unfoldable pub status_as_str : RunStatus → Bytes
status_as_str preparing = ascii "preparing"
status_as_str running = ascii "running"
status_as_str completed = ascii "completed"
status_as_str failed = ascii "failed"
status_as_str interrupted = ascii "interrupted"
status_as_str crashed = ascii "crashed"

unfoldable pub status_from_str : Bytes → Result RunStatus EnumParseError
status_from_str = match_text (
    (ascii "preparing", preparing)
    ∷ (ascii "running", running)
    ∷ (ascii "completed", completed)
    ∷ (ascii "failed", failed)
    ∷ (ascii "interrupted", interrupted)
    ∷ (ascii "crashed", crashed)
    ∷ [])

unfoldable pub reason_as_str : CheckpointReason → Bytes
reason_as_str initial = ascii "initial"
reason_as_str manual = ascii "manual"
reason_as_str process_boundary = ascii "process_boundary"
reason_as_str filesystem_quiescence = ascii "filesystem_quiescence"
reason_as_str agent_adapter = ascii "agent_adapter"
reason_as_str final = ascii "final"

unfoldable pub reason_from_str : Bytes → Result CheckpointReason EnumParseError
reason_from_str = match_text (
    (ascii "initial", initial)
    ∷ (ascii "manual", manual)
    ∷ (ascii "process_boundary", process_boundary)
    ∷ (ascii "filesystem_quiescence", filesystem_quiescence)
    ∷ (ascii "agent_adapter", agent_adapter)
    ∷ (ascii "final", final)
    ∷ [])
