-- ===== src/Domain/Comparison.antt =====
-- crates/rewind-domain/src/comparison.rs: the report on two runs, its evidence and canonical order.
pub mod Canonical
pub mod Tests
use rewind_git_for_ai_agent.Prelude.{
  ℕ, ◌+◌, Ordering, List, [], ◌∷◌, Bool, true, false, not, ◌||◌, Option, none, some, is_some,
  Result, ok, err, ◌>>=◌, ◌>>◌, fail_if,
}
use rewind_git_for_ai_agent.Bytes.{Bytes, cmp, bytes_eq}
use rewind_git_for_ai_agent.Bytes.Sorting.{sort_by}
use rewind_git_for_ai_agent.Domain.Path.{SnapshotPath}
use rewind_git_for_ai_agent.Domain.Permissions.{UnixPermissions}
use rewind_git_for_ai_agent.Domain.Digest.{SnapshotId}
use rewind_git_for_ai_agent.Domain.Ids.{RunId, CheckpointId, MonotonicDuration}
use rewind_git_for_ai_agent.Domain.Run.{RunStatus, ProcessExitStatus}

pub data RunRelationship : Type 0 where
  same_run unrelated : RunRelationship
  left_parent_of_right right_parent_of_left : (fork_checkpoint : CheckpointId) → RunRelationship
  common_ancestor : (run_id : RunId) → RunRelationship

pub record SnapshotComparison : Type 0 where
  pub left : Option SnapshotId
  pub right : Option SnapshotId

pub record RunComparisonSummary : Type 0 where
  pub run_id : RunId
  pub status : RunStatus
  pub exit_status : Option ProcessExitStatus
  pub duration : Option MonotonicDuration
  pub terminal_output_bytes : ℕ
  pub checkpoint_count : ℕ
  pub warning_count : ℕ

pub data SnapshotEntryType : Type 0 where
  directory file symlink : SnapshotEntryType

pub record ValueChange {ℓ} (A : Type ℓ) : Type ℓ where
  pub left : A
  pub right : A

pub data FileChangeKind : Type 0 where
  added deleted : (entry_type : SnapshotEntryType) (executable : Option Bool) → FileChangeKind
  modified :
      (content_changed : Bool) (entry_type : Option (ValueChange SnapshotEntryType))
      (executable : Option (ValueChange Bool)) (permissions : Option (ValueChange UnixPermissions))
      → FileChangeKind

pub record FileChange : Type 0 where
  pub path : SnapshotPath
  pub change : FileChangeKind

pub record EvaluationResult : Type 0 where
  pub command : Bytes
  pub exit_status : ProcessExitStatus
  pub duration : MonotonicDuration

pub record EvaluationComparison : Type 0 where
  pub left : EvaluationResult
  pub right : EvaluationResult

pub data ComparisonValidationError : Type 0 where
  empty_modification invalid_executable_evidence : ComparisonValidationError
  duplicate_path : (path : SnapshotPath) → ComparisonValidationError
  non_canonical_order : (index : ℕ) → ComparisonValidationError
  invalid_evaluation_commands : ComparisonValidationError

-- `(*entry_type == SnapshotEntryType::File) != executable.is_some()`
unfoldable pub evidence_mismatch : SnapshotEntryType → Option Bool → Bool
evidence_mismatch directory executable = is_some executable
evidence_mismatch symlink executable = is_some executable
evidence_mismatch file executable = not (is_some executable)

-- `FileChangeKind::validate`
unfoldable pub validate_change : FileChangeKind → Result (Unit {0}) ComparisonValidationError
validate_change (modified false none none none) = err empty_modification
validate_change (added entry_type executable) =
    fail_if (evidence_mismatch entry_type executable) invalid_executable_evidence
validate_change (deleted entry_type executable) =
    fail_if (evidence_mismatch entry_type executable) invalid_executable_evidence
validate_change change = ok tt

pub record ComparisonResult : Type 0 where
  pub left : RunComparisonSummary
  pub right : RunComparisonSummary
  pub relationship : RunRelationship
  pub starting_snapshots : SnapshotComparison
  pub final_snapshots : SnapshotComparison
  pub file_changes : List FileChange
  pub evaluation : Option EvaluationComparison

abbrev pub change_path : FileChange → Bytes
change_path change = change.path.as_str

-- The comparison with the change before, if there is one.
unfoldable pub check_position :
    ℕ → Option FileChange → FileChange → Result (Unit {0}) ComparisonValidationError
check_position index none change = ok tt
check_position index (some previous) change =
    elim (cmp (change_path previous) (change_path change)) [
      | Ordering.eq ↦ err (duplicate_path change.path)
      | Ordering.gt ↦ err (non_canonical_order index)
      | Ordering.lt ↦ ok tt
    ]

unfoldable pub check_changes :
    ℕ → Option FileChange → List FileChange → Result (Unit {0}) ComparisonValidationError
check_changes index previous [] = ok tt
check_changes index previous (change ∷ changes) = do
  validate_change change.change
  check_position index previous change
  check_changes (index + 1) (some change) changes

unfoldable pub commands_differ : Option EvaluationComparison → Bool
commands_differ none = false
commands_differ (some value) =
    bytes_eq value.left.command []
    || bytes_eq value.right.command []
    || not (bytes_eq value.left.command value.right.command)

-- The report `parts` holds the arguments as they were given.
unfoldable pub from_canonical_parts :
    ComparisonResult → Result ComparisonResult ComparisonValidationError
from_canonical_parts parts = do
  check_changes 0 none parts.file_changes
  fail_if (commands_differ parts.evaluation) invalid_evaluation_commands
  ok parts

-- `ComparisonResult::new`
unfoldable pub new : ComparisonResult → Result ComparisonResult ComparisonValidationError
new parts =
    from_canonical_parts (record parts { file_changes = sort_by change_path parts.file_changes })
