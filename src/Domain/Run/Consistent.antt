-- ===== src/Domain/Run/Consistent.antt =====
-- About `Run::validate` of crates/rewind-domain/src/run.rs: the rules between the fields of a run.
use rewind_git_for_ai_agent.Prelude.{◌≡◌, ◌≢◌, ◌↔◌, [], true, false, is_some, arith, ok}
use rewind_git_for_ai_agent.Bytes.Compare.{bytes_eq_iff}
use rewind_git_for_ai_agent.Domain.Run.{
  Run, RunStatus, preparing, running, completed, failed, interrupted, crashed, is_own_parent,
  validate_status, validate, is_terminal,
}

-- Finish data is there exactly when the status is terminal, and a running run has a first snapshot.
pub record StatusFits (run : Run) : Type 0 where
  pub finished : is_some run.finished_at ≡ is_terminal run.status
  pub lasted : is_some run.monotonic_duration ≡ is_terminal run.status
  pub started : run.status ≡ running → is_some run.initial_snapshot ≡ true

validate_status_iff :
    (status : RunStatus) (run : Run)
    → (validate_status status run ≡ ok tt) ↔ (
        (is_some run.finished_at ≡ is_terminal status)
        × (is_some run.monotonic_duration ≡ is_terminal status)
        × (status ≡ running → is_some run.initial_snapshot ≡ true))
unfolding validate_status is_terminal
validate_status_iff preparing run = ground arith
validate_status_iff running run = ground arith
validate_status_iff completed run = ground arith
validate_status_iff failed run = ground arith
validate_status_iff interrupted run = ground arith
validate_status_iff crashed run = ground arith

-- A run is valid exactly when it has a command, is not its own parent, has finish data just when
-- its status is terminal, and has its first snapshot when it is running.
pub validate_iff :
    (run : Run)
    → (validate run ≡ ok tt)
      ↔ ((run.command ≢ []) × (is_own_parent run.id run.parent ≡ false) × StatusFits run)
unfolding validate
validate_iff run = ground (arith, bytes_eq_iff run.command [], validate_status_iff run.status run)
