-- ===== src/Domain/Run/Tests.antt =====
-- Runs of the lifecycle, and its properties at concrete inputs.
use rewind_git_for_ai_agent.Prelude.{
  ◌+◌, ◌≤◌, [], ◌∷◌, ◌≡◌, ◌≢◌, refl, ◌↔◌, false, none, some, ok, err, pos,
}
use rewind_git_for_ai_agent.Bytes.{bytes_eq, cmp}
use rewind_git_for_ai_agent.Bytes.Text.{ascii}
use rewind_git_for_ai_agent.Domain.Run.{
  Run, linux_x86_64, auto, preparing, running, completed, failed, manual, can_transition_to,
  transition_to, is_terminal, active_run_has_finish_metadata, is_own_parent, validate_status,
  validate, platform_as_str, platform_from_str, policy_as_str, policy_from_str, status_as_str,
  status_from_str, reason_as_str, reason_from_str,
}
use rewind_git_for_ai_agent.Domain.Run.Lifecycle.{
  rank, after_requests, accepted_requests, after_requests_terminal, accepted_requests-rank,
}
use rewind_git_for_ai_agent.Domain.Run.Spelling.{from_str_iff-as_str}
use rewind_git_for_ai_agent.Domain.Run.Consistent.{StatusFits, validate_iff}

abbrev pub active_run : Run
active_run = record {
  id = record { uuid = 1 };
  branch_id = record { uuid = 2 };
  parent = none;
  command = ascii "make";
  arguments = ascii "test" ∷ [];
  workspace_root = ascii "/tmp/work";
  started_at = record { unix_milliseconds = pos 5 };
  finished_at = none;
  monotonic_duration = none;
  status = running;
  platform = linux_x86_64;
  capture_policy = record { record_input = auto; capture_environment = false };
  initial_snapshot = some (record { bytes = 7 ∷ [] });
  final_snapshot = none;
  exit_status = none;
}

validate-active_run : validate active_run ≡ ok tt
unfolding validate validate_status is_own_parent bytes_eq cmp
validate-active_run = refl

validate_rejects :
    validate (record active_run { finished_at = some (record { unix_milliseconds = pos 9 }) })
    ≡ err active_run_has_finish_metadata
unfolding validate validate_status is_own_parent bytes_eq cmp
validate_rejects = refl

requests :
    after_requests preparing (completed ∷ running ∷ preparing ∷ completed ∷ failed ∷ []) ≡ completed
unfolding after_requests transition_to can_transition_to
requests = refl

after_requests_terminal_example : after_requests completed (running ∷ failed ∷ []) ≡ completed
after_requests_terminal_example =
    after_requests_terminal completed (running ∷ failed ∷ []) (unfold is_terminal in refl)

accepted_requests-rank_example :
    (accepted_requests preparing (running ∷ failed ∷ running ∷ []) + rank preparing
      ≤ rank (after_requests preparing (running ∷ failed ∷ running ∷ [])))
    × (accepted_requests preparing (running ∷ failed ∷ running ∷ []) + rank preparing ≤ 2)
accepted_requests-rank_example = accepted_requests-rank preparing (running ∷ failed ∷ running ∷ [])

from_str_iff-as_str_example :
    ((platform_from_str (ascii "auto") ≡ ok linux_x86_64)
      ↔ (ascii "auto" ≡ platform_as_str linux_x86_64))
    × ((policy_from_str (ascii "auto") ≡ ok auto) ↔ (ascii "auto" ≡ policy_as_str auto))
    × ((status_from_str (ascii "auto") ≡ ok running) ↔ (ascii "auto" ≡ status_as_str running))
    × ((reason_from_str (ascii "auto") ≡ ok manual) ↔ (ascii "auto" ≡ reason_as_str manual))
from_str_iff-as_str_example = from_str_iff-as_str (ascii "auto") linux_x86_64 auto running manual

validate_iff_example : (validate active_run ≡ ok tt) ↔ (
    (active_run.command ≢ [])
    × (is_own_parent active_run.id active_run.parent ≡ false)
    × StatusFits active_run)
validate_iff_example = validate_iff active_run
