-- ===== src/Capture/Terminal/Metered.antt =====
-- About the coordinator of crates/rewind-capture/src/recorder.rs: its count of terminal output, and what
-- the events of the run report.
use rewind_git_for_ai_agent.Prelude.{ℕ, ◌+◌, ◌≤◌, ◌⊎◌, subst, ◌≡◌, sym, inr, arith, err}
use rewind_git_for_ai_agent.Bytes.{Bytes}
use rewind_git_for_ai_agent.Capture.Session.{CaptureOptions, CaptureError}
use rewind_git_for_ai_agent.Capture.Actions.{Ran, Action, Keeps}
use rewind_git_for_ai_agent.Capture.Recorder.{Recorder}
use rewind_git_for_ai_agent.Capture.Terminal.{Coordinator, on_recorder}
use rewind_git_for_ai_agent.Capture.Terminal.Accounting.{IsMetered, IsLimited, IsMetered-IsLimited}

-- The recorder knows its run, and the coordinator the output of it, which is within the limit.
pub record IsMeteredRun (size : Bytes → ℕ) (options : CaptureOptions) (c : Coordinator)
    : Type 0 where
  pub recorder : IsMetered size options c.terminal_output_bytes c.recorder
  pub output : c.terminal_output_bytes ≤ options.terminal_max_bytes

-- Terminal data with this much output was recorded, or an error came and the limits hold all the same.
pub record IsRecorded (size : Bytes → ℕ) (options : CaptureOptions) (out : ℕ) (c : Coordinator)
    (ran : Ran Coordinator (Unit {0})) : Type 0 where
  pub limited : IsLimited size options options.terminal_max_bytes ran.state.recorder
  pub outcome :
      ((problem : CaptureError) × (ran.result ≡ err problem))
      ⊎ (IsMeteredRun size options ran.state
          × (ran.state.terminal_output_bytes ≡ c.terminal_output_bytes + out))

pub IsLimited-wider :
    (size : Bytes → ℕ) (options : CaptureOptions) (bound larger : ℕ) (r : Recorder)
    → bound ≤ larger
    → IsLimited size options bound r
    → IsLimited size options larger r
IsLimited-wider size options bound larger r le h = record {
  total = h.total;
  objects = h.objects;
  output = omega (arith, h.output);
  bounded = h.bounded;
  meters = h.meters;
}

module _ (size : Bytes → ℕ) (options : CaptureOptions) where
  -- The state of an action on the recorder that kept its count.
  abbrev pub IsKept : ℕ → Coordinator → Type 0
  IsKept total c = IsMetered size options total c.recorder × (c.terminal_output_bytes ≡ total)

  pub on_recorder-IsKept {ℓ} :
      {A : Type ℓ} (total : ℕ) (action : Action Recorder A)
      → Keeps (IsMetered size options total) action
      → Keeps (IsKept total) (on_recorder action)
  on_recorder-IsKept total action k c h = (k c.recorder h.0, h.1)

  pub kept-IsRecorded :
      (c : Coordinator) (ran : Ran Coordinator (Unit {0}))
      → c.terminal_output_bytes ≤ options.terminal_max_bytes
      → IsKept c.terminal_output_bytes ran.state
      → IsRecorded size options 0 c ran
  kept-IsRecorded c ran le (m, e) = record {
    limited =
        IsMetered-IsLimited size options c.terminal_output_bytes options.terminal_max_bytes
          ran.state.recorder le m;
    outcome = inr (
      record {
        recorder = subst (λ n. IsMetered size options n ran.state.recorder) (sym e) m;
        output = omega (arith, e);
      },
      omega (arith, e),
    );
  }
