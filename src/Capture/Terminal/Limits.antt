-- ===== src/Capture/Terminal/Limits.antt =====
-- About `record_output` and `record_input` of crates/rewind-capture/src/recorder.rs: what the events of a
-- run report and refer to, against the limits of the run.
use rewind_git_for_ai_agent.Bytes.{Bytes}
use rewind_git_for_ai_agent.Capture.Recorder.{Recorder}
