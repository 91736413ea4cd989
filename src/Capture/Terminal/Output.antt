-- ===== src/Capture/Terminal/Output.antt =====
-- About `record_output` of crates/rewind-capture/src/recorder.rs: the limits of a run.
use rewind_git_for_ai_agent.Prelude.{
  ℕ, ◌+◌, ◌≤◌, ◌^◌, subst, length, ◌≡◌, refl, sym, inl, inr, ltb, leb, Bool-cases, arith, Result,
  ok, err,
}
use rewind_git_for_ai_agent.Bytes.{Bytes}
use rewind_git_for_ai_agent.Domain.Digest.{ObjectId}
use rewind_git_for_ai_agent.Domain.Event.{EventPayload, terminal_output}
use rewind_git_for_ai_agent.Capture.Session.{CaptureOptions, CaptureError, terminal_output_limit}
use rewind_git_for_ai_agent.Capture.Actions.{
  Ran, Action, resume, ◌>>=◌, Keeps, bind-Keeps, resume-holds,
}
use rewind_git_for_ai_agent.Capture.Recorder.{
  Reading, Recorder, flush, warning, emit_object_reference,
}
use rewind_git_for_ai_agent.Capture.Terminal.{
  Coordinator, on_recorder, count_output, put_bytes, refuse_output, record_accepted_output,
  record_output,
}
use rewind_git_for_ai_agent.Capture.Recorder.Meters.{output_of, referenced}
use rewind_git_for_ai_agent.Capture.Terminal.Accounting.{
  IsMetered, within, short, IsMetered-IsLimited, flush-IsMetered, warning-IsMetered,
}
use rewind_git_for_ai_agent.Capture.Terminal.Storing.{put_and_emit, put_and_emit-IsOutcome}
use rewind_git_for_ai_agent.Capture.Terminal.Metered.{IsMeteredRun, IsRecorded, IsLimited-wider}

-- What goes on behind two steps of the recorder.
on_recorder_twice {ℓ κ} :
    {A : Type ℓ} {B : Type κ} (r : Result A CaptureError) (f : A → Action Recorder B)
    (k : Action Coordinator (Unit {0})) (c : Coordinator) (s : Recorder)
    → resume r (λ a. on_recorder (f a) >>= λ b. k) (record c { recorder = s })
      ≡ resume (resume r f s).result (λ b. k) (record c { recorder = (resume r f s).state })
on_recorder_twice (ok a) f k c s = refl
on_recorder_twice (err e) f k c s = refl

module _ (digest : Bytes → ObjectId) (size : Bytes → ℕ)
    (size-digest : (bytes : Bytes) → size (digest bytes).bytes ≡ length bytes)
    (clock : ℕ → Result Reading CaptureError) (options : CaptureOptions) where
  accepted-IsRecorded :
      (bytes : Bytes) (c : Coordinator)
      → c.terminal_output_bytes + length bytes ≤ options.terminal_max_bytes
      → IsMeteredRun size options c
      → IsRecorded size options (length bytes) c (
          record_accepted_output digest clock options bytes
            (c.terminal_output_bytes + length bytes)
            c)
  unfolding record_accepted_output count_output put_and_emit output_of referenced
  accepted-IsRecorded bytes c le h =
      let next = c.terminal_output_bytes + length bytes in
      let payload : ObjectId → Recorder → EventPayload =
        λ id r. terminal_output r.stream_id id (length bytes) in
      let both = put_and_emit digest size size-digest clock options bytes payload c.recorder in
      let outcome =
        put_and_emit-IsOutcome digest size size-digest clock options bytes payload
          c.terminal_output_bytes (length bytes) c.recorder (λ id r. (refl, refl)) h.recorder in
      subst (IsRecorded size options (length bytes) c)
        (sym (
          on_recorder_twice (put_bytes digest clock options bytes c.recorder).result
            (λ object r.
              emit_object_reference clock options object.id object.logical_size
                (payload object.id r) r)
            (count_output next) c (put_bytes digest clock options bytes c.recorder).state))
        (elim outcome [
          | within m ↦
              resume-holds (IsRecorded size options (length bytes) c) both.result _
                (record c { recorder = both.state })
                (λ e _. record {
                  limited =
                      IsMetered-IsLimited size options next options.terminal_max_bytes both.state le
                        m;
                  outcome = inl (e, refl);
                })
                (λ _ _. record {
                  limited =
                      IsMetered-IsLimited size options next options.terminal_max_bytes both.state le
                        m;
                  outcome = inr (record { recorder = m; output = le }, refl);
                })
          | short problem failed limited ↦
              resume-holds (IsRecorded size options (length bytes) c) both.result _
                (record c { recorder = both.state })
                (λ e _. record {
                  limited =
                      IsLimited-wider size options next options.terminal_max_bytes both.state le
                        limited;
                  outcome = inl (e, refl);
                })
                (λ _ went. absurd (cc (failed, went)))
        ])

  refuse_fails :
      (r : Recorder)
      → (problem : CaptureError) × ((refuse_output digest clock options r).result ≡ err problem)
  unfolding refuse_output
  refuse_fails r =
      let warned = warning clock options _ _ r in
      let fails : Ran Recorder (Unit {0}) → Type 0 =
        λ ran. (problem : CaptureError) × (ran.result ≡ err problem) in
      resume-holds fails warned.result _ warned.state (λ e _. (e, refl))
        (λ _ _.
          resume-holds fails (flush warned.state).result _ (flush warned.state).state
            (λ e _. (e, refl)) (λ _ _. (_, refl)))

  refuse_output-IsMetered :
      (total : ℕ) → Keeps (IsMetered size options total) (refuse_output digest clock options)
  unfolding refuse_output
  refuse_output-IsMetered total =
      bind-Keeps (IsMetered size options total) (warning clock options _ _) _
        (warning-IsMetered size clock options total _ _)
        (λ done.
          bind-Keeps (IsMetered size options total) flush _
            (flush-IsMetered size clock options total) (λ done r h. h))

  pub record_output-IsRecorded :
      (bytes : Bytes) (c : Coordinator)
      → IsMeteredRun size options c
      → IsRecorded size options (length bytes) c (record_output digest clock options bytes c)
  unfolding record_output
  record_output-IsRecorded bytes c h =
      let limited =
        IsMetered-IsLimited size options c.terminal_output_bytes options.terminal_max_bytes in
      elim (Bool-cases (leb (2 ^ 64) (c.terminal_output_bytes + length bytes))) [
        | inl large ↦ rw large (record {
          limited = limited c.recorder h.output h.recorder;
          outcome = inl (terminal_output_limit options.terminal_max_bytes, refl);
        })
        | inr small ↦
            elim (Bool-cases
              (ltb options.terminal_max_bytes (c.terminal_output_bytes + length bytes))) [
                | inl over ↦
                    rw (small, over)
                      (record {
                        limited =
                            limited (refuse_output digest clock options c.recorder).state h.output (
                              refuse_output-IsMetered c.terminal_output_bytes c.recorder
                                h.recorder);
                        outcome = inl (refuse_fails c.recorder);
                      })
                | inr within_limits ↦
                    rw (small, within_limits) (accepted-IsRecorded bytes c (ground arith) h)
              ]
      ]
