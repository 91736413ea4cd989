-- ===== src/Capture/Terminal/Redaction.antt =====
-- About `record_input` of crates/rewind-capture/src/recorder.rs: input that is kept out.
use rewind_git_for_ai_agent.Prelude.{
  ℕ, length, ◌≡◌, ◌≢◌, refl, ap, ◌⊎◌, inl, inr, Bool, true, false, if◌then◌else◌, Option, none,
  some, Result,
}
use rewind_git_for_ai_agent.Bytes.{Bytes}
use rewind_git_for_ai_agent.Domain.Digest.{ObjectId}
use rewind_git_for_ai_agent.Domain.Run.{InputRecordingPolicy, auto, always, never}
use rewind_git_for_ai_agent.Domain.Event.{
  InputRedactionReason, echo_disabled, policy_never, echo_detection_unavailable,
  terminal_input_redacted,
}
use rewind_git_for_ai_agent.Capture.Session.{CaptureOptions, CaptureError}
use rewind_git_for_ai_agent.Capture.Actions.{Ran, Keeps, bind-Keeps}
use rewind_git_for_ai_agent.Capture.Recorder.{Reading, Recorder, emit, warning}
use rewind_git_for_ai_agent.Capture.Recorder.Keeping.{
  HasSameTrees, HasSameTrees-trans, same_trees, IsAboutBytes, emit-Keeps, warning-Keeps,
}
use rewind_git_for_ai_agent.Capture.Terminal.{
  Coordinator, on_recorder, input_redaction, is_uncertain, set_echo_warning, warn_uncertain_echo,
  record_redacted, record_by, record_input,
}

-- What the person at the terminal may rely on to be kept out of the recording: everything under the
-- policy `never`, and under `auto` all that was not seen to be echoed on the screen.
abbrev pub IsPrivate : InputRecordingPolicy → Option Bool → Type 0
IsPrivate policy echo = (policy ≡ never) ⊎ ((policy ≡ auto) × (echo ≢ some true))

input_redaction-IsPrivate :
    (policy : InputRecordingPolicy) (echo : Option Bool)
    → IsPrivate policy echo
    → (reason : InputRedactionReason) × (input_redaction policy echo ≡ some reason)
unfolding input_redaction
input_redaction-IsPrivate always echo (inl h) = cc h
input_redaction-IsPrivate always echo (inr (h, _)) = cc h
input_redaction-IsPrivate never echo h = (policy_never, refl)
input_redaction-IsPrivate auto none h = (echo_detection_unavailable, refl)
input_redaction-IsPrivate auto (some false) h = (echo_disabled, refl)
input_redaction-IsPrivate auto (some true) (inl h) = cc h
input_redaction-IsPrivate auto (some true) (inr h) = absurd (h.1 refl)

pub same_store : (r : Recorder) → IsAboutBytes (λ s. HasSameTrees r.store s.store)
same_store r s t a l trees h = HasSameTrees-trans r.store s.store t.store h trees

module _ (digest : Bytes → ObjectId) (clock : ℕ → Result Reading CaptureError)
    (options : CaptureOptions) where
  -- The store has the files, objects and trees that it had at `c`.
  abbrev HasStoreOf : Coordinator → Coordinator → Type 0
  HasStoreOf c d = HasSameTrees c.recorder.store d.recorder.store

  if-HasStoreOf :
      (c : Coordinator) (test : Bool) (a b : Ran Coordinator (Unit {0}))
      → HasStoreOf c a.state
      → HasStoreOf c b.state
      → HasStoreOf c (if test then a else b).state
  if-HasStoreOf c true a b h k = h
  if-HasStoreOf c false a b h k = k

  warn_uncertain_echo-HasStoreOf :
      (c : Coordinator) (reason : InputRedactionReason)
      → Keeps (HasStoreOf c) (warn_uncertain_echo digest clock options reason)
  unfolding warn_uncertain_echo set_echo_warning
  warn_uncertain_echo-HasStoreOf c reason d h =
      if-HasStoreOf c (is_uncertain reason) _ _
        (if-HasStoreOf c d.echo_warning_emitted _ _ h (
          bind-Keeps (HasStoreOf c) (on_recorder (warning clock options _ _)) _
            (λ e k.
              warning-Keeps (λ s. HasSameTrees c.recorder.store s.store) (same_store c.recorder)
                clock options _ _ e.recorder k)
            (λ done e k. k) d h))
        h

  redacted-HasStoreOf :
      (c : Coordinator) (reason : InputRedactionReason) (n : ℕ)
      → Keeps (HasStoreOf c) (record_redacted digest clock options reason n)
  unfolding record_redacted
  redacted-HasStoreOf c reason n =
      bind-Keeps (HasStoreOf c) (warn_uncertain_echo digest clock options reason) _
        (warn_uncertain_echo-HasStoreOf c reason)
        (λ done.
          bind-Keeps (HasStoreOf c) (on_recorder (λ r. emit clock options _ r)) _
            (λ d k.
              emit-Keeps (λ s. HasSameTrees c.recorder.store s.store) (same_store c.recorder) clock
                options (terminal_input_redacted d.recorder.stream_id n reason) d.recorder k)
            (λ sequence d k. k))

  -- Private input, all input under `never` and input without a seen echo under `auto`, is kept out of the
  -- recording, whatever the result: no file and no object is added to the store, and the result and the
  -- state behind it are the same as for any other input of this length.
  pub record_input-IsPrivate :
      (typed other : Bytes) (echo : Option Bool) (c : Coordinator)
      → IsPrivate options.record_input echo
      → length typed ≡ length other
      → let after = (record_input digest clock options typed echo c).state.recorder.store in
        (after.files ≡ c.recorder.store.files)
        × (after.tables.objects ≡ c.recorder.store.tables.objects)
        × (record_input digest clock options typed echo c
            ≡ record_input digest clock options other echo c)
  unfolding record_input record_by
  record_input-IsPrivate typed other echo c private same =
      let (reason, e) = input_redaction-IsPrivate options.record_input echo private in
      let kept = redacted-HasStoreOf c reason (length typed) c (same_trees c.recorder.store) in
      rw e
        (kept.files, kept.objects, ap (λ n. record_redacted digest clock options reason n c) same)
