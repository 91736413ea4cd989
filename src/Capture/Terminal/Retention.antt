-- ===== src/Capture/Terminal/Retention.antt =====
-- About `record_input` of crates/rewind-capture/src/recorder.rs: input that is retained.
use rewind_git_for_ai_agent.Prelude.{
  ℕ, ◌+◌, List, Bool, length, ◌≡◌, refl, sym, ap, ◌∙◌, ◌⊎◌, inl, inr, true, Option, none, some,
  arith, Result, ok, err, Result-cases,
}
use rewind_git_for_ai_agent.Bytes.{Bytes}
use rewind_git_for_ai_agent.Domain.Digest.{ObjectId}
use rewind_git_for_ai_agent.Domain.Ids.{Timestamp}
use rewind_git_for_ai_agent.Domain.Run.{InputRecordingPolicy, auto, always, never}
use rewind_git_for_ai_agent.Domain.Event.{EventPayload, terminal_input}
use rewind_git_for_ai_agent.Store.Timeline.{Store}
use rewind_git_for_ai_agent.Store.Objects.{StoredObject, Put, put_object, load_object}
use rewind_git_for_ai_agent.Store.Objects.Kept.{load_object-import_object}
use rewind_git_for_ai_agent.Capture.Session.{CaptureOptions, CaptureError}
use rewind_git_for_ai_agent.Capture.Actions.{Keeps, bind-Keeps, resume-eq-ok}
use rewind_git_for_ai_agent.Capture.Recorder.{
  Reading, Recorder, Candidate, flush, now, emit, warn_run_storage_limit, account_objects,
  emit_projected, emit_object_reference,
}
use rewind_git_for_ai_agent.Capture.Recorder.Keeping.{
  HasSameTrees, same_trees, emit-Keeps, flush-Keeps, warn_run_storage_limit-Keeps,
}
use rewind_git_for_ai_agent.Capture.Terminal.{
  Coordinator, input_redaction, stored, put_bytes, record_retained_input, record_by, record_input,
}
use rewind_git_for_ai_agent.Capture.Terminal.Storing.{stored-eq-ok}
use rewind_git_for_ai_agent.Capture.Terminal.Redaction.{same_store}

-- The input that a recording is to have: all of it under `always`, and under `auto` what was seen to be
-- echoed.
abbrev pub IsRetained : InputRecordingPolicy → Option Bool → Type 0
IsRetained policy echo = (policy ≡ always) ⊎ ((policy ≡ auto) × (echo ≡ some true))

input_redaction-IsRetained :
    (policy : InputRecordingPolicy) (echo : Option Bool)
    → IsRetained policy echo
    → input_redaction policy echo ≡ none
unfolding input_redaction
input_redaction-IsRetained always echo h = refl
input_redaction-IsRetained never echo (inl h) = cc h
input_redaction-IsRetained never echo (inr (h, e)) = cc h
input_redaction-IsRetained auto echo (inl h) = cc h
input_redaction-IsRetained auto echo (inr (h, e)) = rw e refl

module _ (clock : ℕ → Result Reading CaptureError) (options : CaptureOptions) where
  emit_projected-HasSameTrees :
      (r : Recorder) (candidates : List Candidate) (payload : EventPayload)
      (found : Result ℕ CaptureError)
      → Keeps
          (λ s. HasSameTrees r.store s.store)
          (emit_projected clock options candidates payload found)
  unfolding emit_projected account_objects
  emit_projected-HasSameTrees r candidates payload (err problem) =
      let P : Recorder → Type 0 = λ s. HasSameTrees r.store s.store in
      bind-Keeps P (warn_run_storage_limit clock options) _
        (warn_run_storage_limit-Keeps P (same_store r) clock options)
        (λ done. bind-Keeps P flush _ (flush-Keeps P (same_store r) clock options) (λ done s k. k))
  emit_projected-HasSameTrees r candidates payload (ok projected) =
      let P : Recorder → Type 0 = λ s. HasSameTrees r.store s.store in
      bind-Keeps P (emit clock options payload) _
        (emit-Keeps P (same_store r) clock options payload)
        (λ sequence s k. record {
          files = k.files;
          objects = k.objects;
          snapshots = k.snapshots;
          entries = k.entries;
          checkpoints = k.checkpoints;
        })

  emit_object_reference-files :
      (id : ObjectId) (n : ℕ) (payload : EventPayload) (r : Recorder)
      → (emit_object_reference clock options id n payload r).state.store.files ≡ r.store.files
  unfolding emit_object_reference
  emit_object_reference-files id n payload r =
      let kept = emit_projected-HasSameTrees r _ payload _ r (same_trees r.store) in kept.files

module _ (digest : Bytes → ObjectId) (clock : ℕ → Result Reading CaptureError)
    (options : CaptureOptions) where
  load_object-files :
      (old new : Store) (id : ObjectId) (maximum : ℕ)
      → new.files ≡ old.files
      → load_object digest new id maximum ≡ load_object digest old id maximum
  unfolding load_object
  load_object-files old new id maximum e = rw e refl

  put_object-loads :
      (store : Store) (bytes : Bytes) (created : Timestamp) (put : Put)
      → put_object digest store bytes created ≡ ok put
      → load_object digest put.store (digest bytes) (length bytes) ≡ ok bytes
  unfolding put_object
  put_object-loads store bytes created put h =
      let (_, _, there, _) =
        load_object-import_object digest store (digest bytes) bytes created put h in
      there (length bytes) (omega arith)

  stored-loads :
      (store : Store) (bytes : Bytes) (created : Timestamp) (r : Recorder) (object : StoredObject)
      → (stored (put_object digest store bytes created) r).result ≡ ok object
      → load_object digest
          (stored (put_object digest store bytes created) r).state.store
          (digest bytes)
          (length bytes)
        ≡ ok bytes
  unfolding stored
  stored-loads store bytes created r object h =
      let (put, p, _) = stored-eq-ok (put_object digest store bytes created) r object h in
      rw p (put_object-loads store bytes created put p)

  put_bytes-loads :
      (bytes : Bytes) (r : Recorder) (object : StoredObject)
      → (put_bytes digest clock options bytes r).result ≡ ok object
      → load_object digest
          (put_bytes digest clock options bytes r).state.store
          (digest bytes)
          (length bytes)
        ≡ ok bytes
  unfolding put_bytes now
  put_bytes-loads bytes r object h = elim (Result-cases (clock r.readings)) [
    | inr (problem, e) ↦ cc (rw e at h)
    | inl (reading, e) ↦ rw e (
        stored-loads r.store bytes reading.wall_clock (record r { readings = r.readings + 1 })
          object (rw e at h))
  ]

  retained-loads :
      (bytes : Bytes) (r : Recorder)
      → (record_retained_input digest clock options bytes (length bytes) r).result ≡ ok tt
      → load_object digest
          (record_retained_input digest clock options bytes (length bytes) r).state.store
          (digest bytes)
          (length bytes)
        ≡ ok bytes
  unfolding record_retained_input
  retained-loads bytes r h =
      let s = (put_bytes digest clock options bytes r).state in
      let (object, went, whole) =
        resume-eq-ok (put_bytes digest clock options bytes r).result _ _ tt h in
      let payload = terminal_input s.stream_id object.id (length bytes) in
      let reference = emit_object_reference clock options object.id object.logical_size payload s in
      let (_, _, ended) =
        resume-eq-ok reference.result _ _ tt (ap (λ ran. ran.result) (sym whole) ∙ h) in
      ap (λ ran. load_object digest ran.state.store (digest bytes) (length bytes)) (whole ∙ ended)
      ∙ load_object-files s.store reference.state.store (digest bytes) (length bytes)
          (emit_object_reference-files clock options object.id object.logical_size payload s)
      ∙ put_bytes-loads bytes r object went

  -- Input that is to be retained, all of it under `always` and what was seen to be echoed under `auto`,
  -- is in the store when recording it succeeds: its object is loaded with exactly the bytes typed.
  pub load_object-record_input :
      (typed : Bytes) (echo : Option Bool) (c : Coordinator)
      → IsRetained options.record_input echo
      → (record_input digest clock options typed echo c).result ≡ ok tt
      → load_object digest
          (record_input digest clock options typed echo c).state.recorder.store
          (digest typed)
          (length typed)
        ≡ ok typed
  unfolding record_input record_by
  load_object-record_input typed echo c retained done =
      let e = input_redaction-IsRetained options.record_input echo retained in
      rw e (retained-loads typed c.recorder (rw e at done))
