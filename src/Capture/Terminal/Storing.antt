-- ===== src/Capture/Terminal/Storing.antt =====
-- About `record_output` and `record_input` of crates/rewind-capture/src/recorder.rs: bytes that are
-- stored, and the event about them.
use rewind_git_for_ai_agent.Prelude.{
  ℕ, ◌+◌, [], ◌∷◌, ◌++◌, subst, length, ◌≡◌, refl, sym, ap, ◌∙◌, inl, inr, arith, Result, ok, err,
  Result-cases,
}
use rewind_git_for_ai_agent.Bytes.{Bytes}
use rewind_git_for_ai_agent.Domain.Digest.{ObjectId}
use rewind_git_for_ai_agent.Domain.Ids.{EventSequence}
use rewind_git_for_ai_agent.Domain.Event.{EventPayload}
use rewind_git_for_ai_agent.Store.Timeline.{Store, StoreError, events_of}
use rewind_git_for_ai_agent.Store.Objects.{StoredObject, Put, import_object, put_object}
use rewind_git_for_ai_agent.Store.Objects.Kept.{import_object-events, load_object-import_object}
use rewind_git_for_ai_agent.Capture.Session.{CaptureOptions, CaptureError}
use rewind_git_for_ai_agent.Capture.Actions.{Action, ◌>>=◌, Keeps, bind-Keeps, resume-holds}
use rewind_git_for_ai_agent.Capture.Recorder.{Reading, Recorder, now, emit_object_reference}
use rewind_git_for_ai_agent.Capture.Recorder.Keeping.{now-Keeps}
use rewind_git_for_ai_agent.Capture.Terminal.{stored, put_bytes}
use rewind_git_for_ai_agent.Capture.Recorder.Meters.{
  output_of, referenced, Meters-IsMoved, now-Keeps-Meters,
}
use rewind_git_for_ai_agent.Capture.Terminal.Accounting.{
  IsAsAt, IsAsAt-IsAboutBytes, IsMetered, IsOutcome, short, IsMetered-IsLimited, IsMetered-IsAsAt,
  neutral-IsMetered, emit_object_reference-IsOutcome,
}

pub stored-eq-ok :
    (put : Result Put StoreError) (r : Recorder) (object : StoredObject)
    → (stored put r).result ≡ ok object
    → (p : Put) × (put ≡ ok p) × (p.object ≡ object)
unfolding stored
stored-eq-ok (ok put) r object h = (put, refl, cc h)
stored-eq-ok (err problem) r object h = cc h

module _ (digest : Bytes → ObjectId) (size : Bytes → ℕ)
    (size-digest : (bytes : Bytes) → size (digest bytes).bytes ≡ length bytes)
    (clock : ℕ → Result Reading CaptureError) (options : CaptureOptions) where
  put_object-size :
      (store : Store) (bytes : Bytes) (created : _) (put : Put)
      → put_object digest store bytes created ≡ ok put
      → put.object.logical_size ≡ size put.object.id.bytes
  unfolding put_object
  put_object-size store bytes created put h =
      let (id, logical, _, _) =
        load_object-import_object digest store (digest bytes) bytes created put h in
      logical ∙ sym (size-digest bytes) ∙ sym (ap (λ (i : ObjectId). size i.bytes) id)

  put_bytes-size :
      (bytes : Bytes) (r : Recorder) (object : StoredObject)
      → (put_bytes digest clock options bytes r).result ≡ ok object
      → object.logical_size ≡ size object.id.bytes
  unfolding put_bytes now
  put_bytes-size bytes r object h = elim (Result-cases (clock r.readings)) [
    | inr (problem, e) ↦ cc (rw e at h)
    | inl (reading, e) ↦
        let (put, p, same) =
          stored-eq-ok (put_object digest r.store bytes reading.wall_clock)
            (record r { readings = r.readings + 1 }) object (rw e at h) in
        ap (λ (o : StoredObject). o.logical_size) (sym same)
        ∙ put_object-size r.store bytes reading.wall_clock put p
        ∙ ap (λ (o : StoredObject). size o.id.bytes) same
  ]

  stored-IsMetered :
      (total : ℕ) (bytes : Bytes) (created : _) (r : Recorder)
      → IsMetered size options total r
      → IsMetered size options total (stored (put_object digest r.store bytes created) r).state
  unfolding stored put_object
  stored-IsMetered total bytes created r h =
      elim (Result-cases (import_object digest r.store (digest bytes) bytes created)) [
        | inr (problem, e) ↦ rw e h
        | inl (put, e) ↦ rw e (
            IsMetered-IsAsAt size options total r (record r { store = put.store }) (refl, refl)
              (Meters-IsMoved total r.accounted_objects r (record r { store = put.store })
                (record {
                  run = refl;
                  sequencer = refl;
                  own = h.meters.in_step.own;
                  same_trace =
                      ap (λ rows. events_of r.run_id rows ++ r.pending)
                        (import_object-events digest r.store (digest bytes) bytes created put e);
                })
                h.meters)
              h)
      ]

  put_bytes-IsMetered :
      (total : ℕ) (bytes : Bytes)
      → Keeps (IsMetered size options total) (put_bytes digest clock options bytes)
  unfolding put_bytes
  put_bytes-IsMetered total bytes =
      bind-Keeps (IsMetered size options total) (now clock options)
        (λ reading r. stored (put_object digest r.store bytes reading.wall_clock) r)
        (neutral-IsMetered size clock options total (now clock options)
          (λ r. now-Keeps (IsAsAt r) (IsAsAt-IsAboutBytes r) clock options)
          (λ objects. now-Keeps-Meters clock options total objects))
        (λ reading r h. stored-IsMetered total bytes reading.wall_clock r h)

  -- The reference to an object whose size is the one that its digest stands for.
  emit_sized-IsOutcome :
      (object : StoredObject) (payload : EventPayload) (total : ℕ) (r : Recorder)
      → object.logical_size ≡ size object.id.bytes
      → referenced payload ≡ object.id ∷ []
      → IsMetered size options total r
      → IsOutcome size options
          (total + output_of payload)
          (emit_object_reference clock options object.id object.logical_size payload r)
  emit_sized-IsOutcome object payload total r e refers h =
      rw e (emit_object_reference-IsOutcome size clock options r object.id payload total refers h)

  -- The bytes are stored and the event about them is recorded.
  unfoldable pub put_and_emit :
      Bytes → (ObjectId → Recorder → EventPayload) → Action Recorder EventSequence
  put_and_emit bytes payload = do
    object ← put_bytes digest clock options bytes
    λ r. emit_object_reference clock options object.id object.logical_size (payload object.id r) r

  pub put_and_emit-IsOutcome :
      (bytes : Bytes) (payload : ObjectId → Recorder → EventPayload) (total out : ℕ) (r : Recorder)
      → ((id : ObjectId) (s : Recorder)
          → (referenced (payload id s) ≡ id ∷ []) × (output_of (payload id s) ≡ out))
      → IsMetered size options total r
      → IsOutcome size options (total + out) (put_and_emit bytes payload r)
  unfolding put_and_emit
  put_and_emit-IsOutcome bytes payload total out r refers h =
      let kept = put_bytes-IsMetered total bytes r h in
      let s = (put_bytes digest clock options bytes r).state in
      resume-holds (IsOutcome size options (total + out))
        (put_bytes digest clock options bytes r).result _ s
        (λ e _.
          short e refl (IsMetered-IsLimited size options total (total + out) s (omega arith) kept))
        (λ object went.
          let (covers, reports) = refers object.id s in
          subst
            (λ n. IsOutcome size options (total + n) (
              emit_object_reference clock options object.id object.logical_size
                (payload object.id s) s))
            reports
            (emit_sized-IsOutcome object (payload object.id s) total s
              (put_bytes-size bytes r object went) covers kept))
