-- ===== src/Capture/Terminal/Accounting.antt =====
-- About `emit_object_reference` of crates/rewind-capture/src/recorder.rs: what the recorder counts, and
-- what its events refer to.
use rewind_git_for_ai_agent.Prelude.{
  ℕ, ◌+◌, ◌≤◌, List, [], ◌∷◌, ◌++◌, ◌≡◌, refl, sym, ap, subst, ◌∙◌, ◌⊎◌, inl, inr, Result, ok, err,
  arith,
}
use rewind_git_for_ai_agent.Bytes.{Bytes}
use rewind_git_for_ai_agent.Domain.Digest.{ObjectId}
use rewind_git_for_ai_agent.Domain.Event.{EventPayload, RecorderWarningCode}
use rewind_git_for_ai_agent.Capture.Session.{CaptureOptions, CaptureError}
use rewind_git_for_ai_agent.Capture.Actions.{Ran, Action, Keeps, resume-holds}
use rewind_git_for_ai_agent.Capture.Recorder.{
  Reading, Recorder, Candidate, flush, emit, warning, warn_run_storage_limit, additional_bytes,
  projected_object_bytes, account_objects, emit_projected, emit_object_reference,
}
use rewind_git_for_ai_agent.Capture.Recorder.Keeping.{
  IsAboutBytes, emit-Keeps, flush-Keeps, warning-Keeps, warn_run_storage_limit-Keeps,
}
use rewind_git_for_ai_agent.Capture.Recorder.Meters.{
  output_of, referenced, IsCovered, Meters, contains_object_self, Meters-wider, Meters-IsMoved,
  emit-Meters, flush-Keeps-Meters, warning-Keeps-Meters, warn_run_storage_limit-Keeps-Meters,
}
use rewind_git_for_ai_agent.Capture.Terminal.UniqueBytes.{
  unique_bytes, unique_bytes_last, additional_bytes_one, within_limit-eq-ok,
}

-- What is counted at `r`.
abbrev pub IsAsAt : Recorder → Recorder → Type 0
IsAsAt r s =
    (s.accounted_objects ≡ r.accounted_objects) × (s.logical_object_bytes ≡ r.logical_object_bytes)

pub IsAsAt-IsAboutBytes : (r : Recorder) → IsAboutBytes (IsAsAt r)
IsAsAt-IsAboutBytes r s t a l trees h = (a ∙ h.0, l ∙ h.1)

-- What the recorder knows of its run: the count is exact and within the limit of the run, it covers all
-- objects of the trace, and the trace reports `total` bytes of output.
pub record IsMetered (size : Bytes → ℕ) (options : CaptureOptions) (total : ℕ) (r : Recorder)
    : Type 0 where
  pub counted : r.logical_object_bytes ≡ unique_bytes size r.accounted_objects
  pub bounded : r.logical_object_bytes ≤ options.max_run_bytes
  pub meters : Meters total r.accounted_objects r

-- What holds of the trace whatever came last: it reports at most `bound` bytes of output, and its objects
-- lie in a set whose bytes are within the limit of the run.
pub record IsLimited (size : Bytes → ℕ) (options : CaptureOptions) (bound : ℕ) (r : Recorder)
    : Type 0 where
  pub total : ℕ
  pub objects : List ObjectId
  pub output : total ≤ bound
  pub bounded : unique_bytes size objects ≤ options.max_run_bytes
  pub meters : Meters total objects r

-- An action that recorded this much output more, or failed within the limits.
pub data IsOutcome {ℓ} {A : Type ℓ} (size : Bytes → ℕ) (options : CaptureOptions) (total : ℕ)
    (ran : Ran Recorder A) : Type ℓ where
  within : IsMetered size options total ran.state → IsOutcome size options total ran
  short :
      (problem : CaptureError)
      → ran.result ≡ err problem
      → IsLimited size options total ran.state
      → IsOutcome size options total ran

pub IsMetered-IsLimited :
    (size : Bytes → ℕ) (options : CaptureOptions) (total bound : ℕ) (r : Recorder)
    → total ≤ bound
    → IsMetered size options total r
    → IsLimited size options bound r
IsMetered-IsLimited size options total bound r le h = record {
  total = total;
  objects = r.accounted_objects;
  output = le;
  bounded = rw⁻¹ h.counted h.bounded;
  meters = h.meters;
}

pub IsMetered-IsAsAt :
    (size : Bytes → ℕ) (options : CaptureOptions) (total : ℕ) (r s : Recorder)
    → IsAsAt r s
    → Meters total r.accounted_objects s
    → IsMetered size options total r
    → IsMetered size options total s
IsMetered-IsAsAt size options total r s (a, l) m h = record {
  counted = l ∙ h.counted ∙ ap (unique_bytes size) (sym a);
  bounded = rw l h.bounded;
  meters = subst (λ objects. Meters total objects s) (sym a) m;
}

module _ (size : Bytes → ℕ) (clock : ℕ → Result Reading CaptureError)
    (options : CaptureOptions) where
  abbrev sized : ObjectId → List Candidate
  sized id = record { object_id = id; logical_size = size id.bytes } ∷ []

  -- The objects with one more that the limit has room for.
  projected_bytes :
      (r : Recorder) (id : ObjectId) (projected total : ℕ)
      → IsMetered size options total r
      → projected_object_bytes options r (sized id) ≡ ok projected
      → (projected ≡ unique_bytes size (r.accounted_objects ++ (id ∷ [])))
        × (projected ≤ options.max_run_bytes)
  unfolding projected_object_bytes
  projected_bytes r id projected total h p =
      let (n, added, is, le) =
        within_limit-eq-ok options.max_run_bytes r.logical_object_bytes
          (additional_bytes r.accounted_objects 0 (sized id)) projected p in
      let one = additional_bytes_one r.accounted_objects id (size id.bytes) n added in
      (ground (arith, unique_bytes_last size r.accounted_objects id, h.counted), le)

  pub neutral-IsMetered {ℓ} :
      {A : Type ℓ} (total : ℕ) (action : Action Recorder A)
      → ((r : Recorder) → Keeps (IsAsAt r) action)
      → ((objects : List ObjectId) → Keeps (Meters total objects) action)
      → Keeps (IsMetered size options total) action
  neutral-IsMetered total action counts traces r h =
      IsMetered-IsAsAt size options total r (action r).state (counts r r (refl, refl))
        (traces r.accounted_objects r h.meters) h

  pub flush-IsMetered : (total : ℕ) → Keeps (IsMetered size options total) flush
  flush-IsMetered total =
      neutral-IsMetered total flush
        (λ r. flush-Keeps (IsAsAt r) (IsAsAt-IsAboutBytes r) clock options)
        (λ objects. flush-Keeps-Meters clock options total objects)

  pub warning-IsMetered :
      (total : ℕ) (code : RecorderWarningCode) (message : Bytes)
      → Keeps (IsMetered size options total) (warning clock options code message)
  warning-IsMetered total code message =
      neutral-IsMetered total (warning clock options code message)
        (λ r. warning-Keeps (IsAsAt r) (IsAsAt-IsAboutBytes r) clock options code message)
        (λ objects. warning-Keeps-Meters clock options total objects code message)

  warn_limit-IsMetered :
      (total : ℕ) → Keeps (IsMetered size options total) (warn_run_storage_limit clock options)
  warn_limit-IsMetered total =
      neutral-IsMetered total (warn_run_storage_limit clock options)
        (λ r. warn_run_storage_limit-Keeps (IsAsAt r) (IsAsAt-IsAboutBytes r) clock options)
        (λ objects. warn_run_storage_limit-Keeps-Meters clock options total objects)

  -- The object is accounted behind its event.
  accounted-IsMetered :
      (r s : Recorder) (id : ObjectId) (projected total : ℕ)
      → IsAsAt r s
      → projected ≡ unique_bytes size (r.accounted_objects ++ (id ∷ []))
      → projected ≤ options.max_run_bytes
      → Meters total (r.accounted_objects ++ (id ∷ [])) s
      → IsMetered size options total (account_objects (sized id) projected s).state
  unfolding account_objects
  accounted-IsMetered r s id projected total (a, l) is le m = record {
    counted = is ∙ ap (λ ids. unique_bytes size (ids ++ (id ∷ []))) (sym a);
    bounded = le;
    meters =
        subst
          (λ ids. Meters total (ids ++ (id ∷ [])) (account_objects (sized id) projected s).state)
          (sym a)
          (Meters-IsMoved total (r.accounted_objects ++ (id ∷ [])) s
            (account_objects (sized id) projected s).state
            (record { run = refl; sequencer = refl; own = m.in_step.own; same_trace = refl }) m);
  }

  -- An event of the trace whose object has room, accounted or not.
  reached-IsLimited :
      (objects : List ObjectId) (projected total out : ℕ) (s : Recorder)
      → projected ≡ unique_bytes size objects
      → projected ≤ options.max_run_bytes
      → Meters total objects s ⊎ Meters (total + out) objects s
      → IsLimited size options (total + out) s
  reached-IsLimited objects projected total out s is le (inl m) = record {
    total = total;
    objects = objects;
    output = omega arith;
    bounded = rw⁻¹ is le;
    meters = m;
  }
  reached-IsLimited objects projected total out s is le (inr m) = record {
    total = total + out;
    objects = objects;
    output = omega arith;
    bounded = rw⁻¹ is le;
    meters = m;
  }

  emit_projected-IsOutcome :
      (r : Recorder) (id : ObjectId) (payload : EventPayload) (found : Result ℕ CaptureError)
      (total : ℕ)
      → projected_object_bytes options r (sized id) ≡ found
      → referenced payload ≡ id ∷ []
      → IsMetered size options total r
      → IsOutcome size options
          (total + output_of payload)
          (emit_projected clock options (sized id) payload found r)
  unfolding emit_projected account_objects
  emit_projected-IsOutcome r id payload (err problem) total p refers h =
      let warn = warn_run_storage_limit clock options in
      let warned = warn_limit-IsMetered total r h in
      let kept = flush-IsMetered total (warn r).state warned in
      let limited : (s : Recorder)
          → IsMetered size options total s
          → IsLimited size options (total + output_of payload) s =
        λ s m.
          IsMetered-IsLimited size options total (total + output_of payload) s (omega arith) m in
      resume-holds (IsOutcome size options (total + output_of payload)) (warn r).result _
        (warn r).state (λ e _. short e refl (limited (warn r).state warned))
        (λ _ _.
          resume-holds (IsOutcome size options (total + output_of payload))
            (flush (warn r).state).result _ (flush (warn r).state).state
            (λ e _. short e refl (limited (flush (warn r).state).state kept))
            (λ _ _. short problem refl (limited (flush (warn r).state).state kept)))
  emit_projected-IsOutcome r id payload (ok projected) total p refers h =
      let (is, le) = projected_bytes r id projected total h p in
      let objects = r.accounted_objects ++ (id ∷ []) in
      let s = (emit clock options payload r).state in
      let same =
        emit-Keeps (IsAsAt r) (IsAsAt-IsAboutBytes r) clock options payload r (refl, refl) in
      let covered : IsCovered objects payload =
        rw refers (contains_object_self id r.accounted_objects, tt) in
      let reached =
        emit-Meters clock options total objects payload r covered
          (Meters-wider total r.accounted_objects (id ∷ []) r h.meters) in
      resume-holds (IsOutcome size options (total + output_of payload))
        (emit clock options payload r).result _ s
        (λ e _. short e refl (
          reached-IsLimited objects projected total (output_of payload) s is le
            (elim reached [ inl (_, m) ↦ inl m | inr m ↦ inr m ])))
        (λ sequence went. elim reached [
          | inl ((problem, failed), _) ↦ absurd (cc (went, failed))
          | inr m ↦
              within (accounted-IsMetered r s id projected (total + output_of payload) same is le m)
        ])

  -- A reference to an object is recorded with it, or the limits hold behind the error.
  pub emit_object_reference-IsOutcome :
      (r : Recorder) (id : ObjectId) (payload : EventPayload) (total : ℕ)
      → referenced payload ≡ id ∷ []
      → IsMetered size options total r
      → IsOutcome size options
          (total + output_of payload)
          (emit_object_reference clock options id (size id.bytes) payload r)
  unfolding emit_object_reference
  emit_object_reference-IsOutcome r id payload total refers h =
      emit_projected-IsOutcome r id payload _ total refl refers h
