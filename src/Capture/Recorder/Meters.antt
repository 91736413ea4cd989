-- ===== src/Capture/Recorder/Meters.antt =====
-- About the events of crates/rewind-capture/src/recorder.rs that carry terminal bytes.
use rewind_git_for_ai_agent.Prelude.{
  ℕ, ◌+◌, List, [], ◌∷◌, ◌++◌, ◌≡◌, refl, subst, inl, inr, ◌⊎◌, true, Result, err, All, All-imp,
  All-join, arith,
}
use rewind_git_for_ai_agent.Bytes.{Bytes}
use rewind_git_for_ai_agent.Bytes.Compare.{bytes_eq_iff}
use rewind_git_for_ai_agent.Domain.Digest.{ObjectId}
use rewind_git_for_ai_agent.Domain.Event.{
  Event, EventPayload, terminal_input, terminal_output, RecorderWarningCode,
}
use rewind_git_for_ai_agent.Capture.Session.{CaptureOptions, CaptureError}
use rewind_git_for_ai_agent.Capture.Actions.{return, Keeps, bind-Keeps}
use rewind_git_for_ai_agent.Capture.Recorder.{
  Reading, Recorder, contains_object, flush, now, emit, warning, warn_run_storage_limit,
}
use rewind_git_for_ai_agent.Capture.Recorder.Trace.{
  trace, InStep, IsMoved, InStep-IsMoved, IsOneMore,
}
use rewind_git_for_ai_agent.Capture.Recorder.Emitting.{
  refused, recorded, emit-IsAttempt, flush-InStep,
}

-- The bytes of terminal output that an event reports.
unfoldable pub output_of : EventPayload → ℕ
output_of (terminal_output stream object n) = n
output_of payload = 0

unfoldable pub output_total : List Event → ℕ
output_total [] = 0
output_total (e ∷ es) = output_of e.payload + output_total es

-- The objects that an event refers to for its bytes.
unfoldable pub referenced : EventPayload → List ObjectId
referenced (terminal_output stream object n) = object ∷ []
referenced (terminal_input stream object n) = object ∷ []
referenced payload = []

abbrev pub IsCovered : List ObjectId → EventPayload → Type 0
IsCovered objects payload = All (λ id. contains_object id objects ≡ true) (referenced payload)

-- The trace reports this much output, and its objects are all among these.
pub record Meters (total : ℕ) (objects : List ObjectId) (r : Recorder) : Type 0 where
  pub in_step : InStep r
  pub output : output_total (trace r) ≡ total
  pub covers : All (λ (e : Event). IsCovered objects e.payload) (trace r)

output_total-append :
    (es fs : List Event) → output_total (es ++ fs) ≡ output_total es + output_total fs
unfolding output_total
output_total-append [] fs = omega arith
output_total-append (e ∷ es) fs = omega (arith, output_total-append es fs)

contains_object-append :
    (id : ObjectId) (xs ys : List ObjectId)
    → contains_object id xs ≡ true
    → contains_object id (xs ++ ys) ≡ true
unfolding contains_object
contains_object-append id [] ys h = cc h
contains_object-append id (x ∷ xs) ys h = ground (arith, contains_object-append id xs ys)

pub contains_object_self :
    (id : ObjectId) (xs : List ObjectId) → contains_object id (xs ++ (id ∷ [])) ≡ true
unfolding contains_object
contains_object_self id [] = ground (arith, bytes_eq_iff id.bytes id.bytes)
contains_object_self id (x ∷ xs) = ground (arith, contains_object_self id xs)

pub Meters-wider :
    (total : ℕ) (objects more : List ObjectId) (r : Recorder)
    → Meters total objects r
    → Meters total (objects ++ more) r
Meters-wider total objects more r h = record {
  in_step = h.in_step;
  output = h.output;
  covers =
      All-imp
        (λ (e : Event) k.
          All-imp (λ id c. contains_object-append id objects more c) (referenced e.payload) k)
        (trace r) h.covers;
}

pub Meters-IsMoved :
    (total : ℕ) (objects : List ObjectId) (r s : Recorder)
    → IsMoved r s
    → Meters total objects r
    → Meters total objects s
Meters-IsMoved total objects r s m h = record {
  in_step = InStep-IsMoved r s m h.in_step;
  output = rw m.same_trace h.output;
  covers = rw m.same_trace h.covers;
}

Meters-same :
    (total : ℕ) (objects : List ObjectId) (r s : Recorder)
    → InStep s
    → trace s ≡ trace r
    → Meters total objects r
    → Meters total objects s
Meters-same total objects r s i t h = record {
  in_step = i;
  output = rw t h.output;
  covers = rw t h.covers;
}

Meters-more :
    (total : ℕ) (objects : List ObjectId) (payload : EventPayload) (r s : Recorder)
    → InStep s
    → IsOneMore payload r s
    → IsCovered objects payload
    → Meters total objects r
    → Meters (total + output_of payload) objects s
unfolding output_total
Meters-more total objects payload r s i one c h = record {
  in_step = i;
  output = rw (one.trace_grows, output_total-append, one.carries, h.output) (omega arith);
  covers = rw one.trace_grows (
      All-join (λ (e : Event). IsCovered objects e.payload) (trace r) (one.event ∷ []) h.covers
        (rw one.carries c, tt));
}

module _ (clock : ℕ → Result Reading CaptureError) (options : CaptureOptions) where
  -- The attempt to record an event: it failed and the trace is as it was, or the trace has the event.
  pub emit-Meters :
      (total : ℕ) (objects : List ObjectId) (payload : EventPayload) (r : Recorder)
      → IsCovered objects payload
      → Meters total objects r
      → (((problem : CaptureError) × ((emit clock options payload r).result ≡ err problem))
          × Meters total objects (emit clock options payload r).state)
        ⊎ Meters (total + output_of payload) objects (emit clock options payload r).state
  emit-Meters total objects payload r c h =
      let (i, attempt) = emit-IsAttempt clock options payload r h.in_step in
      elim attempt [
        | refused problem e t ↦
            inl
              ((problem, e), Meters-same total objects r (emit clock options payload r).state i t h)
        | recorded one result ↦
            inr (Meters-more total objects payload r (emit clock options payload r).state i one c h)
      ]

  pub emit-Keeps-Meters :
      (total : ℕ) (objects : List ObjectId) (payload : EventPayload)
      → output_of payload ≡ 0
      → IsCovered objects payload
      → Keeps (Meters total objects) (emit clock options payload)
  emit-Keeps-Meters total objects payload zero_output c r h =
      elim (emit-Meters total objects payload r c h) [
        | inl (failed, k) ↦ k
        | inr k ↦
            subst (λ n. Meters n objects (emit clock options payload r).state)
              (omega (arith, zero_output)) k
      ]

  pub flush-Keeps-Meters :
      (total : ℕ) (objects : List ObjectId) → Keeps (Meters total objects) flush
  flush-Keeps-Meters total objects r h =
      let (i, t) = flush-InStep r h.in_step in Meters-same total objects r (flush r).state i t h

  pub now-Keeps-Meters :
      (total : ℕ) (objects : List ObjectId) → Keeps (Meters total objects) (now clock options)
  unfolding now
  now-Keeps-Meters total objects r h =
      Meters-IsMoved total objects r (record r { readings = r.readings + 1 })
        (record { run = refl; sequencer = refl; own = h.in_step.own; same_trace = refl }) h

  pub warning-Keeps-Meters :
      (total : ℕ) (objects : List ObjectId) (code : RecorderWarningCode) (message : Bytes)
      → Keeps (Meters total objects) (warning clock options code message)
  unfolding warning output_of referenced
  warning-Keeps-Meters total objects code message =
      bind-Keeps (Meters total objects) (emit clock options _) (λ sequence. return tt)
        (emit-Keeps-Meters total objects _ refl tt) (λ sequence r h. h)

  pub warn_run_storage_limit-Keeps-Meters :
      (total : ℕ) (objects : List ObjectId)
      → Keeps (Meters total objects) (warn_run_storage_limit clock options)
  unfolding warn_run_storage_limit
  warn_run_storage_limit-Keeps-Meters total objects = warning-Keeps-Meters total objects _ _
