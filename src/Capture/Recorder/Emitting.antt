-- ===== src/Capture/Recorder/Emitting.antt =====
-- About `emit` and `flush` of crates/rewind-capture/src/recorder.rs.
use rewind_git_for_ai_agent.Prelude.{
  ℕ, ◌+◌, List, [], ◌∷◌, ◌++◌, length, ◌≡◌, refl, sym, ap, subst, ◌∙◌, ◌⊎◌, inl, inr, leb,
  Bool-cases, Result, ok, err, Result-cases, All, append-nil,
}
use rewind_git_for_ai_agent.Domain.Ids.{EventSequence}
use rewind_git_for_ai_agent.Domain.Event.{Event, EventPayload}
use rewind_git_for_ai_agent.Store.Timeline.{events_of, append_event_batch}
use rewind_git_for_ai_agent.Store.Timeline.Sequence.{events_of-append, events_of_same}
use rewind_git_for_ai_agent.Store.Timeline.Appending.{append_event_batch-rows}
use rewind_git_for_ai_agent.Capture.Session.{CaptureOptions, CaptureError}
use rewind_git_for_ai_agent.Capture.Actions.{Ran, Action, return, resume}
use rewind_git_for_ai_agent.Capture.Recorder.{
  Sequenced, Reading, Recorder, next_at, flushed, flush_pending, flush, take_event, push_pending,
  now, next_event, queue_event, flush_if_full, emit,
}
use rewind_git_for_ai_agent.Capture.Recorder.Trace.{
  trace, InStep, InStep-IsMoved, Follows, next_at-Follows, IsOneMore, push-InStep,
}

-- A recorder that a reading of the clock leaves.
clock_read : Recorder → Recorder
clock_read r = record r { readings = r.readings + 1 }

clock_read-InStep : (r : Recorder) → InStep r → InStep (clock_read r)
unfolding clock_read
clock_read-InStep r h =
    InStep-IsMoved r (record r { readings = r.readings + 1 })
      (record { run = refl; sequencer = refl; own = h.own; same_trace = refl }) h

-- The result of an attempt to record an event: it was refused, or the trace has it at its end.
pub data IsAttempt (payload : EventPayload) (r : Recorder) (ran : Ran Recorder EventSequence)
    : Type 0 where
  refused :
      (problem : CaptureError)
      → ran.result ≡ err problem
      → trace ran.state ≡ trace r
      → IsAttempt payload r ran
  recorded :
      IsOneMore payload r ran.state
      → (ran.result ≡ ok r.sequencer.next) ⊎ ((problem : CaptureError) × (ran.result ≡ err problem))
      → IsAttempt payload r ran

-- The same where the event is still pending, so that recording it is a success.
abbrev IsQueued : EventPayload → Recorder → Ran Recorder EventSequence → Type 0
IsQueued payload r ran =
    InStep ran.state
    × ((((problem : CaptureError) × (ran.result ≡ err problem)) × (trace ran.state ≡ trace r))
        ⊎ (IsOneMore payload r ran.state × (ran.result ≡ ok r.sequencer.next)))

-- What is pushed when the sequencer gave an event, and when it did not.
push_taken : Result Sequenced CaptureError → Action Recorder EventSequence
push_taken q r = resume (take_event q r).result push_pending (take_event q r).state

push_taken-IsQueued :
    (payload : EventPayload) (r : Recorder) (found : Result Sequenced CaptureError)
    → ((q : Sequenced) → found ≡ ok q → Follows r.sequencer payload q)
    → InStep r
    → IsQueued payload r (push_taken found r)
unfolding push_taken take_event push_pending
push_taken-IsQueued payload r (err problem) f h = (h, inl ((problem, refl), refl))
push_taken-IsQueued payload r (ok q) f h =
    let follows = f q refl in
    let (i, one) = push-InStep r payload q h follows in (i, inr (one, ap ok follows.number))

IsOneMore-clock_read :
    (payload : EventPayload) (r s : Recorder)
    → IsOneMore payload (clock_read r) s
    → IsOneMore payload r s
unfolding clock_read
IsOneMore-clock_read payload r s one = record {
  event = one.event;
  carries = one.carries;
  number = one.number;
  trace_grows = one.trace_grows;
}

IsQueued-clock_read :
    (payload : EventPayload) (r : Recorder) (ran : Ran Recorder EventSequence)
    → IsQueued payload (clock_read r) ran
    → IsQueued payload r ran
unfolding clock_read
IsQueued-clock_read payload r ran (i, inl none_more) = (i, inl none_more)
IsQueued-clock_read payload r ran (i, inr (one, e)) =
    (i, inr (IsOneMore-clock_read payload r ran.state one, e))

flush_pending-InStep :
    (events : List Event) (r : Recorder)
    → r.pending ≡ events
    → InStep r
    → InStep (flush_pending events r).state × (trace (flush_pending events r).state ≡ trace r)
unfolding flush_pending flushed
flush_pending-InStep [] r p h = (h, refl)
flush_pending-InStep (e ∷ es) r p h = elim (Result-cases (append_event_batch r.store (e ∷ es))) [
  | inr (problem, f) ↦ rw (f, flushed) (h, refl)
  | inl (store, f) ↦
      let (rows, _, _) = append_event_batch-rows r.store store (e ∷ es) f in
      let same : events_of r.run_id store.tables.events ++ [] ≡ trace r =
        append-nil (events_of r.run_id store.tables.events)
        ∙ ap (events_of r.run_id) rows
        ∙ events_of-append r.run_id r.store.tables.events (e ∷ es)
        ∙ ap (λ xs. events_of r.run_id r.store.tables.events ++ xs)
            (events_of_same r.run_id (e ∷ es)
                (subst (All (λ (x : Event). x.run_id.uuid ≡ r.run_id.uuid)) p h.own)
              ∙ sym p) in
      rw (f, flushed)
        (
          InStep-IsMoved r (record r { store = store; pending = [] })
              (record { run = refl; sequencer = refl; own = tt; same_trace = same }) h,
          same,
        )
]

-- Storing the pending events moves them from the recorder to the store, and when it fails they stay
-- pending: the trace is the same.
pub flush-InStep :
    (r : Recorder) → InStep r → InStep (flush r).state × (trace (flush r).state ≡ trace r)
unfolding flush
flush-InStep r h = flush_pending-InStep r.pending r refl h

module _ (clock : ℕ → Result Reading CaptureError) (options : CaptureOptions) where
  pub queue_event-IsQueued :
      (payload : EventPayload) (r : Recorder)
      → InStep r
      → IsQueued payload r (queue_event clock options payload r)
  unfolding queue_event next_event now push_taken clock_read
  queue_event-IsQueued payload r h = elim (Result-cases (clock r.readings)) [
    | inr (problem, e) ↦ rw e (clock_read-InStep r h, inl ((problem, refl), refl))
    | inl (reading, e) ↦ rw e (
        IsQueued-clock_read payload r _ (
          push_taken-IsQueued payload (clock_read r) (next_at r.sequencer reading payload)
            (λ q k. next_at-Follows r.sequencer reading payload q k) (clock_read-InStep r h)))
  ]

  flush_if_full-InStep :
      (r : Recorder)
      → InStep r
      → InStep (flush_if_full clock options r).state
        × (trace (flush_if_full clock options r).state ≡ trace r)
  unfolding flush_if_full
  flush_if_full-InStep r h = elim (Bool-cases (leb options.event_batch_size (length r.pending))) [
    | inl full ↦ rw full (flush-InStep r h)
    | inr room ↦ rw room (h, refl)
  ]

  -- What is behind an attempt to queue: the flush, whose error is the result then.
  after_queue : EventSequence → Action Recorder EventSequence
  after_queue sequence r =
      resume (flush_if_full clock options r).result (λ done. return sequence)
        (flush_if_full clock options r).state

  resume-return :
      (done : Result (Unit {0}) CaptureError) (sequence : EventSequence) (s : Recorder)
      → ((resume done (λ d. return sequence) s).state ≡ s)
        × (((resume done (λ d. return sequence) s).result ≡ ok sequence)
            ⊎ ((problem : CaptureError) × ((resume done (λ d. return sequence) s).result
                  ≡ err problem)))
  resume-return (ok d) sequence s = (refl, inl refl)
  resume-return (err problem) sequence s = (refl, inr (problem, refl))

  after_queue_lem :
      (sequence : EventSequence) (s : Recorder)
      → InStep s
      → InStep (after_queue sequence s).state
        × (trace (after_queue sequence s).state ≡ trace s)
        × (((after_queue sequence s).result ≡ ok sequence)
            ⊎ ((problem : CaptureError) × ((after_queue sequence s).result ≡ err problem)))
  unfolding after_queue
  after_queue_lem sequence s h =
      let (i, t) = flush_if_full-InStep s h in
      let (same, result) =
        resume-return (flush_if_full clock options s).result sequence
          (flush_if_full clock options s).state in
      (subst InStep (sym same) i, ap trace same ∙ t, result)

  emit_queued :
      (payload : EventPayload) (r : Recorder) (ran : Ran Recorder EventSequence)
      → IsQueued payload r ran
      → InStep (resume ran.result after_queue ran.state).state
        × IsAttempt payload r (resume ran.result after_queue ran.state)
  emit_queued payload r ran (i, inl ((problem, e), t)) = rw e (i, refused problem refl t)
  emit_queued payload r ran (i, inr (one, e)) =
      let (j, t, result) = after_queue_lem r.sequencer.next ran.state i in
      rw e (
        j,
        recorded
            (record {
              event = one.event;
              carries = one.carries;
              number = one.number;
              trace_grows = t ∙ one.trace_grows;
            })
            result,
      )

  -- From a recorder that is in step with its trace, the events of the run in the store and those still
  -- pending, every attempt to record an event leaves one that is in step again. Either the attempt fails
  -- and the trace is as it was, or the trace has just this event more, at its end, with the next number,
  -- which is the result unless a flush fails.
  pub emit-IsAttempt :
      (payload : EventPayload) (r : Recorder)
      → InStep r
      → InStep (emit clock options payload r).state
        × IsAttempt payload r (emit clock options payload r)
  unfolding emit after_queue
  emit-IsAttempt payload r h =
      emit_queued payload r (queue_event clock options payload r) (queue_event-IsQueued payload r h)
