-- ===== src/Capture/Recorder/Trace.antt =====
-- About `emit` and `flush` of crates/rewind-capture/src/recorder.rs: the events of the run, stored or
-- still pending.
use rewind_git_for_ai_agent.Prelude.{
  ℕ, zero, suc, ltb, ◌^◌, ◌+◌, ◌≤◌, List, [], ◌∷◌, ◌++◌, ◌≡◌, refl, sym, ap, ◌∙◌, inl, inr, Option,
  none, some, Bool-cases, All, All-join, arith, Result, ok, err, append_assoc,
}
use rewind_git_for_ai_agent.Domain.Ids.{
  RunId, EventId, EventSequence, MonotonicDuration, Timestamp, checked_next, event_sequence,
}
use rewind_git_for_ai_agent.Domain.Event
use rewind_git_for_ai_agent.Domain.Event.{
  Event, EventPayload, EventValidationError, event_schema_version,
}
use rewind_git_for_ai_agent.Store.Timeline.{events_of}
use rewind_git_for_ai_agent.Store.Timeline.Sequence.{
  sequence_of, offset_of, IsContiguous, last_of, append-IsContiguous,
}
use rewind_git_for_ai_agent.Capture.Recorder.{
  Sequencer, Sequenced, Reading, Recorder, later_of, advance, next_at,
}

-- The events that the recorder has made so far: those of its run in the store, then the pending ones.
abbrev pub trace : Recorder → List Event
trace r = events_of r.run_id r.store.tables.events ++ r.pending

-- The sequencer goes on where the trace ends, and the trace has no gap.
pub record InStep (r : Recorder) : Type 0 where
  pub own : All (λ (e : Event). e.run_id.uuid ≡ r.run_id.uuid) r.pending
  pub contiguous : IsContiguous none (trace r)
  pub next : r.sequencer.next.get ≡ sequence_of (last_of none (trace r)) + 1
  pub offset : offset_of (last_of none (trace r)) ≤ r.sequencer.last_offset.nanoseconds
  pub same_run : r.sequencer.run_id ≡ r.run_id

-- A recorder with the same run, sequencer and trace.
pub record IsMoved (r s : Recorder) : Type 0 where
  pub run : s.run_id ≡ r.run_id
  pub sequencer : s.sequencer ≡ r.sequencer
  pub own : All (λ (e : Event). e.run_id.uuid ≡ s.run_id.uuid) s.pending
  pub same_trace : trace s ≡ trace r

pub InStep-IsMoved : (r s : Recorder) → IsMoved r s → InStep r → InStep s
InStep-IsMoved r s m h = record {
  own = m.own;
  contiguous = rw m.same_trace h.contiguous;
  next = rw (m.same_trace, m.sequencer) h.next;
  offset = rw (m.same_trace, m.sequencer) h.offset;
  same_run = rw (m.sequencer, m.run) h.same_run;
}

event_sequence-eq-some :
    (n : ℕ) (next : EventSequence) → event_sequence n ≡ some next → next.get ≡ n
unfolding event_sequence
event_sequence-eq-some zero next h = cc h
event_sequence-eq-some (suc n) next h = sym (ground arith)

checked_next-eq-some : (s next : EventSequence) → checked_next s ≡ some next → next.get ≡ s.get + 1
unfolding checked_next
checked_next-eq-some s next h = elim (Bool-cases (ltb (s.get + 1) (2 ^ 64))) [
  | inl small ↦ event_sequence-eq-some (s.get + 1) next (rw small at h)
  | inr large ↦ absurd (some-ne-none next (rw large at h))
]
  where
    some-ne-none : (next : EventSequence) → none ≡ some next → ⊥
    some-ne-none next h = cc h

new-eq-ok :
    (id : EventId) (run_id : RunId) (sequence : EventSequence) (wall : Timestamp)
    (offset : MonotonicDuration) (payload : EventPayload) (e : Event)
    → Event.new id run_id sequence wall offset payload ≡ ok e
    → e ≡ record {
      id = id;
      run_id = run_id;
      sequence = sequence;
      wall_clock = wall;
      monotonic_offset = offset;
      schema_version = event_schema_version;
      payload = payload;
    }
unfolding Event.new
new-eq-ok id run_id sequence wall offset payload e h = ground arith

advance-eq-ok :
    (s : Sequencer) (offset : MonotonicDuration) (made : Result Event EventValidationError)
    (next : Option EventSequence) (q : Sequenced)
    → advance s offset made next ≡ ok q
    → (e : Event) × (made ≡ ok e)
      × (n : EventSequence) × (next ≡ some n)
      × (q ≡ record { event = e; sequencer = record s { next = n; last_offset = offset } })
unfolding advance
advance-eq-ok s offset (err problem) next q h = cc h
advance-eq-ok s offset (ok e) none q h = cc h
advance-eq-ok s offset (ok e) (some n) q h = (e, refl, n, refl, sym (cc h))

-- What the next event and the sequencer behind it are.
pub record Follows (s : Sequencer) (payload : EventPayload) (q : Sequenced) : Type 0 where
  pub run : q.event.run_id ≡ s.run_id
  pub number : q.event.sequence ≡ s.next
  pub carries : q.event.payload ≡ payload
  pub later : s.last_offset.nanoseconds ≤ q.event.monotonic_offset.nanoseconds
  pub run_kept : q.sequencer.run_id ≡ s.run_id
  pub next : q.sequencer.next.get ≡ s.next.get + 1
  pub last_offset : q.sequencer.last_offset ≡ q.event.monotonic_offset

pub next_at-Follows :
    (s : Sequencer) (reading : Reading) (payload : EventPayload) (q : Sequenced)
    → next_at s reading payload ≡ ok q
    → Follows s payload q
unfolding next_at
next_at-Follows s reading payload q h =
    let offset = later_of reading.monotonic_offset s.last_offset in
    let (e, made, n, there, is) =
      advance-eq-ok s offset
        (Event.new reading.event_id s.run_id s.next reading.wall_clock offset payload)
        (checked_next s.next) q h in
    let same =
      new-eq-ok reading.event_id s.run_id s.next reading.wall_clock offset payload e made in
    record {
      run = rw (is, same) refl;
      number = rw (is, same) refl;
      carries = rw (is, same) refl;
      later = rw (is, same) (omega arith);
      run_kept = rw is refl;
      next = rw is (checked_next-eq-some s.next n there);
      last_offset = rw (is, same) refl;
    }

-- What queueing or emitting an event did: the trace has one more event, or the event was refused.
pub record IsOneMore (payload : EventPayload) (r s : Recorder) : Type 0 where
  pub event : Event
  pub carries : event.payload ≡ payload
  pub number : event.sequence ≡ r.sequencer.next
  pub trace_grows : trace s ≡ trace r ++ (event ∷ [])

last_of-append :
    (previous : Option Event) (es : List Event) (e : Event)
    → last_of previous (es ++ (e ∷ [])) ≡ some e
last_of-append previous [] e = refl
last_of-append previous (x ∷ xs) e = last_of-append (some x) xs e

pub push-InStep :
    (r : Recorder) (payload : EventPayload) (q : Sequenced)
    → InStep r
    → Follows r.sequencer payload q
    → let s : Recorder = record r {
      sequencer = q.sequencer;
      pending = r.pending ++ (q.event ∷ []);
    } in
      InStep s × IsOneMore payload r s
push-InStep r payload q h f =
    let grown : events_of r.run_id r.store.tables.events ++ (r.pending ++ (q.event ∷ []))
        ≡ trace r ++ (q.event ∷ []) =
      sym (append_assoc (events_of r.run_id r.store.tables.events) r.pending (q.event ∷ [])) in
    let last = last_of-append none (trace r) q.event in
    (
      record {
        own =
            All-join (λ (e : Event). e.run_id.uuid ≡ r.run_id.uuid) r.pending (q.event ∷ []) h.own
              (ap (λ (i : RunId). i.uuid) (f.run ∙ h.same_run), tt);
        contiguous = rw grown (
            append-IsContiguous none (trace r) (q.event ∷ []) h.contiguous (
              ap (λ (n : EventSequence). n.get) f.number ∙ h.next,
              omega (arith, h.offset, f.later),
              tt,
            ));
        next =
            rw (grown, last)
              (f.next ∙ ap (λ n. n + 1) (ap (λ (n : EventSequence). n.get) (sym f.number)));
        offset = rw (grown, last, f.last_offset) (omega arith);
        same_run = f.run_kept ∙ h.same_run;
      },
      record { event = q.event; carries = f.carries; number = f.number; trace_grows = grown },
    )
