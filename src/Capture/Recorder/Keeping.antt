-- ===== src/Capture/Recorder/Keeping.antt =====
-- About the fields that `emit`, `flush` and `warning` of crates/rewind-capture/src/recorder.rs leave
-- alone.
use rewind_git_for_ai_agent.Prelude.{
  ℕ, ◌+◌, List, [], ◌∷◌, ◌++◌, length, ◌≡◌, refl, sym, ◌∙◌, not, fail_if, ok_of_then,
  with_ok_of_bind, inl, inr, leb, Bool-cases, Result, ok, err, Result-cases,
}
use rewind_git_for_ai_agent.Bytes.{Bytes}
use rewind_git_for_ai_agent.Domain.Event.{Event, EventPayload, RecorderWarningCode}
use rewind_git_for_ai_agent.Store.Timeline.{
  Store, read_only, append_event_batch_in, append_event_batch,
}
use rewind_git_for_ai_agent.Store.Timeline.Appending.{
  append_event_batch_in_leaves, append_event_batch-eq-ok, append_event_batch-rows,
}
use rewind_git_for_ai_agent.Capture.Session.{CaptureOptions, CaptureError}
use rewind_git_for_ai_agent.Capture.Actions.{return, resume, Keeps, bind-Keeps}
use rewind_git_for_ai_agent.Capture.Recorder.{
  Sequenced, Reading, Recorder, next_at, flushed, flush_pending, flush, take_event, push_pending,
  now, next_event, queue_event, flush_if_full, emit, warning, warn_run_storage_limit,
}

-- The files, objects, trees and checkpoints of two stores are the same.
pub record HasSameTrees (old new : Store) : Type 0 where
  pub files : new.files ≡ old.files
  pub objects : new.tables.objects ≡ old.tables.objects
  pub snapshots : new.tables.snapshots ≡ old.tables.snapshots
  pub entries : new.tables.entries ≡ old.tables.entries
  pub checkpoints : new.tables.checkpoints ≡ old.tables.checkpoints

pub same_trees : (store : Store) → HasSameTrees store store
same_trees store = record {
  files = refl;
  objects = refl;
  snapshots = refl;
  entries = refl;
  checkpoints = refl;
}

pub HasSameTrees-trans : (a b c : Store) → HasSameTrees a b → HasSameTrees b c → HasSameTrees a c
HasSameTrees-trans a b c h k = record {
  files = k.files ∙ h.files;
  objects = k.objects ∙ h.objects;
  snapshots = k.snapshots ∙ h.snapshots;
  entries = k.entries ∙ h.entries;
  checkpoints = k.checkpoints ∙ h.checkpoints;
}

append_event_batch-files :
    (old new : Store) (events : List Event)
    → append_event_batch old events ≡ ok new
    → new.files ≡ old.files
unfolding append_event_batch
append_event_batch-files old new events h =
    let (_, k) = ok_of_then (fail_if (not old.is_writer) read_only) _ _ h in
    with_ok_of_bind (append_event_batch_in old.tables events) _ _ k (λ tables r l. sym (cc l))

append_event_batch-HasSameTrees :
    (old new : Store) (events : List Event)
    → append_event_batch old events ≡ ok new
    → HasSameTrees old new
append_event_batch-HasSameTrees old new events h =
    let (snapshots, entries, checkpoints) =
      append_event_batch_in_leaves old.tables new.tables events
        (append_event_batch-eq-ok old new events h) in
    let (_, _, objects) = append_event_batch-rows old new events h in
    record {
      files = append_event_batch-files old new events h;
      objects = objects;
      snapshots = snapshots;
      entries = entries;
      checkpoints = checkpoints;
    }

-- A predicate on what the limit of the run counts, and on the trees of the store.
abbrev pub IsAboutBytes {κ} : (Recorder → Type κ) → Type κ
IsAboutBytes P =
    (r s : Recorder)
    → s.accounted_objects ≡ r.accounted_objects
    → s.logical_object_bytes ≡ r.logical_object_bytes
    → HasSameTrees r.store s.store
    → P r
    → P s

module _ {κ} (P : Recorder → Type κ) (others : IsAboutBytes P)
    (clock : ℕ → Result Reading CaptureError) (options : CaptureOptions) where
  pub now-Keeps : Keeps P (now clock options)
  now-Keeps r h =
      unfold now in
      others r (record r { readings = r.readings + 1 }) refl refl (same_trees r.store) h

  take_event-Keeps : (found : Result Sequenced CaptureError) → Keeps P (take_event found)
  unfolding take_event
  take_event-Keeps (err problem) r h = h
  take_event-Keeps (ok q) r h =
      others r (record r { sequencer = q.sequencer }) refl refl (same_trees r.store) h

  pub next_event-Keeps : (payload : EventPayload) → Keeps P (next_event clock options payload)
  unfolding next_event
  next_event-Keeps payload =
      bind-Keeps P (now clock options)
        (λ reading r. take_event (next_at r.sequencer reading payload) r) now-Keeps
        (λ reading r h. take_event-Keeps (next_at r.sequencer reading payload) r h)

  queue_event-Keeps : (payload : EventPayload) → Keeps P (queue_event clock options payload)
  unfolding queue_event push_pending
  queue_event-Keeps payload =
      bind-Keeps P (next_event clock options payload) push_pending (next_event-Keeps payload)
        (λ event r h.
          others r (record r { pending = r.pending ++ (event ∷ []) }) refl refl (same_trees r.store)
            h)

  flushed-Keeps :
      (events : List Event) → Keeps P (λ r. flushed r (append_event_batch r.store events))
  unfolding flushed
  flushed-Keeps events r h = elim (Result-cases (append_event_batch r.store events)) [
    | inl (store, e) ↦ rw e (
        others r (record r { store = store; pending = [] }) refl refl
          (append_event_batch-HasSameTrees r.store store events e) h)
    | inr (problem, e) ↦ rw e h
  ]

  flush_pending-Keeps : (events : List Event) → Keeps P (flush_pending events)
  unfolding flush_pending
  flush_pending-Keeps [] r h = h
  flush_pending-Keeps (e ∷ es) r h = flushed-Keeps (e ∷ es) r h

  pub flush-Keeps : Keeps P flush
  unfolding flush
  flush-Keeps r h = flush_pending-Keeps r.pending r h

  flush_if_full-Keeps : Keeps P (flush_if_full clock options)
  unfolding flush_if_full
  flush_if_full-Keeps r h = elim (Bool-cases (leb options.event_batch_size (length r.pending))) [
    | inl full ↦ rw full (flush-Keeps r h)
    | inr room ↦ rw room h
  ]

  pub emit-Keeps : (payload : EventPayload) → Keeps P (emit clock options payload)
  unfolding emit
  emit-Keeps payload =
      bind-Keeps P (queue_event clock options payload)
        (λ sequence r.
          resume (flush_if_full clock options r).result (λ done. return sequence)
            (flush_if_full clock options r).state)
        (queue_event-Keeps payload)
        (λ sequence.
          bind-Keeps P (flush_if_full clock options) (λ done. return sequence) flush_if_full-Keeps
            (λ done r h. h))

  pub warning-Keeps :
      (code : RecorderWarningCode) (message : Bytes) → Keeps P (warning clock options code message)
  unfolding warning
  warning-Keeps code message =
      bind-Keeps P (emit clock options _) (λ sequence. return tt) (emit-Keeps _) (λ sequence r h. h)

  pub warn_run_storage_limit-Keeps : Keeps P (warn_run_storage_limit clock options)
  unfolding warn_run_storage_limit
  warn_run_storage_limit-Keeps = warning-Keeps _ _
