-- ===== src/Store/Runs/Finished.antt =====
-- About `finish_run_with_events` of crates/rewind-store/src/run.rs.
use rewind_git_for_ai_agent.Prelude.{
  List, [], ◌∷◌, ◌++◌, ◌≡◌, refl, ◌∙◌, none, some, true, not, arith, ok, ok_of_then,
  with_ok_of_bind, fail_if,
}
use rewind_git_for_ai_agent.Domain.Ids.{RunId}
use rewind_git_for_ai_agent.Domain.Run.{is_terminal}
use rewind_git_for_ai_agent.Domain.Event.{Event, EventPayload, run_completed}
use rewind_git_for_ai_agent.Store.Timeline.{
  Database, Store, read_only, run_status, append_event_batch_in,
}
use rewind_git_for_ai_agent.Store.Timeline.Sequence.{last_of}
use rewind_git_for_ai_agent.Store.Timeline.Appending.{append_event_batch_in_rows}
use rewind_git_for_ai_agent.Store.Runs.{
  RunFinish, last_event, check_completion, check_terminal_event, finish_run_in,
  finish_run_with_events,
}
use rewind_git_for_ai_agent.Store.Runs.Updates.{finish_run_in-Moves}

pub finish_run_with_events-eq-ok :
    (store store' : Store) (id : RunId) (finish : RunFinish) (events : List Event)
    → finish_run_with_events store id finish events ≡ ok store'
    → (check_terminal_event id finish events ≡ ok tt)
      × (appended : Database) × (append_event_batch_in store.tables events ≡ ok appended)
      × (finish_run_in appended id finish ≡ ok store'.tables)
unfolding finish_run_with_events
finish_run_with_events-eq-ok store store' id finish events h =
    let (_, k) = ok_of_then (fail_if (not store.is_writer) read_only) _ _ h in
    let (c, l) = ok_of_then (check_terminal_event id finish events) _ _ k in
    with_ok_of_bind (append_event_batch_in store.tables events) _ _ l (λ appended a m.
      with_ok_of_bind (finish_run_in appended id finish) _ _ m (λ db f n. (c, appended, a, f ∙ cc)))

check_completion_sound :
    (id : RunId) (finish : RunFinish) (last : Event) (payload : EventPayload)
    → check_completion id finish last payload ≡ ok tt
    → payload ≡ run_completed finish.status finish.exit_status
unfolding check_completion
check_completion_sound id finish last payload h = ground arith

last_event-last_of :
    (event : Event) (events : List Event)
    → last_of (some event) events ≡ some (last_event event events)
unfolding last_event
last_event-last_of event [] = refl
last_event-last_of event (next ∷ events) = last_event-last_of next events

check_terminal_event_sound :
    (id : RunId) (finish : RunFinish) (events : List Event)
    → check_terminal_event id finish events ≡ ok tt
    → (last : Event) × (last_of none events ≡ some last)
      × (last.payload ≡ run_completed finish.status finish.exit_status)
unfolding check_terminal_event
check_terminal_event_sound id finish [] h = cc
check_terminal_event_sound id finish (e ∷ es) h =
    let last = last_event e es in
    (last, last_event-last_of e es, check_completion_sound id finish last last.payload h)

-- After a finalization with events the run has the given status, which is terminal, and exactly the
-- given events, the completion of the run among them as the last one, stand behind those before.
pub finish_run_with_events_lem :
    (store store' : Store) (id : RunId) (finish : RunFinish) (events : List Event)
    → finish_run_with_events store id finish events ≡ ok store'
    → (is_terminal finish.status ≡ true)
      × (run_status id store'.tables.runs ≡ some finish.status)
      × (store'.tables.events ≡ store.tables.events ++ events)
      × (last : Event) × (last_of none events ≡ some last)
      × (last.payload ≡ run_completed finish.status finish.exit_status)
finish_run_with_events_lem store store' id finish events h =
    let (c, appended, a, f) = finish_run_with_events-eq-ok store store' id finish events h in
    let (rows, _, _) = append_event_batch_in_rows store.tables appended events a in
    let (t, before, m) = finish_run_in-Moves appended store'.tables id finish f in
    let (last, l, p) = check_terminal_event_sound id finish events c in
    (t, m.is, m.same_events ∙ rows, last, l, p)
