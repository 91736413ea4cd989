-- ===== src/Store/History/Closed.antt =====
-- About finished runs in histories of a store (crates/rewind-store/src/event.rs, run.rs and
-- snapshot.rs).
use rewind_git_for_ai_agent.Prelude.{
  List, [], ◌∷◌, ◌++◌, Bool, ◌≡◌, refl, sym, ap, ◌∙◌, Option, some, true, false, ◌==◌, Bool-cases,
  inl, inr, arith, ok,
}
use rewind_git_for_ai_agent.Domain.Digest.{SnapshotId}
use rewind_git_for_ai_agent.Domain.Ids.{RunId}
use rewind_git_for_ai_agent.Domain.Run.{
  Run, Checkpoint, RunStatus, preparing, running, completed, failed, interrupted, crashed,
  can_transition_to, is_terminal,
}
use rewind_git_for_ai_agent.Domain.Event.{Event}
use rewind_git_for_ai_agent.Store.Timeline.{
  Database, Store, run_status, events_of, check_status, append_event_batch_in,
}
use rewind_git_for_ai_agent.Store.Timeline.Appending.{
  append_event_batch_in_rows, append_event_batch-eq-ok, append_event_batch_in-cons,
  append_event_batch_in-nil, other_run_kept,
}
use rewind_git_for_ai_agent.Store.Runs.{update_run}
use rewind_git_for_ai_agent.Store.Runs.Updates.{
  Moves, mark_run_running-Moves, finish_run-Moves, finish_run_in-Moves,
}
use rewind_git_for_ai_agent.Store.Runs.Finished.{finish_run_with_events-eq-ok}
use rewind_git_for_ai_agent.Bytes.{Bytes}
use rewind_git_for_ai_agent.Domain.Manifest.{SnapshotManifest}
use rewind_git_for_ai_agent.Store.Creation.Forest.{create_run-eq-ok, insert_run-eq-ok}
use rewind_git_for_ai_agent.Store.Snapshots.Stored.{store_snapshot-eq-ok}
use rewind_git_for_ai_agent.Store.Checkpoints.Effects.{
  IsLink, links_nothing, links_initial, links_final, Committed, store_snapshot_in_sound,
  commit_checkpoint_in-Committed, commit_checkpoint-eq-ok, commit_checkpoint_with_event-eq-ok,
}
use rewind_git_for_ai_agent.Store.History.{
  Step, creating, storing, checkpointing, checkpointing_with_event, appending, starting, finishing,
  finishing_with_events, History, nothing_yet, followed_by,
}

-- A run in a terminal status whose status and events are the same in both tables.
record Kept (id : RunId) (status : RunStatus) (old new : Database) : Type 0 where
  same_status : run_status id new.runs ≡ some status
  same_events : events_of id new.events ≡ events_of id old.events

not-can_transition_to_terminal :
    (status next : RunStatus) → is_terminal status ≡ true → can_transition_to status next ≡ false
unfolding is_terminal can_transition_to
not-can_transition_to_terminal preparing next h = cc
not-can_transition_to_terminal running next h = cc
not-can_transition_to_terminal completed next h = refl
not-can_transition_to_terminal failed next h = refl
not-can_transition_to_terminal interrupted next h = refl
not-can_transition_to_terminal crashed next h = refl

update_run_keeps_status :
    (x id : RunId) (change : Run → Run) (runs : List Run)
    → ((run : Run) → (change run).id ≡ run.id)
    → ((run : Run) → (change run).status ≡ run.status)
    → run_status x (update_run id change runs) ≡ run_status x runs
unfolding run_status update_run
update_run_keeps_status x id change [] k s = refl
update_run_keeps_status x id change (run ∷ runs) k s =
    ground (arith, k run, s run, update_run_keeps_status x id change runs k s)

IsLink-status :
    (snapshot : SnapshotId) (change : Run → Run)
    → IsLink snapshot change
    → ((run : Run) → (change run).id ≡ run.id) × ((run : Run) → (change run).status ≡ run.status)
IsLink-status snapshot change links_nothing = (λ run. refl, λ run. refl)
IsLink-status snapshot change links_initial = (λ run. refl, λ run. refl)
IsLink-status snapshot change links_final = (λ run. refl, λ run. refl)

run_status_old :
    (id : RunId) (status : RunStatus) (runs others : List Run)
    → run_status id runs ≡ some status
    → run_status id (runs ++ others) ≡ some status
unfolding run_status
run_status_old id status [] others h = cc h
run_status_old id status (run ∷ runs) others h =
    ground (arith, run_status_old id status runs others)

check_status_sound :
    (current : Option RunStatus) (status : RunStatus)
    → check_status current ≡ ok tt
    → current ≡ some status
    → is_terminal status ≡ false
unfolding check_status is_terminal
check_status_sound current status h e = ground arith

same_id : (a b : RunId) → a.uuid ≡ b.uuid → a ≡ b
same_id a b e = ap (λ n. record { uuid = n }) e

Moves-Kept :
    (moved id : RunId) (before after status : RunStatus) (old new : Database)
    → Moves moved before after old new
    → is_terminal status ≡ true
    → run_status id old.runs ≡ some status
    → Kept id status old new
Moves-Kept moved id before after status old new m t h = elim (Bool-cases (moved.uuid == id.uuid)) [
  | inl same ↦
      let e : moved ≡ id = same_id moved id (ground arith) in
      let b : some before ≡ some status = sym m.was ∙ ap (λ r. run_status r old.runs) e ∙ h in
      let k : before ≡ status = cc in
      absurd (cc (m.legal, k, not-can_transition_to_terminal status after t))
  | inr other ↦ record {
    same_status = m.others id (λ e. ground arith) ∙ h;
    same_events = ap (events_of id) m.same_events;
  }
]

append_event_batch_in-Kept :
    (id : RunId) (status : RunStatus) (old new : Database) (events : List Event)
    → append_event_batch_in old events ≡ ok new
    → is_terminal status ≡ true
    → run_status id old.runs ≡ some status
    → Kept id status old new
append_event_batch_in-Kept id status old new [] a t h =
    let e = append_event_batch_in-nil old new a in
    record { same_status = rw (← e) h; same_events = rw (← e) refl }
append_event_batch_in-Kept id status old new (e ∷ es) a t h =
    let (_, runs, _) = append_event_batch_in_rows old new (e ∷ es) a in
    let (_, active, _, _) = append_event_batch_in-cons old new e es a in
    elim (Bool-cases (e.run_id.uuid == id.uuid)) [
      | inl same ↦
          let k : e.run_id ≡ id = same_id e.run_id id (ground arith) in
          absurd (cc (check_status_sound (run_status id old.runs) status (rw (← k) active) h, t))
      | inr other ↦ record {
        same_status = rw runs h;
        same_events = other_run_kept old new e es id a (λ u. ground arith);
      }
    ]

Kept-trans :
    {id : RunId} {status : RunStatus} {a b c : Database}
    → Kept id status a b
    → Kept id status b c
    → Kept id status a c
Kept-trans h k = record { same_status = k.same_status; same_events = k.same_events ∙ h.same_events }

Committed-Kept :
    (digest : SnapshotManifest → SnapshotId) (id : RunId) (status : RunStatus)
    (checkpoint : Checkpoint) (old new : Database)
    → Committed digest checkpoint old new
    → run_status id old.runs ≡ some status
    → Kept id status old new
Committed-Kept digest id status checkpoint old new c h =
    let (k, s) = IsLink-status checkpoint.snapshot_id c.change c.is_link in
    record {
      same_status = rw c.runs (update_run_keeps_status id c.run c.change old.runs k s ∙ h);
      same_events = ap (events_of id) c.events;
    }

Step-Kept :
    {is_utf8 : Bytes → Bool} {digest : SnapshotManifest → SnapshotId} {s s' : Store} (id : RunId)
    (status : RunStatus)
    → Step is_utf8 digest s s'
    → is_terminal status ≡ true
    → run_status id s.tables.runs ≡ some status
    → Kept id status s.tables s'.tables
Step-Kept {is_utf8} {digest} {s} {s'} id status (creating run a) t h =
    let (_, _, i) = create_run-eq-ok is_utf8 s s' run a in
    let (_, _, e) = insert_run-eq-ok s.tables s'.tables run i in
    record {
      same_status = rw e (run_status_old id status s.tables.runs (run ∷ []) h);
      same_events = rw e refl;
    }
Step-Kept {is_utf8} {digest} {s} {s'} id status (storing snapshot created a) t h =
    let (_, k) = store_snapshot-eq-ok digest s s' snapshot created a in
    let e = store_snapshot_in_sound digest s.tables s'.tables snapshot created k in
    record { same_status = rw e h; same_events = rw e refl }
Step-Kept {is_utf8} {digest} {s} {s'} id status (checkpointing checkpoint snapshot a) t h =
    let (_, k) = commit_checkpoint-eq-ok digest s s' checkpoint snapshot a in
    Committed-Kept digest id status checkpoint s.tables s'.tables
      (commit_checkpoint_in-Committed digest s.tables s'.tables checkpoint snapshot k) h
Step-Kept {is_utf8} {digest} {s} {s'} id status
      (checkpointing_with_event checkpoint snapshot event a) t h =
    let (_, _, db, k, b) =
      commit_checkpoint_with_event-eq-ok digest s s' checkpoint snapshot event a in
    let first =
      Committed-Kept digest id status checkpoint s.tables db
        (commit_checkpoint_in-Committed digest s.tables db checkpoint snapshot k) h in
    Kept-trans first
      (append_event_batch_in-Kept id status db s'.tables (event ∷ []) b t first.same_status)
Step-Kept {is_utf8} {digest} {s} {s'} id status (appending events a) t h =
    append_event_batch_in-Kept id status s.tables s'.tables events
      (append_event_batch-eq-ok s s' events a) t h
Step-Kept {is_utf8} {digest} {s} {s'} id status (starting moved snapshot a) t h =
    Moves-Kept moved id preparing running status s.tables s'.tables
      (mark_run_running-Moves s s' moved snapshot a) t h
Step-Kept {is_utf8} {digest} {s} {s'} id status (finishing moved finish a) t h =
    let (_, before, m) = finish_run-Moves s s' moved finish a in
    Moves-Kept moved id before finish.status status s.tables s'.tables m t h
Step-Kept {is_utf8} {digest} {s} {s'} id status (finishing_with_events moved finish events a) t h =
    let (_, db, b, f) = finish_run_with_events-eq-ok s s' moved finish events a in
    let (_, before, m) = finish_run_in-Moves db s'.tables moved finish f in
    let first = append_event_batch_in-Kept id status s.tables db events b t h in
    Kept-trans first
      (Moves-Kept moved id before finish.status status db s'.tables m t first.same_status)

-- Through every history of created runs, stored snapshots, committed checkpoints, appended batches,
-- starts and finalizations a run that has reached a terminal status keeps that status, and no event is
-- added to it or taken from it.
pub History-closed :
    {is_utf8 : Bytes → Bool} {digest : SnapshotManifest → SnapshotId} {s s' : Store} (id : RunId)
    (status : RunStatus)
    → History is_utf8 digest s s'
    → is_terminal status ≡ true
    → run_status id s.tables.runs ≡ some status
    → (run_status id s'.tables.runs ≡ some status)
      × (events_of id s'.tables.events ≡ events_of id s.tables.events)
History-closed id status nothing_yet t h = (h, refl)
History-closed id status (followed_by step history) t h =
    let k = Step-Kept id status step t h in
    let (r, e) = History-closed id status history t k.same_status in (r, e ∙ k.same_events)
