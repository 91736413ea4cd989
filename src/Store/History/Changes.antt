-- ===== src/Store/History/Changes.antt =====
-- About what the operations of crates/rewind-store/src/event.rs, run.rs and snapshot.rs do to the
-- table of runs.
use rewind_git_for_ai_agent.Prelude.{
  List, [], ◌∷◌, ◌++◌, Bool, ◌≡◌, sym, ap, subst, ◌∙◌, some, true, false, not, is_some, ok,
  ok_of_then, with_ok_of_bind, fail_if,
}
use rewind_git_for_ai_agent.Bytes.{Bytes}
use rewind_git_for_ai_agent.Domain.Digest.{SnapshotId}
use rewind_git_for_ai_agent.Domain.Ids.{RunId}
use rewind_git_for_ai_agent.Domain.Manifest.{SnapshotManifest}
use rewind_git_for_ai_agent.Domain.Run.{Run, preparing, is_terminal, validate}
use rewind_git_for_ai_agent.Store.Timeline.{Database, Store, read_only, run_status}
use rewind_git_for_ai_agent.Store.Timeline.Appending.{
  append_event_batch_in_rows, append_event_batch-eq-ok,
}
use rewind_git_for_ai_agent.Store.Runs.{
  RunFinish, update_run, start, close, start_if_preparing, mark_run_running, finish_run_in,
  finish_run,
}
use rewind_git_for_ai_agent.Store.Runs.Updates.{start_if_preparing-eq-ok, finish_run_in-eq-ok}
use rewind_git_for_ai_agent.Store.Runs.Finished.{finish_run_with_events-eq-ok}
use rewind_git_for_ai_agent.Store.Creation.{find_run, reject_cycle}
use rewind_git_for_ai_agent.Store.Creation.Forest.{insert_run-eq-ok, create_run-eq-ok}
use rewind_git_for_ai_agent.Store.Snapshots.Stored.{store_snapshot-eq-ok}
use rewind_git_for_ai_agent.Store.Checkpoints.Effects.{
  IsLink, store_snapshot_in_sound, commit_checkpoint_in-Committed, commit_checkpoint-eq-ok,
  commit_checkpoint_with_event-eq-ok,
}
use rewind_git_for_ai_agent.Store.History.{
  Step, creating, storing, checkpointing, checkpointing_with_event, appending, starting, finishing,
  finishing_with_events,
}

-- The table of runs before and after one operation.
pub data RunsChange : List Run → List Run → Type 0 where
  unchanged : {runs : List Run} → RunsChange runs runs
  inserts :
      {runs : List Run} (run : Run)
      → validate run ≡ ok tt
      → reject_cycle runs run.id run.parent ≡ ok tt
      → is_some (find_run run.id runs) ≡ false
      → RunsChange runs (runs ++ (run ∷ []))
  starts :
      {runs : List Run} (id : RunId) (snapshot : SnapshotId)
      → run_status id runs ≡ some preparing
      → RunsChange runs (update_run id (start snapshot) runs)
  closes :
      {runs : List Run} (id : RunId) (finish : RunFinish)
      → is_terminal finish.status ≡ true
      → RunsChange runs (update_run id (close finish) runs)
  links :
      {runs : List Run} (id : RunId) (snapshot : SnapshotId) (change : Run → Run)
      → IsLink snapshot change
      → RunsChange runs (update_run id change runs)

to_same : {old new same : List Run} → new ≡ same → RunsChange old same → RunsChange old new
to_same {old} e c = subst (RunsChange old) (sym e) c

mark_run_running-RunsChange :
    (store store' : Store) (id : RunId) (snapshot : SnapshotId)
    → mark_run_running store id snapshot ≡ ok store'
    → RunsChange store.tables.runs store'.tables.runs
unfolding mark_run_running
mark_run_running-RunsChange store store' id snapshot h =
    let (_, k) = ok_of_then (fail_if (not store.is_writer) read_only) _ _ h in
    with_ok_of_bind (start_if_preparing (run_status id store.tables.runs) store.tables id snapshot)
      _ _ k
      (λ db r l.
        let (w, e) =
          start_if_preparing-eq-ok (run_status id store.tables.runs) store.tables store'.tables id
            snapshot (r ∙ cc) in
        to_same (ap (λ (d : Database). d.runs) e) (starts id snapshot w))

finish_run_in-RunsChange :
    (db db' : Database) (id : RunId) (finish : RunFinish)
    → finish_run_in db id finish ≡ ok db'
    → RunsChange db.runs db'.runs
finish_run_in-RunsChange db db' id finish h =
    let (t, _, e) = finish_run_in-eq-ok db db' id finish h in
    to_same (ap (λ (d : Database). d.runs) e) (closes id finish t)

finish_run-RunsChange :
    (store store' : Store) (id : RunId) (finish : RunFinish)
    → finish_run store id finish ≡ ok store'
    → RunsChange store.tables.runs store'.tables.runs
unfolding finish_run
finish_run-RunsChange store store' id finish h =
    let (_, k) = ok_of_then (fail_if (not store.is_writer) read_only) _ _ h in
    with_ok_of_bind (finish_run_in store.tables id finish) _ _ k
      (λ db r l. finish_run_in-RunsChange store.tables store'.tables id finish (r ∙ cc))

pub Step-RunsChange :
    {is_utf8 : Bytes → Bool} {digest : SnapshotManifest → SnapshotId} {s s' : Store}
    → Step is_utf8 digest s s'
    → RunsChange s.tables.runs s'.tables.runs
Step-RunsChange {is_utf8} {digest} {s} {s'} (creating run a) =
    let (v, _, i) = create_run-eq-ok is_utf8 s s' run a in
    let (r, n, e) = insert_run-eq-ok s.tables s'.tables run i in
    to_same (ap (λ (d : Database). d.runs) e) (inserts run v r n)
Step-RunsChange {is_utf8} {digest} {s} {s'} (storing snapshot created a) =
    let (_, k) = store_snapshot-eq-ok digest s s' snapshot created a in
    let e = store_snapshot_in_sound digest s.tables s'.tables snapshot created k in
    to_same (ap (λ (d : Database). d.runs) e) unchanged
Step-RunsChange {is_utf8} {digest} {s} {s'} (checkpointing checkpoint snapshot a) =
    let (_, k) = commit_checkpoint-eq-ok digest s s' checkpoint snapshot a in
    let c = commit_checkpoint_in-Committed digest s.tables s'.tables checkpoint snapshot k in
    to_same c.runs (links c.run checkpoint.snapshot_id c.change c.is_link)
Step-RunsChange {is_utf8} {digest} {s} {s'} (checkpointing_with_event checkpoint snapshot event a) =
    let (_, _, db, k, b) =
      commit_checkpoint_with_event-eq-ok digest s s' checkpoint snapshot event a in
    let c = commit_checkpoint_in-Committed digest s.tables db checkpoint snapshot k in
    let (_, same, _) = append_event_batch_in_rows db s'.tables (event ∷ []) b in
    to_same (same ∙ c.runs) (links c.run checkpoint.snapshot_id c.change c.is_link)
Step-RunsChange {is_utf8} {digest} {s} {s'} (appending events a) =
    let (_, same, _) =
      append_event_batch_in_rows s.tables s'.tables events
        (append_event_batch-eq-ok s s' events a) in
    to_same same unchanged
Step-RunsChange {is_utf8} {digest} {s} {s'} (starting id snapshot a) =
    mark_run_running-RunsChange s s' id snapshot a
Step-RunsChange {is_utf8} {digest} {s} {s'} (finishing id finish a) =
    finish_run-RunsChange s s' id finish a
Step-RunsChange {is_utf8} {digest} {s} {s'} (finishing_with_events id finish events a) =
    let (_, db, b, f) = finish_run_with_events-eq-ok s s' id finish events a in
    let (_, same, _) = append_event_batch_in_rows s.tables db events b in
    subst (λ runs. RunsChange runs s'.tables.runs) same
      (finish_run_in-RunsChange db s'.tables id finish f)
