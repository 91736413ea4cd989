-- ===== src/Store/Runs/Updates.antt =====
-- What an update of one row does to the statuses that are read afterwards.
use rewind_git_for_ai_agent.Prelude.{
  List, [], ◌∷◌, ◌≡◌, ◌≢◌, refl, ◌∙◌, Option, none, some, true, arith, ok, ok_of_then,
  with_ok_of_bind, fail_if, not,
}
use rewind_git_for_ai_agent.Domain.Digest.{SnapshotId}
use rewind_git_for_ai_agent.Domain.Ids.{RunId}
use rewind_git_for_ai_agent.Domain.Run.{
  Run, RunStatus, preparing, running, completed, failed, interrupted, crashed, can_transition_to,
  is_terminal,
}
use rewind_git_for_ai_agent.Store.Timeline.{Database, Store, read_only, run_status}
use rewind_git_for_ai_agent.Store.Runs.{
  RunFinish, update_run, start, start_if_preparing, mark_run_running, close, check_current,
  finish_run_in, finish_run,
}

-- A change that leaves the identifier alone.
abbrev KeepsId : (Run → Run) → Type 0
KeepsId change = (run : Run) → (change run).id.uuid ≡ run.id.uuid

pub run_status-update_run_other :
    (id other : RunId) (change : Run → Run) (runs : List Run)
    → KeepsId change
    → id.uuid ≢ other.uuid
    → run_status other (update_run id change runs) ≡ run_status other runs
unfolding run_status update_run
run_status-update_run_other id other change [] k ne = refl
run_status-update_run_other id other change (run ∷ runs) k ne =
    ground (arith, k run, run_status-update_run_other id other change runs k ne)

pub run_status-update_run :
    (id : RunId) (change : Run → Run) (runs : List Run) (before after : RunStatus)
    → KeepsId change
    → ((run : Run) → (change run).status ≡ after)
    → run_status id runs ≡ some before
    → run_status id (update_run id change runs) ≡ some after
unfolding run_status update_run
run_status-update_run id change [] before after k s h = cc
run_status-update_run id change (run ∷ runs) before after k s h =
    ground (arith, k run, s run, run_status-update_run id change runs before after k s)

-- An update of a run that is there: its status before and after is on the one side, and on the other
-- side every run with another identifier and the other tables are as they were.
pub record Moves (id : RunId) (before after : RunStatus) (old new : Database) : Type 0 where
  pub was : run_status id old.runs ≡ some before
  pub is : run_status id new.runs ≡ some after
  pub legal : can_transition_to before after ≡ true
  pub others :
      (other : RunId) → id.uuid ≢ other.uuid → run_status other new.runs ≡ run_status other old.runs
  pub same_events : new.events ≡ old.events

pub finish_run_in-eq-ok :
    (db db' : Database) (id : RunId) (finish : RunFinish)
    → finish_run_in db id finish ≡ ok db'
    → (is_terminal finish.status ≡ true)
      × (check_current (run_status id db.runs) finish.status ≡ ok tt)
      × (db' ≡ record db { runs = update_run id (close finish) db.runs })
unfolding finish_run_in
finish_run_in-eq-ok db db' id finish h = ground arith

check_current_sound :
    (current : Option RunStatus) (next : RunStatus)
    → check_current current next ≡ ok tt
    → (before : RunStatus) × (current ≡ some before) × (can_transition_to before next ≡ true)
unfolding check_current
check_current_sound none next h = cc
check_current_sound (some before) next h = (before, refl, ground arith)

pub finish_run_in-Moves :
    (db db' : Database) (id : RunId) (finish : RunFinish)
    → finish_run_in db id finish ≡ ok db'
    → (is_terminal finish.status ≡ true)
      × (before : RunStatus) × Moves id before finish.status db db'
finish_run_in-Moves db db' id finish h =
    let (t, c, e) = finish_run_in-eq-ok db db' id finish h in
    let (before, w, l) = check_current_sound (run_status id db.runs) finish.status c in
    (
      t,
      before,
      record {
        was = w;
        is = rw e (
            run_status-update_run id (close finish) db.runs before finish.status (λ run. refl)
              (λ run. refl) w);
        legal = l;
        others = λ other ne.
            rw e (run_status-update_run_other id other (close finish) db.runs (λ run. refl) ne);
        same_events = rw e refl;
      },
    )

pub start_if_preparing-eq-ok :
    (current : Option RunStatus) (db db' : Database) (id : RunId) (snapshot : SnapshotId)
    → start_if_preparing current db id snapshot ≡ ok db'
    → (current ≡ some preparing)
      × (db' ≡ record db { runs = update_run id (start snapshot) db.runs })
unfolding start_if_preparing
start_if_preparing-eq-ok none db db' id snapshot h = cc
start_if_preparing-eq-ok (some preparing) db db' id snapshot h = (refl, ground arith)
start_if_preparing-eq-ok (some running) db db' id snapshot h = cc
start_if_preparing-eq-ok (some completed) db db' id snapshot h = cc
start_if_preparing-eq-ok (some failed) db db' id snapshot h = cc
start_if_preparing-eq-ok (some interrupted) db db' id snapshot h = cc
start_if_preparing-eq-ok (some crashed) db db' id snapshot h = cc

pub start_if_preparing-Moves :
    (db db' : Database) (id : RunId) (snapshot : SnapshotId)
    → start_if_preparing (run_status id db.runs) db id snapshot ≡ ok db'
    → Moves id preparing running db db'
start_if_preparing-Moves db db' id snapshot h =
    let (w, e) = start_if_preparing-eq-ok (run_status id db.runs) db db' id snapshot h in
    record {
      was = w;
      is = rw e (
          run_status-update_run id (start snapshot) db.runs preparing running (λ run. refl)
            (λ run. refl) w);
      legal = unfold can_transition_to in refl;
      others = λ other ne.
          rw e (run_status-update_run_other id other (start snapshot) db.runs (λ run. refl) ne);
      same_events = rw e refl;
    }

pub mark_run_running-Moves :
    (store store' : Store) (id : RunId) (snapshot : SnapshotId)
    → mark_run_running store id snapshot ≡ ok store'
    → Moves id preparing running store.tables store'.tables
unfolding mark_run_running
mark_run_running-Moves store store' id snapshot h =
    let (_, k) = ok_of_then (fail_if (not store.is_writer) read_only) _ _ h in
    with_ok_of_bind (start_if_preparing (run_status id store.tables.runs) store.tables id snapshot)
      _ _ k (λ db r l. start_if_preparing-Moves store.tables store'.tables id snapshot (r ∙ cc))

pub finish_run-Moves :
    (store store' : Store) (id : RunId) (finish : RunFinish)
    → finish_run store id finish ≡ ok store'
    → (is_terminal finish.status ≡ true)
      × (before : RunStatus) × Moves id before finish.status store.tables store'.tables
unfolding finish_run
finish_run-Moves store store' id finish h =
    let (_, k) = ok_of_then (fail_if (not store.is_writer) read_only) _ _ h in
    with_ok_of_bind (finish_run_in store.tables id finish) _ _ k
      (λ db r l. finish_run_in-Moves store.tables store'.tables id finish (r ∙ cc))
