-- ===== src/Store/History/Invariants.antt =====
-- About what every operation of crates/rewind-store/src/event.rs, run.rs and snapshot.rs keeps.
use rewind_git_for_ai_agent.Prelude.{
  List, [], ◌∷◌, Bool, ◌≡◌, refl, ap, subst, some, ◌==◌, Bool-cases, inl, inr, All, arith, ok,
}
use rewind_git_for_ai_agent.Bytes.{Bytes}
use rewind_git_for_ai_agent.Domain.Digest.{SnapshotId}
use rewind_git_for_ai_agent.Domain.Ids.{RunId}
use rewind_git_for_ai_agent.Domain.Manifest.{SnapshotManifest}
use rewind_git_for_ai_agent.Domain.Run.{Run, RunStatus, preparing, running, validate}
use rewind_git_for_ai_agent.Store.Timeline.{Database, Store}
use rewind_git_for_ai_agent.Store.Timeline.Sequence.{IsTimeline}
use rewind_git_for_ai_agent.Store.Timeline.Appending.{
  append_event_batch_in-IsTimeline, append_event_batch-eq-ok,
}
use rewind_git_for_ai_agent.Store.Runs.{start, close}
use rewind_git_for_ai_agent.Store.Runs.Updates.{
  Moves, mark_run_running-Moves, finish_run-Moves, finish_run_in-Moves,
}
use rewind_git_for_ai_agent.Store.Runs.Finished.{finish_run_with_events-eq-ok}
use rewind_git_for_ai_agent.Store.Creation.{find_run, decode_run, load_run}
use rewind_git_for_ai_agent.Store.Creation.Forest.{
  IsForest, add_run-IsForest, insert_run-eq-ok, create_run-eq-ok, parent_of-update_run,
  IsForest-parent_of,
}
use rewind_git_for_ai_agent.Store.Snapshots.Stored.{store_snapshot-eq-ok}
use rewind_git_for_ai_agent.Store.Checkpoints.Effects.{
  store_snapshot_in_sound, commit_checkpoint_in-Committed, commit_checkpoint-eq-ok,
  commit_checkpoint_with_event-eq-ok,
}
use rewind_git_for_ai_agent.Store.History.{
  Step, creating, storing, checkpointing, checkpointing_with_event, appending, starting, finishing,
  finishing_with_events, History, nothing_yet, followed_by,
}
use rewind_git_for_ai_agent.Store.History.Consistent.{
  AreConsistent, RunsChange-AreConsistent, start-KeepsParent, close-KeepsParent, IsLink-KeepsParent,
}
use rewind_git_for_ai_agent.Store.History.Changes.{
  RunsChange, unchanged, inserts, starts, closes, links, Step-RunsChange,
}

RunsChange-IsForest : {old new : List Run} → RunsChange old new → IsForest old → IsForest new
RunsChange-IsForest unchanged f = f
RunsChange-IsForest {old} (inserts run v r n) f = add_run-IsForest old run r n f
RunsChange-IsForest {old} {new} (starts id snapshot w) f =
    IsForest-parent_of old new
      (λ x. parent_of-update_run x id (start snapshot) old (start-KeepsParent snapshot)) f
RunsChange-IsForest {old} {new} (closes id finish t) f =
    IsForest-parent_of old new
      (λ x. parent_of-update_run x id (close finish) old (close-KeepsParent finish)) f
RunsChange-IsForest {old} {new} (links id snapshot change l) f =
    IsForest-parent_of old new
      (λ x. parent_of-update_run x id change old (IsLink-KeepsParent snapshot change l)) f

find_run_All {κ} :
    (P : Run → Type κ) (id : RunId) (run : Run) (runs : List Run)
    → find_run id runs ≡ some run
    → All P runs
    → P run
unfolding find_run
find_run_All P id run [] h a = cc h
find_run_All P id run (r ∷ runs) h a = elim (Bool-cases (r.id.uuid == id.uuid)) [
  | inl same ↦ let e : r ≡ run = ground arith in subst P e a.0
  | inr other ↦ find_run_All P id run runs (rw other at h) a.1
]

decode_run_valid : (run : Run) → validate run ≡ ok tt → decode_run (some run) ≡ ok run
unfolding decode_run
decode_run_valid run v = rw v refl

IsTimeline-events : (old new : Database) → new.events ≡ old.events → IsTimeline old → IsTimeline new
IsTimeline-events old new e t = record {
  valid = rw e t.valid;
  contiguous = λ run. rw e (t.contiguous run);
}

Moves-IsTimeline :
    (id : RunId) (before after : RunStatus) (old new : Database)
    → Moves id before after old new
    → IsTimeline old
    → IsTimeline new
Moves-IsTimeline id before after old new m t = IsTimeline-events old new m.same_events t

Step-IsTimeline :
    {is_utf8 : Bytes → Bool} {digest : SnapshotManifest → SnapshotId} {s s' : Store}
    → Step is_utf8 digest s s'
    → IsTimeline s.tables
    → IsTimeline s'.tables
Step-IsTimeline {is_utf8} {digest} {s} {s'} (creating run a) t =
    let (_, _, i) = create_run-eq-ok is_utf8 s s' run a in
    let (_, _, e) = insert_run-eq-ok s.tables s'.tables run i in
    IsTimeline-events s.tables s'.tables (ap (λ (d : Database). d.events) e) t
Step-IsTimeline {is_utf8} {digest} {s} {s'} (storing snapshot created a) t =
    let (_, k) = store_snapshot-eq-ok digest s s' snapshot created a in
    let e = store_snapshot_in_sound digest s.tables s'.tables snapshot created k in
    IsTimeline-events s.tables s'.tables (ap (λ (d : Database). d.events) e) t
Step-IsTimeline {is_utf8} {digest} {s} {s'} (checkpointing checkpoint snapshot a) t =
    let (_, k) = commit_checkpoint-eq-ok digest s s' checkpoint snapshot a in
    let c = commit_checkpoint_in-Committed digest s.tables s'.tables checkpoint snapshot k in
    IsTimeline-events s.tables s'.tables c.events t
Step-IsTimeline {is_utf8} {digest} {s} {s'} (checkpointing_with_event checkpoint snapshot event a)
      t =
    let (_, _, db, k, b) =
      commit_checkpoint_with_event-eq-ok digest s s' checkpoint snapshot event a in
    let c = commit_checkpoint_in-Committed digest s.tables db checkpoint snapshot k in
    append_event_batch_in-IsTimeline db s'.tables (event ∷ [])
      (IsTimeline-events s.tables db c.events t) b
Step-IsTimeline {is_utf8} {digest} {s} {s'} (appending events a) t =
    append_event_batch_in-IsTimeline s.tables s'.tables events t
      (append_event_batch-eq-ok s s' events a)
Step-IsTimeline {is_utf8} {digest} {s} {s'} (starting id snapshot a) t =
    Moves-IsTimeline id preparing running s.tables s'.tables
      (mark_run_running-Moves s s' id snapshot a) t
Step-IsTimeline {is_utf8} {digest} {s} {s'} (finishing id finish a) t =
    let (_, before, m) = finish_run-Moves s s' id finish a in
    Moves-IsTimeline id before finish.status s.tables s'.tables m t
Step-IsTimeline {is_utf8} {digest} {s} {s'} (finishing_with_events id finish events a) t =
    let (_, db, b, f) = finish_run_with_events-eq-ok s s' id finish events a in
    let (_, before, m) = finish_run_in-Moves db s'.tables id finish f in
    Moves-IsTimeline id before finish.status db s'.tables m
      (append_event_batch_in-IsTimeline s.tables db events t b)

module _ {is_utf8 : Bytes → Bool} {digest : SnapshotManifest → SnapshotId} where
  -- What every step keeps is kept by every history.
  History_keeps {κ} :
      (P : Store → Type κ)
      → ((s s' : Store) → Step is_utf8 digest s s' → P s → P s')
      → {s s' : Store} → History is_utf8 digest s s'
      → P s
      → P s'
  History_keeps P k nothing_yet p = p
  History_keeps P k (followed_by {s} {s'} step history) p =
      History_keeps P k history (k s s' step p)

  -- Every history of these operations keeps the timeline: from tables in which the events of each run
  -- are valid and numbered without a gap it leads to such tables again.
  pub History-IsTimeline :
      {s s' : Store} → History is_utf8 digest s s' → IsTimeline s.tables → IsTimeline s'.tables
  History-IsTimeline history t =
      History_keeps (λ s. IsTimeline s.tables) (λ a b step. Step-IsTimeline step) history t

  -- Every history of these operations keeps the ancestry of runs a forest: from tables in which no run
  -- is above itself along the parents it leads to such tables again.
  pub History-IsForest :
      {s s' : Store}
      → History is_utf8 digest s s'
      → IsForest s.tables.runs
      → IsForest s'.tables.runs
  History-IsForest history f =
      History_keeps (λ s. IsForest s.tables.runs)
        (λ a b step. RunsChange-IsForest (Step-RunsChange step)) history f

  -- Behind every history of these operations from tables with valid runs under distinct identifiers,
  -- loading a run that is in the table succeeds and gives its row.
  pub History-load_run :
      {s s' : Store} (id : RunId) (run : Run)
      → History is_utf8 digest s s'
      → AreConsistent s.tables.runs
      → find_run id s'.tables.runs ≡ some run
      → load_run s' id ≡ ok run
  unfolding load_run
  History-load_run {s' = s'} id run history c h =
      let k =
        History_keeps (λ s. AreConsistent s.tables.runs)
          (λ a b step. RunsChange-AreConsistent (Step-RunsChange step)) history c in
      rw h (
        decode_run_valid run
          (find_run_All (λ r. validate r ≡ ok tt) id run s'.tables.runs h k.valid))
