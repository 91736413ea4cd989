-- ===== src/Store/History/Consistent.antt =====
-- About the rows of `runs` behind the operations of crates/rewind-store/src/run.rs and snapshot.rs.
use rewind_git_for_ai_agent.Prelude.{
  ℕ, List, [], ◌∷◌, ◌++◌, ◌≡◌, ◌≢◌, refl, sym, ap, subst, ◌∙◌, some, true, false, ◌==◌, is_some,
  Bool-cases, inl, inr, All, All-join, arith, ok,
}
use rewind_git_for_ai_agent.Domain.Digest.{SnapshotId}
use rewind_git_for_ai_agent.Domain.Ids.{RunId}
use rewind_git_for_ai_agent.Domain.Run.{Run, RunStatus, preparing, running, is_terminal, validate}
use rewind_git_for_ai_agent.Domain.Run.Consistent.{validate_iff}
use rewind_git_for_ai_agent.Store.Timeline.{run_status}
use rewind_git_for_ai_agent.Store.Runs.{RunFinish, update_run, start, close}
use rewind_git_for_ai_agent.Store.Creation.{find_run}
use rewind_git_for_ai_agent.Store.Creation.Forest.{KeepsParent}
use rewind_git_for_ai_agent.Store.Checkpoints.{with_initial, with_final}
use rewind_git_for_ai_agent.Store.Checkpoints.Effects.{
  IsLink, links_nothing, links_initial, links_final,
}
use rewind_git_for_ai_agent.Store.History.Changes.{
  RunsChange, unchanged, inserts, starts, closes, links,
}

pub start-KeepsParent : (id : SnapshotId) → KeepsParent (start id)
start-KeepsParent id = record { same_id = λ run. refl; same_parent = λ run. refl }

pub close-KeepsParent : (finish : RunFinish) → KeepsParent (close finish)
close-KeepsParent finish = record { same_id = λ run. refl; same_parent = λ run. refl }

pub IsLink-KeepsParent :
    (id : SnapshotId) (change : Run → Run) → IsLink id change → KeepsParent change
IsLink-KeepsParent id change links_nothing = record {
  same_id = λ run. refl;
  same_parent = λ run. refl;
}
IsLink-KeepsParent id change links_initial = record {
  same_id = λ run. refl;
  same_parent = λ run. refl;
}
IsLink-KeepsParent id change links_final = record {
  same_id = λ run. refl;
  same_parent = λ run. refl;
}

-- Different rows have different identifiers.
abbrev pub HasDistinctIds : List Run → Type 0
HasDistinctIds [] = Unit {0}
HasDistinctIds (run ∷ runs) =
    All (λ (other : Run). other.id.uuid ≢ run.id.uuid) runs × HasDistinctIds runs

-- The runs of the table are valid, and each is there once.
pub record AreConsistent (runs : List Run) : Type 0 where
  pub valid : All (λ run. validate run ≡ ok tt) runs
  pub distinct : HasDistinctIds runs

All-update_run {κ} :
    (P : Run → Type κ) (id : RunId) (change : Run → Run) (runs : List Run)
    → ((run : Run) → run.id.uuid ≡ id.uuid → P run → P (change run))
    → All P runs
    → All P (update_run id change runs)
unfolding update_run
All-update_run P id change [] k h = tt
All-update_run P id change (run ∷ runs) k h = elim (Bool-cases (run.id.uuid == id.uuid)) [
  | inl same ↦ rw same (k run (ground arith) h.0, All-update_run P id change runs k h.1)
  | inr other ↦ rw other (h.0, All-update_run P id change runs k h.1)
]

HasDistinctIds-update_run :
    (id : RunId) (change : Run → Run) (runs : List Run)
    → KeepsParent change
    → HasDistinctIds runs
    → HasDistinctIds (update_run id change runs)
unfolding update_run
HasDistinctIds-update_run id change [] k d = tt
HasDistinctIds-update_run id change (run ∷ runs) k d = elim (Bool-cases (run.id.uuid == id.uuid)) [
  | inl same ↦
      rw (same, k.same_id run)
        (others run.id.uuid runs d.0, HasDistinctIds-update_run id change runs k d.1)
  | inr other ↦
      rw other (others run.id.uuid runs d.0, HasDistinctIds-update_run id change runs k d.1)
]
  where
    others :
        (n : ℕ) (rows : List Run)
        → All (λ (other : Run). other.id.uuid ≢ n) rows
        → All (λ (other : Run). other.id.uuid ≢ n) (update_run id change rows)
    others n rows a =
        All-update_run (λ other. other.id.uuid ≢ n) id change rows (λ r e ne. rw (k.same_id r) ne) a

update_run_absent :
    (id : RunId) (change : Run → Run) (runs : List Run)
    → All (λ (other : Run). other.id.uuid ≢ id.uuid) runs
    → update_run id change runs ≡ runs
unfolding update_run
update_run_absent id change [] a = refl
update_run_absent id change (run ∷ runs) a =
    ground (arith, a.0, update_run_absent id change runs a.1)

All-update_run_once {κ} :
    (P : Run → Type κ) (id : RunId) (change : Run → Run) (before : RunStatus) (runs : List Run)
    → ((run : Run) → run.status ≡ before → P run → P (change run))
    → run_status id runs ≡ some before
    → HasDistinctIds runs
    → All P runs
    → All P (update_run id change runs)
unfolding update_run run_status
All-update_run_once P id change before [] k w d h = tt
All-update_run_once P id change before (run ∷ runs) k w d h =
    elim (Bool-cases (run.id.uuid == id.uuid)) [
      | inl same ↦
          let e : run.id.uuid ≡ id.uuid = ground arith in
          let status : run.status ≡ before = ground arith in
          rw
            (
              same,
              update_run_absent id change runs
                  (subst (λ n. All (λ (other : Run). other.id.uuid ≢ n) runs) e d.0),
            )
            (k run status h.0, h.1)
      | inr other ↦
          rw other (h.0, All-update_run_once P id change before runs k (rw other at w) d.1 h.1)
    ]

abbrev IsValid : Run → Type 0
IsValid run = validate run ≡ ok tt

start-IsValid :
    (id : SnapshotId) (run : Run) → run.status ≡ preparing → IsValid run → IsValid (start id run)
start-IsValid id run p v =
    let (c, o, f) = (validate_iff run).0 v in
    let t : is_terminal run.status ≡ false = rw p (unfold is_terminal in refl) in
    (validate_iff (start id run)).1 (
      c,
      o,
      record {
        finished = f.finished ∙ t ∙ (unfold is_terminal in refl);
        lasted = f.lasted ∙ t ∙ (unfold is_terminal in refl);
        started = λ r. refl;
      },
    )

terminal-ne-running : (status : RunStatus) → is_terminal status ≡ true → status ≢ running
unfolding is_terminal
terminal-ne-running status t e = cc (t, ap is_terminal e)

close-IsValid :
    (finish : RunFinish) (run : Run)
    → is_terminal finish.status ≡ true
    → IsValid run
    → IsValid (close finish run)
close-IsValid finish run t v =
    let (c, o, f) = (validate_iff run).0 v in
    (validate_iff (close finish run)).1 (
      c,
      o,
      record {
        finished = sym t;
        lasted = sym t;
        started = λ r. absurd (terminal-ne-running finish.status t r);
      },
    )

IsLink-IsValid :
    (id : SnapshotId) (change : Run → Run) (run : Run)
    → IsLink id change
    → IsValid run
    → IsValid (change run)
IsLink-IsValid id change run links_nothing v = v
IsLink-IsValid id change run links_initial v =
    let (c, o, f) = (validate_iff run).0 v in
    (validate_iff (with_initial id run)).1
      (c, o, record { finished = f.finished; lasted = f.lasted; started = λ r. refl })
IsLink-IsValid id change run links_final v =
    let (c, o, f) = (validate_iff run).0 v in
    (validate_iff (with_final id run)).1
      (c, o, record { finished = f.finished; lasted = f.lasted; started = f.started })

find_run_absent :
    (id : RunId) (runs : List Run)
    → is_some (find_run id runs) ≡ false
    → All (λ (other : Run). other.id.uuid ≢ id.uuid) runs
unfolding find_run
find_run_absent id [] h = tt
find_run_absent id (run ∷ runs) h = elim (Bool-cases (run.id.uuid == id.uuid)) [
  | inl same ↦ absurd (cc (same, h))
  | inr other ↦ ((λ e. ground arith), find_run_absent id runs (rw other at h))
]

HasDistinctIds-last :
    (runs : List Run) (run : Run)
    → All (λ (other : Run). other.id.uuid ≢ run.id.uuid) runs
    → HasDistinctIds runs
    → HasDistinctIds (runs ++ (run ∷ []))
HasDistinctIds-last [] run a d = (tt, tt)
HasDistinctIds-last (r ∷ runs) run a d = (
  All-join (λ (other : Run). other.id.uuid ≢ r.id.uuid) runs (run ∷ []) d.0
      ((λ e. a.0 (sym e)), tt),
  HasDistinctIds-last runs run a.1 d.1,
)

pub RunsChange-AreConsistent :
    {old new : List Run} → RunsChange old new → AreConsistent old → AreConsistent new
RunsChange-AreConsistent unchanged h = h
RunsChange-AreConsistent {old} (inserts run v r n) h = record {
  valid = All-join IsValid old (run ∷ []) h.valid (v, tt);
  distinct = HasDistinctIds-last old run (find_run_absent run.id old n) h.distinct;
}
RunsChange-AreConsistent {old} (starts id snapshot w) h = record {
  valid =
      All-update_run_once IsValid id (start snapshot) preparing old (start-IsValid snapshot) w
        h.distinct h.valid;
  distinct =
      HasDistinctIds-update_run id (start snapshot) old (start-KeepsParent snapshot) h.distinct;
}
RunsChange-AreConsistent {old} (closes id finish t) h = record {
  valid =
      All-update_run IsValid id (close finish) old (λ run e. close-IsValid finish run t) h.valid;
  distinct = HasDistinctIds-update_run id (close finish) old (close-KeepsParent finish) h.distinct;
}
RunsChange-AreConsistent {old} (links id snapshot change l) h = record {
  valid =
      All-update_run IsValid id change old (λ run e. IsLink-IsValid snapshot change run l) h.valid;
  distinct =
      HasDistinctIds-update_run id change old (IsLink-KeepsParent snapshot change l) h.distinct;
}
