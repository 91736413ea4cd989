-- ===== src/Store/Creation/Forest.antt =====
-- About the parents of the runs that `create_run` of crates/rewind-store/src/run.rs inserts.
use rewind_git_for_ai_agent.Prelude.{
  List, [], ◌∷◌, ◌++◌, ◌≡◌, ◌≢◌, refl, sym, ap, subst, ◌∙◌, ◌⊎◌, inl, inr, Option, none, some, Bool,
  true, false, not, ◌==◌, is_some, Bool-cases, arith, ok, map_err, ok_of_then, with_ok_of_bind,
  fail_if,
}
use rewind_git_for_ai_agent.Bytes.{Bytes}
use rewind_git_for_ai_agent.Domain.Ids.{RunId}
use rewind_git_for_ai_agent.Domain.Run.{Run, RunParent, validate}
use rewind_git_for_ai_agent.Store.Timeline.{Database, Store, read_only, invalid_run}
use rewind_git_for_ai_agent.Store.Runs.{update_run}
use rewind_git_for_ai_agent.Store.Creation.{
  find_run, parent_run, parent_in, parent_of, reject_cycle, insert_run, create_run, is_preparing,
  refused_run,
}
use rewind_git_for_ai_agent.Store.Creation.Ancestry.{
  IsAncestor, itself, above, IsAncestor-trans, same_run, reject_parent_cycle_iff,
}

-- No run is above itself: none is its parent or above its parent.
abbrev pub IsForest : List Run → Type 0
IsForest runs = (a b : RunId) → parent_of a runs ≡ some b → ¬ IsAncestor runs b a

pub insert_run-eq-ok :
    (db db' : Database) (run : Run)
    → insert_run db run ≡ ok db'
    → (reject_cycle db.runs run.id run.parent ≡ ok tt)
      × (is_some (find_run run.id db.runs) ≡ false)
      × (db' ≡ record db { runs = db.runs ++ (run ∷ []) })
unfolding insert_run
insert_run-eq-ok db db' run h = ground arith

find_run_last :
    (run : Run) (runs : List Run)
    → is_some (find_run run.id runs) ≡ false
    → find_run run.id (runs ++ (run ∷ [])) ≡ some run
unfolding find_run
find_run_last run [] h = ground arith
find_run_last run (r ∷ runs) h = ground (arith, find_run_last run runs)

find_run_old :
    (id : RunId) (run : Run) (runs : List Run)
    → run.id.uuid ≢ id.uuid
    → find_run id (runs ++ (run ∷ [])) ≡ find_run id runs
unfolding find_run
find_run_old id run [] ne = ground arith
find_run_old id run (r ∷ runs) ne = ground (arith, find_run_old id run runs ne)

parent_of_last :
    (run : Run) (runs : List Run)
    → is_some (find_run run.id runs) ≡ false
    → parent_of run.id (runs ++ (run ∷ [])) ≡ parent_run run.parent
unfolding parent_of
parent_of_last run runs h = ap parent_in (find_run_last run runs h)

parent_of_old :
    (id : RunId) (run : Run) (runs : List Run)
    → run.id.uuid ≢ id.uuid
    → parent_of id (runs ++ (run ∷ [])) ≡ parent_of id runs
unfolding parent_of
parent_of_old id run runs ne = ap parent_in (find_run_old id run runs ne)

-- A new run `run` with its parent, which is not below it in the old table.
module _ (run : Run) (runs : List Run) (is_new : is_some (find_run run.id runs) ≡ false)
    (accepted : (p : RunId) → parent_run run.parent ≡ some p → ¬ IsAncestor runs p run.id) where
  new_runs : List Run
  new_runs = runs ++ (run ∷ [])

  -- A way up in the new table is one in the old table, or two of them with the new link between.
  IsAncestor-new_runs :
      {x y : RunId}
      → IsAncestor new_runs x y
      → IsAncestor runs x y
        ⊎ ((p : RunId) × (parent_run run.parent ≡ some p)
            × IsAncestor runs x run.id
            × IsAncestor runs p y)
  unfolding new_runs
  IsAncestor-new_runs itself = inl itself
  IsAncestor-new_runs (above {a = x} {b = z} {c = y} e r) =
      elim (Bool-cases (run.id.uuid == x.uuid)) [
        | inl same ↦
            let u : run.id ≡ x = same_run run.id x (ground arith) in
            let link : parent_run run.parent ≡ some z =
              sym (parent_of_last run runs is_new)
              ∙ ap (λ i. parent_of i (runs ++ (run ∷ []))) u
              ∙ e in
            elim (IsAncestor-new_runs r) [
              | inl old ↦ inr (z, link, subst (λ i. IsAncestor runs i run.id) u itself, old)
              | inr (p, l, up, _) ↦ absurd (accepted z link up)
            ]
        | inr other ↦
            let old : parent_of x runs ≡ some z =
              sym (parent_of_old x run runs (λ u. ground arith)) ∙ e in
            elim (IsAncestor-new_runs r) [
              | inl s ↦ inl (above old s)
              | inr (p, l, up, rest) ↦ inr (p, l, above old up, rest)
            ]
      ]

  IsForest-new_runs : IsForest runs → IsForest new_runs
  unfolding new_runs
  IsForest-new_runs f a b e r = elim (Bool-cases (run.id.uuid == a.uuid)) [
    | inl same ↦
        let u : run.id ≡ a = same_run run.id a (ground arith) in
        let link : parent_run run.parent ≡ some b =
          sym (parent_of_last run runs is_new) ∙ ap (λ i. parent_of i (runs ++ (run ∷ []))) u ∙ e in
        elim (IsAncestor-new_runs r) [
          | inl s ↦ accepted b link (subst (IsAncestor runs b) (sym u) s)
          | inr (p, l, up, _) ↦ accepted b link up
        ]
    | inr other ↦
        let old : parent_of a runs ≡ some b =
          sym (parent_of_old a run runs (λ u. ground arith)) ∙ e in
        elim (IsAncestor-new_runs r) [
          | inl s ↦ f a b old s
          | inr (p, l, up, rest) ↦ accepted p l (IsAncestor-trans rest (above old up))
        ]
  ]

reject_cycle_sound :
    (runs : List Run) (child : RunId) (parent : Option RunParent) (p : RunId)
    → reject_cycle runs child parent ≡ ok tt
    → parent_run parent ≡ some p
    → ¬ IsAncestor runs p child
unfolding reject_cycle
reject_cycle_sound runs child none p h e = cc e
reject_cycle_sound runs child (some parent) p h e =
    subst (λ q. ¬ IsAncestor runs q child) (cc e)
      ((reject_parent_cycle_iff runs child parent.run_id).0 h)

pub add_run-IsForest :
    (runs : List Run) (run : Run)
    → reject_cycle runs run.id run.parent ≡ ok tt
    → is_some (find_run run.id runs) ≡ false
    → IsForest runs
    → IsForest (runs ++ (run ∷ []))
unfolding new_runs
add_run-IsForest runs run r n f =
    IsForest-new_runs run runs n (λ p. reject_cycle_sound runs run.id run.parent p r) f

pub create_run-eq-ok :
    (is_utf8 : Bytes → Bool) (store store' : Store) (run : Run)
    → create_run is_utf8 store run ≡ ok store'
    → (validate run ≡ ok tt)
      × (is_preparing run.status ≡ true)
      × (insert_run store.tables run ≡ ok store'.tables)
unfolding create_run
create_run-eq-ok is_utf8 store store' run h =
    let (_, k) = ok_of_then (fail_if (not store.is_writer) read_only) _ _ h in
    let (v, l) = ok_of_then (map_err refused_run (validate run)) _ _ k in
    let (p, m) = ok_of_then (fail_if (not (is_preparing run.status)) invalid_run) _ _ l in
    let (_, n) = ok_of_then (fail_if (not (is_utf8 run.workspace_root)) invalid_run) _ _ m in
    with_ok_of_bind (insert_run store.tables run) _ _ n
      (λ db r o. (ground arith, ground arith, r ∙ cc))

-- A change of a row that leaves its identifier and its parent alone.
pub record KeepsParent (change : Run → Run) : Type 0 where
  pub same_id : (run : Run) → (change run).id ≡ run.id
  pub same_parent : (run : Run) → (change run).parent ≡ run.parent

pub parent_of-update_run :
    (x id : RunId) (change : Run → Run) (runs : List Run)
    → KeepsParent change
    → parent_of x (update_run id change runs) ≡ parent_of x runs
unfolding parent_of find_run update_run
parent_of-update_run x id change [] k = refl
parent_of-update_run x id change (run ∷ runs) k =
    ground (arith, k.same_id run, k.same_parent run, parent_of-update_run x id change runs k)

IsAncestor-parent_of :
    {old new : List Run} {a b : RunId}
    → ((x : RunId) → parent_of x new ≡ parent_of x old)
    → IsAncestor new a b
    → IsAncestor old a b
IsAncestor-parent_of k itself = itself
IsAncestor-parent_of k (above {a} e r) = above (sym (k a) ∙ e) (IsAncestor-parent_of k r)

pub IsForest-parent_of :
    (old new : List Run)
    → ((x : RunId) → parent_of x new ≡ parent_of x old)
    → IsForest old
    → IsForest new
IsForest-parent_of old new k f a b e r = f a b (sym (k a) ∙ e) (IsAncestor-parent_of k r)
