-- ===== src/Store/Creation/Ancestry.antt =====
-- About `reject_parent_cycle` of crates/rewind-store/src/run.rs and its recursive query.
use rewind_git_for_ai_agent.Prelude.{
  ℕ, zero, suc, ◌+◌, ◌≤◌, ◌<◌, List, [], ◌∷◌, length, ◌≡◌, ◌≢◌, refl, sym, ap, subst, ◌↔◌, ◌⊎◌, inl,
  inr, Option, none, some, true, false, ◌==◌, is_some, if◌then◌else◌, Bool-cases, Option-cases,
  arith, ok,
}
use rewind_git_for_ai_agent.Domain.Ids.{RunId}
use rewind_git_for_ai_agent.Domain.Run.{Run}
use rewind_git_for_ai_agent.Store.Creation.{
  find_run, parent_in, parent_of, contains_run, ancestors, check_ancestors, reject_parent_cycle,
}

-- A run and the runs above it, from parent to parent.
pub data IsAncestor (runs : List Run) : RunId → RunId → Type 0 where
  itself : {a : RunId} → IsAncestor runs a a
  above : {a b c : RunId} → parent_of a runs ≡ some b → IsAncestor runs b c → IsAncestor runs a c

pub same_run : (a b : RunId) → a.uuid ≡ b.uuid → a ≡ b
same_run a b e = ap (λ n. record { uuid = n }) e

-- The rows of the table whose runs are not among `seen`.
unfoldable unseen : List RunId → List Run → ℕ
unseen seen [] = 0
unseen seen (run ∷ runs) =
    let rest = unseen seen runs in if contains_run run.id seen then rest else suc rest

contains_run-cons :
    (id other : RunId) (seen : List RunId)
    → (contains_run id (other ∷ seen) ≡ true)
      ↔ ((other.uuid ≡ id.uuid) ⊎ (contains_run id seen ≡ true))
unfolding contains_run
contains_run-cons id other seen = ground arith

unseen-cons-le :
    (seen : List RunId) (id : RunId) (runs : List Run) → unseen (id ∷ seen) runs ≤ unseen seen runs
unfolding unseen contains_run
unseen-cons-le seen id [] = omega arith
unseen-cons-le seen id (run ∷ runs) = ground (arith, unseen-cons-le seen id runs)

contains_run_same :
    (a b : RunId) (seen : List RunId) → a.uuid ≡ b.uuid → contains_run a seen ≡ contains_run b seen
contains_run_same a b seen e = ap (λ r. contains_run r seen) (same_run a b e)

unseen-cons-lt :
    (seen : List RunId) (id : RunId) (runs : List Run)
    → is_some (find_run id runs) ≡ true
    → contains_run id seen ≡ false
    → unseen (id ∷ seen) runs < unseen seen runs
unfolding unseen contains_run find_run
unseen-cons-lt seen id [] f c = cc
unseen-cons-lt seen id (run ∷ runs) f c = elim (Bool-cases (run.id.uuid == id.uuid)) [
  | inl same ↦
      let e : run.id.uuid ≡ id.uuid = ground arith in
      ground (arith, contains_run_same run.id id seen e, unseen-cons-le seen id runs)
  | inr other ↦ ground (arith, unseen-cons-lt seen id runs)
]

parent_of-is_some :
    (id parent : RunId) (runs : List Run)
    → parent_of id runs ≡ some parent
    → is_some (find_run id runs) ≡ true
unfolding parent_of
parent_of-is_some id parent runs h = elim (Option-cases (find_run id runs)) [
  | inl absent ↦ absurd (cc (h, ap parent_in absent))
  | inr (run, there) ↦ ap is_some there
]

-- The query ends within the fuel: each row but the last one is a run of the table.
ancestors_total :
    (fuel : ℕ) (runs : List Run) (seen : List RunId) (start : Option RunId)
    → unseen seen runs + 1 < fuel
    → (rows : List RunId) × (ancestors fuel runs seen start ≡ some rows)
unfolding ancestors
ancestors_total fuel runs seen none h = (seen, refl)
ancestors_total zero runs seen (some id) h = absurd (omega (arith, h))
ancestors_total (suc fuel) runs seen (some id) h = elim (Bool-cases (contains_run id seen)) [
  | inl there ↦ (seen, rw there refl)
  | inr new ↦ elim (Option-cases (parent_of id runs)) [
    | inl top ↦ (id ∷ seen, rw (new, top, ancestors) refl)
    | inr (parent, e) ↦
        let lt = unseen-cons-lt seen id runs (parent_of-is_some id parent runs e) new in
        let (rows, r) =
          ancestors_total fuel runs (id ∷ seen) (parent_of id runs) (omega (arith, lt, h)) in
        (rows, rw new r)
  ]
]

pub IsAncestor-trans :
    {runs : List Run} {a b c : RunId}
    → IsAncestor runs a b
    → IsAncestor runs b c
    → IsAncestor runs a c
IsAncestor-trans itself s = s
IsAncestor-trans (above e r) s = above e (IsAncestor-trans r s)

IsAncestor-parent :
    {runs : List Run} {a b c : RunId}
    → IsAncestor runs a b
    → parent_of b runs ≡ some c
    → IsAncestor runs a c
IsAncestor-parent r e = IsAncestor-trans r (above e itself)

-- What holds of the rows found so far and the run to look at next.
record IsClosing (runs : List Run) (start : RunId) (seen : List RunId) (next : Option RunId)
    : Type 0 where
  seen_above : (x : RunId) → contains_run x seen ≡ true → IsAncestor runs start x
  next_above : (x : RunId) → next ≡ some x → IsAncestor runs start x
  closed :
      (x y : RunId)
      → contains_run x seen ≡ true
      → parent_of x runs ≡ some y
      → (contains_run y seen ≡ true) ⊎ (next ≡ some y)
  begins : (contains_run start seen ≡ true) ⊎ (next ≡ some start)

IsClosing-push :
    (runs : List Run) (start id : RunId) (seen : List RunId)
    → IsClosing runs start seen (some id)
    → IsClosing runs start (id ∷ seen) (parent_of id runs)
IsClosing-push runs start id seen h = record {
  seen_above = λ x m. elim ((contains_run-cons x id seen).0 m) [
    | inl e ↦ subst (IsAncestor runs start) (same_run id x e) (h.next_above id refl)
    | inr old ↦ h.seen_above x old
  ];
  next_above = λ x e. IsAncestor-parent (h.next_above id refl) e;
  closed = λ x y m e. elim ((contains_run-cons x id seen).0 m) [
    | inl same ↦ inr (subst (λ r. parent_of r runs ≡ some y) (sym (same_run id x same)) e)
    | inr old ↦ elim (h.closed x y old e) [
      | inl there ↦ inl ((contains_run-cons y id seen).1 (inr there))
      | inr f ↦ inl ((contains_run-cons y id seen).1 (inl (cc f)))
    ]
  ];
  begins = elim h.begins [
    | inl there ↦ inl ((contains_run-cons start id seen).1 (inr there))
    | inr f ↦ inl ((contains_run-cons start id seen).1 (inl (cc f)))
  ];
}

-- When there is no next run, or it is among the rows, the rows are all the ancestors.
closed-IsAncestor :
    (runs : List Run) (seen : List RunId)
    → ((x y : RunId)
        → contains_run x seen ≡ true
        → parent_of x runs ≡ some y
        → contains_run y seen ≡ true)
    → {a c : RunId} → IsAncestor runs a c
    → contains_run a seen ≡ true
    → contains_run c seen ≡ true
closed-IsAncestor runs seen k itself m = m
closed-IsAncestor runs seen k (above {a} {b} e r) m = closed-IsAncestor runs seen k r (k a b m e)

IsClosing-end :
    (runs : List Run) (start : RunId) (seen : List RunId) (next : Option RunId) (x : RunId)
    → IsClosing runs start seen next
    → ((y : RunId) → next ≡ some y → contains_run y seen ≡ true)
    → (contains_run x seen ≡ true) ↔ IsAncestor runs start x
IsClosing-end runs start seen next x h there = (
  h.seen_above x,
  λ above_it.
      closed-IsAncestor runs seen
        (λ u v m e. elim (h.closed u v m e) [ inl k ↦ k | inr f ↦ there v f ]) above_it
        (elim h.begins [ inl k ↦ k | inr f ↦ there start f ]),
)

ancestors_sound :
    (fuel : ℕ) (runs : List Run) (start : RunId) (seen rows : List RunId) (next : Option RunId)
    (x : RunId)
    → IsClosing runs start seen next
    → ancestors fuel runs seen next ≡ some rows
    → (contains_run x rows ≡ true) ↔ IsAncestor runs start x
unfolding ancestors
ancestors_sound fuel runs start seen rows none x h e =
    let same : seen ≡ rows = cc e in
    subst (λ r. (contains_run x r ≡ true) ↔ IsAncestor runs start x) same
      (IsClosing-end runs start seen none x h (λ y f. cc f))
ancestors_sound zero runs start seen rows (some id) x h e = cc e
ancestors_sound (suc fuel) runs start seen rows (some id) x h e =
    elim (Bool-cases (contains_run id seen)) [
      | inl there ↦
          let same : seen ≡ rows = ground arith in
          subst (λ r. (contains_run x r ≡ true) ↔ IsAncestor runs start x) same
            (IsClosing-end runs start seen (some id) x h
              (λ y f. subst (λ r. contains_run r seen ≡ true) (cc f) there))
      | inr new ↦
          ancestors_sound fuel runs start (id ∷ seen) rows (parent_of id runs) x
            (IsClosing-push runs start id seen h) (rw (new, ancestors) at e)
    ]

unseen-nil-le : (runs : List Run) → unseen [] runs ≤ length runs
unfolding unseen contains_run
unseen-nil-le [] = omega arith
unseen-nil-le (run ∷ runs) = omega (arith, unseen-nil-le runs)

false-ne-true : false ≢ true
false-ne-true h = cc

begin-IsClosing : (runs : List Run) (start : RunId) → IsClosing runs start [] (some start)
unfolding contains_run
begin-IsClosing runs start = record {
  seen_above = λ x m. absurd (false-ne-true m);
  next_above = λ x e. subst (IsAncestor runs start) (cc e) itself;
  closed = λ x y m e. absurd (false-ne-true m);
  begins = inr refl;
}

-- The answer for the rows that the query ends with.
check_ancestors_iff :
    (child : RunId) (rows : List RunId)
    → (check_ancestors child (some rows) ≡ ok tt) ↔ (contains_run child rows ≡ false)
unfolding check_ancestors
check_ancestors_iff child rows = ground arith

-- The recursive query ends within the fuel, and its rows are the parent and all the runs above it.
pub ancestors_lem :
    (runs : List Run) (parent : RunId)
    → (rows : List RunId) × (ancestors (length runs + 2) runs [] (some parent) ≡ some rows)
      × ((x : RunId) → (contains_run x rows ≡ true) ↔ IsAncestor runs parent x)
ancestors_lem runs parent =
    let (rows, e) =
      ancestors_total (length runs + 2) runs [] (some parent) (omega (arith, unseen-nil-le runs)) in
    (
      rows,
      e,
      λ x.
          ancestors_sound (length runs + 2) runs parent [] rows (some parent) x
            (begin-IsClosing runs parent) e,
    )

-- The test of the ancestry always ends with an answer, and it accepts a parent for a child exactly
-- when the child is neither the parent nor above it.
pub reject_parent_cycle_iff :
    (runs : List Run) (child parent : RunId)
    → (reject_parent_cycle runs child parent ≡ ok tt) ↔ ¬ IsAncestor runs parent child
unfolding reject_parent_cycle
reject_parent_cycle_iff runs child parent =
    let (rows, e, all) = ancestors_lem runs parent in
    let answer = check_ancestors_iff child rows in
    elim (Bool-cases (child.uuid == parent.uuid)) [
      | inl same ↦
          let k : parent.uuid ≡ child.uuid = ground arith in
          (
            λ h. absurd (cc (rw same at h)),
            λ n. absurd (n (subst (IsAncestor runs parent) (same_run parent child k) itself)),
          )
      | inr other ↦
          rw (other, e)
            (
              λ h above_it. absurd (cc (answer.0 h, (all child).1 above_it)),
              λ n. answer.1 (elim (Bool-cases (contains_run child rows)) [
                | inl there ↦ absurd (n ((all child).0 there))
                | inr f ↦ f
              ]),
            )
    ]
