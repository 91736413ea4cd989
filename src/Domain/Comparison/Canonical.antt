-- ===== src/Domain/Comparison/Canonical.antt =====
-- About `ComparisonResult::new` of crates/rewind-domain/src/comparison.rs.
use mathlib.Core.List.{Permᴰ}
use mathlib.Core.List.Permᴰ
use rewind_git_for_ai_agent.Prelude.{
  ℕ, ◌+◌, List, [], ◌∷◌, ◌≡◌, ◌≢◌, refl, sym, ◌↔◌, ◌⊎◌, inl, inr, Option, none, some, is_some, Bool,
  true, false, All, All-imp, arith, ok, fail_if,
}
use rewind_git_for_ai_agent.Bytes.{Lt}
use rewind_git_for_ai_agent.Bytes.Compare.{bytes_eq_iff}
use rewind_git_for_ai_agent.Bytes.Sorting.{
  sort_by, HasDistinctKeys, LtFirst, IsAdjacent, IsAdjacent-IsSorted, IsSorted-IsAdjacent,
  sort_by-IsSorted, All-perm, sort_by-perm, HasDistinctKeys-perm, IsSorted-HasDistinctKeys,
}
use rewind_git_for_ai_agent.Domain.Comparison.{
  SnapshotEntryType, directory, file, symlink, FileChangeKind, added, deleted, modified, FileChange,
  EvaluationComparison, ComparisonValidationError, invalid_executable_evidence, ComparisonResult,
  evidence_mismatch, validate_change, check_position, check_changes, commands_differ, change_path,
  from_canonical_parts, new,
}

abbrev IsChecked : FileChange → Type 0
IsChecked change = validate_change change.change ≡ ok tt

-- The evidence that a kind of change asks for: an entry that came or went tells whether it was executable
-- just when it is a file, and a modification tells at least one thing that changed.
abbrev pub IsEvidenced : FileChangeKind → Type 0
IsEvidenced (added entry_type executable) = (entry_type ≡ file) ↔ (is_some executable ≡ true)
IsEvidenced (deleted entry_type executable) = (entry_type ≡ file) ↔ (is_some executable ≡ true)
IsEvidenced (modified content_changed entry_type executable permissions) =
    (content_changed ≡ true)
    ⊎ (is_some entry_type ≡ true)
    ⊎ (is_some executable ≡ true)
    ⊎ (is_some permissions ≡ true)

abbrev pub HasEvidence : FileChange → Type 0
HasEvidence change = IsEvidenced change.change

evidence_mismatch_iff :
    (entry_type : SnapshotEntryType) (executable : Option Bool)
    → (evidence_mismatch entry_type executable ≡ false)
      ↔ ((entry_type ≡ file) ↔ (is_some executable ≡ true))
unfolding evidence_mismatch
evidence_mismatch_iff file none = (λ h. cc h, λ h. sym (h.0 refl))
evidence_mismatch_iff file (some bit) = (λ h. (λ e. refl, λ e. refl), λ h. refl)
evidence_mismatch_iff directory none = (λ h. (λ e. cc e, λ e. cc e), λ h. refl)
evidence_mismatch_iff directory (some bit) = (λ h. cc h, λ h. cc (h.1 refl))
evidence_mismatch_iff symlink none = (λ h. (λ e. cc e, λ e. cc e), λ h. refl)
evidence_mismatch_iff symlink (some bit) = (λ h. cc h, λ h. cc (h.1 refl))

fail_if_iff :
    (test : Bool) (problem : ComparisonValidationError)
    → (fail_if test problem ≡ ok tt) ↔ (test ≡ false)
fail_if_iff test problem = ground arith

validate_change_iff : (kind : FileChangeKind) → (validate_change kind ≡ ok tt) ↔ IsEvidenced kind
unfolding validate_change
validate_change_iff (added entry_type executable) =
    let a = fail_if_iff (evidence_mismatch entry_type executable) invalid_executable_evidence in
    let b = evidence_mismatch_iff entry_type executable in (λ h. b.0 (a.0 h), λ h. a.1 (b.1 h))
validate_change_iff (deleted entry_type executable) =
    let a = fail_if_iff (evidence_mismatch entry_type executable) invalid_executable_evidence in
    let b = evidence_mismatch_iff entry_type executable in (λ h. b.0 (a.0 h), λ h. a.1 (b.1 h))
validate_change_iff (modified true t e p) = (λ h. inl refl, λ h. refl)
validate_change_iff (modified false (some t) e p) = (λ h. inr (inl refl), λ h. refl)
validate_change_iff (modified false none (some e) p) = (λ h. inr (inr (inl refl)), λ h. refl)
validate_change_iff (modified false none none (some p)) = (λ h. inr (inr (inr refl)), λ h. refl)
validate_change_iff (modified false none none none) = (
  λ h. cc h,
  λ h. elim h [
    | inl e ↦ cc e
    | inr k ↦ elim k [ inl e ↦ cc e | inr l ↦ elim l [ inl e ↦ cc e | inr e ↦ cc e ] ]
  ],
)

-- Both sides ran the same command, which is not empty.
abbrev pub IsFair : Option EvaluationComparison → Type 0
IsFair none = Unit {0}
IsFair (some value) = (value.left.command ≢ []) × (value.left.command ≡ value.right.command)

abbrev BehindLt : Option FileChange → List FileChange → Type 0
BehindLt none changes = Unit {0}
BehindLt (some previous) changes = LtFirst change_path (change_path previous) changes

commands_differ_iff :
    (evaluation : Option EvaluationComparison)
    → (commands_differ evaluation ≡ false) ↔ IsFair evaluation
unfolding commands_differ
commands_differ_iff none = ground arith
commands_differ_iff (some value) = ground (
  arith,
  bytes_eq_iff value.left.command [],
  bytes_eq_iff value.right.command [],
  bytes_eq_iff value.left.command value.right.command,
)

check_position_iff :
    (index : ℕ) (previous change : FileChange)
    → (check_position index (some previous) change ≡ ok tt)
      ↔ Lt (change_path previous) (change_path change)
unfolding check_position
check_position_iff index previous change = ground arith

check_changes-cons :
    (index : ℕ) (previous : Option FileChange) (change : FileChange) (changes : List FileChange)
    → (check_changes index previous (change ∷ changes) ≡ ok tt) ↔ (
        IsChecked change
        × (check_position index previous change ≡ ok tt)
        × (check_changes (index + 1) (some change) changes ≡ ok tt))
unfolding check_changes
check_changes-cons index previous change changes = ground arith

check_changes_iff :
    (index : ℕ) (previous : Option FileChange) (changes : List FileChange)
    → (check_changes index previous changes ≡ ok tt)
      ↔ (All IsChecked changes × BehindLt previous changes × IsAdjacent change_path changes)
unfolding check_changes
check_changes_iff index none [] = ground arith
check_changes_iff index (some p) [] = ground arith
check_changes_iff index none (c ∷ cs) =
    let here = check_changes-cons index none c cs in
    let later = check_changes_iff (index + 1) (some c) cs in
    (
      λ h. let (e, _, r) = here.0 h in let (es, f, a) = later.0 r in ((e, es), tt, (f, a)),
      λ h. here.1 (h.0.0, unfold check_position in refl, later.1 (h.0.1, h.2.0, h.2.1)),
    )
check_changes_iff index (some p) (c ∷ cs) =
    let here = check_changes-cons index (some p) c cs in
    let later = check_changes_iff (index + 1) (some c) cs in
    let place = check_position_iff index p c in
    (
      λ h. let (e, o, r) = here.0 h in let (es, f, a) = later.0 r in ((e, es), place.0 o, (f, a)),
      λ h. here.1 (h.0.0, place.1 h.1, later.1 (h.0.1, h.2.0, h.2.1)),
    )

from_canonical_parts_iff :
    (parts report : ComparisonResult)
    → (from_canonical_parts parts ≡ ok report) ↔ (
        (All IsChecked parts.file_changes × IsAdjacent change_path parts.file_changes)
        × IsFair parts.evaluation
        × (report ≡ parts))
unfolding from_canonical_parts
from_canonical_parts_iff parts report =
    ground
      (arith, check_changes_iff 0 none parts.file_changes, commands_differ_iff parts.evaluation)

new-IsChecked_iff :
    (parts report : ComparisonResult)
    → (new parts ≡ ok report) ↔ (
        All IsChecked parts.file_changes
        × HasDistinctKeys change_path parts.file_changes
        × IsFair parts.evaluation
        × (report ≡ record parts { file_changes = sort_by change_path parts.file_changes }))
unfolding new
new-IsChecked_iff parts report = (
  λ h.
      let ((v, a), f, e) = (from_canonical_parts_iff ordered report).0 h in
      let s = IsAdjacent-IsSorted change_path ordered.file_changes a in
      (
        All-perm change_path IsChecked (Permᴰ.symm kept) v,
        HasDistinctKeys-perm change_path (Permᴰ.symm kept)
            (IsSorted-HasDistinctKeys change_path ordered.file_changes s),
        f,
        e,
      ),
  λ h.
      let s = sort_by-IsSorted change_path parts.file_changes h.1 in
      (from_canonical_parts_iff ordered report).1 (
        (
          All-perm change_path IsChecked kept h.0,
          IsSorted-IsAdjacent change_path ordered.file_changes s,
        ),
        h.2,
        h.3,
      ),
)
  where
    ordered : ComparisonResult
    ordered = record parts { file_changes = sort_by change_path parts.file_changes }

    kept : Permᴰ parts.file_changes ordered.file_changes
    kept = sort_by-perm change_path parts.file_changes

-- A report is made exactly from changes with evidence and distinct paths, in any order, with an
-- evaluation, if any, of one command on both sides; it holds the changes sorted by path and the other
-- parts as they were given.
pub new_report_iff :
    (parts report : ComparisonResult)
    → (new parts ≡ ok report) ↔ (
        All HasEvidence parts.file_changes
        × HasDistinctKeys change_path parts.file_changes
        × IsFair parts.evaluation
        × (report ≡ record parts { file_changes = sort_by change_path parts.file_changes }))
new_report_iff parts report =
    let known = new-IsChecked_iff parts report in
    (
      λ h.
          let (c, distinct, fair, is) = known.0 h in
          (
            All-imp (λ (x : FileChange) k. (validate_change_iff x.change).0 k) parts.file_changes c,
            distinct,
            fair,
            is,
          ),
      λ h. known.1 (
        All-imp (λ (x : FileChange) k. (validate_change_iff x.change).1 k) parts.file_changes h.0,
        h.1,
        h.2,
        h.3,
      ),
    )
