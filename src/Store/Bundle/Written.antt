-- ===== src/Store/Bundle/Written.antt =====
-- `encode_bundle` as a whole: the sets of entries it takes, and the archive it makes of them.
use mathlib.Core.List.{Permᴰ}
use mathlib.Core.List.Permᴰ
use rewind_git_for_ai_agent.Prelude.{
  ◌<◌, List, [], ◌∷◌, length, ◌≡◌, ◌≢◌, refl, sym, ap, ◌∙◌, ◌↔◌, false, Option, none, some, leb,
  fail_if, fail_if_iff, All, All-imp, All-everywhere, All-both, arith, ok, ok_of_then,
  with_ok_of_bind,
}
use rewind_git_for_ai_agent.Bytes.{Bytes, Lt}
use rewind_git_for_ai_agent.Bytes.Compare.{bytes_lt_iff, bytes_eq_iff}
use rewind_git_for_ai_agent.Bytes.Sorting.{
  sort_by, HasDistinctKeys, LtFirst, IsAdjacent, IsAdjacent-IsSorted, IsSorted-IsAdjacent,
  sort_by-IsSorted, sort_by-perm, All-perm, HasDistinctKeys-perm, IsSorted-HasDistinctKeys,
  length-perm,
}
use rewind_git_for_ai_agent.Store.Bundle.{
  BundleEntry, BundleStreamWriter, numeric_range, u32_limit, u64_limit, validate_archive_path,
  not_after, seen, check_unique, validate_paths, entry_path, new, write_entries, finish,
  encode_bundle,
}
use rewind_git_for_ai_agent.Store.Bundle.Format.{bundle_text}
use rewind_git_for_ai_agent.Store.Bundle.Encoding.{
  AllWritable, add_all, write_entries_sound, write_entries_complete, add_all-fields,
}

-- An entry with a safe path whose length is a `u64`.
pub record IsStorable (e : BundleEntry) : Type 0 where
  pub safe : validate_archive_path e.path ≡ ok tt
  pub fits : length e.bytes < u64_limit

-- The path, if there is one, is less than the first of the entries.
abbrev pub PreviousLt : Option Bytes → List BundleEntry → Type 0
PreviousLt none es = Unit {0}
PreviousLt (some p) es = LtFirst entry_path p es

pub not_after_iff :
    (previous path : Bytes) → (not_after (some previous) path ≡ false) ↔ Lt previous path
unfolding not_after
not_after_iff previous path = ground (arith, bytes_lt_iff previous path)

pub AllWritable-sorted :
    (previous : Option Bytes) (es : List BundleEntry)
    → AllWritable previous es
    → All IsStorable es × PreviousLt previous es × IsAdjacent entry_path es
AllWritable-sorted none [] a = (tt, tt, tt)
AllWritable-sorted (some p) [] a = (tt, tt, tt)
AllWritable-sorted none (e ∷ es) a =
    let (good, f, s) = AllWritable-sorted (some e.path) es a.1 in
    ((record { safe = a.0.safe; fits = a.0.fits }, good), tt, (f, s))
AllWritable-sorted (some p) (e ∷ es) a =
    let (good, f, s) = AllWritable-sorted (some e.path) es a.1 in
    (
      (record { safe = a.0.safe; fits = a.0.fits }, good),
      (not_after_iff p e.path).0 a.0.after,
      (f, s),
    )

pub sorted-AllWritable :
    (previous : Option Bytes) (es : List BundleEntry)
    → All IsStorable es
    → PreviousLt previous es
    → IsAdjacent entry_path es
    → AllWritable previous es
sorted-AllWritable previous [] good f s = tt
sorted-AllWritable none (e ∷ es) good f s = (
  record { safe = good.0.safe; after = unfold not_after in refl; fits = good.0.fits },
  sorted-AllWritable (some e.path) es good.1 s.0 s.1,
)
sorted-AllWritable (some p) (e ∷ es) good f s = (
  record { safe = good.0.safe; after = (not_after_iff p e.path).1 f; fits = good.0.fits },
  sorted-AllWritable (some e.path) es good.1 s.0 s.1,
)

validate_paths_iff :
    (es : List BundleEntry)
    → (validate_paths es ≡ ok tt) ↔ All (λ e. validate_archive_path e.path ≡ ok tt) es
unfolding validate_paths
validate_paths_iff [] = ground arith
validate_paths_iff (e ∷ es) = ground (arith, validate_paths_iff es)

seen_nothing : (e : BundleEntry) → seen [] e.path ≡ false
unfolding seen
seen_nothing e = refl

seen-other :
    (p : Bytes) (paths : List Bytes) (q : Bytes)
    → p ≢ q
    → seen paths q ≡ false
    → seen (p ∷ paths) q ≡ false
unfolding seen
seen-other p paths q ne h = ground (arith, bytes_eq_iff p q)

-- The set of seen paths rejects no entry when the paths are distinct and none was seen before.
check_unique-distinct :
    (paths : List Bytes) (es : List BundleEntry)
    → HasDistinctKeys entry_path es
    → All (λ e. seen paths e.path ≡ false) es
    → check_unique paths es ≡ ok tt
unfolding check_unique
check_unique-distinct paths [] d s = refl
check_unique-distinct paths (e ∷ es) d s =
    let unseen = All-both (λ y ne unseen. seen-other e.path paths y.path ne unseen) es d.0 s.1 in
    rw (s.0, check_unique-distinct (e.path ∷ paths) es d.1 unseen) refl

finish_lem : (w : BundleStreamWriter) → w.written ≡ w.declared → finish w ≡ ok w.writer
unfolding finish
finish_lem w h = ground arith

module _ (hash : Bytes → Bytes) where
  encode_bundle_sound :
      (entries : List BundleEntry) (out : Bytes)
      → encode_bundle hash entries ≡ ok out
      → All IsStorable entries
        × HasDistinctKeys entry_path entries
        × (length entries < u32_limit)
        × (out ≡ bundle_text hash (sort_by entry_path entries))
  unfolding encode_bundle finish new
  encode_bundle_sound entries out h =
      let (paths, h1) = ok_of_then (validate_paths entries) _ _ h in
      let (unique, h2) = ok_of_then (check_unique [] sorted) _ _ h1 in
      let (few, h3) = ok_of_then (fail_if (leb u32_limit (length sorted)) numeric_range) _ _ h2 in
      with_ok_of_bind (write_entries hash (new (length sorted)) sorted) _ _ h3 (λ w k f.
        let (a, w_is) = write_entries_sound hash (new (length sorted)) w sorted k in
        let (good, _, s) = AllWritable-sorted none sorted a in
        let (text, _, _) = add_all-fields hash (new (length sorted)) sorted in
        let e : w.writer ≡ out = ground arith in
        (
          All-perm entry_path IsStorable (Permᴰ.symm kept) good,
          HasDistinctKeys-perm entry_path (Permᴰ.symm kept) (
              IsSorted-HasDistinctKeys entry_path sorted (IsAdjacent-IsSorted entry_path sorted s)),
          ground (arith, length-perm entry_path kept),
          sym e ∙ ap (λ v. v.writer) w_is ∙ text,
        ))
    where
      sorted : List BundleEntry
      sorted = sort_by entry_path entries

      kept : Permᴰ entries sorted
      kept = sort_by-perm entry_path entries

  encode_bundle_complete :
      (entries : List BundleEntry)
      → All IsStorable entries
      → HasDistinctKeys entry_path entries
      → length entries < u32_limit
      → encode_bundle hash entries ≡ ok (bundle_text hash (sort_by entry_path entries))
  unfolding encode_bundle new
  encode_bundle_complete entries good d few =
      let s = sort_by-IsSorted entry_path entries d in
      let a =
        sorted-AllWritable none sorted (All-perm entry_path IsStorable kept good) tt
          (IsSorted-IsAdjacent entry_path sorted s) in
      let (text, n, m) = add_all-fields hash (new (length sorted)) sorted in
      rw
        (
          (validate_paths_iff entries).1 (All-imp (λ e g. g.safe) entries good),
          check_unique-distinct [] sorted (IsSorted-HasDistinctKeys entry_path sorted s)
              (All-everywhere seen_nothing sorted),
          (fail_if_iff (leb u32_limit (length sorted)) numeric_range).1
              (ground (arith, length-perm entry_path kept)),
          write_entries_complete hash (new (length sorted)) sorted a (omega arith),
        )
        (finish_lem (add_all hash (new (length sorted)) sorted) (omega (arith, n, m)) ∙ ap ok text)
    where
      sorted : List BundleEntry
      sorted = sort_by entry_path entries

      kept : Permᴰ entries sorted
      kept = sort_by-perm entry_path entries

  -- `encode_bundle` accepts exactly the entries in any order with safe and distinct paths whose
  -- lengths and number fit their fields, and its result is the text of the entries in path order.
  pub encode_bundle_iff :
      (entries : List BundleEntry) (out : Bytes)
      → (encode_bundle hash entries ≡ ok out) ↔ (
          All IsStorable entries
          × HasDistinctKeys entry_path entries
          × (length entries < u32_limit)
          × (out ≡ bundle_text hash (sort_by entry_path entries)))
  encode_bundle_iff entries out =
      (encode_bundle_sound entries out, λ h. rw h.3 (encode_bundle_complete entries h.0 h.1 h.2))
