-- ===== src/Store/Bundle/RoundTrip.antt =====
-- About `encode_bundle` and `decode_bundle` of crates/rewind-store/src/bundle.rs together.
use mathlib.Core.List.{Permᴰ}
use rewind_git_for_ai_agent.Prelude.{
  ℕ, ◌+◌, ◌≤◌, ◌<◌, List, [], ◌∷◌, length, ◌≡◌, refl, sym, ap, ◌∙◌, true, Option, none, some, All,
  Bool, arith, ok,
}
use rewind_git_for_ai_agent.Bytes.{Bytes, IsByte}
use rewind_git_for_ai_agent.Bytes.Sorting.{
  sort_by, IsAdjacent-IsSorted, IsSorted-IsAdjacent, sort_by-IsSorted, sort_by-perm, sort_by-sorted,
  All-perm, IsSorted-HasDistinctKeys, length-perm,
}
use rewind_git_for_ai_agent.Store.Bundle.{
  BundleEntry, BundleDecodeLimits, u64_limit, entry_path, encode_bundle, decode_bundle,
}
use rewind_git_for_ai_agent.Store.Bundle.Format.{bundle_text}
use rewind_git_for_ai_agent.Store.Bundle.Decoding.{AllAdmissible}
use rewind_git_for_ai_agent.Store.Bundle.Accepted.{decode_bundle_iff, decode_bundle_complete}
use rewind_git_for_ai_agent.Store.Bundle.Encoding.{AllWritable}
use rewind_git_for_ai_agent.Store.Bundle.Written.{
  IsStorable, AllWritable-sorted, sorted-AllWritable, encode_bundle_iff,
}

-- The bytes of all the entries, without the headers and the paths.
abbrev pub total_bytes : List BundleEntry → ℕ
total_bytes [] = 0
total_bytes (e ∷ es) = length e.bytes + total_bytes es

total_bytes-perm : {xs ys : List BundleEntry} → Permᴰ xs ys → total_bytes xs ≡ total_bytes ys
total_bytes-perm Permᴰ.nil = refl
total_bytes-perm (Permᴰ.cons e p) = omega (arith, total_bytes-perm p, ap (λ x. length x.bytes) e)
total_bytes-perm (Permᴰ.swap e f) =
    omega (arith, ap (λ x. length x.bytes) e, ap (λ x. length x.bytes) f)
total_bytes-perm (Permᴰ.trans p q) = total_bytes-perm p ∙ total_bytes-perm q

module _ (hash : Bytes → Bytes) (is_utf8 : Bytes → Bool) (limits : BundleDecodeLimits) where
  -- An entry that the reader accepts on its own.
  pub record IsReadable (e : BundleEntry) : Type 0 where
    pub text : is_utf8 e.path ≡ true
    pub small : length e.bytes ≤ limits.maximum_entry_bytes

  Writable-Admissible :
      (total : ℕ) (previous : Option Bytes) (es : List BundleEntry)
      → AllWritable previous es
      → All IsReadable es
      → total + total_bytes es < u64_limit
      → total + total_bytes es ≤ limits.maximum_total_bytes
      → AllAdmissible hash is_utf8 limits total previous es
  Writable-Admissible total previous [] a r c m = tt
  Writable-Admissible total previous (e ∷ es) a r c m = (
    record {
      text = r.0.text;
      safe = a.0.safe;
      after = a.0.after;
      small = r.0.small;
      counted = omega arith;
      within = omega arith;
    },
    Writable-Admissible (total + length e.bytes) (some e.path) es a.1 r.1 (omega arith)
        (omega arith),
  )

  Admissible-Writable :
      (total : ℕ) (previous : Option Bytes) (es : List BundleEntry)
      → AllAdmissible hash is_utf8 limits total previous es
      → AllWritable previous es
  Admissible-Writable total previous [] a = tt
  Admissible-Writable total previous (e ∷ es) a = (
    record { safe = a.0.safe; after = a.0.after; fits = omega (arith, a.0.counted) },
    Admissible-Writable (total + length e.bytes) (some e.path) es a.1,
  )

  -- What `encode_bundle` wrote, `decode_bundle` reads back: the entries in path order. The paths are
  -- UTF-8, the sizes are within the reader's limits, and the hash has 32 bytes.
  pub decode_bundle-encode_bundle :
      (entries : List BundleEntry) (out : Bytes)
      → ((bytes : Bytes) → length (hash bytes) ≡ 32)
      → All IsReadable entries
      → length entries ≤ limits.maximum_entries
      → total_bytes entries < u64_limit
      → total_bytes entries ≤ limits.maximum_total_bytes
      → encode_bundle hash entries ≡ ok out
      → decode_bundle hash is_utf8 limits out ≡ ok (sort_by entry_path entries)
  decode_bundle-encode_bundle entries out l r few c m h =
      let (good, d, n, e) = (encode_bundle_iff hash entries out).0 h in
      let s = IsSorted-IsAdjacent entry_path sorted (sort_by-IsSorted entry_path entries d) in
      let w = sorted-AllWritable none sorted (All-perm entry_path IsStorable kept good) tt s in
      let a =
        Writable-Admissible 0 none sorted w (All-perm entry_path IsReadable kept r)
          (omega (arith, total_bytes-perm kept)) (omega (arith, total_bytes-perm kept)) in
      rw e (
        decode_bundle_complete hash is_utf8 limits sorted l
          (omega (arith, length-perm entry_path kept)) (omega (arith, length-perm entry_path kept))
          a)
    where
      sorted : List BundleEntry
      sorted = sort_by entry_path entries

      kept : Permᴰ entries sorted
      kept = sort_by-perm entry_path entries

  -- An archive that `decode_bundle` accepts is the one that `encode_bundle` makes of the entries that
  -- were read: no two archives hold the same entries. The hash has 32 bytes and the archive is made of
  -- bytes.
  pub encode_bundle-decode_bundle :
      (input : Bytes) (entries : List BundleEntry)
      → ((bytes : Bytes) → length (hash bytes) ≡ 32)
      → All IsByte input
      → decode_bundle hash is_utf8 limits input ≡ ok entries
      → encode_bundle hash entries ≡ ok input
  encode_bundle-decode_bundle input entries l b h =
      let (whole, n, _, a) = (decode_bundle_iff hash is_utf8 limits input entries l b).0 h in
      let (good, _, adjacent) =
        AllWritable-sorted none entries (Admissible-Writable 0 none entries a) in
      let s = IsAdjacent-IsSorted entry_path entries adjacent in
      (encode_bundle_iff hash entries input).1 (
        good,
        IsSorted-HasDistinctKeys entry_path entries s,
        omega arith,
        whole ∙ sym (ap (bundle_text hash) (sort_by-sorted entry_path entries s)),
      )
