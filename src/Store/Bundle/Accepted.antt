-- ===== src/Store/Bundle/Accepted.antt =====
-- `decode_bundle` as a whole: the archives it accepts, and the entries it returns.
use rewind_git_for_ai_agent.Prelude.{
  ℕ, ◌+◌, ◌≤◌, ◌<◌, ◌^◌, List, [], ◌++◌, length, take, drop, slice, ◌≡◌, refl, sym, ap₂, ◌∙◌, ◌↔◌,
  Bool, none, All, All-drop, arith, ok, with_ok_of_bind, append-nil, length-take, length-drop,
  All-take,
}
use rewind_git_for_ai_agent.Bytes.{Bytes, IsByte}
use rewind_git_for_ai_agent.Bytes.Compare.{bytes_eq_iff}
use rewind_git_for_ai_agent.Bytes.Words.{to_le, from_le, from_le-to_le, from_le-lt}
use rewind_git_for_ai_agent.Store.Bundle.{
  BundleEntry, BundleDecodeLimits, magic, bundle_version, header_bytes, decode_entries,
  decode_bundle_header, decode_bundle,
}
use rewind_git_for_ai_agent.Store.Bundle.Format.{
  bundle_header, entries_text, bundle_text, bundle_header-slices,
}
use rewind_git_for_ai_agent.Store.Bundle.Decoding.{
  AllAdmissible, decode_entries_sound, decode_entries_complete,
}

module _ (hash : Bytes → Bytes) (is_utf8 : Bytes → Bool) (limits : BundleDecodeLimits) where
  bundle_header-fields :
      (count : ℕ) (xs : Bytes)
      → count < 2 ^ 32
      → (take 4 (bundle_header count ++ xs) ≡ magic)
        × (from_le (slice 4 6 (bundle_header count ++ xs)) ≡ bundle_version)
        × (from_le (slice 6 8 (bundle_header count ++ xs)) ≡ 0)
        × (from_le (slice 8 12 (bundle_header count ++ xs)) ≡ count)
        × (drop header_bytes (bundle_header count ++ xs) ≡ xs)
        × (length (bundle_header count ++ xs) ≡ header_bytes + length xs)
  unfolding to_le
  bundle_header-fields count xs h = (
    refl,
    from_le-to_le 2 bundle_version (omega arith),
    from_le-to_le 2 0 (omega arith),
    from_le-to_le 4 count (omega arith),
    refl,
    omega arith,
  )

  decode_bundle_header_iff :
      (input : Bytes) (count : ℕ)
      → (decode_bundle_header hash is_utf8 limits input ≡ ok count) ↔ (
          (header_bytes ≤ length input)
          × (take 4 input ≡ magic)
          × (from_le (slice 4 6 input) ≡ bundle_version)
          × (from_le (slice 6 8 input) ≡ 0)
          × (from_le (slice 8 12 input) ≤ limits.maximum_entries)
          × (count ≡ from_le (slice 8 12 input)))
  unfolding decode_bundle_header
  decode_bundle_header_iff input count = ground (arith, bytes_eq_iff (take 4 input) magic)

  -- A chain behind the entries that demands the end of the input.
  decode_bundle_parts :
      (input : Bytes) (es : List BundleEntry)
      → decode_bundle hash is_utf8 limits input ≡ ok es
      → (count : ℕ) × (decode_bundle_header hash is_utf8 limits input ≡ ok count)
        × (decode_entries hash is_utf8 limits count (drop header_bytes input) 0 none ≡ ok (es, []))
  unfolding decode_bundle
  decode_bundle_parts input es h =
      with_ok_of_bind (decode_bundle_header hash is_utf8 limits input) _ _ h (λ count e k.
        with_ok_of_bind (decode_entries hash is_utf8 limits count (drop header_bytes input) 0 none)
          _ _ k
          (λ y r k'.
            let p : y.0 ≡ es = ground arith in
            let q : y.1 ≡ [] = ground (arith, bytes_eq_iff y.1 []) in
            (count, e, r ∙ ap₂ (λ xs end. ok (xs, end)) p q)))

  decode_bundle_sound :
      (input : Bytes) (es : List BundleEntry)
      → All IsByte input
      → decode_bundle hash is_utf8 limits input ≡ ok es
      → (input ≡ bundle_text hash es)
        × (length es < 2 ^ 32)
        × (length es ≤ limits.maximum_entries)
        × AllAdmissible hash is_utf8 limits 0 none es
  decode_bundle_sound input es b h =
      let (count, c, r) = decode_bundle_parts input es h in
      let (long, m, v, z, few, e) = (decode_bundle_header_iff input count).0 c in
      let (whole, l, a) =
        decode_entries_sound hash is_utf8 limits count (drop header_bytes input) 0 none es []
          (All-drop IsByte header_bytes input b) r in
      let four : length (slice 8 12 input) ≡ 4 =
        omega (arith, length-take 4 (drop 8 input), length-drop 8 input) in
      let bounded = rw four at (
        from_le-lt (slice 8 12 input)
          (All-take IsByte 4 (drop 8 input) (All-drop IsByte 8 input b))) in
      (
        sym (bundle_header-slices input b long m v z)
            ∙ ap₂ (λ n xs. bundle_header n ++ xs) (sym e ∙ sym l)
                (whole ∙ append-nil (entries_text hash es)),
        omega (arith, bounded),
        omega arith,
        a,
      )

  pub decode_bundle_complete :
      (es : List BundleEntry)
      → ((bytes : Bytes) → length (hash bytes) ≡ 32)
      → length es < 2 ^ 32
      → length es ≤ limits.maximum_entries
      → AllAdmissible hash is_utf8 limits 0 none es
      → decode_bundle hash is_utf8 limits (bundle_text hash es) ≡ ok es
  unfolding decode_bundle
  decode_bundle_complete es l n m a =
      let (p, v, z, c, behind, long) = bundle_header-fields (length es) (entries_text hash es) n in
      let head =
        (decode_bundle_header_iff (bundle_text hash es) (length es)).1
          (omega (arith, long), p, v, z, omega (arith, c), sym c) in
      let body = append-nil (entries_text hash es) in
      rw
        (
          head,
          behind,
          ← body,
          decode_entries_complete hash is_utf8 limits 0 none es [] l a,
          (bytes_eq_iff [] []).1 refl,
        )
        refl

  -- An archive decodes exactly when it is the text of entries that are admissible in their order and
  -- not too many, and it decodes to those entries. The hash has 32 bytes and the archive is made of
  -- bytes.
  pub decode_bundle_iff :
      (input : Bytes) (es : List BundleEntry)
      → ((bytes : Bytes) → length (hash bytes) ≡ 32)
      → All IsByte input
      → (decode_bundle hash is_utf8 limits input ≡ ok es) ↔ (
          (input ≡ bundle_text hash es)
          × (length es < 2 ^ 32)
          × (length es ≤ limits.maximum_entries)
          × AllAdmissible hash is_utf8 limits 0 none es)
  decode_bundle_iff input es l b =
      (decode_bundle_sound input es b, λ h. rw h.0 (decode_bundle_complete es l h.1 h.2 h.3))
