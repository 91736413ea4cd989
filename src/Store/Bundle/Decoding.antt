-- ===== src/Store/Bundle/Decoding.antt =====
-- The loop of the reader over the entries: what it accepts, and what it returns.
use rewind_git_for_ai_agent.Prelude.{
  ℕ, zero, suc, ◌+◌, ◌≤◌, ◌<◌, List, [], ◌∷◌, ◌++◌, length, slice, ◌≡◌, refl, sym, ap, ap₂, ◌∙◌,
  ◌↔◌, subst, Bool, true, false, not, Option, some, ◌==◌, All, All-parts, arith, ok,
  with_ok_of_bind, ok_of_then, fail_if, append_assoc,
}
use rewind_git_for_ai_agent.Bytes.{Bytes, IsByte}
use rewind_git_for_ai_agent.Bytes.Compare.{bytes_eq_iff}
use rewind_git_for_ai_agent.Bytes.Words.{from_le}
use rewind_git_for_ai_agent.Store.Bundle.{
  BundleEntry, BundleDecodeLimits, entry_header_bytes, max_archive_path_bytes, u64_limit,
  validate_archive_path, not_after, check_entry, read_payload, unsupported_flags, decode_entry,
  decode_entries,
}
use rewind_git_for_ai_agent.Store.Bundle.Format.{
  entry_header, take_bytes_then, entry_text-rest, entry_text, entries_text, take_bytes-append,
  entry_header-fields, length-entry_header, entry_header-slices,
}

pub validate_archive_path-bounded :
    (path : Bytes) → validate_archive_path path ≡ ok tt → length path ≤ max_archive_path_bytes
unfolding validate_archive_path
validate_archive_path-bounded path h = ground arith

module _ (hash : Bytes → Bytes) (is_utf8 : Bytes → Bool) (limits : BundleDecodeLimits) where
  -- What the reader demands of an entry that follows entries of `total` bytes and the path
  -- `previous`.
  pub record Admissible (total : ℕ) (previous : Option Bytes) (e : BundleEntry) : Type 0 where
    pub text : is_utf8 e.path ≡ true
    pub safe : validate_archive_path e.path ≡ ok tt
    pub after : not_after previous e.path ≡ false
    pub small : length e.bytes ≤ limits.maximum_entry_bytes
    pub counted : total + length e.bytes < u64_limit
    pub within : total + length e.bytes ≤ limits.maximum_total_bytes

  abbrev pub AllAdmissible : ℕ → Option Bytes → List BundleEntry → Type 0
  AllAdmissible total previous [] = Unit {0}
  AllAdmissible total previous (e ∷ es) =
      Admissible total previous e × AllAdmissible (total + length e.bytes) (some e.path) es

  check_entry_iff :
      (total : ℕ) (previous : Option Bytes) (e : BundleEntry)
      → (check_entry hash is_utf8 limits total previous e.path (length e.bytes) ≡ ok tt)
        ↔ Admissible total previous e
  unfolding check_entry
  check_entry_iff total previous e = ground arith

  -- What a successful read of the bytes of an entry was.
  read_payload_sound :
      (header path behind : Bytes) (total : ℕ) (e : BundleEntry) (total' : ℕ) (rest : Bytes)
      → read_payload hash is_utf8 limits header path total behind ≡ ok (e, total', rest)
      → (behind ≡ e.bytes ++ rest)
        × (e.path ≡ path)
        × (length e.bytes ≡ from_le (slice 4 12 header))
        × (hash e.bytes ≡ slice 12 44 header)
        × (total' ≡ total + length e.bytes)
  unfolding read_payload
  read_payload_sound header path behind total e total' rest h =
      take_bytes_then behind (from_le (slice 4 12 header)) _ _ h
        (λ payload r t l k. ground (arith, bytes_eq_iff (hash payload) (slice 12 44 header)))

  decode_entry_parts :
      (input : Bytes) (total : ℕ) (previous : Option Bytes) (z : BundleEntry × ℕ × Bytes)
      → decode_entry hash is_utf8 limits input total previous ≡ ok z
      → (header : Bytes) × (path : Bytes) × (behind : Bytes) × (input ≡ header ++ (path ++ behind))
        × (length header ≡ entry_header_bytes)
        × (length path ≡ from_le (slice 0 2 header))
        × (from_le (slice 2 4 header) ≡ 0)
        × (check_entry hash is_utf8 limits total previous path (from_le (slice 4 12 header))
            ≡ ok tt)
        × (read_payload hash is_utf8 limits header path total behind ≡ ok z)
  unfolding decode_entry
  decode_entry_parts input total previous z h =
      take_bytes_then input entry_header_bytes _ _ h (λ header behind_header e l h1.
        let (f, h2) =
          ok_of_then (fail_if (not (from_le (slice 2 4 header) == 0)) unsupported_flags) _ _ h1 in
        take_bytes_then behind_header (from_le (slice 0 2 header)) _ _ h2 (λ path behind e' l' h3.
          let (c, h4) =
            ok_of_then
              (check_entry hash is_utf8 limits total previous path (from_le (slice 4 12 header))) _
              _ h3 in
          (header, path, behind, e ∙ ap (λ xs. header ++ xs) e', l, l', ground arith, c, h4)))

  decode_entry_sound :
      (input : Bytes) (total : ℕ) (previous : Option Bytes) (e : BundleEntry) (total' : ℕ)
      (rest : Bytes)
      → All IsByte input
      → decode_entry hash is_utf8 limits input total previous ≡ ok (e, total', rest)
      → (input ≡ entry_text hash e ++ rest)
        × (total' ≡ total + length e.bytes)
        × Admissible total previous e
  decode_entry_sound input total previous e total' rest b h =
      let (header, path, behind, whole, l, lp, z, c, r) =
        decode_entry_parts input total previous _ h in
      let (f, p, n, s, t) = read_payload_sound header path behind total e total' rest r in
      let head =
        entry_header-slices header
          (All-parts IsByte header (path ++ behind) (subst (All IsByte) whole b)).0 l z in
      (
        whole
            ∙ ap₂ (λ xs ys. xs ++ (path ++ ys)) (sym head) f
            ∙ rw (entry_text-rest hash e rest, p, lp, n, s) refl,
        t,
        (check_entry_iff total previous e).0 (rw (p, n) c),
      )

  decode_entry_complete :
      (total : ℕ) (previous : Option Bytes) (e : BundleEntry) (rest : Bytes)
      → length (hash e.bytes) ≡ 32
      → Admissible total previous e
      → decode_entry hash is_utf8 limits (entry_text hash e ++ rest) total previous
        ≡ ok (e, total + length e.bytes, rest)
  unfolding decode_entry read_payload
  decode_entry_complete total previous e rest l a =
      let (p, z, n, s) =
        entry_header-fields (length e.path) (length e.bytes) (hash e.bytes)
          (omega (arith, validate_archive_path-bounded e.path a.safe)) (omega (arith, a.counted))
          l in
      rw
        (
          entry_text-rest hash e rest,
          take_bytes-append (entry_header (length e.path) (length e.bytes) (hash e.bytes))
              (e.path ++ (e.bytes ++ rest)) 44
              (length-entry_header (length e.path) (length e.bytes) (hash e.bytes) l),
          p,
          z,
          n,
          s,
          take_bytes-append e.path (e.bytes ++ rest) (length e.path) refl,
          (check_entry_iff total previous e).1 a,
          take_bytes-append e.bytes rest (length e.bytes) refl,
          (bytes_eq_iff (hash e.bytes) (hash e.bytes)).1 refl,
        )
        refl

  pub decode_entries_sound :
      (count : ℕ) (input : Bytes) (total : ℕ) (previous : Option Bytes) (es : List BundleEntry)
      (rest : Bytes)
      → All IsByte input
      → decode_entries hash is_utf8 limits count input total previous ≡ ok (es, rest)
      → (input ≡ entries_text hash es ++ rest)
        × (length es ≡ count)
        × AllAdmissible total previous es
  unfolding decode_entries
  decode_entries_sound zero input total previous [] rest b h = (cc, refl, tt)
  decode_entries_sound zero input total previous (e ∷ es) rest b h = cc
  decode_entries_sound (suc count) input total previous es rest b h =
      with_ok_of_bind (decode_entry hash is_utf8 limits input total previous) _ _ h (λ z r k.
        with_ok_of_bind (decode_entries hash is_utf8 limits count z.2 z.1 (some z.0.path)) _ _ k
          (λ y rs k'.
            let (whole, t, a) = decode_entry_sound input total previous z.0 z.1 z.2 b r in
            let b' = (All-parts IsByte (entry_text hash z.0) z.2 (subst (All IsByte) whole b)).1 in
            let (whole', l, admissible) =
              decode_entries_sound count z.2 z.1 (some z.0.path) y.0 y.1 b' rs in
            let p : z.0 ∷ y.0 ≡ es = cc in
            let q : y.1 ≡ rest = cc in
            subst
              (λ xs.
                (input ≡ entries_text hash xs ++ rest)
                × (length xs ≡ suc count)
                × AllAdmissible total previous xs)
              p
              (
                whole
                    ∙ ap (λ xs. entry_text hash z.0 ++ xs)
                        (whole' ∙ ap (λ xs. entries_text hash y.0 ++ xs) q)
                    ∙ sym (append_assoc (entry_text hash z.0) (entries_text hash y.0) rest),
                omega (arith, l),
                (a, rw (← t) admissible),
              )))

  pub decode_entries_complete :
      (total : ℕ) (previous : Option Bytes) (es : List BundleEntry) (rest : Bytes)
      → ((bytes : Bytes) → length (hash bytes) ≡ 32)
      → AllAdmissible total previous es
      → decode_entries hash is_utf8 limits (length es) (entries_text hash es ++ rest) total previous
        ≡ ok (es, rest)
  unfolding decode_entries
  decode_entries_complete total previous [] rest l a = refl
  decode_entries_complete total previous (e ∷ es) rest l a =
      rw
        (
          append_assoc (entry_text hash e) (entries_text hash es) rest,
          decode_entry_complete total previous e (entries_text hash es ++ rest) (l e.bytes) a.0,
          decode_entries_complete (total + length e.bytes) (some e.path) es rest l a.1,
        )
        refl
