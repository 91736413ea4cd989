-- ===== src/Store/Bundle/Encoding.antt =====
-- The writer of an archive: what each entry adds to it, and the entries it takes.
use rewind_git_for_ai_agent.Prelude.{
  ℕ, ◌+◌, ◌≤◌, ◌<◌, List, [], ◌∷◌, ◌++◌, length, ◌≡◌, ◌≢◌, refl, sym, ap, ◌∙◌, ◌↔◌, subst, false,
  Option, some, arith, ok, fail_if, fail_if_iff, leb, ok_of_then, with_ok_of_bind, append_assoc,
  append-nil,
}
use rewind_git_for_ai_agent.Bytes.{Bytes}
use rewind_git_for_ai_agent.Bytes.Words.{to_le}
use rewind_git_for_ai_agent.Store.Bundle.{
  BundleEntry, BundleStreamWriter, numeric_range, u64_limit, validate_archive_path, not_after,
  write_entry_header, complete_entry, write_entry, write_entries,
}
use rewind_git_for_ai_agent.Store.Bundle.Format.{entry_text, entries_text}
use rewind_git_for_ai_agent.Store.Bundle.Decoding.{validate_archive_path-bounded}

-- An entry that can be written behind the path `previous`.
pub record Writable (previous : Option Bytes) (e : BundleEntry) : Type 0 where
  pub safe : validate_archive_path e.path ≡ ok tt
  pub after : not_after previous e.path ≡ false
  pub fits : length e.bytes < u64_limit

abbrev pub AllWritable : Option Bytes → List BundleEntry → Type 0
AllWritable previous [] = Unit {0}
AllWritable previous (e ∷ es) = Writable previous e × AllWritable (some e.path) es

-- The writer behind the header of an entry, as the calls of `write_all` leave it.
abbrev with_header : BundleStreamWriter → Bytes → ℕ → Bytes → BundleStreamWriter
with_header w path byte_len checksum = record w {
  writer = w.writer ++ to_le 2 (length path) ++ to_le 2 0 ++ to_le 8 byte_len ++ checksum ++ path;
}

write_entry_header_iff :
    (w w' : BundleStreamWriter) (path : Bytes) (byte_len : ℕ) (checksum : Bytes)
    → (write_entry_header w path byte_len checksum ≡ ok w') ↔ (
        (validate_archive_path path ≡ ok tt)
        × (w.written ≢ w.declared)
        × (not_after w.previous path ≡ false)
        × (w' ≡ with_header w path byte_len checksum))
unfolding write_entry_header
write_entry_header_iff w w' path byte_len checksum =
    ground (arith, validate_archive_path-bounded path)

module _ (hash : Bytes → Bytes) where
  -- The writer behind one entry and behind several.
  abbrev pub add : BundleStreamWriter → BundleEntry → BundleStreamWriter
  add w e = record w {
    writer = w.writer ++ entry_text hash e;
    written = w.written + 1;
    previous = some e.path;
  }

  abbrev pub add_all : BundleStreamWriter → List BundleEntry → BundleStreamWriter
  add_all w [] = w
  add_all w (e ∷ es) = add_all (add w e) es

  complete_entry-with_header :
      (w : BundleStreamWriter) (e : BundleEntry)
      → let v = with_header w e.path (length e.bytes) (hash e.bytes) in
        complete_entry (record v { writer = v.writer ++ e.bytes }) e.path ≡ add w e
  unfolding complete_entry
  complete_entry-with_header w e =
      ap (λ text. record w { writer = text; written = w.written + 1; previous = some e.path })
        (simp append_assoc)

  write_entry_iff :
      (w w' : BundleStreamWriter) (e : BundleEntry)
      → (write_entry hash w e.path e.bytes ≡ ok w')
        ↔ (Writable w.previous e × (w.written ≢ w.declared) × (w' ≡ add w e))
  unfolding write_entry
  write_entry_iff w w' e = (
    λ h.
        let (f, k) = ok_of_then (fail_if (leb u64_limit (length e.bytes)) numeric_range) _ _ h in
        with_ok_of_bind (write_entry_header w e.path (length e.bytes) (hash e.bytes)) _ _ k
          (λ v g l.
            let (safe, room, after, v_is) =
              (write_entry_header_iff w v e.path (length e.bytes) (hash e.bytes)).0 g in
            (
              record { safe = safe; after = after; fits = ground arith },
              room,
              sym (
                    subst
                      (λ u. complete_entry (record u { writer = u.writer ++ e.bytes }) e.path ≡ w')
                      v_is cc)
                  ∙ complete_entry-with_header w e,
            )),
    λ h.
        rw
          (
            h.2,
            ← complete_entry-with_header w e,
            (fail_if_iff (leb u64_limit (length e.bytes)) numeric_range).1
                (ground (arith, h.0.fits)),
            (write_entry_header_iff w (with_header w e.path (length e.bytes) (hash e.bytes)) e.path
                  (length e.bytes) (hash e.bytes)).1
                (h.0.safe, h.1, h.0.after, refl),
          )
          refl,
  )

  pub write_entries_sound :
      (w w' : BundleStreamWriter) (es : List BundleEntry)
      → write_entries hash w es ≡ ok w'
      → AllWritable w.previous es × (w' ≡ add_all w es)
  unfolding write_entries
  write_entries_sound w w' [] h = (tt, cc)
  write_entries_sound w w' (e ∷ es) h =
      with_ok_of_bind (write_entry hash w e.path e.bytes) _ _ h (λ v k l.
        let (a, room, v_is) = (write_entry_iff w v e).0 k in
        let (as', r) = write_entries_sound v w' es l in
        ((a, subst (λ u. AllWritable u.previous es) v_is as'), r ∙ ap (λ u. add_all u es) v_is))

  pub write_entries_complete :
      (w : BundleStreamWriter) (es : List BundleEntry)
      → AllWritable w.previous es
      → w.written + length es ≤ w.declared
      → write_entries hash w es ≡ ok (add_all w es)
  unfolding write_entries
  write_entries_complete w [] a l = refl
  write_entries_complete w (e ∷ es) a l =
      rw ((write_entry_iff w (add w e) e).1 (a.0, λ k. omega arith, refl))
        (write_entries_complete (add w e) es a.1 (omega arith))

  pub add_all-fields :
      (w : BundleStreamWriter) (es : List BundleEntry)
      → ((add_all w es).writer ≡ w.writer ++ entries_text hash es)
        × ((add_all w es).written ≡ w.written + length es)
        × ((add_all w es).declared ≡ w.declared)
  add_all-fields w [] = (sym (append-nil w.writer), omega arith, refl)
  add_all-fields w (e ∷ es) =
      let (t, n, d) = add_all-fields (add w e) es in
      (t ∙ append_assoc w.writer (entry_text hash e) (entries_text hash es), omega (arith, n), d)
