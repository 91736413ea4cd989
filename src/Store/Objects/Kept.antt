-- ===== src/Store/Objects/Kept.antt =====
-- About `put_object`, `import_object` and `load_object` of crates/rewind-store/src/lib.rs.
use rewind_git_for_ai_agent.Prelude.{
  ℕ, ◌+◌, ◌≤◌, List, [], ◌∷◌, ◌++◌, length, take, drop, ◌≡◌, refl, sym, ap, ◌∙◌, Option, none, some,
  not, Option-cases, inl, inr, arith, ok, ok_of_then, with_ok_of_bind, fail_if, map_err,
  length-append, length-drop, take-append_exact, drop-append_exact,
}
use rewind_git_for_ai_agent.Bytes.{Bytes, bytes_eq}
use rewind_git_for_ai_agent.Bytes.Compare.{bytes_eq_iff}
use rewind_git_for_ai_agent.Domain.Digest.{ObjectId}
use rewind_git_for_ai_agent.Domain.Ids.{Timestamp}
use rewind_git_for_ai_agent.Store.Envelope.{header_len, decode_header, encode}
use rewind_git_for_ai_agent.Store.Envelope.RoundTrip.{
  header_of, length-header_of, decode_header-header_of, encode-eq-ok,
}
use rewind_git_for_ai_agent.Store.Timeline.{
  Database, sql_u64, ObjectFile, Store, read_only, object_digest_mismatch, object_collision,
  envelope_invalid,
}
use rewind_git_for_ai_agent.Store.Objects.{
  StoredObject, check_recorded, find_file, record_object, Installed, Put, read_envelope, read_file,
  put_file, put_verified, import_object, load_object,
}

find_file_kept :
    (id : ObjectId) (files more : List ObjectFile) (envelope : Bytes)
    → find_file id files ≡ some envelope
    → find_file id (files ++ more) ≡ some envelope
unfolding find_file
find_file_kept id [] more envelope h = cc h
find_file_kept id (file ∷ files) more envelope h =
    ground (arith, find_file_kept id files more envelope)

find_file_last :
    (id : ObjectId) (files : List ObjectFile) (envelope : Bytes)
    → find_file id files ≡ none
    → find_file id (files ++ (record { id = id; envelope = envelope } ∷ [])) ≡ some envelope
unfolding find_file
find_file_last id [] envelope h = rw ((bytes_eq_iff id.bytes id.bytes).1 refl) refl
find_file_last id (file ∷ files) envelope h = ground (arith, find_file_last id files envelope)

record_object-events :
    (db db' : Database) (object : StoredObject) (created : Timestamp)
    → record_object db object created ≡ ok db'
    → db'.events ≡ db.events
unfolding record_object
record_object-events db db' object created h =
    with_ok_of_bind (sql_u64 object.logical_size) _ _ h (λ logical a k.
      with_ok_of_bind (sql_u64 object.stored_size) _ _ k
        (λ size b l. let (_, m) = ok_of_then (check_recorded _ logical size) _ _ l in sym (cc m)))

module _ (digest : Bytes → ObjectId) where
  -- A file that is read within one budget is read within every budget that its payload fits.
  read_envelope_larger :
      (id : ObjectId) (maximum larger : ℕ) (envelope bytes : Bytes)
      → read_envelope digest id maximum envelope ≡ ok bytes
      → length bytes ≤ larger
      → read_envelope digest id larger envelope ≡ ok bytes
  unfolding read_envelope
  read_envelope_larger id maximum larger envelope bytes h le =
      ground (arith, length-drop header_len envelope)

  read_envelope-encode :
      (id : ObjectId) (maximum : ℕ) (bytes envelope : Bytes)
      → encode bytes ≡ ok envelope
      → (digest bytes).bytes ≡ id.bytes
      → length bytes ≤ maximum
      → read_envelope digest id maximum envelope ≡ ok bytes
  unfolding read_envelope
  read_envelope-encode id maximum bytes envelope h same le =
      let (fits, e) = (encode-eq-ok bytes envelope).0 h in
      let n = length bytes in
      let d = drop-append_exact 16 (header_of n) bytes (length-header_of n) in
      let t = take-append_exact 16 (header_of n) bytes (length-header_of n) in
      let size : length envelope ≡ 16 + n =
        omega (arith, ap length e, length-append (header_of n) bytes, length-header_of n) in
      let dropped : drop 16 envelope ≡ bytes = ap (drop 16) e ∙ d in
      let header : decode_header (take 16 envelope) ≡ ok n =
        ap (λ b. decode_header (take 16 b)) e
        ∙ ap decode_header t
        ∙ decode_header-header_of n (omega arith) in
      ground (arith, bytes_eq_iff (digest bytes).bytes id.bytes)

  missing :
      (other : ObjectId) (maximum : ℕ) (old : Bytes)
      → read_file digest other maximum none ≡ ok old
      → ⊥
  unfolding read_file
  missing other maximum old h = cc

  put_file_lem :
      (found : Option Bytes) (files : List ObjectFile) (id : ObjectId) (bytes : Bytes)
      (installed : Installed)
      → find_file id files ≡ found
      → (digest bytes).bytes ≡ id.bytes
      → put_file digest found files id bytes ≡ ok installed
      → (installed.object.id ≡ id)
        × (installed.object.logical_size ≡ length bytes)
        × ((other : ObjectId) (envelope : Bytes)
            → find_file other files ≡ some envelope
            → find_file other installed.files ≡ some envelope)
        × ((maximum : ℕ)
            → length bytes ≤ maximum
            → read_file digest id maximum (find_file id installed.files) ≡ ok bytes)
  unfolding put_file read_file
  put_file_lem (some envelope) files id bytes installed f same h =
      with_ok_of_bind (read_envelope digest id (length bytes) envelope) _ _ h (λ found r k.
        let (c, l) = ok_of_then (fail_if (not (bytes_eq found bytes)) object_collision) _ _ k in
        let e : found ≡ bytes = (bytes_eq_iff found bytes).0 (ground arith) in
        let size : installed.object.logical_size ≡ length found = sym (ground arith) in
        let file : installed.files ≡ files = sym (ground arith) in
        (
          sym (ground arith),
          size ∙ ap length e,
          λ other other_envelope there. rw file there,
          λ maximum le.
              rw (file, f, read_file)
                (read_envelope_larger id (length bytes) maximum envelope bytes (r ∙ ap ok e) le),
        ))
  put_file_lem none files id bytes installed f same h =
      with_ok_of_bind (map_err envelope_invalid (encode bytes)) _ _ h (λ envelope m k.
        let encoded : encode bytes ≡ ok envelope = ground arith in
        let file : installed.files ≡ files ++ (record { id = id; envelope = envelope } ∷ []) =
          sym (ground arith) in
        (
          sym (ground arith),
          sym (ground arith),
          λ other other_envelope there. rw file (find_file_kept other files _ other_envelope there),
          λ maximum le.
              rw (file, find_file_last id files envelope f, read_file)
                (read_envelope-encode id maximum bytes envelope encoded same le),
        ))

  import_object-eq-ok :
      (store : Store) (expected : ObjectId) (bytes : Bytes) (created : Timestamp) (put : Put)
      → import_object digest store expected bytes created ≡ ok put
      → ((digest bytes).bytes ≡ expected.bytes)
        × (installed : Installed) × (put_file digest
              (find_file expected store.files)
              store.files
              expected
              bytes
            ≡ ok installed)
        × (put.object ≡ installed.object)
        × (put.store.files ≡ installed.files)
  unfolding import_object put_verified
  import_object-eq-ok store expected bytes created put h =
      let (_, k) = ok_of_then (fail_if (not store.is_writer) read_only) _ _ h in
      with_ok_of_bind (put_verified digest store.files expected bytes) _ _ k (λ installed p l.
        let (d, q) =
          ok_of_then
            (fail_if (not (bytes_eq (digest bytes).bytes expected.bytes)) object_digest_mismatch) _
            _ p in
        with_ok_of_bind (record_object store.tables installed.object created) _ _ l (λ tables r m. (
          (bytes_eq_iff (digest bytes).bytes expected.bytes).0 (ground arith),
          installed,
          q,
          sym (cc m),
          sym (cc m),
        )))

  -- The events of the store stay as they are.
  pub import_object-events :
      (store : Store) (expected : ObjectId) (bytes : Bytes) (created : Timestamp) (put : Put)
      → import_object digest store expected bytes created ≡ ok put
      → put.store.tables.events ≡ store.tables.events
  unfolding import_object
  import_object-events store expected bytes created put h =
      let (_, k) = ok_of_then (fail_if (not store.is_writer) read_only) _ _ h in
      with_ok_of_bind (put_verified digest store.files expected bytes) _ _ k (λ installed p l.
        with_ok_of_bind (record_object store.tables installed.object created) _ _ l (λ tables r m.
          sym (cc m) ∙ record_object-events store.tables tables installed.object created r))

  -- An object that has been put or imported is loaded with exactly its bytes, within every budget that
  -- they fit, and every object that could be loaded before is loaded with the same bytes.
  pub load_object-import_object :
      (store : Store) (expected : ObjectId) (bytes : Bytes) (created : Timestamp) (put : Put)
      → import_object digest store expected bytes created ≡ ok put
      → (put.object.id ≡ expected)
        × (put.object.logical_size ≡ length bytes)
        × ((maximum : ℕ)
            → length bytes ≤ maximum
            → load_object digest put.store expected maximum ≡ ok bytes)
        × ((other : ObjectId) (maximum : ℕ) (old : Bytes)
            → load_object digest store other maximum ≡ ok old
            → load_object digest put.store other maximum ≡ ok old)
  unfolding load_object
  load_object-import_object store expected bytes created put h =
      let (same, installed, p, o, f) = import_object-eq-ok store expected bytes created put h in
      let (id, size, kept, there) =
        put_file_lem (find_file expected store.files) store.files expected bytes installed refl same
          p in
      (
        rw o id,
        rw o size,
        λ maximum le. rw f (there maximum le),
        λ other maximum old l. rw f (still_read other maximum old installed.files (kept other) l),
      )
    where
      still_read :
          (other : ObjectId) (maximum : ℕ) (old : Bytes) (files : List ObjectFile)
          → ((envelope : Bytes)
              → find_file other store.files ≡ some envelope
              → find_file other files ≡ some envelope)
          → read_file digest other maximum (find_file other store.files) ≡ ok old
          → read_file digest other maximum (find_file other files) ≡ ok old
      still_read other maximum old files kept l =
          elim (Option-cases (find_file other store.files)) [
            | inl absent ↦ absurd (missing other maximum old (rw absent at l))
            | inr (envelope, there) ↦ rw (kept envelope there) (rw there at l)
          ]
