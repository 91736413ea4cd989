-- ===== src/Store/Bundle.antt =====
-- crates/rewind-store/src/bundle.rs: the portable archive of named byte sequences, with a checksum
-- for each. `blake3::hash` is the parameter `hash`, and the validity test of `str::from_utf8` the
-- parameter `is_utf8`. The writer is the `Vec<u8>` of `encode_bundle`, to which writes never fail.
pub mod Format
pub mod Decoding
pub mod Accepted
pub mod Encoding
pub mod Written
pub mod RoundTrip
pub mod Tests
use rewind_git_for_ai_agent.Prelude.{
  ℕ, zero, suc, ◌+◌, ◌-◌, ◌^◌, min, List, [], ◌∷◌, ◌++◌, length, take, drop, slice, Bool, true,
  false, not, ◌||◌, Option, none, some, ltb, leb, ◌==◌, if◌then◌else◌, Result, ok, err, ◌>>=◌, ◌>>◌,
  fail_if,
}
use rewind_git_for_ai_agent.Bytes.{Bytes, bytes_eq, bytes_lt}
use rewind_git_for_ai_agent.Bytes.Sorting.{sort_by}
use rewind_git_for_ai_agent.Bytes.Separator.{contains, starts_with, split}
use rewind_git_for_ai_agent.Bytes.Words.{to_le, from_le}

-- "RWBN"
abbrev pub magic : Bytes
magic = b'R' ∷ b'W' ∷ b'B' ∷ b'N' ∷ []

abbrev pub bundle_version : ℕ
bundle_version = 1

abbrev pub header_bytes : ℕ
header_bytes = 12

abbrev pub entry_header_bytes : ℕ
entry_header_bytes = 44

abbrev pub max_archive_path_bytes : ℕ
max_archive_path_bytes = 4096

abbrev pub u16_limit : ℕ
u16_limit = 2 ^ 16

abbrev pub u32_limit : ℕ
u32_limit = 2 ^ 32

abbrev pub u64_limit : ℕ
u64_limit = 2 ^ 64

pub record BundleEntry : Type 0 where
  pub path : Bytes
  pub bytes : Bytes

pub record BundleDecodeLimits : Type 0 where
  pub maximum_entries : ℕ
  pub maximum_entry_bytes : ℕ
  pub maximum_total_bytes : ℕ

-- `BundleDecodeLimits::default`
abbrev pub default_limits : BundleDecodeLimits
default_limits = record {
  maximum_entries = 1_000_000;
  maximum_entry_bytes = 17_179_869_184;
  maximum_total_bytes = 68_719_476_736;
}

pub data BundleError : Type 0 where
  invalid_magic : BundleError
  unsupported_version : (found supported : ℕ) → BundleError
  unsupported_flags truncated trailing_bytes non_utf8_path : BundleError
  unsafe_path non_canonical_order : Bytes → BundleError
  too_many_entries : (actual maximum : ℕ) → BundleError
  entry_too_large : (path : Bytes) (actual maximum : ℕ) → BundleError
  total_too_large : (maximum : ℕ) → BundleError
  checksum_mismatch : (path : Bytes) → BundleError
  numeric_range : BundleError
  entry_count_mismatch : (declared written : ℕ) → BundleError

-- `.any(|component| component.is_empty() || component == "." || component == "..")`
unfoldable pub any_special : List Bytes → Bool
any_special [] = false
any_special (w ∷ ws) =
    (bytes_eq w [] || bytes_eq w (b'.' ∷ []) || bytes_eq w (b'.' ∷ b'.' ∷ [])) || any_special ws

unfoldable pub validate_archive_path : Bytes → Result (Unit {0}) BundleError
validate_archive_path path =
    fail_if
      (bytes_eq path []
        || ltb max_archive_path_bytes (length path)
        || starts_with b'/' path
        || contains b'\\' path
        || contains 0 path
        || any_special (split b'/' path))
      (unsafe_path path)

-- `previous.is_some_and(|previous| previous >= path)`
unfoldable pub not_after : Option Bytes → Bytes → Bool
not_after none path = false
not_after (some previous) path = not (bytes_lt previous path)

-- `take(bytes, &mut cursor, length)`; the list is `bytes[cursor..]`. An end beyond the `usize` range
-- is an end beyond the input.
unfoldable pub take_bytes : Bytes → ℕ → Result (Bytes × Bytes) BundleError
take_bytes rest n = if leb n (length rest) then ok (take n rest, drop n rest) else err truncated

pub record BundleStreamWriter : Type 0 where
  pub writer : Bytes
  pub declared : ℕ
  pub written : ℕ
  pub previous : Option Bytes

-- `BundleStreamWriter::new`
unfoldable pub new : ℕ → BundleStreamWriter
new entry_count = record {
  writer = magic ++ to_le 2 bundle_version ++ to_le 2 0 ++ to_le 4 entry_count;
  declared = entry_count;
  written = 0;
  previous = none;
}

-- The checks stand before the first write, so that an error leaves the writer as it was.
unfoldable pub write_entry_header :
    BundleStreamWriter → Bytes → ℕ → Bytes → Result BundleStreamWriter BundleError
write_entry_header w path byte_len checksum = do
  validate_archive_path path
  fail_if (w.written == w.declared)
      (entry_count_mismatch w.declared (min (w.written + 1) (u32_limit - 1)))
  fail_if (not_after w.previous path) (non_canonical_order path)
  fail_if (leb u16_limit (length path)) numeric_range
  ok (record w {
    writer = w.writer ++ to_le 2 (length path) ++ to_le 2 0 ++ to_le 8 byte_len ++ checksum ++ path;
  })

unfoldable pub complete_entry : BundleStreamWriter → Bytes → BundleStreamWriter
complete_entry w path = record w { previous = some path; written = w.written + 1 }

-- `BundleStreamWriter::finish`
unfoldable pub finish : BundleStreamWriter → Result Bytes BundleError
finish w =
    if w.written == w.declared then ok w.writer else err (entry_count_mismatch w.declared w.written)

-- The loop over a `BTreeSet` of the paths seen.
unfoldable pub seen : List Bytes → Bytes → Bool
seen [] path = false
seen (p ∷ ps) path = bytes_eq p path || seen ps path

unfoldable pub check_unique : List Bytes → List BundleEntry → Result (Unit {0}) BundleError
check_unique paths [] = ok tt
check_unique paths (e ∷ es) = do
  fail_if (seen paths e.path) (non_canonical_order e.path)
  check_unique (e.path ∷ paths) es

unfoldable pub validate_paths : List BundleEntry → Result (Unit {0}) BundleError
validate_paths [] = ok tt
validate_paths (e ∷ es) = validate_archive_path e.path >> validate_paths es

abbrev pub entry_path : BundleEntry → Bytes
entry_path e = e.path

module _ (hash : Bytes → Bytes) where
  unfoldable pub write_entry :
      BundleStreamWriter → Bytes → Bytes → Result BundleStreamWriter BundleError
  write_entry w path bytes = do
    fail_if (leb u64_limit (length bytes)) numeric_range
    w' ← write_entry_header w path (length bytes) (hash bytes)
    ok (complete_entry (record w' { writer = w'.writer ++ bytes }) path)

  unfoldable pub write_entries :
      BundleStreamWriter → List BundleEntry → Result BundleStreamWriter BundleError
  write_entries w [] = ok w
  write_entries w (e ∷ es) = do w' ← write_entry w e.path e.bytes; write_entries w' es

  unfoldable pub encode_bundle : List BundleEntry → Result Bytes BundleError
  encode_bundle entries = do
    validate_paths entries
    check_unique [] (sort_by entry_path entries)
    fail_if (leb u32_limit (length (sort_by entry_path entries))) numeric_range
    w ← write_entries (new (length (sort_by entry_path entries))) (sort_by entry_path entries)
    finish w

  module _ (is_utf8 : Bytes → Bool) (limits : BundleDecodeLimits) where
    -- The tests on the path and the length of an entry, before its bytes are read.
    unfoldable pub check_entry : ℕ → Option Bytes → Bytes → ℕ → Result (Unit {0}) BundleError
    check_entry total previous path byte_len = do
      fail_if (not (is_utf8 path)) non_utf8_path
      validate_archive_path path
      fail_if (not_after previous path) (non_canonical_order path)
      fail_if (ltb limits.maximum_entry_bytes byte_len)
          (entry_too_large path byte_len limits.maximum_entry_bytes)
      fail_if (leb u64_limit (total + byte_len)) (total_too_large limits.maximum_total_bytes)
      fail_if (ltb limits.maximum_total_bytes (total + byte_len))
          (total_too_large limits.maximum_total_bytes)

    -- The bytes of an entry and their checksum.
    unfoldable pub read_payload :
        Bytes → Bytes → ℕ → Bytes → Result (BundleEntry × ℕ × Bytes) BundleError
    read_payload header path total behind_path = do
      (payload, rest) ← take_bytes behind_path (from_le (slice 4 12 header))
      fail_if (not (bytes_eq (hash payload) (slice 12 44 header))) (checksum_mismatch path)
      ok (record { path = path; bytes = payload }, total + from_le (slice 4 12 header), rest)

    -- One round of the loop: the entry, the total with it, and `bytes[cursor..]` behind it.
    unfoldable pub decode_entry :
        Bytes → ℕ → Option Bytes → Result (BundleEntry × ℕ × Bytes) BundleError
    decode_entry input total previous = do
      (header, behind_header) ← take_bytes input entry_header_bytes
      fail_if (not (from_le (slice 2 4 header) == 0)) unsupported_flags
      (path, behind_path) ← take_bytes behind_header (from_le (slice 0 2 header))
      check_entry total previous path (from_le (slice 4 12 header))
      read_payload header path total behind_path

    -- The loop `for _ in 0..count`: the entries, and `bytes[cursor..]` after the last one.
    unfoldable pub decode_entries :
        ℕ → Bytes → ℕ → Option Bytes → Result (List BundleEntry × Bytes) BundleError
    decode_entries zero input total previous = ok ([], input)
    decode_entries (suc count) input total previous = do
      (entry, total', rest) ← decode_entry input total previous
      (entries, end) ← decode_entries count rest total' (some entry.path)
      ok (entry ∷ entries, end)

    -- The fixed part of the archive, up to the number of entries.
    unfoldable pub decode_bundle_header : Bytes → Result ℕ BundleError
    decode_bundle_header bytes = do
      fail_if (ltb (length bytes) header_bytes) truncated
      fail_if (not (bytes_eq (take 4 bytes) magic)) invalid_magic
      fail_if (not (from_le (slice 4 6 bytes) == bundle_version))
          (unsupported_version (from_le (slice 4 6 bytes)) bundle_version)
      fail_if (not (from_le (slice 6 8 bytes) == 0)) unsupported_flags
      fail_if (ltb limits.maximum_entries (from_le (slice 8 12 bytes)))
          (too_many_entries (from_le (slice 8 12 bytes)) limits.maximum_entries)
      ok (from_le (slice 8 12 bytes))

    unfoldable pub decode_bundle : Bytes → Result (List BundleEntry) BundleError
    decode_bundle bytes = do
      count ← decode_bundle_header bytes
      (entries, end) ← decode_entries count (drop header_bytes bytes) 0 none
      fail_if (not (bytes_eq end [])) trailing_bytes
      ok entries
