-- ===== src/Store/Bundle/Tests.antt =====
-- An archive of two entries, and the properties at it. The hash of the tests is constant.
use rewind_git_for_ai_agent.Prelude.{
  ◌≤◌, ◌<◌, ◌^◌, [], ◌∷◌, ◌++◌, length, ◌≡◌, refl, ◌↔◌, Bool, true, none, All, arith, ok, err,
}
use rewind_git_for_ai_agent.Bytes.{Bytes, cmp, bytes_eq, bytes_lt}
use rewind_git_for_ai_agent.Bytes.Text.{ascii}
use rewind_git_for_ai_agent.Bytes.Words.{to_le}
use rewind_git_for_ai_agent.Bytes.Separator.{contains, starts_with, split}
use rewind_git_for_ai_agent.Bytes.Sorting.{sort_by, HasDistinctKeys}
use rewind_git_for_ai_agent.Store.Bundle.{
  BundleEntry, default_limits, unsafe_path, u32_limit, any_special, validate_archive_path,
  not_after, new, write_entry_header, complete_entry, finish, seen, check_unique, validate_paths,
  entry_path, write_entry, write_entries, encode_bundle, decode_bundle,
}
use rewind_git_for_ai_agent.Store.Bundle.Format.{bundle_text}
use rewind_git_for_ai_agent.Store.Bundle.Decoding.{AllAdmissible}
use rewind_git_for_ai_agent.Store.Bundle.Accepted.{decode_bundle_iff}
use rewind_git_for_ai_agent.Store.Bundle.Written.{IsStorable, encode_bundle_iff}
use rewind_git_for_ai_agent.Store.Bundle.RoundTrip.{
  decode_bundle-encode_bundle, encode_bundle-decode_bundle,
}

abbrev eight : Bytes
eight = 1 ∷ 2 ∷ 3 ∷ 4 ∷ 5 ∷ 6 ∷ 7 ∷ 8 ∷ []

abbrev constant_hash : Bytes → Bytes
constant_hash bytes = eight ++ (eight ++ (eight ++ eight))

abbrev any_text : Bytes → Bool
any_text bytes = true

abbrev script : BundleEntry
script = record { path = ascii "a/run"; bytes = ascii "echo" }

abbrev notes : BundleEntry
notes = record { path = ascii "notes"; bytes = [] }

abbrev archive : Bytes
archive =
    (ascii "RWBN" ++ (1 ∷ 0 ∷ 0 ∷ 0 ∷ 2 ∷ 0 ∷ 0 ∷ 0 ∷ []))
    ++ ((5 ∷ 0 ∷ 0 ∷ 0 ∷ 4 ∷ 0 ∷ 0 ∷ 0 ∷ 0 ∷ 0 ∷ 0 ∷ 0 ∷ [])
        ++ (constant_hash [] ++ ascii "a/runecho"))
    ++ ((5 ∷ 0 ∷ 0 ∷ 0 ∷ 0 ∷ 0 ∷ 0 ∷ 0 ∷ 0 ∷ 0 ∷ 0 ∷ 0 ∷ []) ++ (constant_hash [] ++ ascii "notes"))

encode_bundle-archive : encode_bundle constant_hash (notes ∷ script ∷ []) ≡ ok archive
unfolding encode_bundle validate_paths validate_archive_path any_special contains starts_with split
    check_unique seen sort_by write_entries write_entry write_entry_header complete_entry not_after
    new finish to_le bytes_lt bytes_eq cmp
encode_bundle-archive = refl

encode_bundle_rejects :
    encode_bundle constant_hash (record { path = ascii "../x"; bytes = [] } ∷ [])
    ≡ err (unsafe_path (ascii "../x"))
unfolding encode_bundle validate_paths validate_archive_path any_special contains starts_with split
    bytes_eq cmp
encode_bundle_rejects = refl

encode_bundle_iff_example : (encode_bundle constant_hash (notes ∷ script ∷ []) ≡ ok archive) ↔ (
    All IsStorable (notes ∷ script ∷ [])
    × HasDistinctKeys entry_path (notes ∷ script ∷ [])
    × (length (notes ∷ script ∷ []) < u32_limit)
    × (archive ≡ bundle_text constant_hash (sort_by entry_path (notes ∷ script ∷ []))))
encode_bundle_iff_example = encode_bundle_iff constant_hash (notes ∷ script ∷ []) archive

decode_bundle-encode_bundle_example :
    decode_bundle constant_hash any_text default_limits archive
    ≡ ok (sort_by entry_path (notes ∷ script ∷ []))
decode_bundle-encode_bundle_example =
    decode_bundle-encode_bundle constant_hash any_text default_limits (notes ∷ script ∷ []) archive
      (λ bytes. refl)
      (
        record { text = refl; small = omega arith },
        (record { text = refl; small = omega arith }, tt),
      )
      (omega arith) (omega arith) (omega arith) encode_bundle-archive

decode_bundle_iff_example :
    (decode_bundle constant_hash any_text default_limits archive ≡ ok (script ∷ notes ∷ [])) ↔ (
      (archive ≡ bundle_text constant_hash (script ∷ notes ∷ []))
      × (length (script ∷ notes ∷ []) < 2 ^ 32)
      × (length (script ∷ notes ∷ []) ≤ default_limits.maximum_entries)
      × AllAdmissible constant_hash any_text default_limits 0 none (script ∷ notes ∷ []))
decode_bundle_iff_example =
    decode_bundle_iff constant_hash any_text default_limits archive (script ∷ notes ∷ [])
      (λ bytes. refl) (omega arith)

encode_bundle-decode_bundle_example :
    encode_bundle constant_hash (sort_by entry_path (notes ∷ script ∷ [])) ≡ ok archive
encode_bundle-decode_bundle_example =
    encode_bundle-decode_bundle constant_hash any_text default_limits archive
      (sort_by entry_path (notes ∷ script ∷ [])) (λ bytes. refl) (omega arith)
      decode_bundle-encode_bundle_example
