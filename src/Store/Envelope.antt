-- ===== src/Store/Envelope.antt =====
-- `encode`, `decode` and `decode_header` of crates/rewind-store/src/object.rs: the envelope in which
-- an object's bytes stand on disk. `usize` is taken to have 64 bits.
pub mod RoundTrip
use rewind_git_for_ai_agent.Prelude.{
  ℕ, ◌+◌, ◌^◌, List, [], ◌∷◌, ◌++◌, length, get_or, take, drop, slice, Bool, not, ◌||◌, ltb, leb,
  ◌==◌, Result, ok, err, ◌>>=◌, ◌>>◌, fail_if,
}
use rewind_git_for_ai_agent.Bytes.{Bytes, bytes_eq}
use rewind_git_for_ai_agent.Bytes.Words.{to_le, from_le}

-- "RWOB"
abbrev pub magic : Bytes
magic = b'R' ∷ b'W' ∷ b'O' ∷ b'B' ∷ []

abbrev pub version : ℕ
version = 1

abbrev pub header_len : ℕ
header_len = 16

abbrev pub compression_none : ℕ
compression_none = 0

-- The text of `MalformedObjectEnvelope`.
pub data Defect : Type 0 where
  invalid_magic_or_truncated_header length_does_not_match_payload reserved_bytes_nonzero
        missing_logical_length length_does_not_match_stored_size :
      Defect

-- The errors of `StoreError` that reading and writing an envelope raise.
pub data EnvelopeError : Type 0 where
  malformed : Defect → EnvelopeError
  unsupported_version unsupported_compression : ℕ → EnvelopeError
  object_too_large : EnvelopeError

abbrev pub usize_limit : ℕ
usize_limit = 2 ^ 64

unfoldable pub decode_header : Bytes → Result ℕ EnvelopeError
decode_header header = do
  fail_if (not (length header == header_len) || not (bytes_eq (take 4 header) magic))
      (malformed invalid_magic_or_truncated_header)
  fail_if (not (get_or header 4 0 == version)) (unsupported_version (get_or header 4 0))
  fail_if (not (get_or header 5 0 == compression_none))
      (unsupported_compression (get_or header 5 0))
  fail_if (not (bytes_eq (slice 6 8 header) (0 ∷ 0 ∷ []))) (malformed reserved_bytes_nonzero)
  ok (from_le (slice 8 16 header))

unfoldable pub decode : Bytes → Result Bytes EnvelopeError
decode envelope = do
  fail_if (ltb (length envelope) header_len || not (bytes_eq (take 4 envelope) magic))
      (malformed invalid_magic_or_truncated_header)
  logical_len ← decode_header (take header_len envelope)
  fail_if (not (length (drop header_len envelope) == logical_len))
      (malformed length_does_not_match_payload)
  ok (drop header_len envelope)

-- The length of a slice is a `usize`, so that it fits the `u64`; `HEADER_LEN + len` may not.
unfoldable pub encode : Bytes → Result Bytes EnvelopeError
encode bytes = do
  fail_if (leb usize_limit (length bytes)) object_too_large
  fail_if (leb usize_limit (header_len + length bytes)) object_too_large
  ok (magic ++ (version ∷ compression_none ∷ 0 ∷ 0 ∷ to_le 8 (length bytes)) ++ bytes)
