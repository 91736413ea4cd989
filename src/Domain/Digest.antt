-- ===== src/Domain/Digest.antt =====
-- crates/rewind-domain/src/id.rs: `SnapshotId` and `ObjectId`, the 32 bytes of a BLAKE3 digest, and
-- their text of 64 hexadecimal digits.
use Prim.Native.Nat.{bit_or}
use rewind_git_for_ai_agent.Prelude.{
  ℕ, ◌+◌, ◌-◌, ◌*◌, ◌/◌, ◌%◌, [], ◌∷◌, length, ◌≡◌, ◌&&◌, Option, none, some, All, ltb, leb, ◌==◌,
  not, if◌then◌else◌, Result, ok, err, ◌>>=◌, ◌>>◌, fail_if,
}
use rewind_git_for_ai_agent.Bytes.{Bytes, IsByte}

pub record ObjectId : Type 0 where
  pub bytes : Bytes

pub record SnapshotId : Type 0 where
  pub bytes : Bytes

-- A value of the type `[u8; 32]`.
pub record IsDigest (bytes : Bytes) : Type 0 where
  pub size : length bytes ≡ 32
  pub all_bytes : All IsByte bytes

pub data DigestIdParseError : Type 0 where
  invalid_length : (actual : ℕ) → DigestIdParseError
  invalid_character : (index : ℕ) → DigestIdParseError

unfoldable pub hex_nibble : ℕ → Option ℕ
hex_nibble byte =
    if leb b'0' byte && leb byte b'9'
    then some (byte - b'0')
    else if leb b'a' byte && leb byte b'f'
    then some (byte - b'a' + 10)
    else none

-- `hex_nibble(…).ok_or(InvalidCharacter { index })`
unfoldable pub nibble_at : ℕ → ℕ → Result ℕ DigestIdParseError
nibble_at index byte = elim (hex_nibble byte) [
  | none ↦ err (invalid_character index)
  | some n ↦ ok n
]

-- The loop over `chunks_exact(2)`: `index` counts the pairs, and a last odd byte is left out.
unfoldable pub parse_pairs : ℕ → Bytes → Result Bytes DigestIdParseError
unfolding nibble_at
parse_pairs index [] = ok []
parse_pairs index (a ∷ []) = ok []
parse_pairs index (a ∷ b ∷ rest) = do
  high ← nibble_at (index * 2) a
  low ← nibble_at (index * 2 + 1) b
  bytes ← parse_pairs (index + 1) rest
  ok (bit_or (high * 16 % 256) low ∷ bytes)

unfoldable pub parse_digest : Bytes → Result Bytes DigestIdParseError
parse_digest input = do
  fail_if (not (length input == 64)) (invalid_length (length input))
  parse_pairs 0 input

-- One digit of `{byte:02x}`.
unfoldable pub hex_digit : ℕ → ℕ
hex_digit n = if ltb n 10 then b'0' + n else b'a' + (n - 10)

unfoldable pub display_digest : Bytes → Bytes
unfolding hex_digit
display_digest [] = []
display_digest (byte ∷ bytes) = hex_digit (byte / 16) ∷ hex_digit (byte % 16) ∷ display_digest bytes
