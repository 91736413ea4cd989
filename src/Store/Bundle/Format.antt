-- ===== src/Store/Bundle/Format.antt =====
-- The text of an archive as the format has it: the bytes of one entry and of a whole bundle.
use rewind_git_for_ai_agent.Prelude.{
  ℕ, ◌<◌, ◌≤◌, List, [], ◌∷◌, ◌++◌, length, take, drop, slice, ◌≡◌, sym, ap, ap₂, ◌∙◌, All,
  All-drop, append_assoc, arith, Result, ok, ◌>>=◌, ok_of_bind, length-append, length-drop,
  length-take, take-append-drop, take-append_exact, ◌^◌, drop-append_exact, drop-drop, take_all,
}
use rewind_git_for_ai_agent.Bytes.{Bytes, IsByte}
use rewind_git_for_ai_agent.Bytes.Words.{to_le, from_le, from_le-to_le, field-rest}
use rewind_git_for_ai_agent.Store.Bundle.{
  BundleEntry, BundleError, magic, bundle_version, header_bytes, entry_header_bytes, take_bytes,
}

-- The fixed part of an entry: the length of the path, flags, the length of the bytes, the checksum.
abbrev pub entry_header : ℕ → ℕ → Bytes → Bytes
entry_header path_len byte_len checksum =
    to_le 2 path_len ++ to_le 2 0 ++ to_le 8 byte_len ++ checksum

abbrev pub bundle_header : ℕ → Bytes
bundle_header count = magic ++ to_le 2 bundle_version ++ to_le 2 0 ++ to_le 4 count

module _ (hash : Bytes → Bytes) where
  abbrev pub entry_text : BundleEntry → Bytes
  entry_text e = entry_header (length e.path) (length e.bytes) (hash e.bytes) ++ e.path ++ e.bytes

  abbrev pub entries_text : List BundleEntry → Bytes
  entries_text [] = []
  entries_text (e ∷ es) = entry_text e ++ entries_text es

  abbrev pub bundle_text : List BundleEntry → Bytes
  bundle_text entries = bundle_header (length entries) ++ entries_text entries

pub entry_text-rest :
    (hash : Bytes → Bytes) (e : BundleEntry) (rest : Bytes)
    → entry_text hash e ++ rest
      ≡ entry_header (length e.path) (length e.bytes) (hash e.bytes)
        ++ (e.path ++ (e.bytes ++ rest))
entry_text-rest hash e rest = simp append_assoc

pub take_bytes-append :
    (xs ys : Bytes) (n : ℕ) → length xs ≡ n → take_bytes (xs ++ ys) n ≡ ok (xs, ys)
unfolding take_bytes
take_bytes-append xs ys n h =
    ground (arith, length-append xs ys, take-append_exact n xs ys h, drop-append_exact n xs ys h)

pub take_bytes-eq-ok :
    (input : Bytes) (n : ℕ) (xs ys : Bytes)
    → take_bytes input n ≡ ok (xs, ys)
    → (input ≡ xs ++ ys) × (length xs ≡ n) × (ys ≡ drop n input)
unfolding take_bytes
take_bytes-eq-ok input n xs ys h = ground (arith, take-append-drop n input, length-take n input)

-- A chain that begins by taking `n` bytes and succeeds has found them.
pub take_bytes_then {ℓ κ} :
    {A : Type ℓ} {Goal : Type κ} (input : Bytes) (n : ℕ)
    (next : Bytes × Bytes → Result A BundleError) (a : A)
    → (take_bytes input n >>= next) ≡ ok a
    → ((xs ys : Bytes) → input ≡ xs ++ ys → length xs ≡ n → next (xs, ys) ≡ ok a → Goal)
    → Goal
take_bytes_then input n next a h use_parts =
    let (parts, t, k) = ok_of_bind (take_bytes input n) next a h in
    let (e, l, _) = take_bytes-eq-ok input n parts.0 parts.1 t in use_parts parts.0 parts.1 e l k

-- The fields of a header are where the reader looks for them.
pub entry_header-fields :
    (path_len byte_len : ℕ) (checksum : Bytes)
    → path_len < 2 ^ 16
    → byte_len < 2 ^ 64
    → length checksum ≡ 32
    → (from_le (slice 0 2 (entry_header path_len byte_len checksum)) ≡ path_len)
      × (from_le (slice 2 4 (entry_header path_len byte_len checksum)) ≡ 0)
      × (from_le (slice 4 12 (entry_header path_len byte_len checksum)) ≡ byte_len)
      × (slice 12 44 (entry_header path_len byte_len checksum) ≡ checksum)
unfolding to_le
entry_header-fields path_len byte_len checksum p b c = (
  from_le-to_le 2 path_len p,
  from_le-to_le 2 0 (omega arith),
  from_le-to_le 8 byte_len b,
  take_all 32 checksum c,
)

pub length-entry_header :
    (p b : ℕ) (checksum : Bytes)
    → length checksum ≡ 32
    → length (entry_header p b checksum) ≡ entry_header_bytes
unfolding to_le
length-entry_header p b checksum c = omega (arith, c)

-- A header of the right length is made of its fields.
pub entry_header-slices :
    (header : Bytes)
    → All IsByte header
    → length header ≡ entry_header_bytes
    → from_le (slice 2 4 header) ≡ 0
    → entry_header (from_le (slice 0 2 header)) (from_le (slice 4 12 header)) (slice 12 44 header)
      ≡ header
unfolding to_le
entry_header-slices header b l z =
    ap (λ xs. to_le 2 (from_le (take 2 header)) ++ xs)
      (ap₂ (λ flags xs. to_le 2 flags ++ xs) (sym z)
          (ap (λ xs. to_le 8 (from_le (take 8 (drop 4 header))) ++ xs)
              (take_all 32 (drop 12 header) (omega (arith, length-drop 12 header))
                ∙ sym (drop-drop 8 4 header))
            ∙ field-rest 8 (drop 4 header) (All-drop IsByte 4 header b)
                (omega (arith, length-drop 4 header))
            ∙ sym (drop-drop 2 2 header))
        ∙ field-rest 2 (drop 2 header) (All-drop IsByte 2 header b)
            (omega (arith, length-drop 2 header)))
    ∙ field-rest 2 header b (omega arith)

pub bundle_header-slices :
    (input : Bytes)
    → All IsByte input
    → header_bytes ≤ length input
    → take 4 input ≡ magic
    → from_le (slice 4 6 input) ≡ bundle_version
    → from_le (slice 6 8 input) ≡ 0
    → bundle_header (from_le (slice 8 12 input)) ++ drop header_bytes input ≡ input
unfolding to_le
bundle_header-slices input b l m v z =
    ap₂ (λ xs ys. xs ++ ys) (sym m)
      (ap₂ (λ k xs. to_le 2 k ++ xs) (sym v)
          (ap₂ (λ k xs. to_le 2 k ++ xs) (sym z)
              (ap (λ xs. to_le 4 (from_le (take 4 (drop 8 input))) ++ xs)
                  (sym (drop-drop 4 8 input))
                ∙ field-rest 4 (drop 8 input) (All-drop IsByte 8 input b)
                    (omega (arith, length-drop 8 input))
                ∙ sym (drop-drop 2 6 input))
            ∙ field-rest 2 (drop 6 input) (All-drop IsByte 6 input b)
                (omega (arith, length-drop 6 input))
            ∙ sym (drop-drop 2 4 input))
        ∙ field-rest 2 (drop 4 input) (All-drop IsByte 4 input b)
            (omega (arith, length-drop 4 input)))
    ∙ take-append-drop 4 input
