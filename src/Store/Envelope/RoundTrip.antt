-- ===== src/Store/Envelope/RoundTrip.antt =====
-- About `encode` and `decode` of crates/rewind-store/src/object.rs together.
use rewind_git_for_ai_agent.Prelude.{
  ℕ, ◌+◌, ◌<◌, [], ◌∷◌, ◌++◌, length, take, drop, ◌≡◌, refl, sym, ap, ◌∙◌, All, All-take, ok, arith,
  take_all, first_four, ap₂, ◌↔◌, take-append_exact, drop-append_exact, take-append-drop,
  length-append,
}
use rewind_git_for_ai_agent.Bytes.{Bytes, IsByte}
use rewind_git_for_ai_agent.Bytes.Compare.{bytes_eq_iff}
use rewind_git_for_ai_agent.Bytes.Words.{to_le, from_le, length-to_le, from_le-to_le, to_le-from_le}
use rewind_git_for_ai_agent.Store.Envelope.{
  magic, version, header_len, compression_none, usize_limit, decode_header, decode, encode,
}

unfoldable pub header_of : ℕ → Bytes
header_of n = magic ++ (version ∷ compression_none ∷ 0 ∷ 0 ∷ to_le 8 n)

pub length-header_of : (n : ℕ) → length (header_of n) ≡ 16
unfolding header_of
length-header_of n = omega (arith, length-to_le 8 n)

pub decode_header-header_of : (n : ℕ) → n < usize_limit → decode_header (header_of n) ≡ ok n
unfolding decode_header header_of
decode_header-header_of n h = ground (
  arith,
  length-to_le 8 n,
  bytes_eq_iff magic magic,
  bytes_eq_iff (0 ∷ 0 ∷ []) (0 ∷ 0 ∷ []),
  ap from_le (take_all 8 (to_le 8 n) (length-to_le 8 n)),
  from_le-to_le 8 n,
)

pub encode-eq-ok :
    (bytes envelope : Bytes)
    → (encode bytes ≡ ok envelope)
      ↔ ((header_len + length bytes < usize_limit) × (envelope ≡ header_of (length bytes) ++ bytes))
unfolding encode header_of
encode-eq-ok bytes envelope = ground arith

take_four : (n : ℕ) (bytes : Bytes) → take 4 (header_of n ++ bytes) ≡ magic
unfolding header_of
take_four n bytes = refl

decode-header_of :
    (bytes : Bytes)
    → length bytes < usize_limit
    → decode (header_of (length bytes) ++ bytes) ≡ ok bytes
unfolding decode
decode-header_of bytes h = ground (
  arith,
  length-append (header_of n) bytes,
  length-header_of n,
  take-append_exact 16 (header_of n) bytes (length-header_of n),
  drop-append_exact 16 (header_of n) bytes (length-header_of n),
  take_four n bytes,
  bytes_eq_iff magic magic,
  decode_header-header_of n h,
)
  where
    n : ℕ
    n = length bytes

-- What `encode` makes of an object, `decode` reads back: the object itself.
pub decode-encode :
    (bytes envelope : Bytes) → encode bytes ≡ ok envelope → decode envelope ≡ ok bytes
decode-encode bytes envelope h =
    let (fits, e) = (encode-eq-ok bytes envelope).0 h in rw e (decode-header_of bytes (omega arith))

decode-eq-ok :
    (envelope bytes : Bytes)
    → decode envelope ≡ ok bytes
    → (decode_header (take header_len envelope) ≡ ok (length bytes))
      × (bytes ≡ drop header_len envelope)
unfolding decode
decode-eq-ok envelope bytes h = ground arith

decode_header_fields :
    (m o p q v k r s n : ℕ) (ys : Bytes)
    → length ys ≡ 8
    → All IsByte ys
    → decode_header (m ∷ o ∷ p ∷ q ∷ v ∷ k ∷ r ∷ s ∷ ys) ≡ ok n
    → m ∷ o ∷ p ∷ q ∷ v ∷ k ∷ r ∷ s ∷ ys ≡ header_of n
unfolding decode_header header_of
decode_header_fields m o p q v k r s n ys full b h = ground (
  arith,
  bytes_eq_iff (m ∷ o ∷ p ∷ q ∷ []) magic,
  bytes_eq_iff (r ∷ s ∷ []) (0 ∷ 0 ∷ []),
  ap from_le (take_all 8 ys full),
  rw full at (to_le-from_le ys b),
)

decode_header-length :
    (header : Bytes) (n : ℕ) → decode_header header ≡ ok n → length header ≡ header_len
unfolding decode_header
decode_header-length header n h = ground arith

decode_header-header :
    (header : Bytes) (n : ℕ)
    → All IsByte header
    → decode_header header ≡ ok n
    → header ≡ header_of n
decode_header-header header n b h =
    let full = decode_header-length header n h in
    let (m, o, p, q, xs, e, lx) = first_four 12 header full in
    let (v, k, r, s, ys, f, ly) = first_four 8 xs lx in
    let whole = e ∙ ap (λ zs. m ∷ o ∷ p ∷ q ∷ zs) f in
    whole
    ∙ decode_header_fields m o p q v k r s n ys ly (rw whole at b).1.1.1.1.1.1.1.1 (rw whole at h)

-- Nothing else decodes: an envelope that `decode` accepts is the one that `encode` makes of what was
-- read, where the envelope consists of bytes and fits into memory.
pub encode-decode :
    (envelope bytes : Bytes)
    → All IsByte envelope
    → length envelope < usize_limit
    → decode envelope ≡ ok bytes
    → encode bytes ≡ ok envelope
encode-decode envelope bytes b fits h =
    let (good, e) = decode-eq-ok envelope bytes h in
    let head =
      decode_header-header (take header_len envelope) (length bytes) (All-take IsByte 16 envelope b)
        good in
    let whole = sym (take-append-drop header_len envelope) ∙ ap₂ (λ x y. x ++ y) head (sym e) in
    (encode-eq-ok bytes envelope).1 (
      omega (
        arith,
        ap length whole,
        length-append (header_of (length bytes)) bytes,
        length-header_of (length bytes),
      ),
      whole,
    )
