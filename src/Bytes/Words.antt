-- ===== src/Bytes/Words.antt =====
-- `to_le_bytes` and `from_le_bytes` of the unsigned integers: the bytes of a number, lowest first.
use native.Mathlib.Nat.{pow-suc}
use rewind_git_for_ai_agent.Prelude.{
  ℕ, zero, suc, ◌+◌, ◌*◌, ◌/◌, ◌%◌, ◌^◌, ◌≤◌, ◌<◌, [], ◌∷◌, ◌++◌, length, take, drop, ◌≡◌, refl,
  sym, ap, ap₂, ◌∙◌, All, All-take, length-take, take-append-drop, arith,
}
use rewind_git_for_ai_agent.Bytes.{Bytes, IsByte}

-- `v.to_le_bytes()` of an integer of `n` bytes.
unfoldable pub to_le : ℕ → ℕ → Bytes
to_le zero v = []
to_le (suc n) v = (v % 256) ∷ to_le n (v / 256)

unfoldable pub from_le : Bytes → ℕ
from_le [] = 0
from_le (b ∷ bs) = b + 256 * from_le bs

pub length-to_le : (n v : ℕ) → length (to_le n v) ≡ n
unfolding to_le
length-to_le zero v = refl
length-to_le (suc n) v = ap suc (length-to_le n (v / 256))

pub to_le-IsByte : (n v : ℕ) → All IsByte (to_le n v)
unfolding to_le
to_le-IsByte zero v = tt
to_le-IsByte (suc n) v = (omega arith, to_le-IsByte n (v / 256))

pub from_le-to_le : (n v : ℕ) → v < 256 ^ n → from_le (to_le n v) ≡ v
unfolding to_le from_le
from_le-to_le zero v h = omega arith
from_le-to_le (suc n) v h =
    omega (arith, pow-suc 256 n, from_le-to_le n (v / 256) (omega (arith, pow-suc 256 n)))

pub to_le-from_le : (bs : Bytes) → All IsByte bs → to_le (length bs) (from_le bs) ≡ bs
unfolding to_le from_le
to_le-from_le [] h = refl
to_le-from_le (b ∷ bs) h =
    ap₂ (λ x xs. x ∷ xs) (omega (arith, h.0))
      (ap (to_le (length bs)) (omega (arith, h.0)) ∙ to_le-from_le bs h.1)

pub from_le-lt : (bs : Bytes) → All IsByte bs → from_le bs < 256 ^ length bs
unfolding from_le
from_le-lt [] h = omega arith
from_le-lt (b ∷ bs) h = omega (arith, h.0, pow-suc 256 (length bs), from_le-lt bs h.1)

-- A field of `n` bytes in front of the rest.
pub field-rest :
    (n : ℕ) (bs : Bytes)
    → All IsByte bs
    → n ≤ length bs
    → to_le n (from_le (take n bs)) ++ drop n bs ≡ bs
field-rest n bs h long =
    let l : length (take n bs) ≡ n = omega (arith, length-take n bs) in
    ap (λ xs. xs ++ drop n bs)
      (ap (λ k. to_le k (from_le (take n bs))) (sym l)
        ∙ to_le-from_le (take n bs) (All-take IsByte n bs h))
    ∙ take-append-drop n bs
