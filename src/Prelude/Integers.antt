-- ===== src/Prelude/Integers.antt =====
-- Rust's signed integers that the program stores but does not add up.
use Prim.Native.Nat.{ℕ}

-- `pos n` is n, and `negsuc n` is -1 - n.
pub data ℤ : Type 0 where
  pos negsuc : ℕ → ℤ
