-- ===== src/Shared/Ints.antt =====
-- Integers over the native numbers.
use Prim.Native.Nat.{ℕ, zero, suc}

-- `negsuc n` is −(n + 1).
pub data ℤ : Type 0 where
  pos negsuc : ℕ → ℤ

-- −n.
abbrev pub minus : ℕ → ℤ
minus zero = pos 0
minus (suc n) = negsuc n
