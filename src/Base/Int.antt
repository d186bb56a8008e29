-- ===== src/Base/Int.antt =====
-- Go's `int` where the code takes one from outside that may be negative.
use Prim.Native.Nat.{ℕ}

-- `negsuc n` is -(n + 1).
pub data ℤ : Type 0 where
  pos : ℕ → ℤ
  negsuc : ℕ → ℤ
