-- ===== src/Prelude/Int.antt =====
-- Signed integers over the native numbers: `int` in upsf/upsf.h, `int32` in the messages.
use Prim.Native.Nat.{ℕ}

-- `negsuc n` is -(n + 1).
pub data ℤ : Type 0 where
  pos : ℕ → ℤ
  negsuc : ℕ → ℤ
