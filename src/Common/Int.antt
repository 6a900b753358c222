-- ===== src/Common/Int.antt =====
-- Signed numbers, where a difference of native numbers may fall below 0.
use Prim.Native.Nat.{ℕ, ◌-◌}
use iqlogger.Common.Compare.{leb, if◌then◌else◌}

-- `negsuc n` is -(n + 1).
pub data ℤ : Type 0 where
  pos : ℕ → ℤ
  negsuc : ℕ → ℤ

-- a - b.
unfoldable pub sub_ℕ : ℕ → ℕ → ℤ
sub_ℕ a b = if leb b a then pos (a - b) else negsuc (b - a - 1)
