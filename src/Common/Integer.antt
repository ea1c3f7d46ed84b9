-- ===== src/Common/Integer.antt =====
-- Python's integers, as far as the models read them: their sign and their size.
use aegis_capstone.Common.{ℕ}

-- `negsuc n` is -(n + 1).
pub data ℤ : Type 0 where
  pos : ℕ → ℤ
  negsuc : ℕ → ℤ
