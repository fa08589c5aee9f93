-- ===== src/Extern/F64.antt =====
-- The `f64` of the language, as far as the storage levels use it.
use Prim.Native.Nat.{ℕ}

pub record Doubles : Type 1 where
  pub D : Type 0
  -- `n as f64`, and `x as usize`.
  pub of_usize : ℕ → D
  pub to_usize : D → ℕ
  pub times : D → D → D
  pub over : D → D → D
