-- ===== src/Extern/F32.antt =====
-- The `f32` of the language: its operations, and the facts about zero that the scores rely on.
use Prim.Native.Nat.{ℕ}
use mathlib.Core.Bool.{Bool}
use mathlib.Core.Path.{◌≡◌}

pub record Floats : Type 1 where
  pub F : Type 0
  -- `n as f32`, `x as usize` and a literal in tenths.
  pub of_ℕ : ℕ → F
  pub to_ℕ : F → ℕ
  pub tenths : ℕ → F
  pub add : F → F → F
  pub sub : F → F → F
  pub mul : F → F → F
  pub div : F → F → F
  pub sqrt : F → F
  pub ceil : F → F
  pub lt : F → F → Bool
  pub add-zero : add (tenths 0) (tenths 0) ≡ tenths 0
  pub zero-mul : (n : ℕ) → mul (tenths 0) (tenths n) ≡ tenths 0
  pub to_ℕ-zero : to_ℕ (tenths 0) ≡ 0
