-- ===== src/Base/Float.antt =====
-- IEEE floats, which the language does not have: two types and the operations that the program
-- uses, taken as a parameter. `decimal n k` is the literal n / 10 ^ k.
use Prim.Native.Nat.{ℕ}
use mathlib.Core.Bool.{Bool}

pub record Floats : Type 1 where
  pub F64 : Type 0
  pub F32 : Type 0
  pub decimal : ℕ → ℕ → F64
  pub decimal_f32 : ℕ → ℕ → F32
  -- `as f64`, `as usize` or `as u64` (saturating), and the conversions between the two types
  pub of_int : ℕ → F64
  pub to_int : F64 → ℕ
  pub widen : F32 → F64
  pub narrow : F64 → F32
  pub of_int_f32 : ℕ → F32
  pub add : F64 → F64 → F64
  pub sub : F64 → F64 → F64
  pub mul : F64 → F64 → F64
  pub div : F64 → F64 → F64
  pub max_f64 : F64 → F64 → F64
  pub sqrt : F64 → F64
  pub div_f32 : F32 → F32 → F32
  pub le_f64 : F64 → F64 → Bool
  pub lt_f32 : F32 → F32 → Bool
  pub le_f32 : F32 → F32 → Bool
