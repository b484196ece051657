-- ===== src/Base/CharTables.antt =====
-- The Unicode tables behind `char::is_alphanumeric`, `char::is_alphabetic` and
-- `char::to_uppercase`, taken as a parameter.
use Prim.Native.Nat.{ℕ}
use mathlib.Core.Bool.{Bool}
use sitewalk.Base.Text.{Text}

pub record CharTables : Type 0 where
  pub is_alphanumeric : ℕ → Bool
  pub is_alphabetic : ℕ → Bool
  pub to_uppercase : ℕ → Text
