-- ===== src/Base/Words.antt =====
-- Unsigned machine words: the wrap-around of release builds, and the greatest values.
use Prim.Native.Nat.{ℕ, ◌+◌, ◌*◌, ◌^◌, ◌%◌, ◌-◌}

abbrev pub u64_max : ℕ
u64_max = 2 ^ 64 - 1

unfoldable pub add_u64 : ℕ → ℕ → ℕ
add_u64 a b = (a + b) % 2 ^ 64

unfoldable pub add_u32 : ℕ → ℕ → ℕ
add_u32 a b = (a + b) % 2 ^ 32

unfoldable pub mul_u64 : ℕ → ℕ → ℕ
mul_u64 a b = (a * b) % 2 ^ 64
