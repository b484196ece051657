-- ===== src/Examples.antt =====
-- Inputs at which the theorems apply, one file for each part of the program, and the values that
-- they share. The floats of these inputs are natural numbers.
mod Speech
mod Facts
mod Walks
mod Prices
mod Papers
mod Estimates
mod Reflections
use sitewalk.Base.{ℕ, ◌+◌, ◌-◌, ◌*◌, ◌/◌, ◌^◌, max, ltb, leb}
use sitewalk.Base.Float.{Floats}

abbrev pub whole : Floats
whole = record {
  F64 = ℕ;
  F32 = ℕ;
  decimal = λ n k. n / 10 ^ k;
  decimal_f32 = λ n k. n / 10 ^ k;
  of_int = λ n. n;
  to_int = λ x. x;
  widen = λ x. x;
  narrow = λ x. x;
  of_int_f32 = λ n. n;
  add = λ x y. x + y;
  sub = λ x y. x - y;
  mul = λ x y. x * y;
  div = λ x y. x / y;
  max_f64 = max;
  sqrt = λ x. x;
  div_f32 = λ x y. x / y;
  le_f64 = leb;
  lt_f32 = ltb;
  le_f32 = leb;
}
