-- ===== src/SharedTypes/Float/Fixed.antt =====
-- Fixed-point numbers with nine decimals meet the laws of `Float64`: the instance for the tests.
use Prim.Native.Nat.{min}
use native.Mathlib.Nat.{mul-div_cancel_left, le-div_iff_mul-le, div-mul-le_self, le_trans, zero-div}
use linuxpracticelab.Common.{ℕ, ◌+◌, ◌*◌, ◌/◌, ◌^◌, ◌≤◌, ◌<◌, ◌≡◌, arith}
use linuxpracticelab.SharedTypes.Float.{Float64}

abbrev scale : ℕ
scale = 10 ^ 9

pub div-le-div : (a b c : ℕ) → 0 < c → a ≤ b → a / c ≤ b / c
div-le-div a b c p h = (le-div_iff_mul-le p).1 (le_trans (div-mul-le_self a c) h)

pub fixed_div_self : (a : ℕ) → 0 < a → a * scale * scale / (a * scale) ≡ 1 * scale
fixed_div_self a p = mul-div_cancel_left scale p'
  where
    p' : 0 < a * scale
    p' = omega arith

pub fixed_zero_div : (a : ℕ) → 0 * scale * scale / (a * scale) ≡ 0 * scale
fixed_zero_div a = zero-div _

abbrev pub fixed : Float64
fixed = record {
  F = ℕ;
  from_u32 = λ n. n * scale;
  div = λ a b. a * scale / b;
  mul = λ a b. a * b / scale;
  round = λ a. (a + scale / 2) / scale * scale;
  as_u8 = λ a. min 255 (a / scale);
  LeF = λ a b. a ≤ b;
  div_mono = λ a b c p h. div-le-div _ _ _ (omega arith) (omega arith);
  mul_mono = λ x y h. omega arith;
  round_mono = λ x y h. omega arith;
  as_u8_mono = λ x y h. omega arith;
  div_self = λ a p q. fixed_div_self a p;
  zero_div = λ a p q. fixed_zero_div a;
  one_mul = λ n h. omega arith;
  zero_mul = λ n h. omega arith;
  round_integer = λ n h. omega arith;
  as_u8_integer = λ n h. omega arith;
}
