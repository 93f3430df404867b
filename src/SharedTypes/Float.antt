-- ===== src/SharedTypes/Float.antt =====
-- The `f64` arithmetic behind the two percentages, `(a as f64 / b as f64 * 100.0).round() as u8`.
-- The operations are the hardware's, so they are a parameter. The laws are IEEE 754's: integers
-- below 2 ^ 32 are exact, and each operation is correctly rounded, hence monotone.
pub mod Fixed
use linuxpracticelab.Common.{ℕ, ◌^◌, ◌≤◌, ◌<◌, ◌≡◌, arith}

pub record Float64 : Type 1 where
  pub F : Type 0
  pub from_u32 : ℕ → F
  pub div : F → F → F
  pub mul : F → F → F
  pub round : F → F
  -- `as u8` saturates.
  pub as_u8 : F → ℕ
  pub LeF : F → F → Type 0
  pub div_mono :
      (a b c : ℕ)
      → 0 < c
      → a ≤ b
      → LeF (div (from_u32 a) (from_u32 c)) (div (from_u32 b) (from_u32 c))
  pub mul_mono : (x y : F) → LeF x y → LeF (mul x (from_u32 100)) (mul y (from_u32 100))
  pub round_mono : (x y : F) → LeF x y → LeF (round x) (round y)
  pub as_u8_mono : (x y : F) → LeF x y → as_u8 x ≤ as_u8 y
  pub div_self : (a : ℕ) → 0 < a → a < 2 ^ 32 → div (from_u32 a) (from_u32 a) ≡ from_u32 1
  pub zero_div : (a : ℕ) → 0 < a → a < 2 ^ 32 → div (from_u32 0) (from_u32 a) ≡ from_u32 0
  pub one_mul : (n : ℕ) → n < 2 ^ 32 → mul (from_u32 1) (from_u32 n) ≡ from_u32 n
  pub zero_mul : (n : ℕ) → n < 2 ^ 32 → mul (from_u32 0) (from_u32 n) ≡ from_u32 0
  pub round_integer : (n : ℕ) → n < 2 ^ 32 → round (from_u32 n) ≡ from_u32 n
  pub as_u8_integer : (n : ℕ) → n < 256 → as_u8 (from_u32 n) ≡ n

-- `((a as f64 / b as f64) * 100.0).round() as u8`
unfoldable pub percent_of : Float64 → ℕ → ℕ → ℕ
percent_of fl a b =
    fl.as_u8 (fl.round (fl.mul (fl.div (fl.from_u32 a) (fl.from_u32 b)) (fl.from_u32 100)))

module _ (fl : Float64) where
  pub percent_of_mono : (a b c : ℕ) → 0 < c → a ≤ b → percent_of fl a c ≤ percent_of fl b c
  unfolding percent_of
  percent_of_mono a b c p h =
      fl.as_u8_mono _ _ (fl.round_mono _ _ (fl.mul_mono _ _ (fl.div_mono a b c p h)))

  pub percent_of_self : (a : ℕ) → 0 < a → a < 2 ^ 32 → percent_of fl a a ≡ 100
  unfolding percent_of
  percent_of_self a p q =
      rw
        (
          fl.div_self a p q,
          fl.one_mul 100 (omega arith),
          fl.round_integer 100 (omega arith),
          percent_of,
        )
        (fl.as_u8_integer 100 (omega arith))

  pub percent_of_zero : (a : ℕ) → 0 < a → a < 2 ^ 32 → percent_of fl 0 a ≡ 0
  unfolding percent_of
  percent_of_zero a p q =
      rw
        (
          fl.zero_div a p q,
          fl.zero_mul 100 (omega arith),
          fl.round_integer 0 (omega arith),
          percent_of,
        )
        (fl.as_u8_integer 0 (omega arith))

  pub percent_of-le-hundred : (a b : ℕ) → a ≤ b → 0 < b → b < 2 ^ 32 → percent_of fl a b ≤ 100
  percent_of-le-hundred a b h p q = omega (arith, percent_of_mono a b b p h, percent_of_self b p q)
