-- ===== src/Common/Bits.antt =====
-- When `^` and `|` of two unsigned integers are zero, and when `&` with a mask gives the same.
use Prim.Native.Nat.{
  bit_and, min, bit_and-bitwise, ℕ, zero, suc, ◌+◌, ◌*◌, ◌/◌, ◌%◌, ◌≤◌, max, bit_or, bit_xor,
  digits, differ, bit_or-bitwise, bit_xor-bitwise,
}
use mathlib.Core.Path.{◌≡◌, refl}
use mathlib.Core.Logic.{◌↔◌, ◌⊎◌, inl, inr}
use native.Mathlib.Omega.{arith}

differ_zero : (x y : ℕ) → differ x y ≡ 0 → x ≡ y
differ_zero zero y h = omega (arith, h)
differ_zero (suc x) zero h = absurd (omega (arith, h))
differ_zero (suc x) (suc y) h = omega (arith, differ_zero x y h)

differ_self : (x : ℕ) → differ x x ≡ 0
differ_self zero = refl
differ_self (suc x) = differ_self x

abbrev xor_digits : ℕ → ℕ → ℕ → ℕ
xor_digits n a b = digits (λ b. b) differ n a b

xor_digits_zero : (n a b : ℕ) → a ≤ n → xor_digits n a b ≡ 0 → a ≡ b
xor_digits_zero zero zero b le h = omega (arith, h)
xor_digits_zero zero (suc a) b le h = absurd (omega arith)
xor_digits_zero (suc n) zero b le h = omega (arith, h)
xor_digits_zero (suc n) (suc a) b le h =
    let high = xor_digits_zero n (suc a / 2) (b / 2) (omega arith) (omega (arith, h)) in
    let low = differ_zero (suc a % 2) (b % 2) (omega (arith, h)) in omega (arith, high, low)

xor_digits_self : (n a : ℕ) → a ≤ n → xor_digits n a a ≡ 0
xor_digits_self zero zero le = refl
xor_digits_self zero (suc a) le = absurd (omega arith)
xor_digits_self (suc n) zero le = refl
xor_digits_self (suc n) (suc a) le =
    omega (arith, xor_digits_self n (suc a / 2) (omega arith), differ_self (suc a % 2))

pub bit_xor_zero_iff : (a b : ℕ) → (bit_xor a b ≡ 0) ↔ (a ≡ b)
bit_xor_zero_iff a b = (
  λ h. xor_digits_zero a a b (omega arith) (omega (arith, h, bit_xor-bitwise a b)),
  λ h. rw h (omega (arith, bit_xor-bitwise b b, xor_digits_self b b (omega arith))),
)

abbrev or_digits : ℕ → ℕ → ℕ → ℕ
or_digits n a b = digits (λ b. b) max n a b

or_digits_zero : (n a b : ℕ) → a ≤ n → or_digits n a b ≡ 0 → (a ≡ 0) × (b ≡ 0)
or_digits_zero zero zero b le h = (refl, h)
or_digits_zero zero (suc a) b le h = absurd (omega arith)
or_digits_zero (suc n) zero b le h = (refl, h)
or_digits_zero (suc n) (suc a) b le h =
    let (p, q) = or_digits_zero n (suc a / 2) (b / 2) (omega arith) (omega (arith, h)) in
    absurd (omega (arith, p, h))

pub bit_or_zero_iff : (a b : ℕ) → (bit_or a b ≡ 0) ↔ ((a ≡ 0) × (b ≡ 0))
bit_or_zero_iff a b = (
  λ h. or_digits_zero a a b (omega arith) (omega (arith, h, bit_or-bitwise a b)),
  λ (p, q). rw (p, q) refl,
)

abbrev masked_digits : ℕ → ℕ → ℕ → ℕ
masked_digits n a m = digits (λ b. zero) min n a m

masked_digits_enough : (n k a m : ℕ) → a ≤ n → a ≤ k → masked_digits n a m ≡ masked_digits k a m
masked_digits_enough zero zero a m p q = refl
masked_digits_enough zero (suc k) zero m p q = refl
masked_digits_enough zero (suc k) (suc a) m p q = absurd (omega arith)
masked_digits_enough (suc n) zero zero m p q = refl
masked_digits_enough (suc n) zero (suc a) m p q = absurd (omega arith)
masked_digits_enough (suc n) (suc k) zero m p q = refl
masked_digits_enough (suc n) (suc k) (suc a) m p q =
    omega (arith, masked_digits_enough n k (suc a / 2) (m / 2) (omega arith) (omega arith))

bit_and_halves : (a m : ℕ) → bit_and a m ≡ bit_and (a / 2) (m / 2) * 2 + min (a % 2) (m % 2)
bit_and_halves zero m = omega (arith, bit_and-bitwise 0 m, bit_and-bitwise 0 (m / 2))
bit_and_halves (suc a) m =
    let enough =
      masked_digits_enough a (suc a / 2) (suc a / 2) (m / 2) (omega arith) (omega arith) in
    omega (arith, bit_and-bitwise (suc a) m, bit_and-bitwise (suc a / 2) (m / 2), enough)

-- The bit of a number at a place, from the lowest.
unfoldable pub bit : ℕ → ℕ → ℕ
bit zero n = n % 2
bit (suc i) n = bit i (n / 2)

abbrev pub AgreeOn : ℕ → ℕ → ℕ → Type 0
AgreeOn m a b = (i : ℕ) → bit i m ≡ 1 → bit i a ≡ bit i b

bit_zero : (i : ℕ) → bit i 0 ≡ 0
unfolding bit
bit_zero zero = refl
bit_zero (suc i) = bit_zero i

bit_and_nothing : (n a : ℕ) → a ≤ n → bit_and a 0 ≡ 0
bit_and_nothing n zero le = refl
bit_and_nothing zero (suc a) le = absurd (omega arith)
bit_and_nothing (suc n) (suc a) le =
    omega (arith, bit_and_halves (suc a) 0, bit_and_nothing n (suc a / 2) (omega arith))

lowest_bit : (m : ℕ) → (m % 2 ≡ 0) ⊎ (m % 2 ≡ 1)
lowest_bit m = omega arith

agree_nowhere : (a b : ℕ) → AgreeOn 0 a b
agree_nowhere a b i h = absurd (omega (arith, h, bit_zero i))

at_place :
    (m a b : ℕ) → (m % 2 ≡ 1 → a % 2 ≡ b % 2) → AgreeOn (m / 2) (a / 2) (b / 2) → AgreeOn m a b
unfolding bit
at_place m a b low high zero one = low one
at_place m a b low high (suc i) one = high i one

masked_iff_fuel : (n m a b : ℕ) → m ≤ n → (bit_and a m ≡ bit_and b m) ↔ AgreeOn m a b
unfolding bit
masked_iff_fuel n zero a b le = (
  λ h. agree_nowhere a b,
  λ h. omega (arith, bit_and_nothing a a (omega arith), bit_and_nothing b b (omega arith)),
)
masked_iff_fuel zero (suc m) a b le = absurd (omega arith)
masked_iff_fuel (suc n) (suc m) a b le =
    let rest = masked_iff_fuel n (suc m / 2) (a / 2) (b / 2) (omega arith) in
    let low = bit_and_halves a (suc m) in
    let low' = bit_and_halves b (suc m) in
    (
      λ h i.
          at_place (suc m) a b (λ one. omega (arith, h, low, low', one))
            (rest.0 (omega (arith, h, low, low'))) i,
      λ agree.
          let high = rest.1 (λ i one. agree (suc i) one) in
          elim (lowest_bit (suc m)) [
            | inl e ↦ omega (arith, low, low', high, e)
            | inr e ↦ omega (arith, low, low', high, e, agree zero e)
          ],
    )

pub masked_iff : (m a b : ℕ) → (bit_and a m ≡ bit_and b m) ↔ AgreeOn m a b
masked_iff m a b = masked_iff_fuel m m a b (omega arith)
