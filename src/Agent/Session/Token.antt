-- ===== src/Agent/Session/Token.antt =====
-- The comparison of tokens, and what a loaded token is.
use Prim.Native.Nat.{bit_or, bit_xor}
use Prim.Native.String.{String}
use linuxpracticelab.Common.{
  ℕ, ◌≡◌, ◌↔◌, inl, inr, true, false, none, some, List, [], ◌∷◌, length, arith, refl, ap,
  Bool-cases, ◌==◌, ==_iff,
}
use linuxpracticelab.Common.Bits.{bit_or_zero_iff, bit_xor_zero_iff}
use linuxpracticelab.Common.Text.{is_blank, trim}
use linuxpracticelab.Agent.Session.{usable, difference, constant_time_eq}

difference_zero_iff :
    (d : ℕ) (a b : List ℕ) → length a ≡ length b → (difference d a b ≡ 0) ↔ ((d ≡ 0) × (a ≡ b))
unfolding difference
difference_zero_iff d [] [] same = (λ h. (h, refl), λ h. h.0)
difference_zero_iff d [] (b ∷ bs) same = absurd (omega (arith, same))
difference_zero_iff d (a ∷ rest) [] same = absurd (omega (arith, same))
difference_zero_iff d (a ∷ rest) (b ∷ bs) same =
    let ih = difference_zero_iff (bit_or d (bit_xor a b)) rest bs (omega (arith, same)) in
    let either = bit_or_zero_iff d (bit_xor a b) in
    let equal = bit_xor_zero_iff a b in
    (
      λ h. let (z, e) = ih.0 h in let (p, q) = either.0 z in let f = equal.0 q in (p, cc),
      λ (p, e). ih.1 (either.1 (p, equal.1 (ground (arith, e))), ground (arith, e)),
    )

-- The comparison that does not stop early is equality of the bytes.
pub constant_time_eq_iff : (a b : List ℕ) → (constant_time_eq a b ≡ true) ↔ (a ≡ b)
unfolding constant_time_eq
constant_time_eq_iff a b = elim (Bool-cases (length a == length b)) [
  | inl e ↦
      let same = (==_iff (length a) (length b)).0 e in
      let zero = difference_zero_iff 0 a b same in
      let test = ==_iff (difference 0 a b) 0 in
      rw e (λ h. (zero.0 (test.0 h)).1, λ h. test.1 (zero.1 (refl, h)))
  | inr e ↦
      rw e (λ h. cc, λ h. let same : length a ≡ length b = ap length h in ground (arith, same))
]

usable_lem : (s t : String) → usable (some s) ≡ some t → (t ≡ trim s) × (is_blank t ≡ false)
usable_lem s t h = elim (Bool-cases (is_blank (trim s))) [
  | inl e ↦ let f : usable (some s) ≡ none = rw e in cc
  | inr e ↦
      let f : usable (some s) ≡ some (trim s) = rw e in
      let same : t ≡ trim s = ground (arith, f, h) in (same, rw same e)
]
