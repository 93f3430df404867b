-- ===== src/SharedTypes/Registry/Modes.antt =====
-- What the test of octal modes in crates/shared-types/src/registry.rs lets through.
use Prim.Native.Char.{Char, code}
use Prim.Native.String.{String, [], ◌∷◌}
use linuxpracticelab.Common.{
  ℕ, ◌+◌, ◌-◌, ◌*◌, ◌^◌, ◌<◌, ◌≤◌, ◌≡◌, ◌↔◌, ◌⊎◌, inl, inr, true, false, ◌&&◌, arith, refl, ltb,
  ◌==◌, Bool-cases,
}
use linuxpracticelab.SharedTypes.Json.{Json}
use linuxpracticelab.SharedTypes.Registry.Values.{
  is_octal, is_some, octal_from, trim_0o, reads_octal, is_mode,
}
use linuxpracticelab.SharedTypes.Registry.Kinds.{
  AllOctal, octal_value, IsOctal, IsSigned, IsModeText, IsMode,
}

-- Further digits never lower the value.
octal_value_le : (value : ℕ) (s : String) → value ≤ octal_value value s
unfolding octal_value
octal_value_le value [] = omega arith
octal_value_le value (c ∷ s) =
    let later = octal_value_le (value * 8 + (code c - 48)) s in omega (arith, later)

is_octal_iff : (c : Char) → (is_octal (code c) ≡ true) ↔ ((48 ≤ code c) × (code c ≤ 55))
is_octal_iff c = (λ h. (ground (arith, h), ground (arith, h)), λ (a, b). ground (arith, a, b))

octal_from_iff :
    (value : ℕ) (s : String)
    → value < 2 ^ 32
    → (is_some (octal_from value s) ≡ true) ↔ (AllOctal s × (octal_value value s < 2 ^ 32))
unfolding octal_from octal_value
octal_from_iff value [] small = (λ h. (tt, small), λ h. refl)
octal_from_iff value (c ∷ s) small =
    let next = value * 8 + (code c - 48) in
    let digit = is_octal_iff c in
    elim (Bool-cases (is_octal (code c))) [
      | inr e ↦ rw e (λ h. cc, λ ((d, _), _). let t = digit.1 d in cc)
      | inl e ↦ elim (Bool-cases (ltb next (2 ^ 32))) [
        | inl f ↦
            let rest = octal_from_iff next s (ground (arith, f)) in
            rw (e, f)
              (λ h. let (a, b) = rest.0 h in ((digit.0 e, a), b), λ ((_, a), b). rest.1 (a, b))
        | inr f ↦
            let le = octal_value_le next s in
            let large : 2 ^ 32 ≤ next = ground (arith, f) in
            rw (e, f) (λ h. cc, λ (_, b). absurd (beyond next (octal_value next s) large le b))
      ]
    ]
  where
    beyond : (a b : ℕ) → 2 ^ 32 ≤ a → a ≤ b → b < 2 ^ 32 → ⊥
    beyond a b l le lt = omega arith

reads_one : (c : Char) → (reads_octal (c ∷ []) ≡ true) ↔ IsOctal (c ∷ [])
unfolding reads_octal octal_value
reads_one c =
    let digit = is_octal_iff c in
    (
      λ h. let (a, b) = digit.0 h in (λ e. e, ((a, b), tt), omega (arith, a, b)),
      λ (_, (d, _), _). digit.1 d,
    )

digits_iff : (c : Char) (s : String) → (is_some (octal_from 0 (c ∷ s)) ≡ true) ↔ IsOctal (c ∷ s)
digits_iff c s =
    let from = octal_from_iff 0 (c ∷ s) (omega arith) in
    (λ h. let (a, b) = from.0 h in (λ e. e, a, b), λ (_, a, b). from.1 (a, b))

reads_more :
    (c d : Char) (s : String)
    → (reads_octal (c ∷ d ∷ s) ≡ true) ↔ (IsOctal (c ∷ d ∷ s) ⊎ IsSigned (c ∷ d ∷ s))
unfolding reads_octal
reads_more c d s =
    let signed = digits_iff d s in
    let plain = digits_iff c (d ∷ s) in
    elim (Bool-cases (code c == 43)) [
      | inl e ↦ rw e (
        λ h. inr (ground (arith, e), signed.0 h),
        elim [
          | inl (_, ((low, _), _), _) ↦ absurd (not_digit (code c) e low)
          | inr (_, o) ↦ signed.1 o
        ],
      )
      | inr e ↦ rw e (
        λ h. inl (plain.0 h),
        elim [ inl o ↦ plain.1 o | inr (q, _) ↦ absurd (no_sign (code c) e q) ],
      )
    ]
  where
    not_digit : (n : ℕ) → (n == 43) ≡ true → 48 ≤ n → ⊥
    not_digit n e low = ground arith

    no_sign : (n : ℕ) → (n == 43) ≡ false → n ≡ 43 → ⊥
    no_sign n e q = ground arith

no_digits : ¬ (reads_octal [] ≡ true)
unfolding reads_octal
no_digits h = cc

reads_trimmed_iff : (s : String) → (reads_octal (trim_0o s) ≡ true) ↔ IsModeText s
unfolding trim_0o
reads_trimmed_iff [] = (no_digits, λ h. absurd h)
reads_trimmed_iff (c ∷ []) = reads_one c
reads_trimmed_iff (c ∷ d ∷ s) =
    let rest = reads_trimmed_iff s in
    let direct = reads_more c d s in
    elim (Bool-cases (code c == 48 && code d == 111)) [
      | inl e ↦
          let first : code c ≡ 48 = ground (arith, e) in
          let second : code d ≡ 111 = ground (arith, e) in
          rw e (
            λ h. inr (inr (first, second, rest.0 h)),
            elim [
              | inl (_, (_, ((_, high), _)), _) ↦ absurd (not_o (code d) second high)
              | inr (inl (q, _)) ↦ absurd (not_plus (code c) first q)
              | inr (inr (_, _, m)) ↦ rest.1 m
            ],
          )
      | inr e ↦ rw e (
        λ h. elim (direct.0 h) [ inl o ↦ inl o | inr o ↦ inr (inl o) ],
        elim [
          | inl o ↦ direct.1 (inl o)
          | inr (inl o) ↦ direct.1 (inr o)
          | inr (inr (a, b, _)) ↦ absurd (no_prefix (code c) (code d) e a b)
        ],
      )
    ]
  where
    not_o : (n : ℕ) → n ≡ 111 → n ≤ 55 → ⊥
    not_o n e high = omega arith

    not_plus : (n : ℕ) → n ≡ 48 → n ≡ 43 → ⊥
    not_plus n e q = omega arith

    no_prefix : (m n : ℕ) → (m == 48 && n == 111) ≡ false → m ≡ 48 → n ≡ 111 → ⊥
    no_prefix m n e a b = ground arith

pub is_mode_iff : (v : Json) → (is_mode v ≡ true) ↔ IsMode v
is_mode_iff (Json.number n) = (λ h. inl (n, refl), λ h. refl)
is_mode_iff (Json.string s) =
    let text = reads_trimmed_iff s in
    (
      λ h. inr (s, refl, text.0 h),
      elim [
        | inl (n, q) ↦ cc
        | inr (t, q, m) ↦ let same : s ≡ t = ground (arith, q) in text.1 (rw same m)
      ],
    )
is_mode_iff Json.null = (λ h. cc, elim [ inl (n, q) ↦ cc | inr (t, q, m) ↦ cc ])
is_mode_iff (Json.bool b) = (λ h. cc, elim [ inl (n, q) ↦ cc | inr (t, q, m) ↦ cc ])
is_mode_iff (Json.array vs) = (λ h. cc, elim [ inl (n, q) ↦ cc | inr (t, q, m) ↦ cc ])
is_mode_iff (Json.object ms) = (λ h. cc, elim [ inl (n, q) ↦ cc | inr (t, q, m) ↦ cc ])
