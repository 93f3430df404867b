-- ===== src/SharedTypes/Registry/Kinds.antt =====
-- crates/shared-types/src/registry.rs: what the values of the single types of parameters are, apart
-- from how the code tests them, and that its tests decide that.
use Prim.Native.Char.{Char, code}
use Prim.Native.String.{String, [], ◌∷◌, len}
use linuxpracticelab.Common.{
  ℕ, ◌+◌, ◌-◌, ◌*◌, ◌^◌, ◌<◌, ◌≤◌, ◌≡◌, ◌↔◌, ◌⊎◌, inl, inr, Bool, true, List, arith, refl, Has,
}
use linuxpracticelab.SharedTypes.Json.{Json, Number, Items}
use linuxpracticelab.SharedTypes.Registry.Values.{
  is_integer, is_port, is_bool, is_string, all_strings, is_string_list, is_hex, all_hex, is_sha256,
  is_path,
}

-- An `i64`: `neg_int n` is -(n + 1).
abbrev pub IsInteger : Json → Type 0
IsInteger v =
    ((n : ℕ) × (v ≡ Json.number (Number.pos_int n)) × (n < 2 ^ 63))
    ⊎ ((n : ℕ) × (v ≡ Json.number (Number.neg_int n)) × (n < 2 ^ 63))

abbrev pub IsPort : Json → Type 0
IsPort v = (n : ℕ) × (v ≡ Json.number (Number.pos_int n)) × (1 ≤ n) × (n ≤ 65535)

abbrev pub IsTruth : Json → Type 0
IsTruth v = (b : Bool) × (v ≡ Json.bool b)

abbrev pub IsText : Json → Type 0
IsText v = (s : String) × (v ≡ Json.string s)

abbrev pub AllText : Items → Type 0
AllText Items.nil = Unit
AllText (Items.cons v vs) = IsText v × AllText vs

abbrev pub IsTexts : Json → Type 0
IsTexts v = (vs : Items) × (v ≡ Json.array vs) × AllText vs

-- One of the texts that a parameter of type `enum` lists.
abbrev pub IsListed : List String → Json → Type 0
IsListed values v = (s : String) × (v ≡ Json.string s) × Has s values

abbrev pub IsEmpty : String → Type 0
IsEmpty [] = Unit
IsEmpty (c ∷ s) = ⊥

abbrev pub IsPath : Json → Type 0
IsPath v = (s : String) × (v ≡ Json.string s) × ¬ IsEmpty s

-- `0` to `9`, `A` to `F` and `a` to `f`.
abbrev pub IsHex : Char → Type 0
IsHex c =
    ((48 ≤ code c) × (code c ≤ 57))
    ⊎ ((65 ≤ code c) × (code c ≤ 70))
    ⊎ ((97 ≤ code c) × (code c ≤ 102))

abbrev pub AllHex : String → Type 0
AllHex [] = Unit
AllHex (c ∷ s) = IsHex c × AllHex s

abbrev pub IsDigest : Json → Type 0
IsDigest v = (s : String) × (v ≡ Json.string s) × (len s ≡ 64) × AllHex s

abbrev pub AllOctal : String → Type 0
AllOctal [] = Unit
AllOctal (c ∷ s) = ((48 ≤ code c) × (code c ≤ 55)) × AllOctal s

-- The number that digits stand for, after those of a value.
unfoldable pub octal_value : ℕ → String → ℕ
octal_value value [] = value
octal_value value (c ∷ s) = octal_value (value * 8 + (code c - 48)) s

-- Octal digits of a `u32`.
abbrev pub IsOctal : String → Type 0
IsOctal s = ¬ IsEmpty s × AllOctal s × (octal_value 0 s < 2 ^ 32)

abbrev pub IsSigned : String → Type 0
IsSigned [] = ⊥
IsSigned (c ∷ s) = (code c ≡ 43) × IsOctal s

-- The digits of a mode may stand after a `+`, and that after any number of `0o`.
abbrev pub IsModeText : String → Type 0
IsModeText [] = ⊥
IsModeText (c ∷ []) = IsOctal (c ∷ [])
IsModeText (c ∷ d ∷ s) =
    IsOctal (c ∷ d ∷ s) ⊎ IsSigned (c ∷ d ∷ s) ⊎ ((code c ≡ 48) × (code d ≡ 111) × IsModeText s)

abbrev pub IsMode : Json → Type 0
IsMode v =
    ((n : Number) × (v ≡ Json.number n)) ⊎ ((s : String) × (v ≡ Json.string s) × IsModeText s)

pub is_integer_iff : (v : Json) → (is_integer v ≡ true) ↔ IsInteger v
is_integer_iff (Json.number (Number.pos_int n)) = (
  λ h. inl (n, refl, ground (arith, h)),
  elim [
    | inl (m, q, a) ↦ let same : n ≡ m = ground (arith, q) in ground (arith, same, a)
    | inr (m, q, a) ↦ cc
  ],
)
is_integer_iff (Json.number (Number.neg_int n)) = (
  λ h. inr (n, refl, ground (arith, h)),
  elim [
    | inl (m, q, a) ↦ cc
    | inr (m, q, a) ↦ let same : n ≡ m = ground (arith, q) in ground (arith, same, a)
  ],
)
is_integer_iff (Json.number (Number.float t)) =
    (λ h. cc, elim [ inl (m, q, a) ↦ cc | inr (m, q, a) ↦ cc ])
is_integer_iff Json.null = (λ h. cc, elim [ inl (m, q, a) ↦ cc | inr (m, q, a) ↦ cc ])
is_integer_iff (Json.bool b) = (λ h. cc, elim [ inl (m, q, a) ↦ cc | inr (m, q, a) ↦ cc ])
is_integer_iff (Json.string s) = (λ h. cc, elim [ inl (m, q, a) ↦ cc | inr (m, q, a) ↦ cc ])
is_integer_iff (Json.array vs) = (λ h. cc, elim [ inl (m, q, a) ↦ cc | inr (m, q, a) ↦ cc ])
is_integer_iff (Json.object ms) = (λ h. cc, elim [ inl (m, q, a) ↦ cc | inr (m, q, a) ↦ cc ])

pub is_port_iff : (v : Json) → (is_port v ≡ true) ↔ IsPort v
is_port_iff (Json.number (Number.pos_int n)) = (
  λ h. (n, refl, ground (arith, h), ground (arith, h)),
  λ (m, q, a, b). let same : n ≡ m = ground (arith, q) in ground (arith, same, a, b),
)
is_port_iff (Json.number (Number.neg_int n)) = (λ h. cc, λ (m, q, a, b). cc)
is_port_iff (Json.number (Number.float t)) = (λ h. cc, λ (m, q, a, b). cc)
is_port_iff Json.null = (λ h. cc, λ (m, q, a, c). cc)
is_port_iff (Json.bool b) = (λ h. cc, λ (m, q, a, c). cc)
is_port_iff (Json.string s) = (λ h. cc, λ (m, q, a, c). cc)
is_port_iff (Json.array vs) = (λ h. cc, λ (m, q, a, c). cc)
is_port_iff (Json.object ms) = (λ h. cc, λ (m, q, a, c). cc)

-- A port is an integer.
pub port-IsInteger : (v : Json) → IsPort v → IsInteger v
port-IsInteger v (n, q, a, b) = inl (n, q, le_lt n b)
  where
    le_lt : (n : ℕ) → n ≤ 65535 → n < 2 ^ 63
    le_lt n b = omega arith

pub is_bool_iff : (v : Json) → (is_bool v ≡ true) ↔ IsTruth v
is_bool_iff (Json.bool b) = (λ h. (b, refl), λ h. refl)
is_bool_iff Json.null = (λ h. cc, λ (m, q). cc)
is_bool_iff (Json.number n) = (λ h. cc, λ (m, q). cc)
is_bool_iff (Json.string s) = (λ h. cc, λ (m, q). cc)
is_bool_iff (Json.array vs) = (λ h. cc, λ (m, q). cc)
is_bool_iff (Json.object ms) = (λ h. cc, λ (m, q). cc)

pub is_string_iff : (v : Json) → (is_string v ≡ true) ↔ IsText v
is_string_iff (Json.string s) = (λ h. (s, refl), λ h. refl)
is_string_iff Json.null = (λ h. cc, λ (m, q). cc)
is_string_iff (Json.bool b) = (λ h. cc, λ (m, q). cc)
is_string_iff (Json.number n) = (λ h. cc, λ (m, q). cc)
is_string_iff (Json.array vs) = (λ h. cc, λ (m, q). cc)
is_string_iff (Json.object ms) = (λ h. cc, λ (m, q). cc)

all_strings_iff : (vs : Items) → (all_strings vs ≡ true) ↔ AllText vs
all_strings_iff Items.nil = (λ h. tt, λ h. refl)
all_strings_iff (Items.cons v vs) =
    let this = is_string_iff v in
    let rest = all_strings_iff vs in
    (
      λ h. (this.0 (ground (arith, h)), rest.0 (ground (arith, h))),
      λ (a, b). let t = this.1 a in let r = rest.1 b in rw (t, r) refl,
    )

pub is_string_list_iff : (v : Json) → (is_string_list v ≡ true) ↔ IsTexts v
is_string_list_iff (Json.array vs) =
    let all = all_strings_iff vs in
    (
      λ h. (vs, refl, all.0 h),
      λ (ws, q, a). let same : vs ≡ ws = ground (arith, q) in all.1 (rw same a),
    )
is_string_list_iff Json.null = (λ h. cc, λ (m, q, a). cc)
is_string_list_iff (Json.bool b) = (λ h. cc, λ (m, q, a). cc)
is_string_list_iff (Json.number n) = (λ h. cc, λ (m, q, a). cc)
is_string_list_iff (Json.string s) = (λ h. cc, λ (m, q, a). cc)
is_string_list_iff (Json.object ms) = (λ h. cc, λ (m, q, a). cc)

pub is_path_iff : (v : Json) → (is_path v ≡ true) ↔ IsPath v
is_path_iff (Json.string []) = (λ h. cc, λ (t, q, a). absurd (a (empty t q)))
  where
    empty : (t : String) → Json.string [] ≡ Json.string t → IsEmpty t
    empty t q = let same : [] ≡ t = ground (arith, q) in rw (← same) tt
is_path_iff (Json.string (c ∷ s)) = (λ h. (c ∷ s, refl, λ e. e), λ h. refl)
is_path_iff Json.null = (λ h. cc, λ (m, q, a). cc)
is_path_iff (Json.bool b) = (λ h. cc, λ (m, q, a). cc)
is_path_iff (Json.number n) = (λ h. cc, λ (m, q, a). cc)
is_path_iff (Json.array vs) = (λ h. cc, λ (m, q, a). cc)
is_path_iff (Json.object ms) = (λ h. cc, λ (m, q, a). cc)

is_hex_iff : (c : Char) → (is_hex (code c) ≡ true) ↔ IsHex c
is_hex_iff c = (λ h. ground (arith, h), λ h. ground (arith, h))

all_hex_iff : (s : String) → (all_hex s ≡ true) ↔ AllHex s
unfolding all_hex
all_hex_iff [] = (λ h. tt, λ h. refl)
all_hex_iff (c ∷ s) =
    let this = is_hex_iff c in
    let rest = all_hex_iff s in
    (
      λ h. (this.0 (ground (arith, h)), rest.0 (ground (arith, h))),
      λ (a, b). let t = this.1 a in let r = rest.1 b in rw (t, r) refl,
    )

pub is_sha256_iff : (v : Json) → (is_sha256 v ≡ true) ↔ IsDigest v
is_sha256_iff (Json.string s) =
    let all = all_hex_iff s in
    (
      λ h. (s, refl, ground (arith, h), all.0 (ground (arith, h))),
      λ (t, q, n, a).
          let same : s ≡ t = ground (arith, q) in
          let hex = all.1 (rw same a) in
          let length : len s ≡ 64 = rw same n in ground (arith, hex, length),
    )
is_sha256_iff Json.null = (λ h. cc, λ (m, q, n, a). cc)
is_sha256_iff (Json.bool b) = (λ h. cc, λ (m, q, n, a). cc)
is_sha256_iff (Json.number n) = (λ h. cc, λ (m, q, n, a). cc)
is_sha256_iff (Json.array vs) = (λ h. cc, λ (m, q, n, a). cc)
is_sha256_iff (Json.object ms) = (λ h. cc, λ (m, q, n, a). cc)
