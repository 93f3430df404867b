-- ===== src/Agent/Service/Units.antt =====
-- The names of units that reach systemctl, apart from how
-- guest/linuxlab-agent/src/validators/service.rs tests them.
use Prim.Native.Char.{Char, code}
use Prim.Native.String.{String, [], ◌∷◌}
use linuxpracticelab.Common.{
  ◌≤◌, ◌≡◌, ◌≢◌, ◌↔◌, ◌⊎◌, inl, inr, Bool, true, false, some, arith, refl, Bool-cases, Option-cases,
}
use linuxpracticelab.Common.Text.{starts_with}
use linuxpracticelab.SharedTypes.Lesson.{Validator, str_param}
use linuxpracticelab.SharedTypes.Validation.{CheckOutcome, error}
use linuxpracticelab.Agent.Args.{arg, string, missing}
use linuxpracticelab.Agent.Outcomes.{Passes}
use linuxpracticelab.Agent.Service.{unit_char, all_unit_chars, is_acceptable, safe_unit}

abbrev pub IsLetterOrDigit : Char → Type 0
IsLetterOrDigit c =
    ((48 ≤ code c) × (code c ≤ 57))
    ⊎ ((65 ≤ code c) × (code c ≤ 90))
    ⊎ ((97 ≤ code c) × (code c ≤ 122))

-- `.`, `-`, `_`, `@`, `:` and `\`.
abbrev pub IsUnitMark : Char → Type 0
IsUnitMark c =
    (code c ≡ 46) ⊎ (code c ≡ 45) ⊎ (code c ≡ 95) ⊎ (code c ≡ 64) ⊎ (code c ≡ 58) ⊎ (code c ≡ 92)

abbrev pub AllOfUnits : String → Type 0
AllOfUnits [] = Unit
AllOfUnits (c ∷ s) = (IsLetterOrDigit c ⊎ IsUnitMark c) × AllOfUnits s

-- Not empty, no dash in front, and no other characters than those of unit names.
abbrev pub IsUnitName : String → Type 0
IsUnitName [] = ⊥
IsUnitName (c ∷ s) = (code c ≢ 45) × AllOfUnits (c ∷ s)

unit_char_iff : (c : Char) → (unit_char (code c) ≡ true) ↔ (IsLetterOrDigit c ⊎ IsUnitMark c)
unit_char_iff c = (λ h. ground (arith, h), λ h. ground (arith, h))

all_unit_chars_iff : (s : String) → (all_unit_chars s ≡ true) ↔ AllOfUnits s
unfolding all_unit_chars
all_unit_chars_iff [] = (λ h. tt, λ h. refl)
all_unit_chars_iff (c ∷ s) =
    let this = unit_char_iff c in
    let rest = all_unit_chars_iff s in
    (
      λ h. (this.0 (ground (arith, h)), rest.0 (ground (arith, h))),
      λ (a, b). let t = this.1 a in let r = rest.1 b in rw (t, r) refl,
    )

starts_with-dash : (c : Char) (s : String) → (starts_with (c ∷ s) "-" ≡ true) ↔ (code c ≡ 45)
unfolding starts_with
starts_with-dash c s = (λ h. ground (arith, h), λ h. ground (arith, h))

pub is_acceptable_iff : (unit : String) → (is_acceptable unit ≡ true) ↔ IsUnitName unit
is_acceptable_iff [] = (λ h. cc, λ h. absurd h)
is_acceptable_iff (c ∷ s) =
    let dash = starts_with-dash c s in
    let all = all_unit_chars_iff (c ∷ s) in
    elim (Bool-cases (starts_with (c ∷ s) "-")) [
      | inl e ↦ rw e (λ h. cc, λ (n, _). absurd (n (dash.0 e)))
      | inr e ↦ rw e (λ h. (apart e dash.1, all.0 h), λ (_, a). all.1 a)
    ]
  where
    apart : {b : Bool} {P : Type 0} → b ≡ false → (P → b ≡ true) → ¬ P
    apart f t p = let q = t p in cc

-- A check of a unit passes if it is given a unit name and what is done with it passes.
pub safe_unit_iff :
    (v : Validator) (next : String → CheckOutcome) (Q : String → Type 0)
    → ((unit : String) → Passes (next unit) ↔ Q unit)
    → Passes (arg (safe_unit v) next)
      ↔ ((unit : String) × (str_param v "unit" ≡ some unit) × IsUnitName unit × Q unit)
unfolding safe_unit string missing error
safe_unit_iff v next Q iff = elim (Option-cases (str_param v "unit")) [
  | inl e ↦ rw e (λ h. cc, λ (u, q, _, _). cc)
  | inr (unit, e) ↦
      let name = is_acceptable_iff unit in
      elim (Bool-cases (is_acceptable unit)) [
        | inl a ↦
            rw (e, a)
              (
                λ h. (unit, refl, name.0 a, (iff unit).0 h),
                λ (u, q, _, r). let same : unit ≡ u = ground (arith, q) in (iff unit).1 (rw same r),
              )
        | inr a ↦
            rw (e, a)
              (
                λ h. cc,
                λ (u, q, n, _).
                    let same : unit ≡ u = ground (arith, q) in let t = name.1 (rw same n) in cc,
              )
      ]
]
