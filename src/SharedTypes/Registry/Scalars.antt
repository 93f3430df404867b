-- ===== src/SharedTypes/Registry/Scalars.antt =====
-- The values that the checks of single types let through, where a parameter holds no validators.
use Prim.Native.String.{String}
use text.Mathlib.Text.{◌==◌ as str_eq}
use text.Mathlib.TextEquality.{eq_iff}
use linuxpracticelab.Common.{
  ◌≡◌, ◌≢◌, ◌↔◌, ◌⊎◌, inl, inr, Bool, true, false, none, some, arith, refl, any_iff, Bool-cases,
  if◌then◌else◌,
}
use linuxpracticelab.SharedTypes.Json.{Json}
use linuxpracticelab.SharedTypes.Registry.{ParamSpec, RegistryError, Outcome, and_then, fail_unless}
use linuxpracticelab.SharedTypes.Registry.Check.{is_allowed, check_scalar}
use linuxpracticelab.SharedTypes.Registry.Kinds.{
  IsInteger, IsPort, IsTruth, IsText, IsTexts, IsListed, IsPath, IsDigest, IsMode, is_integer_iff,
  is_port_iff, port-IsInteger, is_bool_iff, is_string_iff, is_string_list_iff, is_path_iff,
  is_sha256_iff,
}
use linuxpracticelab.SharedTypes.Registry.Modes.{is_mode_iff}

-- The type is `name` and then `A` holds, or it is another and then `B` holds.
abbrev pub Case : String → String → Type 0 → Type 0 → Type 0
Case type name A B = ((type ≡ name) × A) ⊎ ((type ≢ name) × B)

-- What a value has to be for the type of its parameter, as the authors of lessons are told.
abbrev pub ScalarFits : ParamSpec → Json → Type 0
ScalarFits spec v =
    let type = spec.param_type in
    Case type "int" (IsInteger v) (
      Case type "port" (IsPort v) (
        Case type "bool" (IsTruth v) (
          Case type "list<string>" (IsTexts v) (
            Case type "enum" (IsListed spec.values v) (
              Case type "path" (IsPath v)
                (Case type "mode" (IsMode v) (Case type "sha256" (IsDigest v) (IsText v))))))))

pub and_then_iff : (a b : Outcome) → (and_then a b ≡ none) ↔ ((a ≡ none) × (b ≡ none))
and_then_iff none b = (λ h. (refl, h), λ h. h.1)
and_then_iff (some e) b = (λ h. cc, λ h. cc)

pub fail_unless_iff : (ok : Bool) (e : RegistryError) → (fail_unless ok e ≡ none) ↔ (ok ≡ true)
fail_unless_iff true e = (λ h. refl, λ h. refl)
fail_unless_iff false e = (λ h. cc, λ h. cc)

-- A test that decides what a type asks for.
tested :
    {P : Type 0} (ok : Bool) (e : RegistryError) → (ok ≡ true) ↔ P → (fail_unless ok e ≡ none) ↔ P
tested ok e iff =
    let unless = fail_unless_iff ok e in (λ h. iff.0 (unless.0 h), λ p. unless.1 (iff.1 p))

-- A test after another that it implies.
tested_twice :
    {P Q : Type 0} (a b : Bool) (e f : RegistryError)
    → (a ≡ true) ↔ Q
    → (b ≡ true) ↔ P
    → (P → Q)
    → (and_then (fail_unless a e) (fail_unless b f) ≡ none) ↔ P
tested_twice a b e f first second stronger =
    let both = and_then_iff (fail_unless a e) (fail_unless b f) in
    let one = tested a e first in
    let two = tested b f second in
    (λ h. two.0 ((both.0 h).1), λ p. both.1 (one.1 (stronger p), two.1 p))

case_iff :
    {A B : Type 0} (type name : String) (o p : Outcome)
    → (o ≡ none) ↔ A
    → (p ≡ none) ↔ B
    → ((if str_eq type name then o else p) ≡ none) ↔ Case type name A B
case_iff type name o p this other = elim (Bool-cases (str_eq type name)) [
  | inl e ↦
      let same = (eq_iff type name).0 e in
      rw e
        (λ h. inl (same, this.0 h), elim [ inl (_, a) ↦ this.1 a | inr (n, _) ↦ absurd (n same) ])
  | inr e ↦
      let apart : type ≢ name = λ q. differ e ((eq_iff type name).1 q) in
      rw e (
        λ h. inr (apart, other.0 h),
        elim [ inl (q, _) ↦ absurd (apart q) | inr (_, b) ↦ other.1 b ],
      )
]
  where
    differ : {b : Bool} → b ≡ false → b ≡ true → ⊥
    differ f t = cc

is_allowed_iff :
    (spec : ParamSpec) (v : Json) → (is_allowed spec.values v ≡ true) ↔ IsListed spec.values v
is_allowed_iff spec (Json.string s) =
    let found = any_iff (str_eq s) _ (eq_iff s) spec.values in
    (
      λ h. (s, refl, found.0 h),
      λ (t, q, has). let same : s ≡ t = ground (arith, q) in found.1 (rw same has),
    )
is_allowed_iff spec (Json.number n) = (λ h. cc, λ (m, q, a). cc)
is_allowed_iff spec Json.null = (λ h. cc, λ (m, q, a). cc)
is_allowed_iff spec (Json.bool b) = (λ h. cc, λ (m, q, a). cc)
is_allowed_iff spec (Json.array vs) = (λ h. cc, λ (m, q, a). cc)
is_allowed_iff spec (Json.object ms) = (λ h. cc, λ (m, q, a). cc)

-- The checks of the single types admit the values that fit and no others.
pub scalar_iff :
    (kind name : String) (spec : ParamSpec) (v : Json)
    → (check_scalar kind name spec v ≡ none) ↔ ScalarFits spec v
unfolding check_scalar
scalar_iff kind name spec v =
    let type = spec.param_type in
    let text = is_string_iff v in
    case_iff type "int" _ _ (tested _ _ (is_integer_iff v)) (
      case_iff type "port" _ _
        (tested_twice _ _ _ _ (is_integer_iff v) (is_port_iff v) (port-IsInteger v))
        (case_iff type "bool" _ _ (tested _ _ (is_bool_iff v)) (
          case_iff type "list<string>" _ _ (tested _ _ (is_string_list_iff v)) (
            case_iff type "enum" _ _
              (tested_twice _ _ _ _ text (is_allowed_iff spec v) (λ (s, q, _). (s, q)))
              (case_iff type "path" _ _
                (tested_twice _ _ _ _ text (is_path_iff v) (λ (s, q, _). (s, q)))
                (case_iff type "mode" _ _ (tested _ _ (is_mode_iff v)) (
                  case_iff type "sha256" _ _
                    (tested_twice _ _ _ _ text (is_sha256_iff v) (λ (s, q, _, _). (s, q)))
                    (tested _ _ text))))))))
