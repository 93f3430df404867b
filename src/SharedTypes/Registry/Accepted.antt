-- ===== src/SharedTypes/Registry/Accepted.antt =====
-- What it takes for a validator to be accepted, nested validators included.
use Prim.Native.String.{String}
use text.Mathlib.TextEquality.{eq_iff}
use linuxpracticelab.Common.{
  ◌≡◌, ◌≢◌, Bool-cases, ◌↔◌, inl, inr, Bool, true, false, not, ◌||◌, Option, none, some, List, [],
  ◌∷◌, arith, refl, any, is_empty, All, Option-cases, if◌then◌else◌,
}
use linuxpracticelab.Common.Assoc.{lookup}
use linuxpracticelab.SharedTypes.Json.{Json, Items, Members}
use linuxpracticelab.SharedTypes.Lesson.{Validator}
use linuxpracticelab.SharedTypes.Registry.{
  ParamSpec, ValidatorSpec, Registry, RegistryError, Outcome, and_then, each, fail_unless, is_tag,
  names, has_param, not_implemented,
}
use linuxpracticelab.SharedTypes.Registry.Scalars.{
  Case, ScalarFits, and_then_iff, fail_unless_iff, scalar_iff,
}
use linuxpracticelab.SharedTypes.Registry.Check.{
  is_known, param_for, check_unknown, check_missing, check_one_of, check_params, tag_of,
  holds_validators, no_validators, check_value, check_items, check_nested, check_spec, check_values,
  check,
}

-- The names that are given are known, those that are required are given, and so is one of the
-- alternatives where there are any.
pub record ParamsFit (reg : Registry) (spec : ValidatorSpec) (nested : Bool) (ms : Members)
    : Type 0 where
  pub all_known : All (λ name. is_known reg spec name ≡ true) (names nested ms)
  pub none_missing :
      All
        (λ (p : String × ParamSpec). not p.1.required || has_param nested ms p.0 ≡ true)
        spec.params
  pub one_given :
      is_empty spec.requires_one_of || any (has_param nested ms) spec.requires_one_of ≡ true

-- The tag is that of an implemented validator, and the parameters fit it.
abbrev pub SpecFits : Registry → String → Bool → Members → (ValidatorSpec → Type 0) → Type 0
SpecFits reg kind nested ms Values =
    (spec : ValidatorSpec) × (lookup kind reg.validators ≡ some spec)
    × (spec.implemented ≡ true)
    × ParamsFit reg spec nested ms
    × Values spec

mutual
  -- A value fits a parameter of validators if it is a list of well-formed ones, and another
  -- parameter if it is what its type asks for.
  pub Fits : Registry → ParamSpec → Json → Type 0
  Fits reg spec (Json.array vs) =
      Case spec.param_type "validators" (AllFit reg vs) (ScalarFits spec (Json.array vs))
  Fits reg spec v = (spec.param_type ≢ "validators") × ScalarFits spec v

  pub AllFit : Registry → Items → Type 0
  AllFit reg Items.nil = Unit
  AllFit reg (Items.cons v vs) = NestedFits reg v × AllFit reg vs

  pub NestedFits : Registry → Json → Type 0
  NestedFits reg (Json.object ms) =
      (kind : String) × (tag_of ms ≡ some kind)
      × SpecFits reg kind true ms (λ spec. ValuesFit reg spec true ms)
  NestedFits reg _ = ⊥

  pub ValuesFit : Registry → ValidatorSpec → Bool → Members → Type 0
  ValuesFit reg spec nested Members.end = Unit
  ValuesFit reg spec nested (Members.member name v ms) =
      (is_tag nested name ≡ false
        → (p : ParamSpec) → param_for reg spec name ≡ some p
        → Fits reg p v)
      × ValuesFit reg spec nested ms

-- A validator that the registry accepts.
pub WellFormed : Registry → Validator → Type 0
WellFormed reg v = SpecFits reg v.kind false v.params (λ spec. ValuesFit reg spec false v.params)

each_iff :
    {A : Type 0} (ok : A → Bool) (e : A → RegistryError) (xs : List A)
    → (each (λ a. fail_unless (ok a) (e a)) xs ≡ none) ↔ All (λ a. ok a ≡ true) xs
each_iff ok e [] = (λ h. tt, λ h. refl)
each_iff ok e (x ∷ xs) =
    let both = and_then_iff (fail_unless (ok x) (e x)) (each (λ a. fail_unless (ok a) (e a)) xs) in
    let this = fail_unless_iff (ok x) (e x) in
    let rest = each_iff ok e xs in
    (λ h. (this.0 ((both.0 h).0), rest.0 ((both.0 h).1)), λ h. both.1 (this.1 h.0, rest.1 h.1))

check_params_iff :
    (reg : Registry) (spec : ValidatorSpec) (kind : String) (nested : Bool) (ms : Members)
    → (check_params reg spec kind nested ms ≡ none) ↔ ParamsFit reg spec nested ms
unfolding check_params check_unknown check_missing check_one_of
check_params_iff reg spec kind nested ms =
    let outer =
      and_then_iff (check_unknown reg spec kind (names nested ms))
        (and_then (check_missing spec kind nested ms) (check_one_of spec kind nested ms)) in
    let inner =
      and_then_iff (check_missing spec kind nested ms) (check_one_of spec kind nested ms) in
    let known = each_iff (is_known reg spec) _ (names nested ms) in
    let given =
      each_iff (λ (p : String × ParamSpec). not p.1.required || has_param nested ms p.0) _
        spec.params in
    let one =
      fail_unless_iff
        (is_empty spec.requires_one_of || any (has_param nested ms) spec.requires_one_of) _ in
    (
      λ h.
          let (a, bc) = outer.0 h in
          let (b, c) = inner.0 bc in
          record { all_known = known.0 a; none_missing = given.0 b; one_given = one.0 c },
      λ f. outer.1 (known.1 f.all_known, inner.1 (given.1 f.none_missing, one.1 f.one_given)),
    )

when_iff :
    (b : Bool) (o : Outcome) (e : RegistryError)
    → ((if b then o else some e) ≡ none) ↔ ((b ≡ true) × (o ≡ none))
when_iff true o e = (λ h. (refl, h), λ h. h.1)
when_iff false o e = (λ h. cc, λ h. cc)

found_iff :
    (reg : Registry) (kind : String) (nested : Bool) (ms : Members) (spec : ValidatorSpec)
    (o : Outcome)
    → ((if spec.implemented
          then and_then (check_params reg spec kind nested ms) o
          else some (not_implemented kind))
        ≡ none)
      ↔ ((spec.implemented ≡ true) × ParamsFit reg spec nested ms × (o ≡ none))
found_iff reg kind nested ms spec o =
    let branch =
      when_iff spec.implemented (and_then (check_params reg spec kind nested ms) o)
        (not_implemented kind) in
    let both = and_then_iff (check_params reg spec kind nested ms) o in
    let params = check_params_iff reg spec kind nested ms in
    (
      λ h. let (i, r) = branch.0 h in let (a, b) = both.0 r in (i, params.0 a, b),
      λ (i, f, b). branch.1 (i, both.1 (params.1 f, b)),
    )

check_spec_iff :
    (reg : Registry) (kind : String) (nested : Bool) (ms : Members)
    (values : ValidatorSpec → Outcome) (Values : ValidatorSpec → Type 0)
    → ((spec : ValidatorSpec) → (values spec ≡ none) ↔ Values spec)
    → (check_spec reg kind nested ms values ≡ none) ↔ SpecFits reg kind nested ms Values
check_spec_iff reg kind nested ms values Values iff =
    elim (Option-cases (lookup kind reg.validators)) [
      | inl e ↦ rw (e, check_spec) (λ h. cc, λ (spec, f, i, p, v). cc)
      | inr (spec, e) ↦
          let found = found_iff reg kind nested ms spec (values spec) in
          rw (e, check_spec)
            (
              λ h. let (i, p, v) = found.0 h in (spec, refl, i, p, (iff spec).0 v),
              λ (s, f, i, p, v).
                  let same : s ≡ spec = ground (arith, f) in
                  found.1 (rw same at i, rw same at p, (iff spec).1 (rw same at v)),
            )
    ]

not_named : (spec : ParamSpec) → holds_validators spec ≡ false → spec.param_type ≢ "validators"
not_named spec h q =
    let named : holds_validators spec ≡ true = (eq_iff spec.param_type "validators").1 q in cc

-- A value that is no list is none of validators.
no_array :
    {P : Type 0} (spec : ParamSpec) (o : Outcome) (e : RegistryError)
    → (o ≡ none) ↔ P
    → ((if holds_validators spec then some e else o) ≡ none)
      ↔ ((spec.param_type ≢ "validators") × P)
no_array spec o e iff = elim (Bool-cases (holds_validators spec)) [
  | inl h ↦ rw h (λ q. cc, λ (n, _). absurd (n ((eq_iff spec.param_type "validators").0 h)))
  | inr h ↦ rw h (λ q. (not_named spec h, iff.0 q), λ (_, p). iff.1 p)
]

either_array :
    {A P : Type 0} (spec : ParamSpec) (o p : Outcome)
    → (o ≡ none) ↔ A
    → (p ≡ none) ↔ P
    → ((if holds_validators spec then o else p) ≡ none) ↔ Case spec.param_type "validators" A P
either_array spec o p list other = elim (Bool-cases (holds_validators spec)) [
  | inl h ↦
      let named = (eq_iff spec.param_type "validators").0 h in
      rw h
        (λ q. inl (named, list.0 q), elim [ inl (_, a) ↦ list.1 a | inr (n, _) ↦ absurd (n named) ])
  | inr h ↦
      let apart = not_named spec h in
      rw h (
        λ q. inr (apart, other.0 q),
        elim [ inl (n, _) ↦ absurd (apart n) | inr (_, b) ↦ other.1 b ],
      )
]

param_iff :
    (skip : Bool) (o : Option ParamSpec) (f : ParamSpec → Outcome) (A : ParamSpec → Type 0)
    → ((p : ParamSpec) → (f p ≡ none) ↔ A p)
    → ((if skip then none else (elim o [ none ↦ none | some p ↦ f p ])) ≡ none)
      ↔ (skip ≡ false → (p : ParamSpec) → o ≡ some p → A p)
param_iff true o f A iff = (λ h e. cc, λ h. refl)
param_iff false none f A iff = (λ h e p q. cc, λ h. refl)
param_iff false (some s) f A iff = (
  λ h e p q. let same : s ≡ p = ground (arith, q) in rw same at ((iff s).0 h),
  λ h. (iff s).1 (h refl s refl),
)

tag_iff :
    (o : Option String) (wrong : RegistryError) (f : String → Outcome) (A : String → Type 0)
    → ((k : String) → (f k ≡ none) ↔ A k)
    → (elim o [ none ↦ some wrong | some k ↦ f k ] ≡ none) ↔ ((k : String) × (o ≡ some k) × A k)
tag_iff none wrong f A iff = (λ h. cc, λ (k, e, a). cc)
tag_iff (some s) wrong f A iff = (
  λ h. (s, refl, (iff s).0 h),
  λ (k, e, a). let same : k ≡ s = ground (arith, e) in (iff s).1 (rw same at a),
)

mutual
  unfolding check_value Fits

  check_value_iff :
      (reg : Registry) (kind name : String) (spec : ParamSpec) (v : Json)
      → (check_value reg kind name spec v ≡ none) ↔ Fits reg spec v
  check_value_iff reg kind name spec (Json.array vs) =
      either_array spec _ _ (check_items_iff reg (no_validators kind name) vs)
        (scalar_iff kind name spec (Json.array vs))
  check_value_iff reg kind name spec Json.null =
      no_array spec _ _ (scalar_iff kind name spec Json.null)
  check_value_iff reg kind name spec (Json.bool b) =
      no_array spec _ _ (scalar_iff kind name spec (Json.bool b))
  check_value_iff reg kind name spec (Json.number n) =
      no_array spec _ _ (scalar_iff kind name spec (Json.number n))
  check_value_iff reg kind name spec (Json.string s) =
      no_array spec _ _ (scalar_iff kind name spec (Json.string s))
  check_value_iff reg kind name spec (Json.object ms) =
      no_array spec _ _ (scalar_iff kind name spec (Json.object ms))

  check_items_iff :
      (reg : Registry) (wrong : RegistryError) (vs : Items)
      → (check_items reg wrong vs ≡ none) ↔ AllFit reg vs
  check_items_iff reg wrong Items.nil = (λ h. tt, λ h. refl)
  check_items_iff reg wrong (Items.cons v vs) =
      let both = and_then_iff (check_nested reg wrong v) (check_items reg wrong vs) in
      let this = check_nested_iff reg wrong v in
      let rest = check_items_iff reg wrong vs in
      (λ h. let (a, b) = both.0 h in (this.0 a, rest.0 b), λ (a, b). both.1 (this.1 a, rest.1 b))

  check_nested_iff :
      (reg : Registry) (wrong : RegistryError) (v : Json)
      → (check_nested reg wrong v ≡ none) ↔ NestedFits reg v
  check_nested_iff reg wrong (Json.object ms) =
      tag_iff (tag_of ms) wrong _ _ (λ kind.
        check_spec_iff reg kind true ms _ _ (λ spec. check_values_iff reg spec kind true ms))
  check_nested_iff reg wrong Json.null = (λ h. cc, λ h. absurd h)
  check_nested_iff reg wrong (Json.bool b) = (λ h. cc, λ h. absurd h)
  check_nested_iff reg wrong (Json.number n) = (λ h. cc, λ h. absurd h)
  check_nested_iff reg wrong (Json.string s) = (λ h. cc, λ h. absurd h)
  check_nested_iff reg wrong (Json.array vs) = (λ h. cc, λ h. absurd h)

  check_values_iff :
      (reg : Registry) (spec : ValidatorSpec) (kind : String) (nested : Bool) (ms : Members)
      → (check_values reg spec kind nested ms ≡ none) ↔ ValuesFit reg spec nested ms
  check_values_iff reg spec kind nested Members.end = (λ h. tt, λ h. refl)
  check_values_iff reg spec kind nested (Members.member name v ms) =
      let this =
        param_iff (is_tag nested name) (param_for reg spec name)
          (λ p. check_value reg kind name p v) (λ p. Fits reg p v)
          (λ p. check_value_iff reg kind name p v) in
      let rest = check_values_iff reg spec kind nested ms in
      let both = and_then_iff _ (check_values reg spec kind nested ms) in
      (λ h. let (a, b) = both.0 h in (this.0 a, rest.0 b), λ (a, b). both.1 (this.1 a, rest.1 b))

-- A validator passes the check exactly if it is well-formed: its tag is that of an implemented
-- validator, its parameters are known, none that is required is missing, one of the alternatives is
-- given, and every value fits its type; a list of validators fits if each of them is well-formed in
-- turn, at any depth.
pub check_iff : (reg : Registry) (v : Validator) → (check reg v ≡ none) ↔ WellFormed reg v
unfolding check WellFormed
check_iff reg v =
    check_spec_iff reg v.kind false v.params _ _
      (λ spec. check_values_iff reg spec v.kind false v.params)
