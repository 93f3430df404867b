-- ===== src/SharedTypes/Registry/Check.antt =====
-- crates/shared-types/src/registry.rs: Registry::check and check_value, which call each other where
-- a parameter holds validators.
use Prim.Native.String.{String}
use text.Mathlib.Text.{◌==◌ as str_eq}
use linuxpracticelab.Common.{
  Bool, true, false, not, ◌||◌, Option, none, some, List, any, is_empty, if◌then◌else◌,
}
use linuxpracticelab.Common.Assoc.{Assoc, lookup}
use linuxpracticelab.SharedTypes.Json.{Json, Items, Members, get}
use linuxpracticelab.SharedTypes.Lesson.{Validator}
use linuxpracticelab.SharedTypes.Registry.{
  ParamSpec, ValidatorSpec, Registry, RegistryError, unknown_validator, not_implemented,
  missing_param, unknown_param, missing_one_of, wrong_param_type, bad_enum_value, Outcome, and_then,
  each, fail_unless, is_tag, names, has_param,
}
use linuxpracticelab.SharedTypes.Registry.Values.{
  is_integer, is_port, is_bool, is_string, is_string_list, is_mode, is_sha256, is_path,
}

-- `BTreeMap::contains_key` of parameter tables.
abbrev pub declares : Assoc ParamSpec → String → Bool
declares specs name = elim (lookup name specs) [ none ↦ false | some p ↦ true ]

abbrev pub is_known : Registry → ValidatorSpec → String → Bool
is_known reg spec name = declares spec.params name || declares reg.common_params name

-- The specification that applies to a parameter: the validator's own before the common one.
abbrev pub param_for : Registry → ValidatorSpec → String → Option ParamSpec
param_for reg spec name = elim (lookup name spec.params) [
  | none ↦ lookup name reg.common_params
  | some p ↦ some p
]

unfoldable pub check_unknown : Registry → ValidatorSpec → String → List String → Outcome
check_unknown reg spec kind given =
    each (λ name. fail_unless (is_known reg spec name) (unknown_param kind name)) given

unfoldable pub check_missing : ValidatorSpec → String → Bool → Members → Outcome
check_missing spec kind nested ms =
    each
      (λ (p : String × ParamSpec).
        fail_unless (not p.1.required || has_param nested ms p.0) (missing_param kind p.0))
      spec.params

unfoldable pub check_one_of : ValidatorSpec → String → Bool → Members → Outcome
check_one_of spec kind nested ms =
    fail_unless (is_empty spec.requires_one_of || any (has_param nested ms) spec.requires_one_of)
      (missing_one_of kind spec.requires_one_of)

-- What stands before the loop over the values.
unfoldable pub check_params : Registry → ValidatorSpec → String → Bool → Members → Outcome
check_params reg spec kind nested ms =
    and_then (check_unknown reg spec kind (names nested ms))
      (and_then (check_missing spec kind nested ms) (check_one_of spec kind nested ms))

abbrev pub is_allowed : List String → Json → Bool
is_allowed values (Json.string s) = any (str_eq s) values
is_allowed values _ = false

-- The types of parameters whose values hold no validators.
unfoldable pub check_scalar : String → String → ParamSpec → Json → Outcome
check_scalar kind name spec v =
    let wrong = wrong_param_type kind name in
    if str_eq spec.param_type "int"
    then fail_unless (is_integer v) (wrong "an integer")
    else (if str_eq spec.param_type "port"
        then and_then (fail_unless (is_integer v) (wrong "an integer"))
            (fail_unless (is_port v) (wrong "a port between 1 and 65535"))
        else (if str_eq spec.param_type "bool"
            then fail_unless (is_bool v) (wrong "a boolean")
            else (if str_eq spec.param_type "list<string>"
                then fail_unless (is_string_list v) (wrong "an array of strings")
                else (if str_eq spec.param_type "enum"
                    then and_then (fail_unless (is_string v) (wrong "a string")) (
                        fail_unless (is_allowed spec.values v)
                          (bad_enum_value kind name spec.values))
                    else (if str_eq spec.param_type "path"
                        then and_then (fail_unless (is_string v) (wrong "a string path"))
                            (fail_unless (is_path v) (wrong "a non-empty path"))
                        else (if str_eq spec.param_type "mode"
                            then fail_unless (is_mode v) (wrong "an octal mode such as \"0644\"")
                            else (if str_eq spec.param_type "sha256"
                                then and_then (fail_unless (is_string v) (wrong "a hex digest")) (
                                    fail_unless (is_sha256 v)
                                      (wrong "a 64 character hex SHA-256 digest"))
                                else fail_unless (is_string v) (wrong "a string"))))))))

-- What is wrong where `validators` are asked for and the value holds none.
abbrev pub no_validators : String → String → RegistryError
no_validators kind name = wrong_param_type kind name "an array of validators"

-- The tag of a nested validator, as serde reads it.
abbrev text_of : Json → Option String
text_of (Json.string s) = some s
text_of _ = none

abbrev pub tag_of : Members → Option String
tag_of ms = elim (get "type" ms) [ none ↦ none | some v ↦ text_of v ]

abbrev pub holds_validators : ParamSpec → Bool
holds_validators spec = str_eq spec.param_type "validators"

-- `check` around its loop over the values, whose outcome depends on the specification found.
abbrev pub check_spec : Registry → String → Bool → Members → (ValidatorSpec → Outcome) → Outcome
check_spec reg kind nested ms values = elim (lookup kind reg.validators) [
  | none ↦ some (unknown_validator kind)
  | some spec ↦
      if spec.implemented
      then and_then (check_params reg spec kind nested ms) (values spec)
      else some (not_implemented kind)
]

unfoldable mutual
  pub check_value : Registry → String → String → ParamSpec → Json → Outcome
  check_value reg kind name spec (Json.array vs) =
      let nested = check_items reg (no_validators kind name) vs in
      if holds_validators spec then nested else check_scalar kind name spec (Json.array vs)
  check_value reg kind name spec v =
      if holds_validators spec
      then some (no_validators kind name)
      else check_scalar kind name spec v

  pub check_items : Registry → RegistryError → Items → Outcome
  check_items reg wrong Items.nil = none
  check_items reg wrong (Items.cons v vs) =
      and_then (check_nested reg wrong v) (check_items reg wrong vs)

  pub check_nested : Registry → RegistryError → Json → Outcome
  check_nested reg wrong (Json.object ms) = elim (tag_of ms) [
    | none ↦ some wrong
    | some kind ↦ check_spec reg kind true ms (λ spec. check_values reg spec kind true ms)
  ]
  check_nested reg wrong _ = some wrong

  pub check_values : Registry → ValidatorSpec → String → Bool → Members → Outcome
  check_values reg spec kind nested Members.end = none
  check_values reg spec kind nested (Members.member name v ms) =
      and_then
        (if is_tag nested name then none else (elim (param_for reg spec name) [
          | none ↦ none
          | some p ↦ check_value reg kind name p v
        ]))
        (check_values reg spec kind nested ms)

unfoldable pub check : Registry → Validator → Outcome
check reg v =
    check_spec reg v.kind false v.params (λ spec. check_values reg spec v.kind false v.params)
