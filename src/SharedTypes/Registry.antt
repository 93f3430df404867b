-- ===== src/SharedTypes/Registry.antt =====
-- crates/shared-types/src/registry.rs: a validator against the registry of known validators. The
-- registry itself is data, so it is an argument: the
-- one that `registry()` embeds is also the one that nested validators are checked against. Maps list
-- their entries in the order of their keys.
pub mod Values
pub mod Check
pub mod Accepted
pub mod Kinds
pub mod Modes
pub mod Scalars
use Prim.Native.String.{String}
use linuxpracticelab.Common.{
  ℕ, Bool, true, false, not, ◌&&◌, List, [], ◌∷◌, Option, none, some, select, if◌then◌else◌,
}
use linuxpracticelab.Common.Assoc.{Assoc, lookup}
use text.Mathlib.Text.{◌==◌}
use linuxpracticelab.SharedTypes.Json.{Members, keys, contains_key}

pub record ParamSpec : Type 0 where
  pub param_type : String
  pub required : Bool
  pub values : List String

pub record ValidatorSpec : Type 0 where
  pub category : String
  pub implemented : Bool
  pub failure_category : String
  pub params : Assoc ParamSpec
  pub requires_one_of : List String

pub record Registry : Type 0 where
  pub failure_categories : List String
  pub common_params : Assoc ParamSpec
  pub validators : Assoc ValidatorSpec

pub data RegistryError : Type 0 where
  unknown_validator not_implemented : String → RegistryError
  missing_param unknown_param : String → String → RegistryError
  missing_one_of : String → List String → RegistryError
  wrong_param_type : String → String → String → RegistryError
  bad_enum_value : String → String → List String → RegistryError

-- `Ok(())` is `none`.
abbrev pub Outcome : Type 0
Outcome = Option RegistryError

-- `?` between two checks.
abbrev pub and_then : Outcome → Outcome → Outcome
and_then none next = next
and_then (some e) next = some e

-- A loop with `?` in its body.
abbrev pub each {ℓ} : {A : Type ℓ} → (A → Outcome) → List A → Outcome
each f [] = none
each f (a ∷ rest) = and_then (f a) (each f rest)

abbrev pub fail_unless : Bool → RegistryError → Outcome
fail_unless ok e = if ok then none else some e

-- The parameters of a validator are the members of its JSON object but for the tag, which serde
-- takes out when it reads a nested validator. The flag tells the two apart.
abbrev pub is_tag : Bool → String → Bool
is_tag nested name = nested && name == "type"

abbrev pub names : Bool → Members → List String
names nested ms = select (λ name. not (is_tag nested name)) (keys ms)

abbrev pub has_param : Bool → Members → String → Bool
has_param nested ms name = not (is_tag nested name) && contains_key name ms
