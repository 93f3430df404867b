-- ===== src/SharedTypes/Tests/Validators.antt =====
-- A small registry, and validators that it accepts and refuses.
use Prim.Native.String.{String}
use linuxpracticelab.Common.{◌≡◌, ◌↔◌, true, false, none, some, [], ◌∷◌, refl}
use linuxpracticelab.Common.Assoc.{lookup}
use linuxpracticelab.SharedTypes.Json.{Json, Number, Items, Members, get, contains_key, keys}
use linuxpracticelab.SharedTypes.Lesson.{Validator}
use linuxpracticelab.SharedTypes.Registry.{
  ParamSpec, Registry, unknown_validator, missing_param, unknown_param, missing_one_of,
  wrong_param_type,
}
use linuxpracticelab.SharedTypes.Registry.Values.{octal_from, trim_0o, reads_octal}
use linuxpracticelab.SharedTypes.Registry.Check.{
  check_unknown, check_missing, check_one_of, check_params, check_scalar, check_value, check,
}
use linuxpracticelab.SharedTypes.Registry.Accepted.{WellFormed, check_iff}

abbrev param : String → ParamSpec
param type = record { param_type = type; required = false; values = [] }

abbrev required : String → ParamSpec
required type = record { param_type = type; required = true; values = [] }

abbrev protocol : ParamSpec
protocol = record { param_type = "enum"; required = false; values = "tcp" ∷ "udp" ∷ [] }

abbrev small : Registry
small = record {
  failure_categories = "wrong_port" ∷ [];
  common_params = ("message", param "string") ∷ [];
  validators =
      (
        "all_of",
        record {
          category = "logic";
          implemented = true;
          failure_category = "wrong_port";
          params = ("checks", required "validators") ∷ [];
          requires_one_of = [];
        },
      )
      ∷ (
        "port_open",
        record {
          category = "network";
          implemented = true;
          failure_category = "wrong_port";
          params =
              ("mode", param "mode")
              ∷ ("port", param "port")
              ∷ ("protocol", protocol)
              ∷ ("service", param "string")
              ∷ [];
          requires_one_of = "port" ∷ "service" ∷ [];
        },
      )
      ∷ [];
}

abbrev port_80 : Members
port_80 = Members.member "port" (Json.number (Number.pos_int 80)) Members.end

abbrev open_80 : Validator
open_80 = record { kind = "port_open"; params = port_80 }

abbrev all_of : Items → Validator
all_of vs = record { kind = "all_of"; params = Members.member "checks" (Json.array vs) Members.end }

abbrev tagged : String → Members → Json
tagged kind ms = Json.object (Members.member "type" (Json.string kind) ms)

check_run :
    (check small open_80 ≡ none)
    × (check small (all_of (Items.cons (tagged "port_open" port_80) Items.nil)) ≡ none)
    × (check small (all_of (Items.cons (tagged "ping" port_80) Items.nil))
        ≡ some (unknown_validator "ping"))
    × (check small (all_of (Items.cons (Json.bool true) Items.nil))
        ≡ some (wrong_param_type "all_of" "checks" "an array of validators"))
    × (check small (record open_80 { params = Members.end })
        ≡ some (missing_one_of "port_open" ("port" ∷ "service" ∷ [])))
    × (check small (record { kind = "all_of"; params = port_80 })
        ≡ some (unknown_param "all_of" "port"))
    × (check small (record { kind = "all_of"; params = Members.end })
        ≡ some (missing_param "all_of" "checks"))
unfolding check check_value check_params check_unknown check_missing check_one_of check_scalar
    lookup get contains_key keys
check_run = (refl, refl, refl, refl, refl, refl, refl)

reads_octal_run :
    (reads_octal (trim_0o "0o644") ≡ true)
    × (reads_octal "0648" ≡ false)
    × (reads_octal "" ≡ false)
    × (reads_octal "40000000000" ≡ false)
unfolding reads_octal trim_0o octal_from
reads_octal_run = (refl, refl, refl, refl)

check_iff_example : (check small open_80 ≡ none) ↔ WellFormed small open_80
check_iff_example = check_iff small open_80
