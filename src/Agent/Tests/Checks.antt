-- ===== src/Agent/Tests/Checks.antt =====
-- A task with one check, of a kind that one category owns, and what the author of a check may change.
use Prim.Native.String.{String}
use text.Mathlib.Text
use linuxpracticelab.Common.{
  Bool, ◌≡◌, ◌≢◌, ◌↔◌, true, false, none, some, List, [], ◌∷◌, refl, if◌then◌else◌,
}
use linuxpracticelab.Common.Assoc.{lookup}
use linuxpracticelab.Common.Int.{pos}
use linuxpracticelab.SharedTypes.Float.Fixed.{fixed}
use linuxpracticelab.SharedTypes.Json.{Json, Number, Members, get, contains_key, keys}
use linuxpracticelab.SharedTypes.Lesson.{Validator, str_param, i64_param}
use linuxpracticelab.SharedTypes.Validation.{
  CheckOutcome, pass, fail, from_outcomes, completion, primary,
}
use linuxpracticelab.SharedTypes.Validation.Category
use linuxpracticelab.SharedTypes.Registry.{ParamSpec, Registry, RegistryError}
use linuxpracticelab.SharedTypes.Registry.Check.{
  check_unknown, check_missing, check_one_of, check_params, check_scalar, check_value, check,
}
use linuxpracticelab.Agent.Args.{apply_overrides, timeout}
use linuxpracticelab.Agent.Validators.{Ctx, Handler, dispatch, evaluate, run_all, validate_task}
use linuxpracticelab.Agent.Validators.Categories.{agent_categories}
use linuxpracticelab.Agent.System.{System}
use linuxpracticelab.Agent.Filesystem.{file_dispatch}
use linuxpracticelab.Agent.Process.{process_dispatch}
use linuxpracticelab.Agent.Service.{service_dispatch}
use linuxpracticelab.Agent.Identity.{account_dispatch}
use linuxpracticelab.Agent.Tests.Paths.{guest}
use linuxpracticelab.Agent.Validators.Passing.{AllSatisfied, validate_task-passed_iff}

abbrev param : String → ParamSpec
param type = record { param_type = type; required = true; values = [] }

abbrev small : Registry
small = record {
  failure_categories = [];
  common_params = ("weight", record { param_type = "int"; required = false; values = [] }) ∷ [];
  validators =
      (
        "file_exists",
        record {
          category = "filesystem";
          implemented = true;
          failure_category = "wrong_path";
          params = ("path", param "path") ∷ [];
          requires_one_of = [];
        },
      )
      ∷ [];
}

abbrev file_there : Validator
file_there = record {
  kind = "file_exists";
  params = Members.member "path" (Json.string "/tmp/a") Members.end;
}

abbrev heavy : Validator
heavy = record {
  kind = "file_exists";
  params = Members.member "path" (Json.string "/tmp/a") (
      Members.member "timeoutMs" (Json.number (Number.pos_int 600000))
        (Members.member "weight" (Json.number (Number.pos_int 500)) Members.end));
}

-- The guest is the list of its files.
abbrev files : Handler (List String)
files ctx v g =
    if text.Mathlib.Text.◌==◌ v.kind "file_exists" then (some (outcome g), g) else (none, g)
  where
    outcome : List String → CheckOutcome
    outcome [] = fail v.kind "gone" Category.wrong_path
    outcome (f ∷ fs) = pass v.kind "there"

abbrev ctx : Ctx
ctx = record {
  subject_user = "student";
  attempt_started_at = none;
  default_namespace = none;
  lesson_root = "/opt/linuxlab/lessons/m.01";
}

abbrev render : RegistryError → String
render err = "refused"

abbrev run_in : List String → Bool
run_in g =
    (validate_task small render (files ∷ []) fixed ctx "m.01" "t1" (file_there ∷ []) g).0.passed

validate_task_run : (run_in ("/tmp/a" ∷ []) ≡ true) × (run_in [] ≡ false)
unfolding validate_task run_all evaluate dispatch apply_overrides check check_value check_params
    check_unknown check_missing check_one_of check_scalar lookup get contains_key keys pass fail
    from_outcomes completion primary i64_param str_param
validate_task_run = (refl, refl)

-- The categories of networks and scripts decline every tag here.
abbrev decline : Handler System
decline _ v g = (none, g)

abbrev categories : List (Handler System)
categories = agent_categories (λ g. g) decline decline

validate_task-passed_iff_example :
    ((validate_task small render categories fixed ctx "m.01" "t1" (file_there ∷ []) guest).0.passed
      ≡ true)
    ↔ ((file_there ∷ [] ≢ []) × AllSatisfied small render categories ctx guest (file_there ∷ []))
validate_task-passed_iff_example =
    validate_task-passed_iff small render categories fixed ctx "m.01" "t1" (file_there ∷ []) guest

-- The first three categories decline the tag of an account's check, and the fourth answers.
abbrev account_there : Validator
account_there = record {
  kind = "user_exists";
  params = Members.member "user" (Json.string "student") Members.end;
}

account_answered :
    (dispatch categories ctx account_there guest).0 ≡ account_dispatch guest ctx account_there
unfolding dispatch file_dispatch process_dispatch service_dispatch account_dispatch lookup
account_answered = refl

heavy_weight : i64_param heavy "weight" ≡ some (pos 500)
unfolding i64_param get
heavy_weight = refl

heavy_limit : timeout heavy ≡ some 120000
unfolding timeout i64_param get
heavy_limit = refl
