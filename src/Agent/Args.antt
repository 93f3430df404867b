-- ===== src/Agent/Args.antt =====
-- guest/linuxlab-agent/src/validators/args.rs: reading the parameters of a validator, numeric
-- bounds, and the overrides of its author.
pub mod Limits
use Prim.Native.String.{String, ◌++◌}
use linuxpracticelab.Common.{
  ℕ, Bool, true, false, not, ◌&&◌, ◌⊎◌, inl, inr, Option, none, some, List, [], ◌∷◌, leb,
  if◌then◌else◌,
}
use linuxpracticelab.Common.Assoc.{Assoc, lookup}
use linuxpracticelab.Common.Int.{ℤ, pos, negsuc, earlier, same_int, show_int}
use linuxpracticelab.SharedTypes.Json.{Json, Items, get, as_str, as_array}
use linuxpracticelab.SharedTypes.Lesson.{Validator, str_param, i64_param, bool_param}
use linuxpracticelab.SharedTypes.Validation.{CheckOutcome, error}
use linuxpracticelab.SharedTypes.Validation.Category
use linuxpracticelab.SharedTypes.Validation.Category.{FailureCategory}

-- `Result<T, CheckOutcome>`.
abbrev pub ArgResult : Type 0 → Type 0
ArgResult A = A ⊎ CheckOutcome

-- The macro `arg!`: an error is what the caller returns.
abbrev pub arg : {A : Type 0} → ArgResult A → (A → CheckOutcome) → CheckOutcome
arg (inl a) next = next a
arg (inr outcome) next = outcome

unfoldable pub missing : Validator → String → CheckOutcome
missing v param = error v.kind (
    "internal error: validator '" ++ v.kind ++ "' reached the agent without its '" ++ param
    ++ "' parameter")

abbrev pub ok_or : {A : Type 0} → Option A → CheckOutcome → ArgResult A
ok_or none outcome = inr outcome
ok_or (some a) outcome = inl a

unfoldable pub string : Validator → String → ArgResult String
string v param = ok_or (str_param v param) (missing v param)

-- A path is the text that `display` shows.
unfoldable pub path : Validator → String → ArgResult String
path v param = string v param

abbrev pub unwrap_or {ℓ} : {A : Type ℓ} → Option A → A → A
unwrap_or none d = d
unwrap_or (some a) d = a

unfoldable pub flag_or : Validator → String → Bool → Bool
flag_or v param default = unwrap_or (bool_param v param) default

unfoldable pub flag : Validator → String → Bool
flag v param = flag_or v param false

unfoldable pub texts : Items → List String
texts Items.nil = []
texts (Items.cons value vs) =
    let rest = texts vs in elim (as_str value) [ none ↦ rest | some s ↦ s ∷ rest ]

abbrev pub array_of : Option Json → Option Items
array_of none = none
array_of (some value) = as_array value

abbrev pub texts_of : Option Items → Option (List String)
texts_of none = none
texts_of (some vs) = some (texts vs)

unfoldable pub string_list : Validator → String → ArgResult (List String)
string_list v param = ok_or (texts_of (array_of (get param v.params))) (missing v param)

abbrev pub capped : ℤ → Option ℕ
capped (pos ms) = if leb ms 0 then none else (if leb ms 120000 then some ms else some 120000)
capped (negsuc n) = none

abbrev pub capped_of : Option ℤ → Option ℕ
capped_of none = none
capped_of (some ms) = capped ms

-- In milliseconds.
unfoldable pub timeout : Validator → Option ℕ
timeout v = capped_of (i64_param v "timeoutMs")

pub record Bounds : Type 0 where
  pub equals : Option ℤ
  pub minimum : Option ℤ
  pub maximum : Option ℤ

unfoldable pub read : Validator → Bounds
read v = record {
  equals = i64_param v "equals";
  minimum = i64_param v "min";
  maximum = i64_param v "max";
}

abbrev pub holds : Option ℤ → (ℤ → Bool) → Bool
holds none test = true
holds (some n) test = test n

unfoldable pub satisfied_by : Bounds → ℤ → Bool
satisfied_by b actual =
    holds b.equals (λ n. same_int actual n)
    && holds b.minimum (λ n. not (earlier actual n))
    && holds b.maximum (λ n. not (earlier n actual))

abbrev pub describe_range : Option ℤ → Option ℤ → String
describe_range (some low) (some high) = "between " ++ show_int low ++ " and " ++ show_int high
describe_range (some low) none = "at least " ++ show_int low
describe_range none (some high) = "at most " ++ show_int high
describe_range none none = "any value"

abbrev pub describe_bounds : Option ℤ → Option ℤ → Option ℤ → String
describe_bounds (some n) low high = "exactly " ++ show_int n
describe_bounds none low high = describe_range low high

unfoldable pub describe : Bounds → String
describe b = describe_bounds b.equals b.minimum b.maximum

abbrev pub category_names : Assoc FailureCategory
category_names =
    ("command_not_found", Category.command_not_found)
    ∷ ("invalid_option", Category.invalid_option)
    ∷ ("wrong_working_directory", Category.wrong_working_directory)
    ∷ ("wrong_path", Category.wrong_path)
    ∷ ("permission_denied", Category.permission_denied)
    ∷ ("file_already_exists", Category.file_already_exists)
    ∷ ("wrong_file_type", Category.wrong_file_type)
    ∷ ("wrong_file_contents", Category.wrong_file_contents)
    ∷ ("wrong_ownership", Category.wrong_ownership)
    ∷ ("wrong_permissions", Category.wrong_permissions)
    ∷ ("process_not_running", Category.process_not_running)
    ∷ ("service_not_active", Category.service_not_active)
    ∷ ("wrong_port", Category.wrong_port)
    ∷ ("incorrect_redirect", Category.incorrect_redirect)
    ∷ ("pipeline_output_incorrect", Category.pipeline_output_incorrect)
    ∷ ("script_syntax_failure", Category.script_syntax_failure)
    ∷ ("script_logic_failure", Category.script_logic_failure)
    ∷ ("network_unreachable", Category.network_unreachable)
    ∷ ("dns_failure", Category.dns_failure)
    ∷ ("task_partially_completed", Category.task_partially_completed)
    ∷ []

-- The names that serde gives the categories.
unfoldable pub parse_failure_category : String → Option FailureCategory
parse_failure_category value = lookup value category_names

abbrev pub clamp_weight : ℤ → ℕ
clamp_weight (pos n) = if leb n 1 then 1 else (if leb n 100 then n else 100)
clamp_weight (negsuc n) = 1

abbrev pub set_message : Option String → CheckOutcome → CheckOutcome
set_message none o = o
set_message (some text) o = record o { message = text }

abbrev pub category_of : Option String → Option FailureCategory
category_of none = none
category_of (some text) = parse_failure_category text

abbrev pub set_category : Option FailureCategory → CheckOutcome → CheckOutcome
set_category none o = o
set_category (some c) o = record o { failure_category = some c }

abbrev pub set_weight : Option ℤ → CheckOutcome → CheckOutcome
set_weight none o = o
set_weight (some n) o = record o { weight = clamp_weight n }

unfoldable pub apply_overrides : Validator → CheckOutcome → CheckOutcome
apply_overrides v o = set_weight (i64_param v "weight") (
    if not o.passed && not o.errored
    then set_category (category_of (str_param v "failureCategory"))
        (set_message (str_param v "message") o)
    else o)
