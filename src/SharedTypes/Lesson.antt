-- ===== src/SharedTypes/Lesson.antt =====
-- crates/shared-types/src/lesson.rs: lessons, tasks and validators as packages declare them.
use Prim.Native.String.{String}
use linuxpracticelab.Common.{
  ℕ, Bool, true, false, not, Option, none, some, List, map, select, sum, length,
}
use linuxpracticelab.Common.Int.{ℤ}
use linuxpracticelab.SharedTypes.Json.{Members, get, as_str, as_i64, as_bool}

pub data LessonType : Type 0 where
  concept demonstration guided_practice independent_practice : LessonType
  debugging scenario review assessment capstone : LessonType

-- Assessment-style lessons hide hints and worked examples.
unfoldable pub hides_hints : LessonType → Bool
hides_hints LessonType.assessment = true
hides_hints LessonType.capstone = true
hides_hints _ = false

pub data TaskKind : Type 0 where
  guided independent mistake applied assessment : TaskKind

-- A tag with its parameters, the other members of the same JSON object.
pub record Validator : Type 0 where
  pub kind : String
  pub params : Members

pub record Task : Type 0 where
  pub id : String
  pub kind : TaskKind
  pub instruction : String
  pub context : Option String
  pub broken_command : Option String
  pub diagnosis : Option String
  pub validators : List Validator
  pub hints : List String
  pub suggested_solution : Option String
  pub known_incorrect_solution : Option String
  pub alternate_solutions : List String
  pub optional : Bool

pub data ResetPolicy : Type 0 where
  per_attempt per_lesson manual never : ResetPolicy

pub data NetworkMode : Type 0 where
  disabled internal_lab restricted_internet : NetworkMode

pub record LessonEnvironment : Type 0 where
  pub profile : String
  pub reset_policy : ResetPolicy
  pub network_mode : NetworkMode
  pub sudo_allowed : Bool
  pub dangerous_allowed : Bool
  pub memory_mb : Option ℕ
  pub namespaces : List String
  pub setup_script : Option String
  pub reset_script : Option String
  pub fixtures : List String

-- The prose of a lesson (title, concepts, content, review questions) plays no part in the rules
-- that are modelled, and is left out.
pub record Lesson : Type 0 where
  pub id : String
  pub lesson_module : String
  pub lesson_type : LessonType
  pub prerequisites : List String
  pub commands : List String
  pub environment : LessonEnvironment
  pub tasks : List Task

unfoldable pub required_tasks : Lesson → List Task
required_tasks l = select (λ t. not t.optional) l.tasks

unfoldable pub total_hints : Lesson → ℕ
unfolding required_tasks
total_hints l = sum (map (λ (t : Task). length t.hints) (required_tasks l))

pub record Module : Type 0 where
  pub id : String
  pub number : ℕ
  pub pack : String
  pub lessons : List String

-- The accessors of a parameter: `none` where it is missing or of another type.
unfoldable pub str_param : Validator → String → Option String
str_param v key = elim (get key v.params) [ none ↦ none | some value ↦ as_str value ]

unfoldable pub i64_param : Validator → String → Option ℤ
i64_param v key = elim (get key v.params) [ none ↦ none | some value ↦ as_i64 value ]

unfoldable pub bool_param : Validator → String → Option Bool
bool_param v key = elim (get key v.params) [ none ↦ none | some value ↦ as_bool value ]
