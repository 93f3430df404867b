-- ===== src/Agent/Validators.antt =====
-- guest/linuxlab-agent/src/validators/mod.rs: how a validator is run, and a task. A category of
-- validators is a function that returns `none` for the tags it does not own; running a check may
-- change the guest, as the checks of scripts do.
pub mod Categories
pub mod Passing
use Prim.Native.String.{String, ◌++◌}
use linuxpracticelab.Common.{ℕ, Bool, true, false, Option, none, some, List, [], ◌∷◌, if◌then◌else◌}
use linuxpracticelab.Common.Int.{ℤ, show_int}
use linuxpracticelab.SharedTypes.Float.{Float64}
use linuxpracticelab.SharedTypes.Lesson.{Validator, str_param}
use linuxpracticelab.SharedTypes.Validation.{
  CheckOutcome, error, TaskValidation, from_outcomes, or_else,
}
use linuxpracticelab.SharedTypes.Registry.{Registry, RegistryError}
use linuxpracticelab.SharedTypes.Registry.Check.{check}
use linuxpracticelab.Agent.Args.{apply_overrides}

pub record Ctx : Type 0 where
  pub subject_user : String
  pub attempt_started_at : Option ℤ
  pub default_namespace : Option String
  pub lesson_root : String

unfoldable pub namespace_for : Ctx → Validator → Option String
namespace_for ctx v = or_else (str_param v "namespace") ctx.default_namespace

abbrev pub since : Option ℤ → String
since none = "-10min"
since (some seconds) = "@" ++ show_int seconds

unfoldable pub attempt_since_expression : Ctx → String
attempt_since_expression ctx = since ctx.attempt_started_at

abbrev pub Handler : Type 0 → Type 0
Handler Guest = Ctx → Validator → Guest → Option CheckOutcome × Guest

abbrev pub claimed :
    {Guest : Type 0}
    → Option CheckOutcome
    → Guest
    → (Guest → Option CheckOutcome × Guest)
    → Option CheckOutcome × Guest
claimed none g next = next g
claimed (some o) g next = (some o, g)

-- The categories are tried in turn.
unfoldable pub dispatch : {Guest : Type 0} → List (Handler Guest) → Handler Guest
dispatch [] ctx v g = (none, g)
dispatch (h ∷ hs) ctx v g =
    let (o, after) = h ctx v g in claimed o after (λ next. dispatch hs ctx v next)

abbrev pub handled : Validator → Option CheckOutcome → CheckOutcome
handled v none =
    error v.kind (
      "validator '" ++ v.kind
      ++ "' is declared as implemented but this agent has no handler for it")
handled v (some o) = o

module _ {Guest : Type 0} (reg : Registry) (render : RegistryError → String)
    (categories : List (Handler Guest)) where
  abbrev pub after_check : Ctx → Validator → Option RegistryError → Guest → CheckOutcome × Guest
  after_check ctx v none g =
      let (o, after) = dispatch categories ctx v g in (apply_overrides v (handled v o), after)
  after_check ctx v (some err) g = (error v.kind ("this task cannot be checked: " ++ render err), g)

  unfoldable pub evaluate : Ctx → Validator → Guest → CheckOutcome × Guest
  evaluate ctx v g = after_check ctx v (check reg v) g

  -- The outcomes of a task's validators, in order.
  unfoldable pub run_all : Ctx → List Validator → Guest → List CheckOutcome × Guest
  run_all ctx [] g = ([], g)
  run_all ctx (v ∷ vs) g =
      let (o, after) = evaluate ctx v g in let (os, last) = run_all ctx vs after in (o ∷ os, last)

  unfoldable pub validate_task :
      Float64 → Ctx → String → String → List Validator → Guest → TaskValidation × Guest
  validate_task fl ctx lesson task vs g =
      let (os, last) = run_all ctx vs g in (from_outcomes fl lesson task os, last)
