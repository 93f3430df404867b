-- ===== src/SharedTypes/Validation.antt =====
-- crates/shared-types/src/validation.rs: check outcomes, and how the outcomes of a task's checks
-- become its verdict. Weights are `u32`; their sums wrap, as in the release profile.
pub mod Category
pub mod Verdict
pub mod Percent
pub mod Primary
use Prim.Native.Nat.{max}
use Prim.Native.String.{String}
use linuxpracticelab.Common.{
  ℕ, ◌%◌, ◌^◌, ◌≡◌, Bool, true, false, not, ◌&&◌, Option, none, some, List, map, select, find, all,
  any, is_empty, sum, ◌==◌, if◌then◌else◌,
}
use linuxpracticelab.SharedTypes.Float.{Float64, percent_of}
use Category.{FailureCategory}

pub record CheckOutcome : Type 0 where
  pub kind : String
  pub passed : Bool
  pub message : String
  pub failure_category : Option FailureCategory
  pub observed : Option String
  pub expected : Option String
  pub weight : ℕ
  pub errored : Bool

unfoldable pub pass : String → String → CheckOutcome
pass k m = record {
  kind = k;
  passed = true;
  message = m;
  failure_category = none;
  observed = none;
  expected = none;
  weight = 1;
  errored = false;
}

unfoldable pub fail : String → String → FailureCategory → CheckOutcome
fail k m c = record {
  kind = k;
  passed = false;
  message = m;
  failure_category = some c;
  observed = none;
  expected = none;
  weight = 1;
  errored = false;
}

unfoldable pub error : String → String → CheckOutcome
error k m = record {
  kind = k;
  passed = false;
  message = m;
  failure_category = none;
  observed = none;
  expected = none;
  weight = 1;
  errored = true;
}

unfoldable pub observed : CheckOutcome → String → CheckOutcome
observed o text = record o { observed = some text }

unfoldable pub expected : CheckOutcome → String → CheckOutcome
expected o text = record o { expected = some text }

unfoldable pub weighted : CheckOutcome → ℕ → CheckOutcome
weighted o w = record o { weight = max w 1 }

pub record TaskValidation : Type 0 where
  pub lesson_id : String
  pub task_id : String
  pub passed : Bool
  pub outcomes : List CheckOutcome
  pub completion_percent : ℕ
  pub primary_failure : Option CheckOutcome
  pub errored : Bool

-- `sum()` over `u32`.
abbrev pub total_weight : List CheckOutcome → ℕ
total_weight os = sum (map (λ (o : CheckOutcome). o.weight) os) % 2 ^ 32

abbrev pub earned_weight : List CheckOutcome → ℕ
earned_weight os = total_weight (select (λ o. o.passed) os)

abbrev pub or_else {ℓ} : {A : Type ℓ} → Option A → Option A → Option A
or_else none b = b
or_else (some a) b = some a

unfoldable pub completion : Float64 → List CheckOutcome → ℕ
completion fl os =
    if total_weight os == 0 then 0 else percent_of fl (earned_weight os) (total_weight os)

unfoldable pub primary : List CheckOutcome → Option CheckOutcome
primary os = or_else (find (λ o. not o.passed && not o.errored) os) (find (λ o. not o.passed) os)

-- `TaskValidation::from_outcomes`
unfoldable pub from_outcomes : Float64 → String → String → List CheckOutcome → TaskValidation
unfolding completion primary
from_outcomes fl lesson task os = record {
  lesson_id = lesson;
  task_id = task;
  passed = not (is_empty os) && all (λ o. o.passed) os;
  outcomes = os;
  completion_percent = completion fl os;
  primary_failure = primary os;
  errored = any (λ o. o.errored) os;
}
