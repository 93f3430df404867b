-- ===== src/LessonEngine/Feedback.antt =====
-- crates/lesson-engine/src/feedback.rs: the message that a learner reads after a check.
pub mod Blame
pub mod Cause
use Prim.Native.String
use Prim.Native.String.{String}
use mathlib.Core.Option
use linuxpracticelab.Common.{
  ℕ, Bool, true, false, not, ◌&&◌, Option, none, some, List, [], ◌∷◌, map, select, all, ltb,
  if◌then◌else◌,
}
use linuxpracticelab.Common.Decimal.{decimal}
use linuxpracticelab.SharedTypes.Validation.{CheckOutcome, TaskValidation}
use linuxpracticelab.SharedTypes.Validation.Category.{
  FailureCategory, task_partially_completed, guidance, same_category,
}

pub record Feedback : Type 0 where
  pub headline : String
  pub category : Option FailureCategory
  pub advice : Option String
  pub details : List String
  pub partial : Bool
  pub authoring_error : Bool

infixl 65 ◌+++◌
abbrev ◌+++◌ : String → String → String
a +++ b = String.◌++◌ a b

-- What was expected and observed is folded into the line.
abbrev pub with_evidence : String → Option String → Option String → String
with_evidence message (some e) (some o) =
    message +++ " (expected " +++ e +++ ", found " +++ o +++ ")"
with_evidence message none (some o) = message +++ " (found " +++ o +++ ")"
with_evidence message _ none = message

unfoldable pub detail : CheckOutcome → String
detail o = with_evidence o.message o.expected o.observed

abbrev pub failed : List CheckOutcome → List CheckOutcome
failed os = select (λ o. not o.passed) os

-- `filter_map(|o| o.failure_category)`
abbrev pub categories : List CheckOutcome → List FailureCategory
categories [] = []
categories (o ∷ os) = elim o.failure_category [ none ↦ categories os | some c ↦ c ∷ categories os ]

-- The category that all of a list are, if there is one.
unfoldable pub unanimous : List FailureCategory → Option FailureCategory
unanimous [] = none
unanimous (c ∷ cs) = if all (λ d. same_category d c) (c ∷ cs) then some c else none

unfoldable pub cause : Option FailureCategory → Bool → Option FailureCategory
cause (some single) partial = some single
cause none true = some task_partially_completed
cause none false = none

-- The three returns of `shape_feedback`, the first two of them early.
unfoldable pub shape_feedback : TaskValidation → Feedback
unfolding unanimous cause
shape_feedback v =
    let bad = failed v.outcomes in
    let details = map detail bad in
    let partial = ltb 0 v.completion_percent in
    let category = cause (unanimous (categories bad)) partial in
    if v.passed
    then record {
      headline = "Correct.";
      category = none;
      advice = none;
      details = [];
      partial = false;
      authoring_error = false;
    }
    else (if v.errored && all (λ o. o.errored) bad
        then record {
          headline = "This task could not be checked.";
          category = none;
          advice =
              some
                "The lesson package is faulty rather than your answer. Reporting this with the diagnostic export helps get it fixed.";
          details = details;
          partial = false;
          authoring_error = true;
        }
        else record {
          headline =
              if partial
              then "Almost there: " +++ decimal v.completion_percent +++ "% of this task is done."
              else "Not quite yet.";
          category = category;
          advice = Option.map guidance category;
          details = details;
          partial = partial;
          authoring_error = false;
        })
