-- ===== src/LessonEngine/Tests/Messages.antt =====
-- Feedback at concrete verdicts.
use mathlib.Core.Option
use linuxpracticelab.Common.{
  ◌≡◌, ◌↔◌, true, false, none, some, List, [], ◌∷◌, ltb, Any, refl, if◌then◌else◌,
}
use linuxpracticelab.Common.Decimal.{decimal}
use linuxpracticelab.SharedTypes.Float.{percent_of}
use linuxpracticelab.SharedTypes.Float.Fixed.{fixed}
use linuxpracticelab.SharedTypes.Validation.{
  CheckOutcome, TaskValidation, from_outcomes, pass, fail, error, expected, observed,
}
use linuxpracticelab.SharedTypes.Validation.Category.{
  FailureCategory, wrong_permissions, wrong_ownership, task_partially_completed, guidance,
}
use linuxpracticelab.LessonEngine.Feedback.{detail, failed, categories, shape_feedback}
use linuxpracticelab.LessonEngine.Feedback.Blame.{IsErrored, OnlyErrors, authoring_error_iff}
use linuxpracticelab.LessonEngine.Feedback.Cause.{Agree, category_lem}

abbrev faulty : List CheckOutcome
faulty = error "nonexistent_validator" "unknown validator" ∷ pass "file_exists" "ok" ∷ []

abbrev wrong_mode : CheckOutcome
wrong_mode =
    observed (expected (fail "file_mode" "The permissions differ." wrong_permissions) "0640") "0644"

abbrev two_causes : List CheckOutcome
two_causes =
    pass "directory_exists" "ok" ∷ fail "file_owner" "wrong owner" wrong_ownership ∷ wrong_mode ∷ []

detail_run : detail wrong_mode ≡ "The permissions differ. (expected 0640, found 0644)"
unfolding detail observed expected fail
detail_run = refl

headline_run :
    (shape_feedback (from_outcomes fixed "l" "t" two_causes)).headline
    ≡ "Almost there: 33% of this task is done."
unfolding shape_feedback from_outcomes percent_of pass fail observed expected decimal
headline_run = refl

authoring_error_iff_example :
    ((shape_feedback (from_outcomes fixed "l" "t" faulty)).authoring_error ≡ true)
    ↔ (Any IsErrored faulty × OnlyErrors faulty)
unfolding error pass
authoring_error_iff_example =
    authoring_error_iff fixed "l" "t" faulty ((λ e. refl), ((λ e. sound e), tt))
  where
    sound : false ≡ true → true ≡ false
    sound e = cc

abbrev mixed : TaskValidation
mixed = record {
  lesson_id = "l";
  task_id = "t";
  passed = false;
  outcomes = two_causes;
  completion_percent = 33;
  primary_failure = none;
  errored = false;
}

category_lem_example :
    ((c : FailureCategory)
      → Agree c (categories (failed two_causes))
      → (shape_feedback mixed).category ≡ some c)
    × (((c : FailureCategory) → ¬ Agree c (categories (failed two_causes)))
        → (shape_feedback mixed).category
          ≡ (if ltb 0 33 then some task_partially_completed else none))
    × ((shape_feedback mixed).advice ≡ Option.map guidance (shape_feedback mixed).category)
category_lem_example = category_lem mixed refl checkable
  where
    checkable : (shape_feedback mixed).authoring_error ≡ false
    checkable = unfold shape_feedback in refl
