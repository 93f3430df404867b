-- ===== src/SharedTypes/Tests.antt =====
-- The theorems about crates/shared-types at concrete inputs.
mod Validators
use linuxpracticelab.Common.{
  ℕ, ◌≤◌, ◌≡◌, ◌≢◌, ◌↔◌, ◌⊎◌, true, false, none, some, List, [], ◌∷◌, All, IsFirst, arith, refl,
  not, ◌||◌,
}
use linuxpracticelab.SharedTypes.Float.{percent_of}
use linuxpracticelab.SharedTypes.Float.Fixed.{fixed}
use linuxpracticelab.SharedTypes.Progress.{
  MasteryStatus, rank, evaluate, needs_revisiting, ModuleProgress, completion_percent,
}
use linuxpracticelab.SharedTypes.Progress.Ladder.{
  needs_revisiting-evaluate, evaluate_antitone, completion_percent_bounds,
}
use linuxpracticelab.SharedTypes.Validation.{
  CheckOutcome, from_outcomes, pass, fail, error, weighted,
}
use linuxpracticelab.SharedTypes.Validation.Category.{wrong_path}
use linuxpracticelab.SharedTypes.Validation.Verdict.{
  Passed, from_outcomes-passed_iff, from_outcomes_errored,
}
use linuxpracticelab.SharedTypes.Validation.Percent.{
  completion_percent_range, completion_percent_mono,
}
use linuxpracticelab.SharedTypes.Validation.Primary.{IsReal, IsFailed, primary_failure_lem}

-- The ladder of the specification's table.
ladder_run :
    (evaluate true false 0 false ≡ MasteryStatus.mastered)
    × (evaluate true false 1 false ≡ MasteryStatus.strong)
    × (evaluate true false 3 false ≡ MasteryStatus.passed)
    × (evaluate true false 0 true ≡ MasteryStatus.needs_review)
    × (evaluate false true 0 false ≡ MasteryStatus.review_required)
unfolding evaluate
ladder_run = (refl, refl, refl, refl, refl)

abbrev third_done : ModuleProgress
third_done = record { completed_lessons = 1; total_lessons = 3 }

abbrev three_quarters : List CheckOutcome
three_quarters =
    weighted (pass "directory_exists" "ok") 3
    ∷ weighted (fail "file_exists" "missing" wrong_path) 1
    ∷ []

abbrev all_done : List CheckOutcome
all_done = weighted (pass "directory_exists" "ok") 3 ∷ weighted (pass "file_exists" "ok") 1 ∷ []

abbrev broken : List CheckOutcome
broken = error "mystery" "unknown validator" ∷ fail "file_exists" "missing" wrong_path ∷ []

weighted_run : (from_outcomes fixed "l" "t" three_quarters).completion_percent ≡ 75
unfolding from_outcomes percent_of weighted pass fail
weighted_run = refl

primary_run :
    (from_outcomes fixed "l" "t" broken).primary_failure
    ≡ some (fail "file_exists" "missing" wrong_path)
unfolding from_outcomes error fail
primary_run = refl

from_outcomes-passed_iff_example :
    ((from_outcomes fixed "l" "t" three_quarters).passed ≡ true)
    ↔ ((three_quarters ≢ []) × All Passed three_quarters)
from_outcomes-passed_iff_example = from_outcomes-passed_iff fixed "l" "t" three_quarters

completion_percent_range_example :
    ((from_outcomes fixed "l" "t" all_done).completion_percent ≤ 100)
    × ((from_outcomes fixed "l" "t" all_done).passed ≡ true
        → (from_outcomes fixed "l" "t" all_done).completion_percent ≡ 100)
    × (All (λ o. o.passed ≡ false) all_done
        → (from_outcomes fixed "l" "t" all_done).completion_percent ≡ 0)
unfolding weighted pass
completion_percent_range_example =
    completion_percent_range fixed "l" "t" all_done (omega arith) (omega arith)

primary_failure_lem_example :
    (((from_outcomes fixed "l" "t" broken).primary_failure ≡ none) ↔ All Passed broken)
    × ((o : CheckOutcome)
        → (from_outcomes fixed "l" "t" broken).primary_failure ≡ some o
        → IsFirst IsReal o broken ⊎ (All (λ x. ¬ IsReal x) broken × IsFirst IsFailed o broken))
primary_failure_lem_example = primary_failure_lem fixed "l" "t" broken
