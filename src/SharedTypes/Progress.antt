-- ===== src/SharedTypes/Progress.antt =====
-- crates/shared-types/src/progress.rs: lesson status and the mastery ladder.
pub mod Ladder
use linuxpracticelab.Common.{ℕ, zero, suc, ◌≡◌, Bool, true, false, Option, leb, ◌==◌, if◌then◌else◌}
use linuxpracticelab.SharedTypes.Float.{Float64, percent_of}

pub data LessonStatus : Type 0 where
  not_started in_progress passed needs_review : LessonStatus

-- In declaration order, which is the order that `#[derive(Ord)]` gives.
pub data MasteryStatus : Type 0 where
  review_required needs_review passed strong mastered : MasteryStatus

abbrev pub rank : MasteryStatus → ℕ
rank MasteryStatus.review_required = 0
rank MasteryStatus.needs_review = 1
rank MasteryStatus.passed = 2
rank MasteryStatus.strong = 3
rank MasteryStatus.mastered = 4

-- `MasteryStatus::evaluate`: the early returns, then the match on the hints used.
unfoldable pub evaluate : Bool → Bool → ℕ → Bool → MasteryStatus
evaluate pass is_assessment hints_used solution_revealed =
    if pass
    then (if solution_revealed
        then MasteryStatus.needs_review
        else (if hints_used == 0
            then MasteryStatus.mastered
            else (if hints_used == 1 then MasteryStatus.strong else MasteryStatus.passed)))
    else (if is_assessment then MasteryStatus.review_required else MasteryStatus.needs_review)

unfoldable pub score : MasteryStatus → ℕ
score MasteryStatus.mastered = 100
score MasteryStatus.strong = 85
score MasteryStatus.passed = 70
score MasteryStatus.needs_review = 40
score MasteryStatus.review_required = 0

unfoldable pub needs_revisiting : MasteryStatus → Bool
needs_revisiting m = leb (rank m) (rank MasteryStatus.needs_review)

pub record ModuleProgress : Type 0 where
  pub completed_lessons : ℕ
  pub total_lessons : ℕ

unfoldable pub completion_percent : Float64 → ModuleProgress → ℕ
completion_percent fl p =
    if p.total_lessons == 0 then 0 else percent_of fl p.completed_lessons p.total_lessons
