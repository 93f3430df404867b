-- ===== src/ProgressStore/Codes.antt =====
-- crates/progress-store/src/lib.rs: the texts under which statuses and masteries are stored.
use Prim.Native.String.{String}
use text.Mathlib.Text.{◌==◌}
use linuxpracticelab.Common.{◌≡◌, refl, Option, none, some, if◌then◌else◌}
use linuxpracticelab.SharedTypes.Progress.{LessonStatus, MasteryStatus}

unfoldable pub status_str : LessonStatus → String
status_str LessonStatus.not_started = "not-started"
status_str LessonStatus.in_progress = "in-progress"
status_str LessonStatus.passed = "passed"
status_str LessonStatus.needs_review = "needs-review"

unfoldable pub parse_status : String → LessonStatus
parse_status value =
    if value == "passed"
    then LessonStatus.passed
    else (if value == "needs-review"
        then LessonStatus.needs_review
        else (if value == "in-progress"
            then LessonStatus.in_progress
            else LessonStatus.not_started))

unfoldable pub mastery_str : MasteryStatus → String
mastery_str MasteryStatus.mastered = "mastered"
mastery_str MasteryStatus.strong = "strong"
mastery_str MasteryStatus.passed = "passed"
mastery_str MasteryStatus.needs_review = "needs-review"
mastery_str MasteryStatus.review_required = "review-required"

unfoldable pub parse_mastery : String → Option MasteryStatus
parse_mastery value =
    if value == "mastered"
    then some MasteryStatus.mastered
    else (if value == "strong"
        then some MasteryStatus.strong
        else (if value == "passed"
            then some MasteryStatus.passed
            else (if value == "needs-review"
                then some MasteryStatus.needs_review
                else (if value == "review-required"
                    then some MasteryStatus.review_required
                    else none))))

-- A stored status and a stored mastery are read back as they were written.
pub stored_codes :
    ((s : LessonStatus) → parse_status (status_str s) ≡ s)
    × ((m : MasteryStatus) → parse_mastery (mastery_str m) ≡ some m)
unfolding parse_status status_str parse_mastery mastery_str
stored_codes = (
  elim [
    | LessonStatus.not_started ↦ refl
    | LessonStatus.in_progress ↦ refl
    | LessonStatus.passed ↦ refl
    | LessonStatus.needs_review ↦ refl
  ],
  elim [
    | MasteryStatus.review_required ↦ refl
    | MasteryStatus.needs_review ↦ refl
    | MasteryStatus.passed ↦ refl
    | MasteryStatus.strong ↦ refl
    | MasteryStatus.mastered ↦ refl
  ],
)
