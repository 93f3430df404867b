-- ===== src/LessonEngine/Hints.antt =====
-- crates/lesson-engine/src/hints.rs: the bookkeeping of one attempt at a task.
-- A method of `AttemptState` returns the new state beside its result. `u32` counters wrap.
pub mod Reveal
pub mod Events
pub mod Categories
pub mod Rollup
use Prim.Native.String.{String}
use linuxpracticelab.Common.{
  ℕ, zero, suc, ◌+◌, ◌-◌, ◌%◌, ◌^◌, ◌≡◌, Bool, true, false, Option, none, some, List, [], ◌∷◌, ◌++◌,
  map, length, get_or, any, is_empty, sum, leb, ◌==◌, if◌then◌else◌,
}
use linuxpracticelab.SharedTypes.Lesson.{Task}
use linuxpracticelab.SharedTypes.Progress.{MasteryStatus, rank, evaluate}
use linuxpracticelab.SharedTypes.Validation.Category.{FailureCategory, same_category}

pub record AttemptState : Type 0 where
  pub lesson_id : String
  pub task_id : String
  pub hints_revealed : ℕ
  pub solution_revealed : Bool
  pub failed_checks : ℕ
  pub failure_categories : List FailureCategory
  pub passed : Bool

pub record HintReveal : Type 0 where
  pub index : ℕ
  pub text : String
  pub remaining : ℕ
  pub solution_next : Bool

pub data HintOutcome : Type 0 where
  hint : HintReveal → HintOutcome
  solution_available : HintOutcome
  unavailable : String → HintOutcome

unfoldable pub new : String → String → AttemptState
new lesson task = record {
  lesson_id = lesson;
  task_id = task;
  hints_revealed = 0;
  solution_revealed = false;
  failed_checks = 0;
  failure_categories = [];
  passed = false;
}

-- The index is in bounds where it is used, so the default of `get_or` is never read.
unfoldable pub reveal_next_hint : AttemptState → Task → Bool → HintOutcome × AttemptState
reveal_next_hint s task hints_allowed =
    if hints_allowed
    then (if is_empty task.hints
        then (solution_available, s)
        else (if leb (length task.hints) s.hints_revealed
            then (solution_available, s)
            else (let revealed = s.hints_revealed + 1 in
                let remaining = length task.hints - revealed in
                (
                  hint (record {
                    index = s.hints_revealed;
                    text = get_or task.hints s.hints_revealed "";
                    remaining = remaining;
                    solution_next = remaining == 0;
                  }),
                  record s { hints_revealed = revealed },
                ))))
    else (
      unavailable
          "Hints are not available in an assessment. Work from what you know, and review the lesson afterwards.",
      s,
    )

unfoldable pub reveal_solution : AttemptState → Bool → Option String × AttemptState
reveal_solution s hints_allowed =
    if hints_allowed
    then (none, record s { solution_revealed = true })
    else (some "The solution is not available in an assessment.", s)

unfoldable pub push_category : FailureCategory → List FailureCategory → List FailureCategory
push_category c cs = if any (same_category c) cs then cs else cs ++ c ∷ []

unfoldable pub record_failure : AttemptState → Option FailureCategory → AttemptState
record_failure s none = record s { failed_checks = (s.failed_checks + 1) % 2 ^ 32 }
record_failure s (some c) = record s {
  failed_checks = (s.failed_checks + 1) % 2 ^ 32;
  failure_categories = push_category c s.failure_categories;
}

unfoldable pub record_pass : AttemptState → AttemptState
record_pass s = record s { passed = true }

unfoldable pub mastery : AttemptState → Bool → MasteryStatus
mastery s is_assessment =
    evaluate s.passed is_assessment (s.hints_revealed % 2 ^ 32) s.solution_revealed

-- `Iterator::min` by the derived order: an earlier entry stays on a tie.
abbrev pub weaker : MasteryStatus → MasteryStatus → MasteryStatus
weaker a b = if leb (rank a) (rank b) then a else b

abbrev pub min_from : MasteryStatus → List MasteryStatus → MasteryStatus
min_from best [] = best
min_from best (m ∷ ms) = min_from (weaker best m) ms

unfoldable pub lesson_mastery : List AttemptState → Bool → MasteryStatus
lesson_mastery [] is_assessment = MasteryStatus.needs_review
lesson_mastery (a ∷ attempts) is_assessment =
    min_from (mastery a is_assessment) (map (λ b. mastery b is_assessment) attempts)

unfoldable pub total_hints : List AttemptState → ℕ
total_hints attempts = sum (map (λ a. a.hints_revealed % 2 ^ 32) attempts) % 2 ^ 32
