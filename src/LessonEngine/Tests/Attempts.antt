-- ===== src/LessonEngine/Tests/Attempts.antt =====
-- Hints and attempts at concrete inputs.
use linuxpracticelab.Common.{
  ◌≤◌, ◌≡◌, ◌≢◌, ◌↔◌, ◌⊎◌, true, false, none, some, List, [], ◌∷◌, All, Any, Has, Distinct, arith,
  refl,
}
use linuxpracticelab.SharedTypes.Lesson.{Task, TaskKind}
use linuxpracticelab.SharedTypes.Progress.{MasteryStatus, rank, evaluate}
use linuxpracticelab.SharedTypes.Validation.Category.{FailureCategory, wrong_path}
use linuxpracticelab.LessonEngine.Hints.{AttemptState, HintReveal, new, mastery, lesson_mastery}
use linuxpracticelab.LessonEngine.Hints.Events.{
  Event, ask_hint, ask_solution, check_passed, check_failed, run, run_mastery,
}
use linuxpracticelab.LessonEngine.Hints.Categories.{Reported, run_categories}
use linuxpracticelab.LessonEngine.Hints.Rollup.{lesson_mastery_lem}

abbrev reports : Task
reports = record {
  id = "task-1";
  kind = TaskKind.guided;
  instruction = "Create the reports directory.";
  context = none;
  broken_command = none;
  diagnosis = none;
  validators = [];
  hints = "conceptual" ∷ "the command is mkdir" ∷ [];
  suggested_solution = some "mkdir reports";
  known_incorrect_solution = none;
  alternate_solutions = [];
  optional = false;
}

abbrev fresh : AttemptState
fresh = record {
  lesson_id = "l";
  task_id = "task-1";
  hints_revealed = 0;
  solution_revealed = false;
  failed_checks = 0;
  failure_categories = [];
  passed = false;
}

new_run : new "l" "task-1" ≡ fresh
unfolding new
new_run = refl

abbrev second : HintReveal
second = record { index = 1; text = "the command is mkdir"; remaining = 0; solution_next = true }

abbrev one_seen : AttemptState
one_seen = record fresh { hints_revealed = 1 }

abbrev exam : List Event
exam = ask_hint ∷ check_failed (some wrong_path) ∷ ask_solution ∷ check_passed ∷ []

run_mastery_example :
    rank (mastery (run reports true (record fresh { passed = true }) exam) false)
    ≤ rank (mastery (record fresh { passed = true }) false)
run_mastery_example =
    run_mastery reports true (record fresh { passed = true }) exam false (omega arith) (omega arith)
      refl

run_categories_example :
    Distinct (run reports true fresh exam).failure_categories
    × ((d : FailureCategory)
        → Has d (run reports true fresh exam).failure_categories
          ↔ (Has d fresh.failure_categories ⊎ Reported d exam))
run_categories_example = run_categories reports true fresh exam tt

abbrev two_tasks : List AttemptState
two_tasks =
    record fresh { passed = true } ∷ record fresh { passed = true; solution_revealed = true } ∷ []

lesson_mastery_run : lesson_mastery two_tasks false ≡ MasteryStatus.needs_review
unfolding lesson_mastery mastery evaluate
lesson_mastery_run = refl

lesson_mastery_lem_example :
    All (λ a. rank (lesson_mastery two_tasks false) ≤ rank (mastery a false)) two_tasks
    × (two_tasks ≢ [] → Any (λ a. lesson_mastery two_tasks false ≡ mastery a false) two_tasks)
    × (two_tasks ≡ [] → lesson_mastery two_tasks false ≡ MasteryStatus.needs_review)
lesson_mastery_lem_example = lesson_mastery_lem two_tasks false
