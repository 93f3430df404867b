-- ===== src/LessonEngine/Hints/Events.antt =====
-- An attempt over any sequence of what the commands of the application do to it.
use Prim.Native.String.{String}
use linuxpracticelab.Common.{
  ℕ, ◌%◌, ◌^◌, ◌≤◌, ◌<◌, ◌≡◌, Bool, true, false, ◌||◌, Option, none, some, List, [], ◌∷◌, length,
  any, arith, refl, if◌then◌else◌,
}
use linuxpracticelab.SharedTypes.Lesson.{Task}
use linuxpracticelab.SharedTypes.Progress.{MasteryStatus, rank, evaluate}
use linuxpracticelab.SharedTypes.Progress.Ladder.{evaluate_antitone}
use linuxpracticelab.SharedTypes.Validation.Category.{FailureCategory}
use linuxpracticelab.LessonEngine.Hints.{
  AttemptState, new, reveal_next_hint, reveal_solution, record_failure, record_pass, mastery,
}

-- The closures that `reveal_hint`, `reveal_solution` and `check_task` of the application run on the
-- stored attempt.
pub data Event : Type 0 where
  ask_hint ask_solution check_passed : Event
  check_failed : Option FailureCategory → Event

-- What a request for a hint, and one for the solution, does to the attempt.
abbrev hint_asked : Task → Bool → AttemptState → AttemptState
hint_asked task allowed s = (reveal_next_hint s task allowed).1

abbrev solution_asked : Bool → AttemptState → AttemptState
solution_asked allowed s = (reveal_solution s allowed).1

unfoldable pub step : Task → Bool → AttemptState → Event → AttemptState
step task allowed s ask_hint = hint_asked task allowed s
step task allowed s ask_solution = solution_asked allowed s
step task allowed s check_passed = record_pass s
step task allowed s (check_failed c) = record_failure s c

unfoldable pub run : Task → Bool → AttemptState → List Event → AttemptState
run task allowed s [] = s
run task allowed s (e ∷ es) = run task allowed (step task allowed s e) es

-- No hint and no solution has been seen.
abbrev pub IsUnaided : AttemptState → Type 0
IsUnaided s = (s.hints_revealed ≡ 0) × (s.solution_revealed ≡ false)

step-IsUnaided :
    (task : Task) (s : AttemptState) (e : Event) → IsUnaided s → IsUnaided (step task false s e)
unfolding step reveal_next_hint reveal_solution record_failure record_pass
step-IsUnaided task s (check_failed none) h = h
step-IsUnaided task s (check_failed (some c)) h = h
step-IsUnaided task s _ h = h

run-IsUnaided :
    (task : Task) (s : AttemptState) (es : List Event)
    → IsUnaided s
    → IsUnaided (run task false s es)
unfolding run
run-IsUnaided task s [] h = h
run-IsUnaided task s (e ∷ es) h =
    run-IsUnaided task (step task false s e) es (step-IsUnaided task s e h)

unaided_mastery :
    (s : AttemptState) (is_assessment : Bool)
    → IsUnaided s
    → mastery s is_assessment ≡ (
        if s.passed
        then MasteryStatus.mastered
        else (if is_assessment then MasteryStatus.review_required else MasteryStatus.needs_review))
unfolding mastery evaluate
unaided_mastery s is_assessment h = ground arith

abbrev pub is_check_passed : Event → Bool
is_check_passed check_passed = true
is_check_passed _ = false

step_passed :
    (task : Task) (allowed : Bool) (s : AttemptState) (e : Event)
    → (step task allowed s e).passed ≡ s.passed || is_check_passed e
unfolding step reveal_next_hint reveal_solution record_failure record_pass
step_passed task allowed s (check_failed none) = ground arith
step_passed task allowed s (check_failed (some c)) = ground arith
step_passed task allowed s _ = ground arith

run_passed :
    (task : Task) (allowed : Bool) (s : AttemptState) (es : List Event)
    → (run task allowed s es).passed ≡ s.passed || any is_check_passed es
unfolding run
run_passed task allowed s [] = ground arith
run_passed task allowed s (e ∷ es) =
    ground (arith, run_passed task allowed (step task allowed s e) es, step_passed task allowed s e)

-- Where hints are not allowed, nothing that a learner asks for helps or costs: a fresh attempt is
-- mastered once a check of it has passed, and until then it has to be reviewed.
pub mastery_without_hints :
    (lesson id : String) (task : Task) (es : List Event) (is_assessment : Bool)
    → mastery (run task false (new lesson id) es) is_assessment ≡ (
        if any is_check_passed es
        then MasteryStatus.mastered
        else (if is_assessment then MasteryStatus.review_required else MasteryStatus.needs_review))
mastery_without_hints lesson id task es is_assessment = rw (← fresh_passed) (
    unaided_mastery (run task false (new lesson id) es) is_assessment
      (run-IsUnaided task (new lesson id) es (unfold new in (refl, refl))))
  where
    fresh_passed : (run task false (new lesson id) es).passed ≡ any is_check_passed es
    fresh_passed = unfold new in run_passed task false (new lesson id) es

-- The count of revealed hints is in bounds.
abbrev pub InBounds : Task → AttemptState → Type 0
InBounds task s = s.hints_revealed ≤ length task.hints

step-InBounds :
    (task : Task) (allowed : Bool) (s : AttemptState) (e : Event)
    → InBounds task s
    → InBounds task (step task allowed s e)
unfolding step reveal_next_hint reveal_solution record_failure record_pass
step-InBounds task allowed s (check_failed none) h = h
step-InBounds task allowed s (check_failed (some c)) h = h
step-InBounds task allowed s ask_hint h = ground arith
step-InBounds task allowed s _ h = ground arith

-- What a step after a pass can still change: more hints, or the solution.
step_after_pass :
    (task : Task) (allowed : Bool) (s : AttemptState) (e : Event)
    → (s.hints_revealed ≤ (step task allowed s e).hints_revealed)
      × (s.solution_revealed ≡ true → (step task allowed s e).solution_revealed ≡ true)
      × (s.passed ≡ true → (step task allowed s e).passed ≡ true)
unfolding step reveal_next_hint reveal_solution record_failure record_pass
step_after_pass task allowed s ask_hint = ground arith
step_after_pass task allowed s ask_solution = ground arith
step_after_pass task allowed s check_passed = ground arith
step_after_pass task allowed s (check_failed none) = ground arith
step_after_pass task allowed s (check_failed (some c)) = ground arith

passed_antitone :
    (p p' is_assessment : Bool) (h h' : ℕ) (r r' : Bool)
    → p ≡ true
    → p' ≡ true
    → h ≤ h'
    → (r ≡ true → r' ≡ true)
    → rank (evaluate p' is_assessment h' r') ≤ rank (evaluate p is_assessment h r)
passed_antitone p p' is_assessment h h' r r' e e' le shown =
    rw (e, e') (evaluate_antitone true is_assessment h h' r r' le shown)

step_mastery :
    (task : Task) (allowed : Bool) (s : AttemptState) (e : Event) (is_assessment : Bool)
    → length task.hints < 2 ^ 32
    → InBounds task s
    → s.passed ≡ true
    → rank (mastery (step task allowed s e) is_assessment) ≤ rank (mastery s is_assessment)
unfolding mastery
step_mastery task allowed s e is_assessment small bounds passed =
    let (more, shown, still) = step_after_pass task allowed s e in
    let within = step-InBounds task allowed s e bounds in
    passed_antitone s.passed (step task allowed s e).passed is_assessment
      (s.hints_revealed % 2 ^ 32) ((step task allowed s e).hints_revealed % 2 ^ 32)
      s.solution_revealed (step task allowed s e).solution_revealed passed (still passed)
      (omega arith) shown

-- Once an attempt has passed, nothing that follows raises its mastery, where the task has fewer
-- than 2 ^ 32 hints and no more of them are revealed than it has.
pub run_mastery :
    (task : Task) (allowed : Bool) (s : AttemptState) (es : List Event) (is_assessment : Bool)
    → length task.hints < 2 ^ 32
    → InBounds task s
    → s.passed ≡ true
    → rank (mastery (run task allowed s es) is_assessment) ≤ rank (mastery s is_assessment)
unfolding run
run_mastery task allowed s [] is_assessment small bounds passed = omega arith
run_mastery task allowed s (e ∷ es) is_assessment small bounds passed = omega (
  arith,
  step_mastery task allowed s e is_assessment small bounds passed,
  run_mastery task allowed (step task allowed s e) es is_assessment small
      (step-InBounds task allowed s e bounds) ((step_after_pass task allowed s e).2 passed),
)
