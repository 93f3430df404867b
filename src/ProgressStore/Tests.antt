-- ===== src/ProgressStore/Tests.antt =====
-- A lesson of a small course, started, helped along and completed twice.
mod Privacy
mod Upgrade
use Prim.Native.String.{String}
use linuxpracticelab.Common.{
  ℕ, suc, ◌≤◌, ◌≡◌, ◌↔◌, ◌⊎◌, inl, true, false, none, some, List, [], ◌∷◌, arith, refl, ap, sym,
  ◌∙◌, All, Has,
}
use linuxpracticelab.Common.Int.{pos}
use linuxpracticelab.Common.Assoc.{lookup}
use linuxpracticelab.SharedTypes.Lesson.{
  Lesson, LessonType, LessonEnvironment, ResetPolicy, NetworkMode,
}
use linuxpracticelab.SharedTypes.Progress.{MasteryStatus, rank, score, evaluate, needs_revisiting}
use linuxpracticelab.LessonEngine.Catalog.{Catalog, lesson}
use linuxpracticelab.LessonEngine.Progression.{guided_path, availability, passed_in}
use linuxpracticelab.LessonEngine.Progression.Unlocking.{prerequisites_of}
use linuxpracticelab.ProgressStore.Codes.{status_str, mastery_str, parse_mastery}
use linuxpracticelab.ProgressStore.Lessons.{
  Row, Call, start, attempt, hint, reset, complete, call, calls, new_row, upsert, find_row,
  start_lesson, record_lesson_attempt, add_hint_used, row_mastery, better, best_mastery,
  existing_mastery, completion_status, complete_lesson, progress_index,
}
use linuxpracticelab.ProgressStore.Lessons.Mastery.{
  Follows, standing, recorded, calls-Follows, complete_lesson_lem,
}
use linuxpracticelab.ProgressStore.Lessons.Consistency.{IsConsistent, All-IsConsistent}
use linuxpracticelab.ProgressStore.Lessons.Locking.{
  HasGoodMastery, passed_in_iff, passed_in_completed, completed_still_locked,
}

abbrev begun : List Call
begun = start 1 "m.01" (pos 10) ∷ hint 1 "m.01" (pos 11) ∷ attempt 1 "m.01" (pos 12) ∷ []

abbrev shown : Call
shown = complete 1 "m.01" (evaluate true false 1 true) 1 true (pos 13)

abbrev again : Call
again = complete 1 "m.01" (evaluate true false 0 false) 0 false (pos 14)

abbrev row : Row
row = record {
  profile_id = 1;
  lesson_id = "m.01";
  status = "in-progress";
  attempts = 1;
  hints_used = 1;
  solution_revealed = false;
  mastery = none;
  mastery_score = 0;
  first_started_at = some (pos 10);
  completed_at = none;
  last_attempt_at = some (pos 12);
}

calls_run :
    (calls begun [] ≡ row ∷ [])
    × (calls (shown ∷ again ∷ []) (calls begun [])
        ≡ record row {
          status = "passed";
          attempts = 3;
          hints_used = 2;
          solution_revealed = true;
          mastery = some "mastered";
          mastery_score = 100;
          completed_at = some (pos 13);
          last_attempt_at = some (pos 14);
        }
          ∷ [])
unfolding calls call start_lesson record_lesson_attempt add_hint_used complete_lesson new_row upsert
    find_row row_mastery better best_mastery completion_status needs_revisiting score evaluate
    status_str mastery_str parse_mastery
calls_run = (refl, refl)

begun_found : find_row 1 "m.01" (calls begun []) ≡ some row
unfolding calls call start_lesson record_lesson_attempt add_hint_used new_row upsert find_row
begun_found = refl

calls-Follows_example :
    (r' : Row) × (find_row 1 "m.01" (calls (shown ∷ reset 2 ∷ again ∷ []) (calls begun []))
      ≡ some r')
    × Follows row r'
calls-Follows_example =
    calls-Follows (shown ∷ reset 2 ∷ again ∷ []) 1 "m.01" (calls begun []) row
      (tt, ((λ e. omega (arith, e)), (tt, tt))) begun_found

complete_lesson_lem_example :
    let best =
      (complete_lesson 1 "m.01" MasteryStatus.strong 1 false (pos 13) (calls begun [])).0 in
    let after =
      (complete_lesson 1 "m.01" MasteryStatus.strong 1 false (pos 13) (calls begun [])).1 in
    (recorded 1 "m.01" after ≡ some best)
    × (rank MasteryStatus.strong ≤ rank best)
    × (standing (recorded 1 "m.01" (calls begun [])) ≤ suc (rank best))
    × ((best ≡ MasteryStatus.strong) ⊎ (recorded 1 "m.01" (calls begun []) ≡ some best))
    × ((q : ℕ) (k : String)
        → ¬ ((q ≡ 1) × (k ≡ "m.01"))
        → find_row q k after ≡ find_row q k (calls begun []))
complete_lesson_lem_example =
    complete_lesson_lem 1 "m.01" MasteryStatus.strong 1 false (pos 13) (calls begun [])

All-IsConsistent_example : All IsConsistent (calls begun [])
All-IsConsistent_example = All-IsConsistent begun

passed_in_completed_example :
    (passed_in (progress_index 1 (call shown (calls begun []))) "m.01" ≡ true)
    ↔ ((true ≡ false) ⊎ HasGoodMastery (recorded 1 "m.01" (calls begun [])))
passed_in_completed_example = passed_in_completed begun 1 "m.01" false 1 true (pos 13)

abbrev plain : LessonEnvironment
plain = record {
  profile = "base";
  reset_policy = ResetPolicy.per_attempt;
  network_mode = NetworkMode.disabled;
  sudo_allowed = false;
  dangerous_allowed = false;
  memory_mb = none;
  namespaces = [];
  setup_script = none;
  reset_script = none;
  fixtures = [];
}

abbrev practice : String → List String → Lesson
practice name needs = record {
  id = name;
  lesson_module = "m";
  lesson_type = LessonType.guided_practice;
  prerequisites = needs;
  commands = [];
  environment = plain;
  tasks = [];
}

abbrev pair : Catalog
pair = record {
  lessons = ("m.01", practice "m.01" []) ∷ ("m.02", practice "m.02" ("m.01" ∷ [])) ∷ [];
  modules = [];
  module_order = "m" ∷ [];
  lesson_order = "m.01" ∷ "m.02" ∷ [];
  warnings = [];
}

first_needed : Has "m.01" (prerequisites_of pair "m.02")
unfolding lesson lookup
first_needed = inl refl

nothing_recorded : recorded 1 "m.01" (calls begun []) ≡ none
unfolding row_mastery
nothing_recorded = ap existing_mastery begun_found

completed_still_locked_example :
    (availability pair guided_path "m.02" (progress_index 1 (call shown (calls begun [])))).unlocked
    ≡ false
completed_still_locked_example =
    completed_still_locked pair "m.02" begun 1 "m.01" false 1 (pos 13) first_needed
      (λ (m, e, good). not_some m (sym nothing_recorded ∙ e))
  where
    not_some : (m : MasteryStatus) → ¬ (none ≡ some m)
    not_some m e = cc
