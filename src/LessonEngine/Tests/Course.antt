-- ===== src/LessonEngine/Tests/Course.antt =====
-- Progression over a chain of three lessons, each building on the one before.
use Prim.Native.String.{String}
use linuxpracticelab.Common.{
  ℕ, ◌≤◌, ◌≡◌, ◌≢◌, ◌↔◌, ◌⊎◌, true, false, none, some, List, [], ◌∷◌, map, take, All, Has, IsFirst,
  arith, refl, inl, inr,
}
use linuxpracticelab.Common.Assoc.{lookup}
use linuxpracticelab.SharedTypes.Lesson.{
  Lesson, LessonType, LessonEnvironment, ResetPolicy, NetworkMode,
}
use linuxpracticelab.SharedTypes.Progress.{LessonStatus, MasteryStatus, score, needs_revisiting}
use linuxpracticelab.LessonEngine.Catalog.{Catalog, lesson, core_lesson_ids, core_lesson_count}
use linuxpracticelab.LessonEngine.Progression.{
  guided_path, missing, unlocks, ProgressIndex, is_passed, passed_in, mastery_in, scores, weak,
  sort_by_mastery, insert_by_mastery, availability, next_lesson, completed_core_lessons,
  review_recommendations, mastery_percent,
}
use linuxpracticelab.LessonEngine.Progression.Unlocking.{
  IsPassedIn, prerequisites_of, availability_lem,
}
use linuxpracticelab.LessonEngine.Progression.Next.{
  IsOpen, IsOrdered, next_lesson_lem, next_lesson_unlocked,
}
use linuxpracticelab.LessonEngine.Progression.Review.{
  Weak, IsWeakestFirst, at_rank, review_recommendations_lem,
}
use linuxpracticelab.LessonEngine.Progression.Average.{mastery_percent_bounds}

abbrev plain : LessonEnvironment
plain = record {
  profile = "base";
  reset_policy = ResetPolicy.per_attempt;
  network_mode = NetworkMode.disabled;
  sudo_allowed = false;
  dangerous_allowed = false;
  memory_mb = none;
  namespaces = [];
  setup_script = none;
  reset_script = none;
  fixtures = [];
}

abbrev guided : String → List String → Lesson
guided name needs = record {
  id = name;
  lesson_module = "m";
  lesson_type = LessonType.guided_practice;
  prerequisites = needs;
  commands = "mkdir" ∷ [];
  environment = plain;
  tasks = [];
}

abbrev chain : Catalog
chain = record {
  lessons =
      ("m.01", guided "m.01" [])
      ∷ ("m.02", guided "m.02" ("m.01" ∷ []))
      ∷ ("m.03", guided "m.03" ("m.02" ∷ []))
      ∷ [];
  modules = [];
  module_order = "m" ∷ [];
  lesson_order = "m.01" ∷ "m.02" ∷ "m.03" ∷ [];
  warnings = [];
}

abbrev begun : ProgressIndex
begun =
    ("m.01", record { status = LessonStatus.passed; mastery = some MasteryStatus.needs_review })
    ∷ (
      "m.02",
      record { status = LessonStatus.needs_review; mastery = some MasteryStatus.review_required },
    )
    ∷ []

availability_run :
    ((availability chain guided_path "m.02" begun).unlocked ≡ true)
    × ((availability chain guided_path "m.03" begun).missing_prerequisites ≡ "m.02" ∷ [])
    × (next_lesson chain begun ≡ some "m.02")
    × (review_recommendations chain begun 5 ≡ "m.02" ∷ "m.01" ∷ [])
    × (mastery_percent chain begun ≡ 20)
unfolding availability missing unlocks lesson lookup passed_in is_passed next_lesson core_lesson_ids
    review_recommendations sort_by_mastery insert_by_mastery weak mastery_in needs_revisiting
    mastery_percent scores score
availability_run = (refl, refl, refl, refl, refl)

availability_lem_example :
    ((d : String)
      → Has d (availability chain guided_path "m.03" begun).missing_prerequisites
        ↔ (Has d (prerequisites_of chain "m.03") × (passed_in begun d ≡ false)))
    × (((availability chain guided_path "m.03" begun).unlocked ≡ true)
        ↔ ((guided_path ≢ guided_path) ⊎ All (IsPassedIn begun) (prerequisites_of chain "m.03")))
availability_lem_example = availability_lem chain guided_path "m.03" begun

next_lesson_lem_example :
    ((id : String)
      → next_lesson chain begun ≡ some id
      → IsFirst (IsOpen begun) id (core_lesson_ids chain))
    × ((next_lesson chain begun ≡ none) ↔ All (IsPassedIn begun) (core_lesson_ids chain))
    × (completed_core_lessons chain begun ≤ core_lesson_count chain)
    × ((completed_core_lessons chain begun ≡ core_lesson_count chain)
        ↔ (next_lesson chain begun ≡ none))
next_lesson_lem_example = next_lesson_lem chain begun

-- The lessons of the chain are taught in an order that respects their prerequisites.
chain-IsOrdered : IsOrdered chain [] (core_lesson_ids chain)
unfolding core_lesson_ids lesson lookup
chain-IsOrdered = (tt, ((inl refl, tt), ((inr (inl refl), tt), tt)))

next_lesson_unlocked_example : (availability chain guided_path "m.02" begun).unlocked ≡ true
unfolding next_lesson core_lesson_ids passed_in is_passed lookup
next_lesson_unlocked_example =
    next_lesson_unlocked chain guided_path begun "m.02" chain-IsOrdered refl

review_recommendations_lem_example :
    (ranked : List Weak) × (review_recommendations chain begun 5
      ≡ map (λ (p : Weak). p.0) (take 5 ranked))
    × IsWeakestFirst ranked
    × ((r : ℕ) → at_rank r ranked ≡ at_rank r (weak begun (core_lesson_ids chain)))
    × ((id : String) (m : MasteryStatus)
        → Has (id, m) ranked ↔ (
            Has id (core_lesson_ids chain)
            × (mastery_in begun id ≡ some m)
            × (needs_revisiting m ≡ true)))
review_recommendations_lem_example = review_recommendations_lem chain begun 5

mastery_percent_bounds_example :
    (scores begun (core_lesson_ids chain) ≢ []
      → (0 ≤ mastery_percent chain begun) × (mastery_percent chain begun ≤ 40))
    × (scores begun (core_lesson_ids chain) ≡ [] → mastery_percent chain begun ≡ 0)
    × (mastery_percent chain begun ≤ 100)
unfolding core_lesson_count core_lesson_ids scores mastery_in lookup score
mastery_percent_bounds_example = mastery_percent_bounds chain begun 0 40 (omega arith) (omega arith)
