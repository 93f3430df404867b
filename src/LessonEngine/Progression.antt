-- ===== src/LessonEngine/Progression.antt =====
-- crates/lesson-engine/src/progression.rs: what is unlocked, what comes next, what to review.
pub mod Unlocking
pub mod Next
pub mod Review
pub mod Average
use Prim.Native.String.{String}
use linuxpracticelab.Common.{
  ℕ, zero, suc, ◌+◌, ◌/◌, ◌%◌, ◌^◌, Bool, true, false, not, Option, none, some, List, [], ◌∷◌, map,
  select, find, take, length, is_empty, sum, leb, if◌then◌else◌,
}
use linuxpracticelab.Common.Assoc.{Assoc, lookup}
use linuxpracticelab.SharedTypes.Lesson.{Lesson}
use linuxpracticelab.SharedTypes.Progress.{
  LessonStatus, MasteryStatus, rank, score, needs_revisiting,
}
use linuxpracticelab.LessonEngine.Catalog.{Catalog, lesson, core_lesson_ids}

pub data ProgressionMode : Type 0 where
  guided_path open_library assessment : ProgressionMode

pub record LessonState : Type 0 where
  pub status : LessonStatus
  pub mastery : Option MasteryStatus

abbrev pub ProgressIndex : Type 0
ProgressIndex = Assoc LessonState

unfoldable pub is_passed : LessonState → Bool
is_passed s = elim s.status [ LessonStatus.passed ↦ true | _ ↦ false ]

-- `progress.get(id).map(|s| s.is_passed()).unwrap_or(false)`
unfoldable pub passed_in : ProgressIndex → String → Bool
passed_in progress id = elim (lookup id progress) [ none ↦ false | some s ↦ is_passed s ]

pub record Availability : Type 0 where
  pub lesson_id : String
  pub unlocked : Bool
  pub missing_prerequisites : List String

unfoldable pub missing : Catalog → String → ProgressIndex → List String
missing c id progress = elim (lesson c id) [
  | none ↦ []
  | some l ↦ select (λ p. not (passed_in progress p)) l.prerequisites
]

unfoldable pub unlocks : ProgressionMode → List String → Bool
unlocks open_library absent = true
unlocks assessment absent = true
unlocks guided_path absent = is_empty absent

unfoldable pub availability : Catalog → ProgressionMode → String → ProgressIndex → Availability
availability c mode id progress =
    let absent = missing c id progress in
    record { lesson_id = id; unlocked = unlocks mode absent; missing_prerequisites = absent }

unfoldable pub next_lesson : Catalog → ProgressIndex → Option String
next_lesson c progress = find (λ id. not (passed_in progress id)) (core_lesson_ids c)

-- A stable insertion by mastery: before the first entry that is not weaker.
unfoldable pub insert_by_mastery :
    String × MasteryStatus → List (String × MasteryStatus) → List (String × MasteryStatus)
insert_by_mastery x [] = x ∷ []
insert_by_mastery x (y ∷ ys) =
    let rest = insert_by_mastery x ys in if leb (rank x.1) (rank y.1) then x ∷ y ∷ ys else y ∷ rest

-- `sort_by_key`, which is stable.
unfoldable pub sort_by_mastery : List (String × MasteryStatus) → List (String × MasteryStatus)
sort_by_mastery [] = []
sort_by_mastery (x ∷ xs) = insert_by_mastery x (sort_by_mastery xs)

unfoldable pub mastery_in : ProgressIndex → String → Option MasteryStatus
mastery_in progress id = elim (lookup id progress) [ none ↦ none | some s ↦ s.mastery ]

-- The lessons worth revisiting, in the order of the curriculum.
unfoldable pub weak : ProgressIndex → List String → List (String × MasteryStatus)
weak progress [] = []
weak progress (id ∷ ids) =
    let rest = weak progress ids in
    elim (mastery_in progress id) [
      | none ↦ rest
      | some m ↦ if needs_revisiting m then (id, m) ∷ rest else rest
    ]

unfoldable pub review_recommendations : Catalog → ProgressIndex → ℕ → List String
review_recommendations c progress limit =
    map (λ (p : String × MasteryStatus). p.0)
      (take limit (sort_by_mastery (weak progress (core_lesson_ids c))))

unfoldable pub completed_core_lessons : Catalog → ProgressIndex → ℕ
completed_core_lessons c progress = length (select (passed_in progress) (core_lesson_ids c))

unfoldable pub scores : ProgressIndex → List String → List ℕ
scores progress [] = []
scores progress (id ∷ ids) =
    let rest = scores progress ids in
    elim (mastery_in progress id) [ none ↦ rest | some m ↦ score m ∷ rest ]

-- `(total / scores.len() as u32) as u8`, over `u32` sums.
abbrev pub average : List ℕ → ℕ
average ns = if is_empty ns then 0 else sum ns % 2 ^ 32 / (length ns % 2 ^ 32) % 2 ^ 8

unfoldable pub mastery_percent : Catalog → ProgressIndex → ℕ
mastery_percent c progress = average (scores progress (core_lesson_ids c))
