-- ===== src/ProgressStore/Lessons.antt =====
-- crates/progress-store/src/lib.rs: the table `lesson_progress` and the methods that write it.
-- A statement `INSERT … ON CONFLICT DO UPDATE` is an upsert on the primary key, the profile with
-- the lesson. The profile is taken to exist, so the foreign key never refuses a row.
pub mod Table
pub mod Mastery
pub mod Consistency
pub mod Locking
use Prim.Native.String.{String}
use text.Mathlib.Text.{◌==◌ as str_eq}
use mathlib.Core.Option
use linuxpracticelab.Common.{
  ℕ, ◌+◌, Bool, true, false, not, ◌&&◌, ◌||◌, Option, none, some, List, [], ◌∷◌, map, select, leb,
  ◌==◌, if◌then◌else◌,
}
use linuxpracticelab.Common.Int.{ℤ}
use linuxpracticelab.SharedTypes.Progress.{
  LessonStatus, MasteryStatus, rank, score, needs_revisiting,
}
use linuxpracticelab.LessonEngine.Progression.{LessonState, ProgressIndex}
use linuxpracticelab.ProgressStore.Codes.{status_str, parse_status, mastery_str, parse_mastery}

-- A row, with the columns as they are stored.
pub record Row : Type 0 where
  pub profile_id : ℕ
  pub lesson_id : String
  pub status : String
  pub attempts : ℕ
  pub hints_used : ℕ
  pub solution_revealed : Bool
  pub mastery : Option String
  pub mastery_score : ℕ
  pub first_started_at : Option ℤ
  pub completed_at : Option ℤ
  pub last_attempt_at : Option ℤ

abbrev pub Rows : Type 0
Rows = List Row

-- A row as the insertions write it: the columns that they leave out have their defaults.
unfoldable pub new_row : ℕ → String → ℤ → Row
new_row profile lesson now = record {
  profile_id = profile;
  lesson_id = lesson;
  status = "in-progress";
  attempts = 0;
  hints_used = 0;
  solution_revealed = false;
  mastery = none;
  mastery_score = 0;
  first_started_at = some now;
  completed_at = none;
  last_attempt_at = some now;
}

abbrev pub at_key : ℕ → String → Row → Bool
at_key profile lesson r = r.profile_id == profile && str_eq lesson r.lesson_id

-- Replaces the row under the key of `fresh` by its update, and inserts `fresh` if there is none.
unfoldable pub upsert : Row → (Row → Row) → Rows → Rows
upsert fresh update [] = fresh ∷ []
upsert fresh update (r ∷ rs) =
    let rest = upsert fresh update rs in
    if at_key fresh.profile_id fresh.lesson_id r then update r ∷ rs else r ∷ rest

unfoldable pub find_row : ℕ → String → Rows → Option Row
find_row profile lesson [] = none
find_row profile lesson (r ∷ rs) =
    let rest = find_row profile lesson rs in if at_key profile lesson r then some r else rest

unfoldable pub start_lesson : ℕ → String → ℤ → Rows → Rows
start_lesson profile lesson now = upsert (new_row profile lesson now) (λ r. record r {
  last_attempt_at = some now;
  status = if str_eq r.status "not-started" then "in-progress" else r.status;
})

unfoldable pub record_lesson_attempt : ℕ → String → ℤ → Rows → Rows
record_lesson_attempt profile lesson now =
    upsert (record (new_row profile lesson now) { attempts = 1 })
      (λ r. record r { attempts = r.attempts + 1; last_attempt_at = some now })

unfoldable pub add_hint_used : ℕ → String → ℤ → Rows → Rows
add_hint_used profile lesson now =
    upsert (record (new_row profile lesson now) { hints_used = 1 })
      (λ r. record r { hints_used = r.hints_used + 1; last_attempt_at = some now })

-- The mastery of a row: a text that is not known reads as none.
unfoldable pub row_mastery : Row → Option MasteryStatus
row_mastery r = elim r.mastery [ none ↦ none | some text ↦ parse_mastery text ]

unfoldable pub better : MasteryStatus → MasteryStatus → MasteryStatus
better previous now = if leb (rank previous) (rank now) then now else previous

-- The mastery of the row under a key, where there is one.
abbrev pub existing_mastery : Option Row → Option MasteryStatus
existing_mastery none = none
existing_mastery (some r) = row_mastery r

-- `.map(|previous| previous.max(mastery)).unwrap_or(mastery)`
unfoldable pub best_mastery : Option MasteryStatus → MasteryStatus → MasteryStatus
best_mastery none m = m
best_mastery (some previous) m = better previous m

unfoldable pub completion_status : MasteryStatus → LessonStatus
completion_status best =
    if needs_revisiting best then LessonStatus.needs_review else LessonStatus.passed

abbrev pub or_now : Option ℤ → ℤ → Option ℤ
or_now none now = some now
or_now (some t) now = some t

unfoldable pub complete_lesson :
    ℕ → String → MasteryStatus → ℕ → Bool → ℤ → Rows → MasteryStatus × Rows
complete_lesson profile lesson mastery hints revealed now rs =
    let best = best_mastery (existing_mastery (find_row profile lesson rs)) mastery in
    (
      best,
      upsert
          (record (new_row profile lesson now) {
            status = status_str (completion_status best);
            attempts = 1;
            hints_used = hints;
            solution_revealed = revealed;
            mastery = some (mastery_str best);
            mastery_score = score best;
            completed_at = some now;
          })
          (λ r. record r {
            status = status_str (completion_status best);
            attempts = r.attempts + 1;
            hints_used = r.hints_used + hints;
            solution_revealed = r.solution_revealed || revealed;
            mastery = some (mastery_str best);
            mastery_score = score best;
            completed_at = or_now r.completed_at now;
            last_attempt_at = some now;
          })
          rs,
    )

-- What a reset does to this table: the rows of the profile are deleted.
unfoldable pub reset_profile : ℕ → Rows → Rows
reset_profile profile rs = select (λ r. not (r.profile_id == profile)) rs

-- The writing calls of the store on this table: those for a profile and a lesson, and the reset of
-- a whole profile.
pub data Call : Type 0 where
  start attempt hint : ℕ → String → ℤ → Call
  reset : ℕ → Call
  complete : ℕ → String → MasteryStatus → ℕ → Bool → ℤ → Call

unfoldable pub call : Call → Rows → Rows
call (start p l now) rs = start_lesson p l now rs
call (attempt p l now) rs = record_lesson_attempt p l now rs
call (hint p l now) rs = add_hint_used p l now rs
call (reset p) rs = reset_profile p rs
call (complete p l m hints revealed now) rs = (complete_lesson p l m hints revealed now rs).1

unfoldable pub calls : List Call → Rows → Rows
calls [] rs = rs
calls (c ∷ cs) rs = calls cs (call c rs)

-- `lesson_progress` reads one row, `all_lesson_progress` those of a profile; `bootstrap` of the
-- application indexes them by lesson.
unfoldable pub row_state : Row → LessonState
row_state r = record { status = parse_status r.status; mastery = row_mastery r }

unfoldable pub progress_index : ℕ → Rows → ProgressIndex
progress_index profile rs =
    map (λ (r : Row). (r.lesson_id, row_state r)) (select (λ r. r.profile_id == profile) rs)
