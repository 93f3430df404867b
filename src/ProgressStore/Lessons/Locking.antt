-- ===== src/ProgressStore/Lessons/Locking.antt =====
-- What the progression makes of the stored rows.
use Prim.Native.String.{String}
use text.Mathlib.Text.{◌==◌ as str_eq}
use mathlib.Core.Option
use linuxpracticelab.Common.{
  ℕ, suc, ◌≤◌, ◌≡◌, ◌↔◌, ◌⊎◌, inl, inr, Bool, true, false, not, ◌==◌, Option, none, some, List, [],
  ◌∷◌, arith, refl, ap, ◌∙◌, sym, All, Has, Bool-cases, Option-cases,
}
use linuxpracticelab.Common.Assoc.{lookup}
use linuxpracticelab.Common.Int.{ℤ}
use linuxpracticelab.SharedTypes.Progress.{
  MasteryStatus, LessonStatus, rank, evaluate, needs_revisiting,
}
use linuxpracticelab.SharedTypes.Progress.Ladder.{needs_revisiting-evaluate}
use linuxpracticelab.LessonEngine.Catalog.{Catalog}
use linuxpracticelab.LessonEngine.Progression.Unlocking.{prerequisites_of, availability_lem}
use linuxpracticelab.LessonEngine.Progression.{
  guided_path, availability, LessonState, ProgressIndex, is_passed, passed_in,
}
use linuxpracticelab.ProgressStore.Codes.{status_str, parse_status, stored_codes}
use linuxpracticelab.ProgressStore.Lessons.{
  Row, Rows, Call, complete, call, calls, at_key, find_row, row_mastery, row_state, progress_index,
  completion_status,
}
use linuxpracticelab.ProgressStore.Lessons.Mastery.{
  row_mastery_written, standing, recorded, complete_lesson_lem,
}
use linuxpracticelab.ProgressStore.Lessons.Consistency.{IsConsistent, call-All, All-IsConsistent}

lookup-progress_index :
    (p : ℕ) (l : String) (rs : Rows)
    → lookup l (progress_index p rs) ≡ Option.map row_state (find_row p l rs)
unfolding lookup progress_index find_row
lookup-progress_index p l [] = refl
lookup-progress_index p l (r ∷ rs) = elim (Bool-cases (r.profile_id == p)) [
  | inl e ↦
      rw (e, lookup-progress_index p l rs)
        (elim (Bool-cases (str_eq l r.lesson_id)) [ inl f ↦ rw f | inr f ↦ rw f ])
  | inr e ↦ rw (e, lookup-progress_index p l rs)
]

find_row_All :
    (P : Row → Type 0) (p : ℕ) (l : String) (rs : Rows) (r : Row)
    → All P rs
    → find_row p l rs ≡ some r
    → P r
unfolding find_row
find_row_All P p l [] r all found = cc
find_row_All P p l (x ∷ rs) r (this, all) found = elim (Bool-cases (at_key p l x)) [
  | inl e ↦ let same : x ≡ r = ground arith in rw same at this
  | inr e ↦ find_row_All P p l rs r all (ground arith)
]

-- The record shows a mastery that need not be revisited.
abbrev pub HasGoodMastery : Option MasteryStatus → Type 0
HasGoodMastery o = (m : MasteryStatus) × (o ≡ some m) × (needs_revisiting m ≡ false)

is_passed_status :
    (r : Row) (s : LessonStatus)
    → r.status ≡ status_str s
    → is_passed (row_state r) ≡ is_passed (record { status = s; mastery = none })
unfolding is_passed row_state
is_passed_status r s e = rw (e, stored_codes.0 s) refl

completed_is_passed :
    (m : MasteryStatus)
    → is_passed (record { status = completion_status m; mastery = none }) ≡ not (needs_revisiting m)
unfolding is_passed completion_status needs_revisiting
completed_is_passed = elim [
  | MasteryStatus.review_required ↦ refl
  | MasteryStatus.needs_review ↦ refl
  | MasteryStatus.passed ↦ refl
  | MasteryStatus.strong ↦ refl
  | MasteryStatus.mastered ↦ refl
]

started_not_passed :
    (r : Row)
    → r.status ≡ "in-progress"
    → r.mastery ≡ none
    → (is_passed (row_state r) ≡ false) × (row_mastery r ≡ none)
unfolding is_passed row_state parse_status row_mastery
started_not_passed r a b = (rw a refl, rw b refl)

row_passed_iff :
    (r : Row) → IsConsistent r → (is_passed (row_state r) ≡ true) ↔ HasGoodMastery (row_mastery r)
row_passed_iff r (inl o) =
    let (not_passed, no_mastery) = started_not_passed r o.in_progress o.no_mastery in
    (λ h. cc, λ (m, e, g). cc)
row_passed_iff r (inr f) =
    let known = row_mastery_written r f.best f.has_mastery in
    let passed = is_passed_status r _ f.has_status ∙ completed_is_passed f.best in
    (
      λ h. (f.best, known, ground arith),
      λ (m, e, g).
          let same : m ≡ f.best = ground (arith, e, known) in
          passed ∙ ap not (ap needs_revisiting (sym same) ∙ g),
    )

passed_in-none :
    (progress : ProgressIndex) (l : String)
    → lookup l progress ≡ none
    → passed_in progress l ≡ false
unfolding passed_in
passed_in-none progress l e = rw (e, passed_in) refl

passed_in-some :
    (progress : ProgressIndex) (l : String) (s : LessonState)
    → lookup l progress ≡ some s
    → passed_in progress l ≡ is_passed s
unfolding passed_in
passed_in-some progress l s e = rw (e, passed_in) refl

passed_in_rows :
    (p : ℕ) (l : String) (rs : Rows)
    → All IsConsistent rs
    → (passed_in (progress_index p rs) l ≡ true) ↔ HasGoodMastery (recorded p l rs)
passed_in_rows p l rs all = elim (Option-cases (find_row p l rs)) [
  | inl e ↦
      let absent : lookup l (progress_index p rs) ≡ none =
        lookup-progress_index p l rs ∙ ap (Option.map row_state) e in
      let closed = passed_in-none (progress_index p rs) l absent in rw e (λ h. cc, λ (m, f, g). cc)
  | inr (r, e) ↦
      let there : lookup l (progress_index p rs) ≡ some (row_state r) =
        lookup-progress_index p l rs ∙ ap (Option.map row_state) e in
      rw (e, passed_in-some (progress_index p rs) l (row_state r) there)
        (row_passed_iff r (find_row_All IsConsistent p l rs r all e))
]

-- In a store that was filled by its calls, a lesson counts as passed exactly if the mastery on
-- record for it is above the level that asks for a review.
pub passed_in_iff :
    (cs : List Call) (p : ℕ) (l : String)
    → (passed_in (progress_index p (calls cs [])) l ≡ true)
      ↔ HasGoodMastery (recorded p l (calls cs []))
passed_in_iff cs p l = passed_in_rows p l (calls cs []) (All-IsConsistent cs)

good_of_le :
    (a b : MasteryStatus)
    → rank a ≤ rank b
    → needs_revisiting a ≡ false
    → needs_revisiting b ≡ false
unfolding needs_revisiting
good_of_le a b le good = ground arith

good_some : (m : MasteryStatus) → HasGoodMastery (some m) ↔ (needs_revisiting m ≡ false)
good_some m = (λ (b, e, good). let same : m ≡ b = ground arith in rw same good, λ h. (m, refl, h))

-- The better of two is good exactly if one of them is.
good_best_iff :
    (o : Option MasteryStatus) (m best : MasteryStatus)
    → rank m ≤ rank best
    → standing o ≤ suc (rank best)
    → ((best ≡ m) ⊎ (o ≡ some best))
    → HasGoodMastery (some best) ↔ ((needs_revisiting m ≡ false) ⊎ HasGoodMastery o)
good_best_iff o m best above kept either = (
  λ h. elim either [ inl e ↦ inl (rw (← e) ((good_some best).0 h)) | inr e ↦ inr (rw e h) ],
  elim [
    | inl good ↦ (good_some best).1 (good_of_le m best above good)
    | inr (b, e, good) ↦
        let le : standing (some b) ≤ suc (rank best) = rw e at kept in
        (good_some best).1 (good_of_le b best (omega arith) good)
  ],
)

-- Completing a lesson whose checks have passed makes it count as passed exactly if its solution
-- was not shown, or if an earlier completion had left a mastery above the level of a review.
pub passed_in_completed :
    (cs : List Call) (p : ℕ) (l : String) (is_assessment : Bool) (hints : ℕ) (revealed : Bool)
    (now : ℤ)
    → (passed_in
          (progress_index p (
            call
              (complete p l (evaluate true is_assessment hints revealed) hints revealed now)
              (calls cs [])))
          l
        ≡ true)
      ↔ ((revealed ≡ false) ⊎ HasGoodMastery (recorded p l (calls cs [])))
unfolding call
passed_in_completed cs p l is_assessment hints revealed now =
    let before = calls cs [] in
    let m = evaluate true is_assessment hints revealed in
    let done = complete p l m hints revealed now in
    let (known, above, kept, either, _) = complete_lesson_lem p l m hints revealed now before in
    let passed =
      passed_in_rows p l (call done before) (call-All done before (All-IsConsistent cs)) in
    let good = good_best_iff _ m _ above kept either in
    let shown = needs_revisiting-evaluate true is_assessment hints revealed in
    (
      λ h. rw shown at (good.0 (rw known at (passed.0 h))),
      λ h. passed.1 (rw known (good.1 (rw shown h))),
    )

not_all : (P : String → Type 0) (d : String) (ds : List String) → Has d ds → All P ds → P d
not_all P d [] h all = absurd h
not_all P d (x ∷ ds) (inl e) (this, all) = rw e this
not_all P d (x ∷ ds) (inr h) (this, all) = not_all P d ds h all

-- On the guided path, completing a lesson after its solution was shown leaves every lesson that
-- has it as a prerequisite locked, unless an earlier completion had left a mastery above the level
-- of a review.
pub completed_still_locked :
    (c : Catalog) (id : String) (cs : List Call) (p : ℕ) (l : String) (is_assessment : Bool)
    (hints : ℕ) (now : ℤ)
    → Has l (prerequisites_of c id)
    → ¬ HasGoodMastery (recorded p l (calls cs []))
    → (availability c guided_path id (
        progress_index p (
          call
            (complete p l (evaluate true is_assessment hints true) hints true now)
            (calls cs [])))).unlocked
      ≡ false
completed_still_locked c id cs p l is_assessment hints now needed not_good =
    let after =
      progress_index p (
        call (complete p l (evaluate true is_assessment hints true) hints true now)
          (calls cs [])) in
    elim (Bool-cases (availability c guided_path id after).unlocked) [
      | inl unlocked ↦ elim ((availability_lem c guided_path id after).1.0 unlocked) [
        | inl n ↦ absurd (n refl)
        | inr all ↦
            elim ((passed_in_completed cs p l is_assessment hints true now).0
              (not_all _ l (prerequisites_of c id) needed all)) [
                | inl e ↦ cc
                | inr good ↦ absurd (not_good good)
              ]
      ]
      | inr closed ↦ closed
    ]
