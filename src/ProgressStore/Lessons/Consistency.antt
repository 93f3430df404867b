-- ===== src/ProgressStore/Lessons/Consistency.antt =====
-- What every row of the table has in common, however it came about.
use Prim.Native.String.{String}
use text.Mathlib.Text.{◌==◌ as str_eq}
use linuxpracticelab.Common.{
  ◌≡◌, ◌⊎◌, inl, inr, Bool, select, Option, none, some, List, [], ◌∷◌, refl, ◌∙◌, All, Bool-cases,
  if◌then◌else◌,
}
use linuxpracticelab.Common.Int.{ℤ}
use linuxpracticelab.SharedTypes.Progress.{MasteryStatus, score, needs_revisiting}
use linuxpracticelab.ProgressStore.Codes.{status_str, mastery_str}
use linuxpracticelab.ProgressStore.Lessons.{
  Row, Rows, Call, start, attempt, hint, reset, reset_profile, complete, call, calls, new_row,
  at_key, upsert, start_lesson, record_lesson_attempt, add_hint_used, complete_lesson,
  completion_status, or_now, best_mastery, existing_mastery, find_row,
}

-- A lesson that was started and not completed.
pub record IsOngoing (r : Row) : Type 0 where
  pub no_mastery : r.mastery ≡ none
  pub in_progress : r.status ≡ "in-progress"
  pub no_score : r.mastery_score ≡ 0
  pub not_completed : r.completed_at ≡ none

-- A lesson that was completed: the status and the score are those of the mastery.
pub record IsFinished (r : Row) : Type 0 where
  pub best : MasteryStatus
  pub has_mastery : r.mastery ≡ some (mastery_str best)
  pub has_status : r.status ≡ status_str (completion_status best)
  pub has_score : r.mastery_score ≡ score best
  pub when : ℤ
  pub was_completed : r.completed_at ≡ some when

abbrev pub IsConsistent : Row → Type 0
IsConsistent r = IsOngoing r ⊎ IsFinished r

All-upsert :
    (P : Row → Type 0) (fresh : Row) (update : Row → Row)
    → P fresh
    → ((r : Row) → P r → P (update r))
    → (rs : Rows) → All P rs
    → All P (upsert fresh update rs)
unfolding upsert
All-upsert P fresh update new kept [] all = (new, tt)
All-upsert P fresh update new kept (r ∷ rs) (this, all) =
    elim (Bool-cases (at_key fresh.profile_id fresh.lesson_id r)) [
      | inl e ↦ rw e (kept r this, all)
      | inr e ↦ rw e (this, All-upsert P fresh update new kept rs all)
    ]

All-select : (P : Row → Type 0) (keep : Row → Bool) (rs : Rows) → All P rs → All P (select keep rs)
All-select P keep [] all = tt
All-select P keep (r ∷ rs) (this, all) = elim (Bool-cases (keep r)) [
  | inl e ↦ rw e (this, All-select P keep rs all)
  | inr e ↦ rw e (All-select P keep rs all)
]

same_columns :
    (r r' : Row)
    → r'.mastery ≡ r.mastery
    → r'.status ≡ r.status
    → r'.mastery_score ≡ r.mastery_score
    → r'.completed_at ≡ r.completed_at
    → IsConsistent r
    → IsConsistent r'
same_columns r r' a b c d (inl o) = inl (record {
  no_mastery = a ∙ o.no_mastery;
  in_progress = b ∙ o.in_progress;
  no_score = c ∙ o.no_score;
  not_completed = d ∙ o.not_completed;
})
same_columns r r' a b c d (inr f) = inr (record {
  best = f.best;
  has_mastery = a ∙ f.has_mastery;
  has_status = b ∙ f.has_status;
  has_score = c ∙ f.has_score;
  when = f.when;
  was_completed = d ∙ f.was_completed;
})

started :
    (r : Row)
    → r.mastery ≡ none
    → r.status ≡ "in-progress"
    → r.mastery_score ≡ 0
    → r.completed_at ≡ none
    → IsOngoing r
started r a b c d = record { no_mastery = a; in_progress = b; no_score = c; not_completed = d }

abbrev restarted : String → String
restarted status = if str_eq status "not-started" then "in-progress" else status

restarted-completion_status :
    (m : MasteryStatus)
    → restarted (status_str (completion_status m)) ≡ status_str (completion_status m)
unfolding status_str completion_status needs_revisiting
restarted-completion_status = elim [
  | MasteryStatus.review_required ↦ refl
  | MasteryStatus.needs_review ↦ refl
  | MasteryStatus.passed ↦ refl
  | MasteryStatus.strong ↦ refl
  | MasteryStatus.mastered ↦ refl
]

-- Starting a lesson again leaves its status.
status_restarted : (r : Row) → IsConsistent r → restarted r.status ≡ r.status
status_restarted r (inl o) = rw o.in_progress refl
status_restarted r (inr f) = rw f.has_status (restarted-completion_status f.best)

or_now-some : (o : Option ℤ) (now : ℤ) → (t : ℤ) × (or_now o now ≡ some t)
or_now-some none now = (now, refl)
or_now-some (some t) now = (t, refl)

pub call-All : (c : Call) (rs : Rows) → All IsConsistent rs → All IsConsistent (call c rs)
unfolding call start_lesson record_lesson_attempt add_hint_used complete_lesson reset_profile
    new_row
call-All (start p l now) rs all =
    All-upsert IsConsistent _ _ (inl (started _ refl refl refl refl))
      (λ r h. same_columns r _ refl (status_restarted r h) refl refl h) rs all
call-All (attempt p l now) rs all =
    All-upsert IsConsistent _ _ (inl (started _ refl refl refl refl))
      (λ r h. same_columns r _ refl refl refl refl h) rs all
call-All (hint p l now) rs all =
    All-upsert IsConsistent _ _ (inl (started _ refl refl refl refl))
      (λ r h. same_columns r _ refl refl refl refl h) rs all
call-All (reset p) rs all = All-select _ _ rs all
call-All (complete p l m hints revealed now) rs all =
    let best = best_mastery (existing_mastery (find_row p l rs)) m in
    All-upsert IsConsistent _ _
      (inr (record {
        best = best;
        has_mastery = refl;
        has_status = refl;
        has_score = refl;
        when = now;
        was_completed = refl;
      }))
      (λ r h. inr (record {
        best = best;
        has_mastery = refl;
        has_status = refl;
        has_score = refl;
        when = (or_now-some r.completed_at now).0;
        was_completed = (or_now-some r.completed_at now).1;
      }))
      rs all

calls-All : (cs : List Call) (rs : Rows) → All IsConsistent rs → All IsConsistent (calls cs rs)
unfolding calls
calls-All [] rs all = all
calls-All (c ∷ cs) rs all = calls-All cs (call c rs) (call-All c rs all)

-- From an empty table, every row is at any time either of a lesson that was never completed, in
-- progress and without a mastery or a score, or of one that has a time of completion, and the
-- status and score of its mastery.
pub All-IsConsistent : (cs : List Call) → All IsConsistent (calls cs [])
All-IsConsistent cs = calls-All cs [] tt
