-- ===== src/LessonEngine/Feedback/Cause.antt =====
-- Which cause the feedback names, and the guidance that goes with it.
use mathlib.Core.Option
use mathlib.Core.Path.{subst}
use linuxpracticelab.Common.{
  ◌≡◌, ◌≢◌, ◌↔◌, Bool, true, false, none, some, List, [], ◌∷◌, all, All, arith, refl, ap, sym, ltb,
  Bool-cases, inl, inr, if◌then◌else◌,
}
use linuxpracticelab.SharedTypes.Validation.{TaskValidation}
use linuxpracticelab.SharedTypes.Validation.Category.{
  FailureCategory, task_partially_completed, guidance, same_category, same_category_iff,
}
use linuxpracticelab.LessonEngine.Feedback.{failed, categories, unanimous, cause, shape_feedback}

-- There is a category, and every category named is `c`.
abbrev pub Agree : FailureCategory → List FailureCategory → Type 0
Agree c cs = (cs ≢ []) × All (λ d. d ≡ c) cs

all_same_iff :
    (c : FailureCategory) (cs : List FailureCategory)
    → (all (λ d. same_category d c) cs ≡ true) ↔ All (λ d. d ≡ c) cs
all_same_iff c [] = (λ h. tt, λ h. refl)
all_same_iff c (d ∷ cs) =
    let (there, back) = all_same_iff c cs in
    let (same, equal) = same_category_iff d c in
    (
      λ h. (same (ground arith), there (ground arith)),
      λ (p, h). let q = equal p in let later = back h in ground arith,
    )

unanimous-Agree :
    (c : FailureCategory) (cs : List FailureCategory) → Agree c cs → unanimous cs ≡ some c
unfolding unanimous
unanimous-Agree c [] (n, h) = absurd (n refl)
unanimous-Agree c (d ∷ cs) (n, (e, h)) =
    rw ((all_same_iff d (d ∷ cs)).1 (refl, subst (λ x. All (λ y. y ≡ x) cs) (sym e) h)) (ap some e)

unanimous-not_Agree :
    (cs : List FailureCategory) → ((c : FailureCategory) → ¬ Agree c cs) → unanimous cs ≡ none
unfolding unanimous
unanimous-not_Agree [] n = refl
unanimous-not_Agree (d ∷ cs) n = elim (Bool-cases (all (λ x. same_category x d) (d ∷ cs))) [
  | inl e ↦ absurd (n d (λ q. cc, (all_same_iff d (d ∷ cs)).0 e))
  | inr e ↦ rw e
]

-- What the feedback of a failed, checkable task says, by the cause and whether part of it is done.
shape_open :
    (v : TaskValidation)
    → v.passed ≡ false
    → (shape_feedback v).authoring_error ≡ false
    → ((shape_feedback v).category
        ≡ cause (unanimous (categories (failed v.outcomes))) (ltb 0 v.completion_percent))
      × ((shape_feedback v).advice ≡ Option.map guidance (shape_feedback v).category)
unfolding shape_feedback
shape_open v p a = (ground arith, ground arith)

-- Where a task did not pass and could be checked: if the failed checks that name a category all
-- name the same one, that is the cause shown; if they do not, or none names one, the cause is that
-- the task is partly completed where the completion is above zero, and no cause otherwise. The
-- guidance shown is that of the cause, if there is one.
pub category_lem :
    (v : TaskValidation)
    → v.passed ≡ false
    → (shape_feedback v).authoring_error ≡ false
    → ((c : FailureCategory)
        → Agree c (categories (failed v.outcomes))
        → (shape_feedback v).category ≡ some c)
      × (((c : FailureCategory) → ¬ Agree c (categories (failed v.outcomes)))
          → (shape_feedback v).category
            ≡ (if ltb 0 v.completion_percent then some task_partially_completed else none))
      × ((shape_feedback v).advice ≡ Option.map guidance (shape_feedback v).category)
unfolding cause
category_lem v p a =
    let (what, advice) = shape_open v p a in
    (
      λ c agree. rw (what, unanimous-Agree c _ agree, cause) refl,
      λ n. rw (what, unanimous-not_Agree _ n) (partly (ltb 0 v.completion_percent)),
      advice,
    )
  where
    partly : (b : Bool) → cause none b ≡ (if b then some task_partially_completed else none)
    partly true = refl
    partly false = refl
