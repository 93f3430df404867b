-- ===== src/LessonEngine/Feedback/Blame.antt =====
-- Who is blamed: a check that could not run is never the learner's mistake.
use Prim.Native.String.{String}
use linuxpracticelab.Common.{
  ◌≡◌, ◌↔◌, inl, inr, true, false, List, [], ◌∷◌, map, all, any, All, Any, arith, refl, ap, sym,
  ◌∙◌, Bool-cases, any_iff,
}
use linuxpracticelab.SharedTypes.Float.{Float64}
use linuxpracticelab.SharedTypes.Validation.{CheckOutcome, TaskValidation, from_outcomes}
use linuxpracticelab.SharedTypes.Validation.Verdict.{
  IsSound, Passed, from_outcomes-passed_iff, from_outcomes_errored,
}
use linuxpracticelab.LessonEngine.Feedback.{detail, failed, shape_feedback}

abbrev pub IsErrored : CheckOutcome → Type 0
IsErrored o = o.errored ≡ true

-- Every check that did not pass is one that could not run.
abbrev pub OnlyErrors : List CheckOutcome → Type 0
OnlyErrors os = All (λ o. o.passed ≡ false → IsErrored o) os

OnlyErrors-iff :
    (os : List CheckOutcome) → (all (λ o. o.errored) (failed os) ≡ true) ↔ OnlyErrors os
OnlyErrors-iff [] = (λ h. tt, λ h. refl)
OnlyErrors-iff (o ∷ os) =
    let (there, back) = OnlyErrors-iff os in
    (
      λ h. (λ p. ground arith, there (ground arith)),
      λ (p, h). let later = back h in ground (arith, p),
    )

errored_iff : (os : List CheckOutcome) → (any (λ o. o.errored) os ≡ true) ↔ Any IsErrored os
errored_iff = any_iff (λ o. o.errored) IsErrored (λ o. (λ h. h, λ h. h))

-- When a verdict is reported as the package's fault.
shape_authoring :
    (v : TaskValidation)
    → ((shape_feedback v).authoring_error ≡ true) ↔ (
        (v.passed ≡ false) × (v.errored ≡ true) × (all (λ o. o.errored) (failed v.outcomes) ≡ true))
unfolding shape_feedback
shape_authoring v = (λ h. (ground arith, ground arith, ground arith), λ h. ground arith)

verdict_errored :
    (fl : Float64) (lesson task : String) (os : List CheckOutcome)
    → ((from_outcomes fl lesson task os).errored ≡ any (λ o. o.errored) os)
      × ((from_outcomes fl lesson task os).outcomes ≡ os)
unfolding from_outcomes
verdict_errored fl lesson task os = (refl, refl)

-- The package is blamed exactly if some check could not run and no check that could run failed,
-- where an errored check is never marked as passed.
pub authoring_error_iff :
    (fl : Float64) (lesson task : String) (os : List CheckOutcome)
    → All IsSound os
    → ((shape_feedback (from_outcomes fl lesson task os)).authoring_error ≡ true)
      ↔ (Any IsErrored os × OnlyErrors os)
authoring_error_iff fl lesson task os sound =
    let v = from_outcomes fl lesson task os in
    let (errors, same) = verdict_errored fl lesson task os in
    let (blamed, blame) = shape_authoring v in
    (
      λ h.
          let (_, broken, rest) = blamed h in
          ((errored_iff os).0 (sym errors ∙ broken), (OnlyErrors-iff os).0 (rw same at rest)),
      λ (broken, rest).
          let e : v.errored ≡ true = errors ∙ (errored_iff os).1 broken in
          blame (
            from_outcomes_errored fl lesson task os sound e,
            e,
            ap (λ l. all (λ (o : CheckOutcome). o.errored) (failed l)) same
                ∙ (OnlyErrors-iff os).1 rest,
          ),
    )

failed-nil : (os : List CheckOutcome) → All Passed os → failed os ≡ []
failed-nil [] h = refl
failed-nil (o ∷ os) (p, h) = rw (p, failed-nil os h)

shape_details :
    (v : TaskValidation)
    → (v.passed ≡ true → (shape_feedback v).details ≡ [])
      × (v.passed ≡ false → (shape_feedback v).details ≡ map detail (failed v.outcomes))
unfolding shape_feedback
shape_details v = (λ h. ground arith, λ h. ground arith)

-- The details are one line for each check that did not pass, in their order; so a task that passed
-- has none.
pub details_lem :
    (fl : Float64) (lesson task : String) (os : List CheckOutcome)
    → (shape_feedback (from_outcomes fl lesson task os)).details ≡ map detail (failed os)
details_lem fl lesson task os =
    let v = from_outcomes fl lesson task os in
    let (done, open_) = shape_details v in
    let same = (verdict_errored fl lesson task os).1 in
    elim (Bool-cases v.passed) [
      | inl e ↦
          done e
          ∙ sym
              (ap (map detail) (failed-nil os ((from_outcomes-passed_iff fl lesson task os).0 e).1))
      | inr e ↦ open_ e ∙ ap (λ l. map detail (failed l)) same
    ]
