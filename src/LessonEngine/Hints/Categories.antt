-- ===== src/LessonEngine/Hints/Categories.antt =====
-- The failure categories that an attempt collects for the report of weak concepts.
use linuxpracticelab.Common.{
  ◌≡◌, ◌↔◌, ◌⊎◌, inl, inr, Bool, none, some, List, [], ◌∷◌, any, Any, Has, Distinct, Has-concat_iff,
  Distinct-concat, any_iff, Bool-cases, arith,
}
use linuxpracticelab.SharedTypes.Lesson.{Task}
use linuxpracticelab.SharedTypes.Validation.Category.{
  FailureCategory, same_category, same_category_iff,
}
use linuxpracticelab.LessonEngine.Hints.{
  AttemptState, reveal_next_hint, reveal_solution, push_category, record_failure, record_pass,
}
use linuxpracticelab.LessonEngine.Hints.Events.{
  Event, ask_hint, ask_solution, check_passed, check_failed, step, run,
}

push_category_lem :
    (c : FailureCategory) (cs : List FailureCategory)
    → Distinct cs
    → Distinct (push_category c cs)
      × ((d : FailureCategory) → Has d (push_category c cs) ↔ (Has d cs ⊎ (d ≡ c)))
unfolding push_category
push_category_lem c cs distinct =
    let (there, back) = any_iff (same_category c) (λ x. c ≡ x) (same_category_iff c) cs in
    elim (Bool-cases (any (same_category c) cs)) [
      | inl e ↦
          rw e
            (distinct, λ d. (λ h. inl h, λ h. elim h [ inl q ↦ q | inr same ↦ rw same (there e) ]))
      | inr e ↦ rw e (Distinct-concat cs c distinct (λ h. cc (back h)), λ d. Has-concat_iff d c cs)
    ]

-- The category `d` was reported by one of the events.
abbrev pub Reported : FailureCategory → List Event → Type 0
Reported d es = Any (λ e. e ≡ check_failed (some d)) es

-- What leaves the categories alone reports none.
unreported :
    (e : Event) (cs : List FailureCategory)
    → ((d : FailureCategory) → ¬ (e ≡ check_failed (some d)))
    → (d : FailureCategory) → Has d cs ↔ (Has d cs ⊎ (e ≡ check_failed (some d)))
unreported e cs silent d = (λ h. inl h, λ h. elim h [ inl q ↦ q | inr r ↦ absurd (silent d r) ])

kept_by_asking :
    (task : Task) (allowed : Bool) (s : AttemptState)
    → ((step task allowed s ask_hint).failure_categories ≡ s.failure_categories)
      × ((step task allowed s ask_solution).failure_categories ≡ s.failure_categories)
unfolding step reveal_next_hint reveal_solution
kept_by_asking task allowed s = (ground arith, ground arith)

step_categories :
    (task : Task) (allowed : Bool) (s : AttemptState) (e : Event)
    → Distinct s.failure_categories
    → Distinct (step task allowed s e).failure_categories
      × ((d : FailureCategory)
          → Has d (step task allowed s e).failure_categories
            ↔ (Has d s.failure_categories ⊎ (e ≡ check_failed (some d))))
unfolding step record_failure record_pass
step_categories task allowed s (check_failed (some c)) h =
    let (distinct, members) = push_category_lem c s.failure_categories h in
    (
      distinct,
      λ d. (
        λ q. elim ((members d).0 q) [ inl old ↦ inl old | inr e ↦ inr (cc e) ],
        λ q. (members d).1 (elim q [ inl old ↦ inl old | inr e ↦ inr (cc e) ]),
      ),
    )
step_categories task allowed s (check_failed none) h =
    (h, unreported (check_failed none) s.failure_categories (λ d e. cc))
step_categories task allowed s ask_hint h =
    rw (kept_by_asking task allowed s).0 (h, unreported ask_hint s.failure_categories (λ d e. cc))
step_categories task allowed s ask_solution h =
    rw (kept_by_asking task allowed s).1
      (h, unreported ask_solution s.failure_categories (λ d e. cc))
step_categories task allowed s check_passed h =
    (h, unreported check_passed s.failure_categories (λ d e. cc))

-- The failure categories of an attempt stay free of repetition, and after any events they are
-- those that were there before and those that a failed check reported, no others.
pub run_categories :
    (task : Task) (allowed : Bool) (s : AttemptState) (es : List Event)
    → Distinct s.failure_categories
    → Distinct (run task allowed s es).failure_categories
      × ((d : FailureCategory)
          → Has d (run task allowed s es).failure_categories
            ↔ (Has d s.failure_categories ⊎ Reported d es))
unfolding run
run_categories task allowed s [] h =
    (h, λ d. (λ q. inl q, λ q. elim q [ inl a ↦ a | inr b ↦ absurd b ]))
run_categories task allowed s (e ∷ es) h =
    let (distinct, members) = step_categories task allowed s e h in
    let (last, reported) = run_categories task allowed (step task allowed s e) es distinct in
    (
      last,
      λ d. (
        λ q. elim ((reported d).0 q) [
          | inl old ↦ elim ((members d).0 old) [ inl a ↦ inl a | inr b ↦ inr (inl b) ]
          | inr later ↦ inr (inr later)
        ],
        λ q. (reported d).1 (elim q [
          | inl a ↦ inl ((members d).1 (inl a))
          | inr b ↦ elim b [ inl now ↦ inl ((members d).1 (inr now)) | inr later ↦ inr later ]
        ]),
      ),
    )
