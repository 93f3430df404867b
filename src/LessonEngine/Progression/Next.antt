-- ===== src/LessonEngine/Progression/Next.antt =====
-- The lesson that "Continue" opens, and the counter of the home screen.
use Prim.Native.String.{String}
use linuxpracticelab.Common.{
  suc, ◌≤◌, ◌≡◌, ◌↔◌, inl, inr, true, false, not, none, some, List, [], ◌∷◌, ◌++◌, select, find,
  length, All, Has, IsFirst, find-none, find-none_of, find-IsFirst, arith, refl, ap, Bool-cases,
}
use mathlib.Core.Path.{subst}
use mathlib.Core.List.{append-nil, append_assoc}
use linuxpracticelab.LessonEngine.Catalog.{Catalog, core_lesson_ids, core_lesson_count}
use linuxpracticelab.LessonEngine.Progression.{
  ProgressionMode, ProgressIndex, passed_in, availability, next_lesson, completed_core_lessons,
}
use linuxpracticelab.LessonEngine.Progression.Unlocking.{
  IsPassedIn, prerequisites_of, availability_lem,
}

abbrev pub IsOpen : ProgressIndex → String → Type 0
IsOpen progress id = passed_in progress id ≡ false

IsOpen-iff :
    (progress : ProgressIndex) (id : String)
    → (not (passed_in progress id) ≡ true) ↔ IsOpen progress id
IsOpen-iff progress id = (λ h. ground arith, λ h. ground arith)

not-IsOpen :
    (progress : ProgressIndex) (ids : List String)
    → All (λ x. ¬ IsOpen progress x) ids ↔ All (IsPassedIn progress) ids
not-IsOpen progress [] = (λ h. tt, λ h. tt)
not-IsOpen progress (x ∷ xs) =
    let (there, back) = not-IsOpen progress xs in
    (
      λ (n, h).
          (elim (Bool-cases (passed_in progress x)) [ inl e ↦ e | inr e ↦ absurd (n e) ], there h),
      λ (p, h). (λ e. cc, back h),
    )

count-All :
    (progress : ProgressIndex) (ids : List String)
    → (length (select (passed_in progress) ids) ≤ length ids)
      × ((length (select (passed_in progress) ids) ≡ length ids) ↔ All (IsPassedIn progress) ids)
count-All progress [] = (omega arith, (λ h. tt, λ h. refl))
count-All progress (x ∷ xs) =
    let (most, (there, back)) = count-All progress xs in
    elim (Bool-cases (passed_in progress x)) [
      | inl e ↦ rw e (omega arith, (λ h. (refl, there (omega arith)), λ (p, h). ap suc (back h)))
      | inr e ↦ rw e (omega arith, (λ h. absurd (omega arith), λ (p, h). cc))
    ]

-- The next lesson is the first core lesson, in teaching order, that is not passed: every core
-- lesson before it is passed. There is none exactly if all core lessons are passed, which is also
-- exactly when the counter of completed lessons, never above their number, reaches it.
pub next_lesson_lem :
    (c : Catalog) (progress : ProgressIndex)
    → ((id : String)
        → next_lesson c progress ≡ some id
        → IsFirst (IsOpen progress) id (core_lesson_ids c))
      × ((next_lesson c progress ≡ none) ↔ All (IsPassedIn progress) (core_lesson_ids c))
      × (completed_core_lessons c progress ≤ core_lesson_count c)
      × ((completed_core_lessons c progress ≡ core_lesson_count c)
          ↔ (next_lesson c progress ≡ none))
unfolding next_lesson completed_core_lessons core_lesson_count core_lesson_ids
next_lesson_lem c progress =
    let (most, (counted, count)) = count-All progress c.lesson_order in
    let (some_first, none_left) = finder in
    (
      λ id h. find-IsFirst (IsOpen progress) _ (IsOpen-iff progress) c.lesson_order id h,
      finder,
      most,
      (λ h. none_left (counted h), λ h. count (some_first h)),
    )
  where
    finder :
        (find (λ id. not (passed_in progress id)) c.lesson_order ≡ none)
        ↔ All (IsPassedIn progress) c.lesson_order
    finder = (
      λ h.
          (not-IsOpen progress c.lesson_order).0
            (find-none (IsOpen progress) _ (IsOpen-iff progress) c.lesson_order h),
      λ h.
          find-none_of (IsOpen progress) _ (IsOpen-iff progress) c.lesson_order
            ((not-IsOpen progress c.lesson_order).1 h),
    )

-- Each of the lessons builds only on lessons that come before it, or that were seen already.
abbrev pub IsOrdered : Catalog → List String → List String → Type 0
IsOrdered c seen [] = Unit
IsOrdered c seen (id ∷ ids) =
    All (λ p. Has p seen) (prerequisites_of c id) × IsOrdered c (seen ++ id ∷ []) ids

IsOrdered-earlier :
    (c : Catalog) (seen before after : List String) (id : String)
    → IsOrdered c seen (before ++ id ∷ after)
    → All (λ p. Has p (seen ++ before)) (prerequisites_of c id)
IsOrdered-earlier c seen [] after id (h, _) = rw (append-nil seen) h
IsOrdered-earlier c seen (x ∷ before) after id (_, h) =
    subst (λ l. All (λ p. Has p l) (prerequisites_of c id)) (append_assoc seen (x ∷ []) before)
      (IsOrdered-earlier c (seen ++ x ∷ []) before after id h)

passed_of_Has :
    (progress : ProgressIndex) (before : List String)
    → All (IsPassedIn progress) before
    → (ps : List String) → All (λ p. Has p before) ps
    → All (IsPassedIn progress) ps
passed_of_Has progress before h [] m = tt
passed_of_Has progress before h (p ∷ ps) (m, ms) =
    (find_it before h m, passed_of_Has progress before h ps ms)
  where
    find_it : (xs : List String) → All (IsPassedIn progress) xs → Has p xs → IsPassedIn progress p
    find_it [] _ q = absurd q
    find_it (x ∷ xs) (r, rs) q = elim q [ inl e ↦ rw e r | inr s ↦ find_it xs rs s ]

-- Where every core lesson builds only on core lessons taught before it, the lesson that "Continue"
-- opens is unlocked in every mode, so the guided path never gets stuck.
pub next_lesson_unlocked :
    (c : Catalog) (mode : ProgressionMode) (progress : ProgressIndex) (id : String)
    → IsOrdered c [] (core_lesson_ids c)
    → next_lesson c progress ≡ some id
    → (availability c mode id progress).unlocked ≡ true
next_lesson_unlocked c mode progress id ordered h =
    let first = (next_lesson_lem c progress).0 id h in
    (availability_lem c mode id progress).1.1 (
      inr (
        passed_of_Has progress first.before ((not-IsOpen progress first.before).0 first.none_before)
          (prerequisites_of c id)
          (IsOrdered-earlier c [] first.before first.after id
            (subst (IsOrdered c []) first.split ordered))))
