-- ===== src/LessonEngine/Progression/Unlocking.antt =====
-- When a lesson can be opened.
use Prim.Native.String.{String}
use linuxpracticelab.Common.{
  ◌≡◌, ◌≢◌, ◌↔◌, ◌⊎◌, inl, inr, true, false, not, none, some, List, [], ◌∷◌, select, All, Has,
  Has-select_iff, select_none_iff, arith, refl, Option-cases,
}
use linuxpracticelab.LessonEngine.Catalog.{Catalog, lesson}
use linuxpracticelab.LessonEngine.Progression.{
  ProgressionMode, guided_path, open_library, assessment, ProgressIndex, passed_in, missing,
  unlocks, availability,
}

abbrev pub prerequisites_of : Catalog → String → List String
prerequisites_of c id = elim (lesson c id) [ none ↦ [] | some l ↦ l.prerequisites ]

abbrev pub IsPassedIn : ProgressIndex → String → Type 0
IsPassedIn progress id = passed_in progress id ≡ true

missing_lem :
    (c : Catalog) (id : String) (progress : ProgressIndex)
    → missing c id progress ≡ select (λ p. not (passed_in progress p)) (prerequisites_of c id)
unfolding missing
missing_lem c id progress = elim (Option-cases (lesson c id)) [
  | inl e ↦ rw (e, missing, prerequisites_of)
  | inr (l, e) ↦ rw (e, missing, prerequisites_of)
]

All-passed_iff :
    (progress : ProgressIndex) (ps : List String)
    → All (λ p. not (passed_in progress p) ≡ false) ps ↔ All (IsPassedIn progress) ps
All-passed_iff progress [] = (λ h. tt, λ h. tt)
All-passed_iff progress (p ∷ ps) =
    let (there, back) = All-passed_iff progress ps in
    (λ (q, h). (ground arith, there h), λ (q, h). (ground arith, back h))

-- The prerequisites reported as missing are those of the lesson that are not passed. Outside the
-- guided path a lesson is always unlocked; on the guided path it is unlocked exactly if all of its
-- prerequisites are passed.
pub availability_lem :
    (c : Catalog) (mode : ProgressionMode) (id : String) (progress : ProgressIndex)
    → ((d : String)
        → Has d (availability c mode id progress).missing_prerequisites
          ↔ (Has d (prerequisites_of c id) × (passed_in progress d ≡ false)))
      × (((availability c mode id progress).unlocked ≡ true)
          ↔ ((mode ≢ guided_path) ⊎ All (IsPassedIn progress) (prerequisites_of c id)))
unfolding availability
availability_lem c mode id progress = (
  λ d. rw (missing_lem c id progress) (
      let (there, back) =
        Has-select_iff (λ p. not (passed_in progress p)) d (prerequisites_of c id) in
      (λ h. let (m, t) = there h in (m, ground arith), λ (m, t). back (m, ground arith))),
  rw (missing_lem c id progress) (modes mode),
)
  where
    absent : List String
    absent = select (λ p. not (passed_in progress p)) (prerequisites_of c id)

    modes :
        (m : ProgressionMode)
        → (unlocks m absent ≡ true)
          ↔ ((m ≢ guided_path) ⊎ All (IsPassedIn progress) (prerequisites_of c id))
    modes open_library = unfold unlocks in (λ h. inl (λ e. cc), λ h. refl)
    modes assessment = unfold unlocks in (λ h. inl (λ e. cc), λ h. refl)
    modes guided_path =
        unfold unlocks in
        (
          λ h.
              inr ((All-passed_iff progress _).0 ((select_none_iff _ (prerequisites_of c id)).0 h)),
          λ h. elim h [
            | inl n ↦ absurd (n refl)
            | inr q ↦
                (select_none_iff _ (prerequisites_of c id)).1 ((All-passed_iff progress _).1 q)
          ],
        )
