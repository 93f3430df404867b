-- ===== src/LessonEngine/Hints/Rollup.antt =====
-- The attempts of a lesson rolled up: the lesson takes the weakest mastery of its tasks.
use linuxpracticelab.Common.{
  ◌≤◌, ◌≡◌, ◌≢◌, ◌⊎◌, inl, inr, Bool, List, [], ◌∷◌, map, All, Any, arith, refl, ◌∙◌,
}
use native.Mathlib.Nat.{le_trans}
use linuxpracticelab.SharedTypes.Progress.{MasteryStatus, rank}
use linuxpracticelab.LessonEngine.Hints.{AttemptState, mastery, weaker, min_from, lesson_mastery}

weaker-le : (a b : MasteryStatus) → (rank (weaker a b) ≤ rank a) × (rank (weaker a b) ≤ rank b)
weaker-le a b = ground arith

weaker-cases : (a b : MasteryStatus) → (weaker a b ≡ a) ⊎ (weaker a b ≡ b)
weaker-cases a b = ground arith

min_from-lower :
    (best : MasteryStatus) (ms : List MasteryStatus)
    → (rank (min_from best ms) ≤ rank best) × All (λ m. rank (min_from best ms) ≤ rank m) ms
min_from-lower best [] = (omega arith, tt)
min_from-lower best (m ∷ ms) =
    let (low, lower) = min_from-lower (weaker best m) ms in
    let (left, right) = weaker-le best m in (le_trans low left, (le_trans low right, lower))

min_from-member :
    (best : MasteryStatus) (ms : List MasteryStatus)
    → (min_from best ms ≡ best) ⊎ Any (λ m. min_from best ms ≡ m) ms
min_from-member best [] = inl refl
min_from-member best (m ∷ ms) = elim (min_from-member (weaker best m) ms) [
  | inl q ↦ elim (weaker-cases best m) [ inl a ↦ inl (q ∙ a) | inr b ↦ inr (inl (q ∙ b)) ]
  | inr r ↦ inr (inr r)
]

module _ (is_assessment : Bool) (weakest : MasteryStatus) where
  All-of_map :
      (attempts : List AttemptState)
      → All (λ m. rank weakest ≤ rank m) (map (λ b. mastery b is_assessment) attempts)
      → All (λ b. rank weakest ≤ rank (mastery b is_assessment)) attempts
  All-of_map [] h = tt
  All-of_map (a ∷ attempts) (p, h) = (p, All-of_map attempts h)

  Any-of_map :
      (attempts : List AttemptState)
      → Any (λ m. weakest ≡ m) (map (λ b. mastery b is_assessment) attempts)
      → Any (λ b. weakest ≡ mastery b is_assessment) attempts
  Any-of_map [] h = absurd h
  Any-of_map (a ∷ attempts) h = elim h [ inl q ↦ inl q | inr r ↦ inr (Any-of_map attempts r) ]

-- The mastery of a lesson with attempts is that of one of them, and no attempt's is lower. With no
-- attempts the lesson needs review.
pub lesson_mastery_lem :
    (attempts : List AttemptState) (is_assessment : Bool)
    → All
        (λ a. rank (lesson_mastery attempts is_assessment) ≤ rank (mastery a is_assessment))
        attempts
      × (attempts ≢ []
          → Any (λ a. lesson_mastery attempts is_assessment ≡ mastery a is_assessment) attempts)
      × (attempts ≡ [] → lesson_mastery attempts is_assessment ≡ MasteryStatus.needs_review)
unfolding lesson_mastery
lesson_mastery_lem [] is_assessment = (tt, λ h. absurd (h refl), λ h. refl)
lesson_mastery_lem (a ∷ attempts) is_assessment =
    let best = mastery a is_assessment in
    let others = map (λ b. mastery b is_assessment) attempts in
    let (low, lower) = min_from-lower best others in
    (
      (low, All-of_map is_assessment (min_from best others) attempts lower),
      λ h. elim (min_from-member best others) [
        | inl q ↦ inl q
        | inr r ↦ inr (Any-of_map is_assessment (min_from best others) attempts r)
      ],
      λ h. cc,
    )
