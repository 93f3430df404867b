-- ===== src/LessonEngine/Progression/Average.antt =====
-- The mastery percentage of the home screen.
use Prim.Native.String.{String}
use native.Mathlib.Nat.{le-div_iff_mul-le, div-le_of_le-mul}
use linuxpracticelab.Common.{
  ℕ, ◌*◌, ◌/◌, ◌%◌, ◌^◌, ◌≤◌, ◌<◌, ◌≡◌, ◌≢◌, List, [], ◌∷◌, length, sum, All, arith, refl,
  Option-cases, inl, inr,
}
use linuxpracticelab.SharedTypes.Progress.Ladder.{score-le-hundred}
use linuxpracticelab.LessonEngine.Catalog.{Catalog, core_lesson_ids, core_lesson_count}
use linuxpracticelab.LessonEngine.Progression.{
  ProgressIndex, mastery_in, scores, average, mastery_percent,
}

module _ (lo hi : ℕ) where
  sum_bounds :
      (ns : List ℕ)
      → All (λ n. (lo ≤ n) × (n ≤ hi)) ns
      → (lo * length ns ≤ sum ns) × (sum ns ≤ hi * length ns)
  sum_bounds [] h = (omega arith, omega arith)
  sum_bounds (n ∷ ns) (p, h) = let (a, b) = sum_bounds ns h in (grind arith, grind arith)

length-scores-le :
    (progress : ProgressIndex) (ids : List String) → length (scores progress ids) ≤ length ids
unfolding scores
length-scores-le progress [] = omega arith
length-scores-le progress (id ∷ ids) = ground (arith, length-scores-le progress ids)

scores-le-hundred :
    (progress : ProgressIndex) (ids : List String)
    → All (λ n. (0 ≤ n) × (n ≤ 100)) (scores progress ids)
unfolding scores
scores-le-hundred progress [] = tt
scores-le-hundred progress (id ∷ ids) = elim (Option-cases (mastery_in progress id)) [
  | inl e ↦ rw (e, scores) (scores-le-hundred progress ids)
  | inr (m, e) ↦ rw (e, scores) ((omega arith, score-le-hundred m), scores-le-hundred progress ids)
]

-- The `u32` and `u8` casts lose nothing where the scores are at most 100 and few enough.
quotient_bounds :
    (lo hi s l : ℕ)
    → 0 < l
    → l < 2 ^ 25
    → s ≤ 100 * l
    → lo * l ≤ s
    → s ≤ hi * l
    → (lo ≤ s % 2 ^ 32 / (l % 2 ^ 32) % 2 ^ 8) × (s % 2 ^ 32 / (l % 2 ^ 32) % 2 ^ 8 ≤ hi)
quotient_bounds lo hi s l pos few small low high =
    let below : s / l ≤ hi = div-le_of_le-mul l (omega arith) in
    let above : lo ≤ s / l = (le-div_iff_mul-le pos).1 low in
    let hundred : s / l ≤ 100 = div-le_of_le-mul l (omega arith) in
    let total : s % 2 ^ 32 ≡ s = omega arith in
    let count : l % 2 ^ 32 ≡ l = omega arith in
    let byte : s / l % 2 ^ 8 ≡ s / l = omega arith in rw (total, count, byte) (above, below)

-- Where some core lesson has been attempted, and there are fewer than 2 ^ 25 core lessons, the
-- percentage lies between any bounds on the scores of the attempted ones, and is at most 100. It
-- is 0 where none has been attempted.
pub mastery_percent_bounds :
    (c : Catalog) (progress : ProgressIndex) (lo hi : ℕ)
    → core_lesson_count c < 2 ^ 25
    → All (λ n. (lo ≤ n) × (n ≤ hi)) (scores progress (core_lesson_ids c))
    → (scores progress (core_lesson_ids c) ≢ []
        → (lo ≤ mastery_percent c progress) × (mastery_percent c progress ≤ hi))
      × (scores progress (core_lesson_ids c) ≡ [] → mastery_percent c progress ≡ 0)
      × (mastery_percent c progress ≤ 100)
unfolding mastery_percent core_lesson_count core_lesson_ids
mastery_percent_bounds c progress lo hi few within =
    over (scores progress c.lesson_order) within (scores-le-hundred progress c.lesson_order)
      (omega (arith, length-scores-le progress c.lesson_order))
  where
    over :
        (ns : List ℕ)
        → All (λ n. (lo ≤ n) × (n ≤ hi)) ns
        → All (λ n. (0 ≤ n) × (n ≤ 100)) ns
        → length ns < 2 ^ 25
        → (ns ≢ [] → (lo ≤ average ns) × (average ns ≤ hi))
          × (ns ≡ [] → average ns ≡ 0)
          × (average ns ≤ 100)
    over [] h k small = (λ n. absurd (n refl), λ e. refl, omega arith)
    over (m ∷ ms) h k small =
        let (low, high) = sum_bounds lo hi (m ∷ ms) h in
        let (_, most) = sum_bounds 0 100 (m ∷ ms) k in
        (
          λ n.
              quotient_bounds lo hi (sum (m ∷ ms)) (length (m ∷ ms)) (omega arith) small most low
                high,
          λ e. cc,
          (quotient_bounds 0 100 (sum (m ∷ ms)) (length (m ∷ ms)) (omega arith) small most
              (omega arith) most).1,
        )
