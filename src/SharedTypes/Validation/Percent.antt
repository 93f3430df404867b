-- ===== src/SharedTypes/Validation/Percent.antt =====
-- The completion percentage of a task.
use Prim.Native.String.{String}
use native.Mathlib.Decide.{ℕ_discrete}
use linuxpracticelab.Common.{
  ℕ, ◌+◌, ◌^◌, ◌≤◌, ◌<◌, ◌≡◌, true, false, List, [], ◌∷◌, map, select, sum, All, arith, refl, ◌≢◌,
}
use linuxpracticelab.SharedTypes.Float.{
  Float64, percent_of, percent_of_mono, percent_of_self, percent_of_zero, percent_of-le-hundred,
}
use linuxpracticelab.SharedTypes.Validation.{
  CheckOutcome, total_weight, earned_weight, completion, from_outcomes,
}
use linuxpracticelab.SharedTypes.Validation.Verdict.{Passed, from_outcomes-passed_iff}

-- The weights as a plain sum, with no wrap-around.
abbrev pub weight_sum : List CheckOutcome → ℕ
weight_sum [] = 0
weight_sum (o ∷ os) = o.weight + weight_sum os

abbrev pub passed_sum : List CheckOutcome → ℕ
passed_sum [] = 0
passed_sum (o ∷ os) = elim o.passed [ true ↦ o.weight + passed_sum os | false ↦ passed_sum os ]

-- `bs` are the outcomes of the same checks as `as`, and what passed in `as` passes in `bs`.
abbrev pub AtLeast : List CheckOutcome → List CheckOutcome → Type 0
AtLeast [] [] = Unit
AtLeast [] (b ∷ bs) = ⊥
AtLeast (a ∷ as') [] = ⊥
AtLeast (a ∷ as') (b ∷ bs) =
    (a.weight ≡ b.weight) × (a.passed ≡ true → b.passed ≡ true) × AtLeast as' bs

sum-weights :
    (os : List CheckOutcome) → sum (map (λ (o : CheckOutcome). o.weight) os) ≡ weight_sum os
sum-weights [] = refl
sum-weights (o ∷ os) = omega (arith, sum-weights os)

sum-passed :
    (os : List CheckOutcome)
    → sum (map (λ (o : CheckOutcome). o.weight) (select (λ o. o.passed) os)) ≡ passed_sum os
sum-passed [] = refl
sum-passed (o ∷ os) = ground (arith, sum-passed os)

passed-le-weight : (os : List CheckOutcome) → passed_sum os ≤ weight_sum os
passed-le-weight [] = omega arith
passed-le-weight (o ∷ os) = ground (arith, passed-le-weight os)

total_lem : (os : List CheckOutcome) → weight_sum os < 2 ^ 32 → total_weight os ≡ weight_sum os
total_lem os h = rw (sum-weights os) (omega arith)

earned_lem : (os : List CheckOutcome) → weight_sum os < 2 ^ 32 → earned_weight os ≡ passed_sum os
earned_lem os h = rw (sum-passed os) (omega (arith, passed-le-weight os))

All-earned : (os : List CheckOutcome) → All Passed os → passed_sum os ≡ weight_sum os
All-earned [] h = refl
All-earned (o ∷ os) (p, h) = ground (arith, All-earned os h)

none_earned : (os : List CheckOutcome) → All (λ o. o.passed ≡ false) os → passed_sum os ≡ 0
none_earned [] h = refl
none_earned (o ∷ os) (p, h) = ground (arith, none_earned os h)

same_weight : (as' bs : List CheckOutcome) → AtLeast as' bs → weight_sum as' ≡ weight_sum bs
same_weight [] [] h = refl
same_weight [] (b ∷ bs) h = absurd h
same_weight (a ∷ as') [] h = absurd h
same_weight (a ∷ as') (b ∷ bs) (e, _, h) = omega (arith, same_weight as' bs h)

more_earned : (as' bs : List CheckOutcome) → AtLeast as' bs → passed_sum as' ≤ passed_sum bs
more_earned [] [] h = omega arith
more_earned [] (b ∷ bs) h = absurd h
more_earned (a ∷ as') [] h = absurd h
more_earned (a ∷ as') (b ∷ bs) (e, p, h) = ground (arith, p, more_earned as' bs h)

completion_lem :
    (fl : Float64) (os : List CheckOutcome)
    → weight_sum os < 2 ^ 32
    → weight_sum os ≢ 0
    → completion fl os ≡ percent_of fl (passed_sum os) (weight_sum os)
unfolding completion
completion_lem fl os h n = rw (total_lem os h, earned_lem os h) (ground arith)

completion_empty :
    (fl : Float64) (os : List CheckOutcome) → weight_sum os ≡ 0 → completion fl os ≡ 0
unfolding completion
completion_empty fl os e =
    let t : total_weight os ≡ 0 = omega (arith, total_lem os (omega arith)) in rw t

-- Where the weights of a task's checks sum to a positive number that fits a `u32`, the completion
-- is at most 100 percent, it is 100 percent if the task passes, and 0 if no check passed.
pub completion_percent_range :
    (fl : Float64) (lesson task : String) (os : List CheckOutcome)
    → weight_sum os < 2 ^ 32
    → weight_sum os ≢ 0
    → ((from_outcomes fl lesson task os).completion_percent ≤ 100)
      × ((from_outcomes fl lesson task os).passed ≡ true
          → (from_outcomes fl lesson task os).completion_percent ≡ 100)
      × (All (λ o. o.passed ≡ false) os → (from_outcomes fl lesson task os).completion_percent ≡ 0)
unfolding from_outcomes
completion_percent_range fl lesson task os h n =
    let value = completion_lem fl os h n in
    (
      rw value (
          percent_of-le-hundred fl (passed_sum os) (weight_sum os) (passed-le-weight os)
            (omega arith) h),
      λ p.
          rw (value, All-earned os ((from_outcomes-passed_iff fl lesson task os).0 p).1)
            (percent_of_self fl (weight_sum os) (omega arith) h),
      λ q. rw (value, none_earned os q) (percent_of_zero fl (weight_sum os) (omega arith) h),
    )

-- Passing more of the same checks never lowers the completion, where the weights fit a `u32`.
pub completion_percent_mono :
    (fl : Float64) (lesson task : String) (as' bs : List CheckOutcome)
    → AtLeast as' bs
    → weight_sum bs < 2 ^ 32
    → (from_outcomes fl lesson task as').completion_percent
      ≤ (from_outcomes fl lesson task bs).completion_percent
unfolding from_outcomes
completion_percent_mono fl lesson task as' bs better h = elim (ℕ_discrete (weight_sum bs) 0) [
  | yes e ↦ rw (completion_empty fl as' (omega (arith, same_weight as' bs better))) (omega arith)
  | no n ↦
      let same = same_weight as' bs better in
      rw
        (completion_lem fl bs h n, completion_lem fl as' (omega arith) (λ e. n (omega arith)), same)
        (percent_of_mono fl (passed_sum as') (passed_sum bs) (weight_sum bs) (omega arith)
          (more_earned as' bs better))
]
