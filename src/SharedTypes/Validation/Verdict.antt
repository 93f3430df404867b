-- ===== src/SharedTypes/Validation/Verdict.antt =====
-- When a task passes, and that a broken check never counts as a pass.
use linuxpracticelab.Common.{
  ℕ, ◌≤◌, ◌≡◌, ◌≢◌, ◌↔◌, true, false, List, [], ◌∷◌, all, any, All, arith, refl,
}
use Prim.Native.String.{String}
use linuxpracticelab.SharedTypes.Float.{Float64}
use linuxpracticelab.SharedTypes.Validation.{
  CheckOutcome, from_outcomes, pass, fail, error, observed, expected, weighted,
}
use linuxpracticelab.SharedTypes.Validation.Category.{FailureCategory}

abbrev pub Passed : CheckOutcome → Type 0
Passed o = o.passed ≡ true

-- An errored check never counts as passed.
abbrev pub IsSound : CheckOutcome → Type 0
IsSound o = o.errored ≡ true → o.passed ≡ false

all_iff : (os : List CheckOutcome) → (all (λ o. o.passed) os ≡ true) ↔ All Passed os
all_iff [] = (λ h. tt, λ h. refl)
all_iff (o ∷ os) =
    let (there, back) = all_iff os in
    (λ h. (ground arith, there (ground arith)), λ (p, h). ground (arith, back h))

-- A task passes exactly when it has at least one check and every check passed.
pub from_outcomes-passed_iff :
    (fl : Float64) (lesson task : String) (os : List CheckOutcome)
    → ((from_outcomes fl lesson task os).passed ≡ true) ↔ ((os ≢ []) × All Passed os)
unfolding from_outcomes
from_outcomes-passed_iff fl lesson task [] = (λ h. cc, λ h. absurd (h.0 refl))
from_outcomes-passed_iff fl lesson task (o ∷ os) =
    (λ h. (λ e. cc, (all_iff (o ∷ os)).0 h), λ h. (all_iff (o ∷ os)).1 h.1)

errored_never_all :
    (os : List CheckOutcome)
    → All IsSound os
    → any (λ o. o.errored) os ≡ true
    → all (λ o. o.passed) os ≡ false
errored_never_all [] s h = cc
errored_never_all (o ∷ os) (s, ss) h = ground (arith, s, errored_never_all os ss)

-- Where each errored check is marked as not passed, a task with an errored check does not pass.
pub from_outcomes_errored :
    (fl : Float64) (lesson task : String) (os : List CheckOutcome)
    → All IsSound os
    → (from_outcomes fl lesson task os).errored ≡ true
    → (from_outcomes fl lesson task os).passed ≡ false
unfolding from_outcomes
from_outcomes_errored fl lesson task [] s h = refl
from_outcomes_errored fl lesson task (o ∷ os) s h = errored_never_all (o ∷ os) s h

-- How the program builds an outcome.
pub data Built : CheckOutcome → Type 0 where
  by_pass : (k m : String) → Built (pass k m)
  by_fail : (k m : String) (c : FailureCategory) → Built (fail k m c)
  by_error : (k m : String) → Built (error k m)
  with_observed : {o : CheckOutcome} (t : String) → Built o → Built (observed o t)
  with_expected : {o : CheckOutcome} (t : String) → Built o → Built (expected o t)
  with_weight : {o : CheckOutcome} (w : ℕ) → Built o → Built (weighted o w)

Built-facts : {o : CheckOutcome} → Built o → IsSound o × (1 ≤ o.weight)
unfolding pass fail error observed expected weighted
Built-facts (by_pass k m) = (λ e. cc, omega arith)
Built-facts (by_fail k m c) = (λ e. refl, omega arith)
Built-facts (by_error k m) = (λ e. refl, omega arith)
Built-facts (with_observed t b) = Built-facts b
Built-facts (with_expected t b) = Built-facts b
Built-facts (with_weight w b) = let (s, p) = Built-facts b in (s, omega arith)

-- However an outcome is built, an errored one is not passed and its weight is at least one.
pub Built-IsSound : {o : CheckOutcome} → Built o → IsSound o × (1 ≤ o.weight)
Built-IsSound b = Built-facts b
