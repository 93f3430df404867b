-- ===== src/SharedTypes/Validation/Primary.antt =====
-- Which failure is surfaced first.
use Prim.Native.String.{String}
use linuxpracticelab.Common.{
  ◌≡◌, ◌↔◌, ◌⊎◌, inl, inr, true, false, not, ◌&&◌, List, [], ◌∷◌, find, All, arith, none, some,
  Option-cases, IsFirst, find-none, find-none_of, find-IsFirst, Bool-cases,
}
use linuxpracticelab.SharedTypes.Float.{Float64}
use linuxpracticelab.SharedTypes.Validation.{CheckOutcome, primary, from_outcomes}
use linuxpracticelab.SharedTypes.Validation.Verdict.{Passed}

abbrev pub IsFailed : CheckOutcome → Type 0
IsFailed o = o.passed ≡ false

-- A failed check that could run.
abbrev pub IsReal : CheckOutcome → Type 0
IsReal o = (o.passed ≡ false) × (o.errored ≡ false)

IsFailed-iff : (o : CheckOutcome) → (not o.passed ≡ true) ↔ IsFailed o
IsFailed-iff o = (λ h. ground arith, λ h. ground arith)

IsReal-iff : (o : CheckOutcome) → (not o.passed && not o.errored ≡ true) ↔ IsReal o
IsReal-iff o = (λ h. (ground arith, ground arith), λ h. ground arith)

All-Passed : (os : List CheckOutcome) → All (λ o. ¬ IsFailed o) os ↔ All Passed os
All-Passed [] = (λ h. tt, λ h. tt)
All-Passed (o ∷ os) = (
  λ (p, h). (elim (Bool-cases o.passed) [ inl e ↦ e | inr e ↦ absurd (p e) ], (All-Passed os).0 h),
  λ (p, h). (λ e. cc, (All-Passed os).1 h),
)

none-IsReal : (os : List CheckOutcome) → All Passed os → All (λ o. ¬ IsReal o) os
none-IsReal [] h = tt
none-IsReal (o ∷ os) (p, h) = (λ (e, _). cc, none-IsReal os h)

-- A task has a failure to surface exactly if some check of it did not pass. The failure surfaced
-- is the first failed check that could run; only where every failed check is an errored one is it
-- the first failed check.
pub primary_failure_lem :
    (fl : Float64) (lesson task : String) (os : List CheckOutcome)
    → (((from_outcomes fl lesson task os).primary_failure ≡ none) ↔ All Passed os)
      × ((o : CheckOutcome)
          → (from_outcomes fl lesson task os).primary_failure ≡ some o
          → IsFirst IsReal o os ⊎ (All (λ x. ¬ IsReal x) os × IsFirst IsFailed o os))
unfolding from_outcomes
primary_failure_lem fl lesson task os = (
  (
    λ h. (All-Passed os).0 (find-none IsFailed _ IsFailed-iff os (ground arith)),
    λ h. rw (
      find-none_of IsReal _ IsReal-iff os (none-IsReal os h),
      find-none_of IsFailed _ IsFailed-iff os ((All-Passed os).1 h),
      primary,
    ),
  ),
  λ o h. elim (Option-cases (find (λ x. not x.passed && not x.errored) os)) [
    | inl e ↦ inr (
      find-none IsReal _ IsReal-iff os e,
      find-IsFirst IsFailed _ IsFailed-iff os o (ground arith),
    )
    | inr (a, e) ↦ inl (find-IsFirst IsReal _ IsReal-iff os o (ground arith))
  ],
)
