-- ===== src/Agent/Args/Limits.antt =====
-- What an author can change of an outcome, and how long a check can run.
use Prim.Native.String.{String}
use linuxpracticelab.Common.{
  ℕ, ◌≤◌, ◌≡◌, inl, inr, not, ◌&&◌, Option, none, some, arith, refl, Bool-cases,
}
use linuxpracticelab.Common.Int.{ℤ, pos, negsuc}
use linuxpracticelab.SharedTypes.Lesson.{Validator, str_param, i64_param}
use linuxpracticelab.SharedTypes.Validation.{CheckOutcome}
use linuxpracticelab.SharedTypes.Validation.Category.{FailureCategory}
use linuxpracticelab.Agent.Args.{
  category_of, set_message, set_category, set_weight, clamp_weight, apply_overrides, capped,
  capped_of, timeout,
}

-- The same verdict; only the texts, the category and the weight may differ.
abbrev pub SameVerdict : CheckOutcome → CheckOutcome → Type 0
SameVerdict o o' = (o'.passed ≡ o.passed) × (o'.errored ≡ o.errored) × (o'.kind ≡ o.kind)

set_weight-SameVerdict : (w : Option ℤ) (o : CheckOutcome) → SameVerdict o (set_weight w o)
set_weight-SameVerdict none o = (refl, refl, refl)
set_weight-SameVerdict (some n) o = (refl, refl, refl)

set_texts-SameVerdict :
    (c : Option FailureCategory) (m : Option String) (o : CheckOutcome)
    → SameVerdict o (set_category c (set_message m o))
set_texts-SameVerdict none none o = (refl, refl, refl)
set_texts-SameVerdict none (some m) o = (refl, refl, refl)
set_texts-SameVerdict (some c) none o = (refl, refl, refl)
set_texts-SameVerdict (some c) (some m) o = (refl, refl, refl)

pub apply_overrides-SameVerdict :
    (v : Validator) (o : CheckOutcome) → SameVerdict o (apply_overrides v o)
unfolding apply_overrides
apply_overrides-SameVerdict v o =
    let texts =
      set_texts-SameVerdict (category_of (str_param v "failureCategory")) (str_param v "message")
        o in
    let w = i64_param v "weight" in
    elim (Bool-cases (not o.passed && not o.errored)) [
      | inl e ↦
          let outer = set_weight-SameVerdict w (
            set_category (category_of (str_param v "failureCategory"))
              (set_message (str_param v "message") o)) in
          rw e (cc, cc, cc)
      | inr e ↦ rw e (set_weight-SameVerdict w o)
    ]

clamp_weight_bounds : (n : ℤ) → (1 ≤ clamp_weight n) × (clamp_weight n ≤ 100)
clamp_weight_bounds (pos n) = ground arith
clamp_weight_bounds (negsuc n) = ground arith

set_weight_bounds :
    (n : ℤ) (w : Option ℤ) (o : CheckOutcome)
    → w ≡ some n
    → (1 ≤ (set_weight w o).weight) × ((set_weight w o).weight ≤ 100)
set_weight_bounds n none o h = cc
set_weight_bounds n (some m) o h = clamp_weight_bounds m

-- The author of a lesson cannot change whether a check passed or could run; a weight that the
-- author gives counts for at least 1 and at most 100.
pub apply_overrides_lem :
    (v : Validator) (o : CheckOutcome)
    → SameVerdict o (apply_overrides v o)
      × ((n : ℤ)
          → i64_param v "weight" ≡ some n
          → (1 ≤ (apply_overrides v o).weight) × ((apply_overrides v o).weight ≤ 100))
unfolding apply_overrides
apply_overrides_lem v o =
    (apply_overrides-SameVerdict v o, λ n h. set_weight_bounds n (i64_param v "weight") _ h)

capped_bounds : (n : ℤ) (ms : ℕ) → capped n ≡ some ms → (1 ≤ ms) × (ms ≤ 120000)
capped_bounds (pos n) ms h = ground arith
capped_bounds (negsuc n) ms h = cc

capped_of_bounds : (o : Option ℤ) (ms : ℕ) → capped_of o ≡ some ms → (1 ≤ ms) × (ms ≤ 120000)
capped_of_bounds none ms h = cc
capped_of_bounds (some n) ms h = capped_bounds n ms h

-- A limit that a check is given lies between a millisecond and two minutes.
pub timeout_bounds : (v : Validator) (ms : ℕ) → timeout v ≡ some ms → (1 ≤ ms) × (ms ≤ 120000)
unfolding timeout
timeout_bounds v ms h = capped_of_bounds (i64_param v "timeoutMs") ms h
