-- ===== src/Common/Search.antt =====
-- What `Iterator::find` returns: the first entry that satisfies the test.
use mathlib.Core.Path.{◌≡◌, refl, ap}
use mathlib.Core.Logic.{◌↔◌, inl, inr}
use mathlib.Core.Bool.{Bool, true}
use mathlib.Core.List.{List, [], ◌∷◌, ◌++◌}
use mathlib.Core.Option.{none, some}
use native.Mathlib.Omega.{arith}
use linuxpracticelab.Common.Tests.{Bool-cases}
use linuxpracticelab.Common.Lists.{find, All}

-- `a` is the first entry of `xs` at which `P` holds: no entry before it has `P`.
pub record IsFirst {A : Type 0} (P : A → Type 0) (a : A) (xs : List A) : Type 0 where
  pub before : List A
  pub after : List A
  pub split : xs ≡ before ++ a ∷ after
  pub here : P a
  pub none_before : All (λ x. ¬ P x) before

module _ {A : Type 0} (P : A → Type 0) (p : A → Bool) (p_iff : (a : A) → (p a ≡ true) ↔ P a) where
  pub find-none : (xs : List A) → find p xs ≡ none → All (λ x. ¬ P x) xs
  find-none [] h = tt
  find-none (x ∷ xs) h = (λ q. ground (arith, (p_iff x).1 q), find-none xs (ground arith))

  pub find-none_of : (xs : List A) → All (λ x. ¬ P x) xs → find p xs ≡ none
  find-none_of [] h = refl
  find-none_of (x ∷ xs) (q, h) = elim (Bool-cases (p x)) [
    | inl e ↦ absurd (q ((p_iff x).0 e))
    | inr e ↦ rw e (find-none_of xs h)
  ]

  pub find-IsFirst : (xs : List A) (a : A) → find p xs ≡ some a → IsFirst P a xs
  find-IsFirst [] a h = cc
  find-IsFirst (x ∷ xs) a h = elim (Bool-cases (p x)) [
    | inl e ↦
        let same : x ≡ a = ground arith in
        record {
          before = [];
          after = xs;
          split = rw same refl;
          here = rw same at ((p_iff x).0 e);
          none_before = tt;
        }
    | inr e ↦
        let later = find-IsFirst xs a (ground arith) in
        record {
          before = x ∷ later.before;
          after = later.after;
          split = ap (λ (l : List A). x ∷ l) later.split;
          here = later.here;
          none_before = (λ q. ground (arith, (p_iff x).1 q), later.none_before);
        }
  ]
