-- ===== src/Common/Sorting.antt =====
-- Stable sorting, as `sort` and `sort_by` do it, by insertion: `before a b` is the test that `a`
-- must come before `b`.
use Prim.Native.String.{String, compare}
use text.Mathlib.Text.{is_lt}
use mathlib.Core.Logic.{◌↔◌, ◌⊎◌, inl, inr}
use mathlib.Core.Bool.{Bool}
use mathlib.Core.List.{List, [], ◌∷◌}
use linuxpracticelab.Common.Tests.{Bool-cases, if◌then◌else◌}
use linuxpracticelab.Common.Lists.{Has}

under : {P Q R : Type 0} → (Q → R) → P ⊎ Q → P ⊎ R
under f (inl p) = inl p
under f (inr q) = inr (f q)

swap : {P Q R : Type 0} → P ⊎ (Q ⊎ R) → Q ⊎ (P ⊎ R)
swap (inl p) = inr (inl p)
swap (inr (inl q)) = inl q
swap (inr (inr r)) = inr (inr r)

module _ {A : Type 0} (before : A → A → Bool) where
  -- An element is put before the first one that must not come before it.
  unfoldable pub insert : A → List A → List A
  insert a [] = a ∷ []
  insert a (b ∷ bs) = let rest = insert a bs in if before b a then b ∷ rest else a ∷ b ∷ bs

  unfoldable pub sort_by : List A → List A
  sort_by [] = []
  sort_by (a ∷ bs) = insert a (sort_by bs)

  Has-insert_iff : (x a : A) (bs : List A) → Has x (insert a bs) ↔ Has x (a ∷ bs)
  unfolding insert
  Has-insert_iff x a [] = (λ h. h, λ h. h)
  Has-insert_iff x a (b ∷ bs) =
      let later = Has-insert_iff x a bs in
      elim (Bool-cases (before b a)) [
        | inr e ↦ rw e (λ h. h, λ h. h)
        | inl e ↦ rw e (λ h. swap (under later.0 h), λ h. under later.1 (swap h))
      ]

  pub Has-sort_by_iff : (x : A) (bs : List A) → Has x (sort_by bs) ↔ Has x bs
  unfolding sort_by
  Has-sort_by_iff x [] = (λ h. h, λ h. h)
  Has-sort_by_iff x (a ∷ bs) =
      let placed = Has-insert_iff x a (sort_by bs) in
      let rest = Has-sort_by_iff x bs in
      (λ h. under rest.0 (placed.0 h), λ h. placed.1 (under rest.1 h))

-- The order of `String`s is that of their characters' codes.
abbrev pub sort : List String → List String
sort names = sort_by (λ s t. is_lt (compare s t)) names
