-- ===== src/Common/Lists.antt =====
-- Lists measured and indexed by native numbers, the iterator adaptors that the program uses
-- (filter, find, all, any, sum), and predicates over lists by recursion.
use Prim.Native.Nat.{ℕ, zero, suc, ◌+◌, ◌<◌}
use mathlib.Core.Path.{◌≡◌, refl, sym, ap, ◌∙◌}
use mathlib.Core.Logic.{◌⊎◌, ◌↔◌, inl, inr}
use mathlib.Core.Bool.{Bool, true, false, ◌&&◌, ◌||◌}
use mathlib.Core.List.{List, [], ◌∷◌, ◌++◌}
use mathlib.Core.Option.{Option, none, some}
use native.Mathlib.Omega.{arith}
use linuxpracticelab.Common.Tests.{Bool-cases, if◌then◌else◌}

module _ {ℓ} {A : Type ℓ} where
  abbrev pub length : List A → ℕ
  length [] = 0
  length (x ∷ xs) = suc (length xs)

  abbrev pub get_elem? : List A → ℕ → Option A
  get_elem? [] i = none
  get_elem? (x ∷ xs) zero = some x
  get_elem? (x ∷ xs) (suc i) = get_elem? xs i

  abbrev pub get_or : List A → ℕ → A → A
  get_or [] i d = d
  get_or (x ∷ xs) zero d = x
  get_or (x ∷ xs) (suc i) d = get_or xs i d

  abbrev pub drop : ℕ → List A → List A
  drop zero xs = xs
  drop (suc n) [] = []
  drop (suc n) (x ∷ xs) = drop n xs

  abbrev pub take : ℕ → List A → List A
  take zero xs = []
  take (suc n) [] = []
  take (suc n) (x ∷ xs) = x ∷ take n xs

  -- `Iterator::filter`, by a Boolean test.
  abbrev pub select : (A → Bool) → List A → List A
  select p [] = []
  select p (x ∷ xs) = let rest = select p xs in if p x then x ∷ rest else rest

  -- `Iterator::find`.
  abbrev pub find : (A → Bool) → List A → Option A
  find p [] = none
  find p (x ∷ xs) = let rest = find p xs in if p x then some x else rest

  -- `Iterator::all` and `Iterator::any`.
  abbrev pub all : (A → Bool) → List A → Bool
  all p [] = true
  all p (x ∷ xs) = p x && all p xs

  abbrev pub any : (A → Bool) → List A → Bool
  any p [] = false
  any p (x ∷ xs) = p x || any p xs

  abbrev pub is_empty : List A → Bool
  is_empty [] = true
  is_empty (x ∷ xs) = false

-- `Iterator::sum`, before any wrap-around.
abbrev pub sum : List ℕ → ℕ
sum [] = 0
sum (n ∷ ns) = n + sum ns

module _ {ℓ κ} {A : Type ℓ} (P : A → Type κ) where
  abbrev pub All : List A → Type κ
  All [] = Unit
  All (x ∷ xs) = P x × All xs

module _ {ℓ} {A : Type ℓ} (P : A → Type 0) where
  abbrev pub Any : List A → Type 0
  Any [] = ⊥
  Any (x ∷ xs) = P x ⊎ Any xs

pub is_empty_of_lt {ℓ} : {A : Type ℓ} (xs : List A) (i : ℕ) → i < length xs → is_empty xs ≡ false
is_empty_of_lt [] i h = absurd (omega arith)
is_empty_of_lt (x ∷ xs) i h = refl

-- `a` is an entry of `xs`; no entry of `xs` stands in it twice.
abbrev pub Has : {A : Type 0} → A → List A → Type 0
Has a xs = Any (λ x. a ≡ x) xs

abbrev pub Distinct : {A : Type 0} → List A → Type 0
Distinct [] = Unit
Distinct (x ∷ xs) = (¬ Has x xs) × Distinct xs

module _ {A : Type 0} where
  pub Has-concat_iff : (a b : A) (xs : List A) → Has a (xs ++ b ∷ []) ↔ (Has a xs ⊎ (a ≡ b))
  Has-concat_iff a b [] = (
    λ h. elim h [ inl e ↦ inr e | inr n ↦ absurd n ],
    λ h. elim h [ inl n ↦ absurd n | inr e ↦ inl e ],
  )
  Has-concat_iff a b (x ∷ xs) =
      let (there, back) = Has-concat_iff a b xs in
      (
        λ h. elim h [
          | inl e ↦ inl (inl e)
          | inr r ↦ elim (there r) [ inl q ↦ inl (inr q) | inr e ↦ inr e ]
        ],
        λ h. elim h [
          | inl q ↦ elim q [ inl e ↦ inl e | inr r ↦ inr (back (inl r)) ]
          | inr e ↦ inr (back (inr e))
        ],
      )

  pub Distinct-concat : (xs : List A) (b : A) → Distinct xs → ¬ Has b xs → Distinct (xs ++ b ∷ [])
  Distinct-concat [] b d n = (λ h. h, tt)
  Distinct-concat (x ∷ xs) b (m, d) n = (
    λ h. elim ((Has-concat_iff x b xs).0 h) [ inl q ↦ m q | inr e ↦ n (inl (sym e)) ],
    Distinct-concat xs b d (λ h. n (inr h)),
  )

  pub any_iff :
      (p : A → Bool) (P : A → Type 0)
      → ((a : A) → (p a ≡ true) ↔ P a)
      → (xs : List A) → (any p xs ≡ true) ↔ Any P xs
  any_iff p P iff [] = (λ h. cc, λ h. absurd h)
  any_iff p P iff (x ∷ xs) =
      let (there, back) = any_iff p P iff xs in
      (
        λ h. elim (Bool-cases (p x)) [
          | inl e ↦ inl ((iff x).0 e)
          | inr e ↦ inr (there (ground arith))
        ],
        λ h. elim h [
          | inl q ↦ let e = (iff x).1 q in ground arith
          | inr r ↦ let e = back r in ground arith
        ],
      )

  pub Has-select_iff :
      (p : A → Bool) (a : A) (xs : List A) → Has a (select p xs) ↔ (Has a xs × (p a ≡ true))
  Has-select_iff p a [] = (λ h. absurd h, λ h. absurd h.0)
  Has-select_iff p a (x ∷ xs) =
      let (there, back) = Has-select_iff p a xs in
      elim (Bool-cases (p x)) [
        | inl e ↦ rw e (
          λ h. elim h [ inl q ↦ (inl q, ap p q ∙ e) | inr r ↦ let (m, t) = there r in (inr m, t) ],
          λ (m, t). elim m [ inl q ↦ inl q | inr r ↦ inr (back (r, t)) ],
        )
        | inr e ↦ rw e (
          λ h. let (m, t) = there h in (inr m, t),
          λ (m, t). elim m [ inl q ↦ absurd (clash (sym t ∙ ap p q ∙ e)) | inr r ↦ back (r, t) ],
        )
      ]
    where
      clash : true ≡ false → ⊥
      clash h = cc

  pub select_none_iff :
      (p : A → Bool) (xs : List A) → (is_empty (select p xs) ≡ true) ↔ All (λ x. p x ≡ false) xs
  select_none_iff p [] = (λ h. tt, λ h. refl)
  select_none_iff p (x ∷ xs) =
      let (there, back) = select_none_iff p xs in
      elim (Bool-cases (p x)) [
        | inl e ↦ rw e (λ h. absurd (ground arith), λ (q, h). cc)
        | inr e ↦ rw e (λ h. (refl, there h), λ (q, h). back h)
      ]
