-- ===== src/ProgressStore/Lessons/Table.antt =====
-- The upsert as a law on look-ups: it writes the row under its key and no other.
use Prim.Native.String.{String}
use text.Mathlib.TextEquality.{eq_iff}
use linuxpracticelab.Common.{
  ℕ, ◌≡◌, ◌↔◌, inl, inr, true, false, Option, none, some, [], ◌∷◌, arith, refl, ◌∙◌, Bool-cases,
}
use linuxpracticelab.ProgressStore.Lessons.{Row, Rows, at_key, upsert, find_row}

abbrev pub HasKey : ℕ → String → Row → Type 0
HasKey profile lesson r = (r.profile_id ≡ profile) × (r.lesson_id ≡ lesson)

-- An update leaves the key of a row alone.
abbrev pub KeepsKey : (Row → Row) → Type 0
KeepsKey update =
    (r : Row) → ((update r).profile_id ≡ r.profile_id) × ((update r).lesson_id ≡ r.lesson_id)

pub at_key_iff : (p : ℕ) (l : String) (r : Row) → (at_key p l r ≡ true) ↔ HasKey p l r
at_key_iff p l r =
    (λ h. ground (arith, eq_iff l r.lesson_id), λ h. ground (arith, eq_iff l r.lesson_id))

pub find_row_key :
    (p : ℕ) (l : String) (rs : Rows) (r : Row) → find_row p l rs ≡ some r → HasKey p l r
unfolding find_row
find_row_key p l [] r h = cc
find_row_key p l (x ∷ rs) r h = elim (Bool-cases (at_key p l x)) [
  | inl e ↦ let (a, b) = (at_key_iff p l x).0 e in ground arith
  | inr e ↦ find_row_key p l rs r (ground arith)
]

-- What the upsert leaves under its own key.
abbrev pub written : Row → (Row → Row) → Option Row → Row
written fresh update none = fresh
written fresh update (some r) = update r

module _ (fresh : Row) (update : Row → Row) (keeps : KeepsKey update) where
  kept_key : (p : ℕ) (l : String) (r : Row) → at_key p l (update r) ≡ at_key p l r
  kept_key p l r = let (a, b) = keeps r in cc

  fresh_key : at_key fresh.profile_id fresh.lesson_id fresh ≡ true
  fresh_key = (at_key_iff fresh.profile_id fresh.lesson_id fresh).1 (refl, refl)

  not_both :
      (p : ℕ) (l : String)
      → at_key p l fresh ≡ false
      → (r : Row) → at_key fresh.profile_id fresh.lesson_id r ≡ true
      → at_key p l r ≡ false
  not_both p l other r e = let (a, b) = (at_key_iff fresh.profile_id fresh.lesson_id r).0 e in cc

  pub find_row-upsert :
      (rs : Rows)
      → find_row fresh.profile_id fresh.lesson_id (upsert fresh update rs)
        ≡ some (written fresh update (find_row fresh.profile_id fresh.lesson_id rs))
  unfolding find_row upsert
  find_row-upsert [] = let e = fresh_key in ground arith
  find_row-upsert (r ∷ rs) =
      let ih = find_row-upsert rs in
      let k = kept_key fresh.profile_id fresh.lesson_id r in
      elim (Bool-cases (at_key fresh.profile_id fresh.lesson_id r)) [
        | inl e ↦ rw (e, k ∙ e)
        | inr e ↦ rw (e, ih, e)
      ]

  -- Look-ups under the other keys are untouched.
  pub find_row-upsert_other :
      (p : ℕ) (l : String)
      → at_key p l fresh ≡ false
      → (rs : Rows) → find_row p l (upsert fresh update rs) ≡ find_row p l rs
  unfolding find_row upsert
  find_row-upsert_other p l other [] = rw other
  find_row-upsert_other p l other (r ∷ rs) =
      let ih = find_row-upsert_other p l other rs in
      let k = kept_key p l r in
      elim (Bool-cases (at_key fresh.profile_id fresh.lesson_id r)) [
        | inl e ↦ rw (e, k, not_both p l other r e)
        | inr e ↦ rw (e, ih)
      ]
