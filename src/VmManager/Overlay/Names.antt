-- ===== src/VmManager/Overlay/Names.antt =====
-- A sanitised identifier names a file of the directory it is joined to, and nothing else.
use linuxpracticelab.Common.{
  ℕ, ◌≡◌, Bool, true, false, not, ◌&&◌, ◌||◌, List, [], ◌∷◌, arith, refl, is_empty, Bool-cases, inl,
  inr, ◌==◌,
}
use linuxpracticelab.VmManager.Overlay.{
  dot, unnamed, is_plain, safe, clean, trim_start, trim_end, all_dots, or_unnamed, sanitise_id,
}

-- Letters, digits, `-`, `_` and `.` alone, and no dot after a dot, nor at the start where the flag
-- says that one came before.
abbrev pub Tidy : Bool → List ℕ → Type 0
Tidy after_dot [] = Unit
Tidy after_dot (c ∷ cs) = (is_plain c || (c == dot && not after_dot) ≡ true) × Tidy (c == dot) cs

abbrev pub ends_with_dot : List ℕ → Bool
ends_with_dot [] = false
ends_with_dot (c ∷ []) = c == dot
ends_with_dot (c ∷ d ∷ cs) = ends_with_dot (d ∷ cs)

-- A name that is not empty, made of the safe characters, with no dot at either end and no two in a
-- row: so it is neither `.` nor `..`, and has no separator.
pub record IsSafeName (name : List ℕ) : Type 0 where
  pub not_empty : is_empty name ≡ false
  pub tidy : Tidy true name
  pub no_last_dot : ends_with_dot name ≡ false

clean-Tidy : (after_dot : Bool) (cs : List ℕ) → Tidy after_dot (clean after_dot cs)
unfolding clean safe is_plain
clean-Tidy after_dot [] = tt
clean-Tidy after_dot (c ∷ cs) = (ground arith, clean-Tidy (safe after_dot c == dot) cs)

clean_kept : (after_dot : Bool) (cs : List ℕ) → Tidy after_dot cs → clean after_dot cs ≡ cs
unfolding clean safe
clean_kept after_dot [] t = refl
clean_kept after_dot (c ∷ cs) (h, t) = rw (h, clean_kept (c == dot) cs t) refl

trim_start_kept : (cs : List ℕ) → Tidy true cs → trim_start cs ≡ cs
unfolding trim_start is_plain
trim_start_kept [] t = refl
trim_start_kept (c ∷ cs) (h, t) = ground arith

trim_start-Tidy : (cs : List ℕ) → Tidy false cs → Tidy true (trim_start cs)
unfolding trim_start
trim_start-Tidy [] t = tt
trim_start-Tidy (c ∷ cs) (h, t) = elim (Bool-cases (c == dot)) [
  | inl e ↦ let tidy : Tidy true cs = rw e at t in rw (e, trim_start_kept cs tidy) tidy
  | inr e ↦ rw e (ground (arith, h, e), t)
]

trim_end-Tidy : (after_dot : Bool) (cs : List ℕ) → Tidy after_dot cs → Tidy after_dot (trim_end cs)
unfolding trim_end
trim_end-Tidy after_dot [] t = tt
trim_end-Tidy after_dot (c ∷ cs) (h, t) = elim (Bool-cases (is_empty (trim_end cs) && c == dot)) [
  | inl e ↦ rw e tt
  | inr e ↦ rw e (h, trim_end-Tidy (c == dot) cs t)
]

-- A list with an end that is not a dot.
ends_with_dot-cons :
    (c : ℕ) (cs : List ℕ)
    → ends_with_dot cs ≡ false
    → (is_empty cs && c == dot) ≡ false
    → ends_with_dot (c ∷ cs) ≡ false
ends_with_dot-cons c [] h e = ground (arith, e)
ends_with_dot-cons c (d ∷ cs) h e = h

trim_end_ends : (cs : List ℕ) → ends_with_dot (trim_end cs) ≡ false
unfolding trim_end
trim_end_ends [] = refl
trim_end_ends (c ∷ cs) = elim (Bool-cases (is_empty (trim_end cs) && c == dot)) [
  | inl e ↦ rw e refl
  | inr e ↦ rw e (ends_with_dot-cons c (trim_end cs) (trim_end_ends cs) e)
]

trim_end_kept : (cs : List ℕ) → ends_with_dot cs ≡ false → trim_end cs ≡ cs
unfolding trim_end
trim_end_kept [] h = refl
trim_end_kept (c ∷ []) h = ground arith
trim_end_kept (c ∷ d ∷ cs) h = rw (trim_end_kept (d ∷ cs) h) refl

unnamed-IsSafeName : IsSafeName unnamed
unfolding is_plain
unnamed-IsSafeName = record {
  not_empty = refl;
  tidy = (refl, (refl, (refl, (refl, (refl, (refl, (refl, tt)))))));
  no_last_dot = refl;
}

or_unnamed-IsSafeName :
    (cs : List ℕ) → Tidy true cs → ends_with_dot cs ≡ false → IsSafeName (or_unnamed cs)
unfolding or_unnamed
or_unnamed-IsSafeName [] t e = unnamed-IsSafeName
or_unnamed-IsSafeName (c ∷ cs) t e = record { not_empty = refl; tidy = t; no_last_dot = e }

sanitise_id-IsSafeName : (id : List ℕ) → IsSafeName (sanitise_id id)
unfolding sanitise_id
sanitise_id-IsSafeName id = elim (Bool-cases (is_empty id || all_dots id)) [
  | inl e ↦ rw e unnamed-IsSafeName
  | inr e ↦ rw e (
      or_unnamed-IsSafeName _ (trim_end-Tidy true _ (trim_start-Tidy _ (clean-Tidy false id)))
        (trim_end_ends (trim_start (clean false id))))
]

Tidy-weaken : (cs : List ℕ) → Tidy true cs → Tidy false cs
Tidy-weaken [] t = tt
Tidy-weaken (c ∷ cs) (h, t) = (ground (arith, h), t)

not_all_dots : (cs : List ℕ) → is_empty cs ≡ false → Tidy true cs → all_dots cs ≡ false
unfolding all_dots is_plain
not_all_dots [] n t = cc
not_all_dots (c ∷ cs) n (h, t) = ground arith

sanitise_id_safe : (id : List ℕ) → IsSafeName id → sanitise_id id ≡ id
unfolding sanitise_id or_unnamed
sanitise_id_safe id s =
    rw
      (
        s.not_empty,
        not_all_dots id s.not_empty s.tidy,
        clean_kept false id (Tidy-weaken id s.tidy),
        trim_start_kept id s.tidy,
        trim_end_kept id s.no_last_dot,
        s.not_empty,
      )
      refl

-- Whatever the identifier, the sanitised one is a safe name; an identifier that is a safe name is
-- left as it is, so sanitising twice is sanitising once.
pub sanitise_id_lem :
    (id : List ℕ)
    → IsSafeName (sanitise_id id)
      × (IsSafeName id → sanitise_id id ≡ id)
      × (sanitise_id (sanitise_id id) ≡ sanitise_id id)
sanitise_id_lem id = (
  sanitise_id-IsSafeName id,
  sanitise_id_safe id,
  sanitise_id_safe (sanitise_id id) (sanitise_id-IsSafeName id),
)
