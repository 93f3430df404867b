-- ===== src/Agent/Browsing/Order.antt =====
-- The order in which the directory panel shows entries.
use linuxpracticelab.Common.{
  ◌≡◌, inl, inr, Bool, true, false, List, [], ◌∷◌, All, refl, Bool-cases, if◌then◌else◌,
}
use linuxpracticelab.Common.Sorting.{insert, sort_by}
use linuxpracticelab.SharedTypes.Protocol.{DirEntryInfo}
use linuxpracticelab.Agent.Browsing.{is_directory, precedes}

abbrev pub IsFile : DirEntryInfo → Type 0
IsFile e = is_directory e ≡ false

-- After an entry that is no directory there is no directory.
abbrev pub DirectoriesFirst : List DirEntryInfo → Type 0
DirectoriesFirst [] = Unit
DirectoriesFirst (e ∷ es) = (IsFile e → All IsFile es) × DirectoriesFirst es

before_file_lem : (a b : DirEntryInfo) → precedes b a ≡ true → IsFile b → IsFile a
before_file_lem a b h f = not_first (is_directory b) (is_directory a) _ h f
  where
    not_first :
        (d e x : Bool)
        → (if d then (if e then x else true) else (if e then false else x)) ≡ true
        → d ≡ false
        → e ≡ false
    not_first true e x h f = cc
    not_first false true x h f = cc
    not_first false false x h f = refl

not_precedes : (a b : DirEntryInfo) → precedes b a ≡ false → IsFile a → IsFile b
not_precedes a b h f = not_after (is_directory b) (is_directory a) _ h f
  where
    not_after :
        (d e x : Bool)
        → (if d then (if e then x else true) else (if e then false else x)) ≡ false
        → e ≡ false
        → d ≡ false
    not_after true true x h f = cc
    not_after true false x h f = cc
    not_after false e x h f = refl

insert-IsFile :
    (a : DirEntryInfo) (es : List DirEntryInfo)
    → IsFile a
    → All IsFile es
    → All IsFile (insert precedes a es)
unfolding insert
insert-IsFile a [] f all = (f, tt)
insert-IsFile a (b ∷ es) f (g, all) = elim (Bool-cases (precedes b a)) [
  | inl e ↦ rw e (g, insert-IsFile a es f all)
  | inr e ↦ rw e (f, (g, all))
]

insert-DirectoriesFirst :
    (a : DirEntryInfo) (es : List DirEntryInfo)
    → DirectoriesFirst es
    → DirectoriesFirst (insert precedes a es)
unfolding insert
insert-DirectoriesFirst a [] h = (λ f. tt, tt)
insert-DirectoriesFirst a (b ∷ es) (later, h) = elim (Bool-cases (precedes b a)) [
  | inl e ↦
      rw e (
        λ f. insert-IsFile a es (before_file_lem a b e f) (later f),
        insert-DirectoriesFirst a es h,
      )
  | inr e ↦ rw e (λ f. let g = not_precedes a b e f in (g, later g), (later, h))
]

pub sort_by-DirectoriesFirst : (es : List DirEntryInfo) → DirectoriesFirst (sort_by precedes es)
unfolding sort_by
sort_by-DirectoriesFirst [] = tt
sort_by-DirectoriesFirst (e ∷ es) =
    insert-DirectoriesFirst e (sort_by precedes es) (sort_by-DirectoriesFirst es)
