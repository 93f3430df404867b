-- ===== src/Agent/Lessons/Names.antt =====
-- The directory of a lesson, whatever its id, and the scripts that are found for it.
use Prim.Native.Char.{Char, code}
use Prim.Native.String.{String, [], ◌∷◌, ◌++◌}
use linuxpracticelab.Common.{
  ◌≤◌, ◌≡◌, ◌≢◌, ◌∙◌, ◌⊎◌, inl, inr, Bool, true, false, Option, none, some, refl, sym, ap, arith,
  Bool-cases, ◌==◌, ==_iff,
}
use linuxpracticelab.Common.Text.{is_blank}
use linuxpracticelab.Agent.Lessons.{
  History, Guest, keep, trim_dots_front, trim_dots_back, id_char, or_unknown, lesson_directory,
  lesson_root_for, script_at, resolve_lesson_script,
}

-- A letter, a digit, a dash, an underscore or a dot.
abbrev pub IsNameChar : Char → Type 0
IsNameChar c =
    ((48 ≤ code c) × (code c ≤ 57))
    ⊎ ((65 ≤ code c) × (code c ≤ 90))
    ⊎ ((97 ≤ code c) × (code c ≤ 122))
    ⊎ (code c ≡ 45)
    ⊎ (code c ≡ 95)
    ⊎ (code c ≡ 46)

id_char-IsNameChar : (c : Char) → id_char (code c) ≡ true → IsNameChar c
id_char-IsNameChar c h = ground (arith, h)

abbrev pub AllChars : String → Type 0
AllChars [] = Unit
AllChars (c ∷ s) = IsNameChar c × AllChars s

-- No character is a path separator.
abbrev pub NoSeparator : String → Type 0
NoSeparator [] = Unit
NoSeparator (c ∷ s) = (code c ≢ 47) × NoSeparator s

AllChars-NoSeparator : (s : String) → AllChars s → NoSeparator s
AllChars-NoSeparator [] h = tt
AllChars-NoSeparator (c ∷ s) (this, rest) = (not_slash c this, AllChars-NoSeparator s rest)
  where
    not_slash : (c : Char) → IsNameChar c → code c ≢ 47
    not_slash c h e = ground (arith, h, e)

-- The name of an entry of a directory: not empty, without a separator, and not the directory above.
abbrev pub IsEntryName : String → Type 0
IsEntryName name = (name ≢ "") × NoSeparator name × (name ≢ "..")

-- What `Path::file_name` documents: where there is one, it is the last component, a normal one.
abbrev pub NamesEntries : Guest → Type 0
NamesEntries g = (path name : String) → g.file_name path ≡ some name → IsEntryName name

abbrev pub StartsNoDot : String → Type 0
StartsNoDot [] = Unit
StartsNoDot (c ∷ s) = code c ≢ 46

-- A name of letters, digits, dashes, underscores and dots that neither is empty nor starts with a
-- dot: no path separator, and neither `.` nor `..`.
abbrev pub IsSafeDirectory : String → Type 0
IsSafeDirectory s = (s ≢ "") × AllChars s × NoSeparator s × StartsNoDot s

keep-AllChars : (s : String) → AllChars (keep id_char s)
unfolding keep
keep-AllChars [] = tt
keep-AllChars (c ∷ s) = elim (Bool-cases (id_char (code c))) [
  | inl e ↦ rw e (id_char-IsNameChar c e, keep-AllChars s)
  | inr e ↦ rw e (keep-AllChars s)
]

trim_dots_front-AllChars : (s : String) → AllChars s → AllChars (trim_dots_front s)
unfolding trim_dots_front
trim_dots_front-AllChars [] h = tt
trim_dots_front-AllChars (c ∷ s) (first, rest) = elim (Bool-cases (code c == 46)) [
  | inl e ↦ rw e (trim_dots_front-AllChars s rest)
  | inr e ↦ rw e (first, rest)
]

trim_dots_front-StartsNoDot : (s : String) → StartsNoDot (trim_dots_front s)
unfolding trim_dots_front
trim_dots_front-StartsNoDot [] = tt
trim_dots_front-StartsNoDot (c ∷ s) = elim (Bool-cases (code c == 46)) [
  | inl e ↦ rw e (trim_dots_front-StartsNoDot s)
  | inr e ↦ rw e (λ dot. clash e ((==_iff (code c) 46).1 dot))
]
  where
    clash : {b : Bool} → b ≡ false → b ≡ true → ⊥
    clash f t = cc

abbrev IsTrimmed : String → Type 0
IsTrimmed s = AllChars s × StartsNoDot s

-- What is left at the back is empty or starts as before.
trim_dots_back-IsTrimmed :
    (c : Char) (s : String)
    → IsTrimmed (c ∷ s)
    → AllChars (trim_dots_back s)
    → IsTrimmed (trim_dots_back (c ∷ s))
unfolding trim_dots_back
trim_dots_back-IsTrimmed c s ((first, rest), no_dot) later =
    elim (Bool-cases (is_blank (trim_dots_back s))) [
      | inr e ↦ rw e ((first, later), no_dot)
      | inl e ↦ elim (Bool-cases (code c == 46)) [
        | inl f ↦ absurd (no_dot ((==_iff (code c) 46).0 f))
        | inr f ↦ rw (e, f) ((first, later), no_dot)
      ]
    ]

trim_dots_back-AllChars : (s : String) → AllChars s → AllChars (trim_dots_back s)
unfolding trim_dots_back
trim_dots_back-AllChars [] h = tt
trim_dots_back-AllChars (c ∷ s) (first, rest) =
    let later = trim_dots_back-AllChars s rest in
    elim (Bool-cases (is_blank (trim_dots_back s))) [
      | inr e ↦ rw e (first, later)
      | inl e ↦ elim (Bool-cases (code c == 46)) [
        | inl f ↦ rw (e, f) tt
        | inr f ↦ rw (e, f) (first, later)
      ]
    ]

back_lem : (s : String) → IsTrimmed s → IsTrimmed (trim_dots_back s)
unfolding trim_dots_back
back_lem [] h = (tt, tt)
back_lem (c ∷ s) (all, no_dot) =
    trim_dots_back-IsTrimmed c s (all, no_dot) (trim_dots_back-AllChars s all.1)

unknown_lem : AllChars "unknown"
unknown_lem = ground arith

or_unknown_lem : (s : String) → IsTrimmed s → IsSafeDirectory (or_unknown s)
or_unknown_lem [] h =
    (λ e. cc, unknown_lem, AllChars-NoSeparator "unknown" unknown_lem, λ e. omega (arith, e))
or_unknown_lem (c ∷ s) (all, no_dot) = (λ e. cc, all, AllChars-NoSeparator (c ∷ s) all, no_dot)

lesson_directory-IsSafeDirectory : (id : String) → IsSafeDirectory (lesson_directory id)
unfolding lesson_directory
lesson_directory-IsSafeDirectory id =
    let kept = keep id_char id in
    or_unknown_lem _ (
      back_lem (trim_dots_front kept)
        (trim_dots_front-AllChars kept (keep-AllChars id), trim_dots_front-StartsNoDot kept))

abbrev resolved_as : String ⊎ String → String ⊎ String
resolved_as r = r

abbrev path_of : String ⊎ String → String
path_of (inl p) = p
path_of (inr err) = err

unfound {ℓ} : {P : Type ℓ} {err path : String} → resolved_as (inr err) ≡ inl path → P
unfound e = cc

told : {p q : String} → resolved_as (inl p) ≡ inl q → p ≡ q
told e = ap path_of e

module _ (g : Guest) (id script path : String) (h : History) where
  script_at_lem :
      (o : Option String)
      → (script_at g id script o h).0 ≡ inl path
      → (name : String) × (o ≡ some name)
        × (path ≡ lesson_root_for id ++ ("/" ++ name))
        × (g.is_file h path ≡ true)
  script_at_lem none e = cc
  script_at_lem (some name) e =
      let found = lesson_root_for id ++ ("/" ++ name) in
      elim (Bool-cases (g.is_file h found)) [
        | inl b ↦
            let resolved : (script_at g id script (some name) h).0 ≡ inl found = rw b refl in
            let same_path : found ≡ path = told (sym resolved ∙ e) in
            (name, refl, sym same_path, rw (← same_path) b)
        | inr b ↦
            let refused : (script_at g id script (some name) h).0
                ≡ inr ("the lesson script " ++ (found ++ " is not installed")) =
              rw b refl in
            unfound (sym refused ∙ e)
      ]

  -- If the last component of a path is an entry's name, as documented, a script that is found for
  -- a lesson is an installed file directly in the lesson's directory, under a name that is not
  -- empty, has no separator and is not `..`; and that directory lies directly below the one of all
  -- lessons, whatever the id of the lesson: its name is not empty, has only letters, digits, dashes,
  -- underscores and dots, so no separator, and starts with no dot.
  pub resolve_lesson_script_lem :
      NamesEntries g
      → (resolve_lesson_script g id script h).0 ≡ inl path
      → IsSafeDirectory (lesson_directory id)
        × ((name : String) × (g.file_name script ≡ some name)
            × IsEntryName name
            × (path ≡ ("/opt/linuxlab/lessons/" ++ lesson_directory id) ++ ("/" ++ name))
            × (g.is_file h path ≡ true))
  unfolding resolve_lesson_script
  resolve_lesson_script_lem named e =
      let (name, last, same_path, installed) = script_at_lem (g.file_name script) e in
      (
        lesson_directory-IsSafeDirectory id,
        (name, last, named script name last, same_path, installed),
      )
