-- ===== src/Agent/Browsing/Roots.antt =====
-- What the directory panel can show.
use Prim.Native.String.{String, ◌++◌}
use linuxpracticelab.Common.{
  ◌≡◌, ◌∙◌, ◌⊎◌, inl, inr, Bool, true, false, not, ◌&&◌, Option, none, some, List, [], ◌∷◌, map,
  any, Any, Has, refl, sym, ap, arith, Bool-cases,
}
use linuxpracticelab.Common.Prefixes.{starts_with-append}
use linuxpracticelab.Common.Sorting.{sort_by, Has-sort_by_iff}
use linuxpracticelab.SharedTypes.Protocol.{DirEntryInfo}
use linuxpracticelab.Agent.System.{System, IoError}
use linuxpracticelab.Agent.System.Modes.{FileFacts, lstat}
use linuxpracticelab.Agent.System.Accounts.{same, present}
use linuxpracticelab.Agent.Outcomes.{same_iff}
use linuxpracticelab.Agent.Browsing.Order.{DirectoriesFirst, sort_by-DirectoriesFirst}
use linuxpracticelab.Agent.Browsing.{
  browsable_roots, is_below, is_browsable, is_hidden, entry_of, dir_entry, precedes, listed,
  guarded, opened, list_directory,
}

-- The path is the root or leads on from it.
abbrev pub Below : String → String → Type 0
Below path root = (path ≡ root) ⊎ ((rest : String) × (path ≡ (root ++ "/") ++ rest))

below : (path root : String) → is_below path root ≡ true → Below path root
below path root h = elim (Bool-cases (same path root)) [
  | inl e ↦ inl ((same_iff path root).0 e)
  | inr e ↦ inr (starts_with-append path (root ++ "/") (ground (arith, e, h)))
]

-- The entry bears the name of one that the directory has, and not a hidden one unless those are
-- asked for.
abbrev pub IsOf : Bool → List String → DirEntryInfo → Type 0
IsOf include_hidden names e =
    Has e.name names × ((include_hidden ≡ false) → is_hidden e.name ≡ false)

abbrev name_of : Option DirEntryInfo → String
name_of none = ""
name_of (some e) = e.name

present_first :
    (o : Option DirEntryInfo) (os : List (Option DirEntryInfo)) (e : DirEntryInfo)
    → Has e (present (o ∷ os))
    → (o ≡ some e) ⊎ Has e (present os)
present_first none os e h = inr h
present_first (some a) os e (inl same_entry) = inl (ap some (sym same_entry))
present_first (some a) os e (inr m) = inr m

module _ (sys : System) (include_hidden : Bool) (directory : String) where
  entry_named :
      (name : String) (e : DirEntryInfo)
      → dir_entry sys directory include_hidden name ≡ some e
      → (e.name ≡ name) × ((include_hidden ≡ false) → is_hidden name ≡ false)
  unfolding dir_entry
  entry_named name e h = elim (Bool-cases (not include_hidden && is_hidden name)) [
    | inl b ↦ let none_here : dir_entry sys directory include_hidden name ≡ none = rw b refl in cc
    | inr b ↦
        let here : dir_entry sys directory include_hidden name
            ≡ entry_of sys (directory ++ ("/" ++ name)) name
                (lstat sys (directory ++ ("/" ++ name))) =
          rw b refl in
        (named (lstat sys (directory ++ ("/" ++ name))) (sym here ∙ h), λ f. ground (arith, f, b))
  ]
    where
      named :
          (o : Option FileFacts)
          → entry_of sys (directory ++ ("/" ++ name)) name o ≡ some e
          → e.name ≡ name
      named none k = cc
      named (some facts) k = sym (ap name_of k)

  present_named :
      (names : List String) (e : DirEntryInfo)
      → Has e (present (map (dir_entry sys directory include_hidden) names))
      → IsOf include_hidden names e
  present_named [] e h = absurd h
  present_named (name ∷ names) e h =
      elim (present_first (dir_entry sys directory include_hidden name) _ e h) [
        | inl b ↦
            let (same_name, shown) = entry_named name e b in
            (inl same_name, λ f. rw same_name (shown f))
        | inr m ↦ later (present_named names e m)
      ]
    where
      later : IsOf include_hidden names e → IsOf include_hidden (name ∷ names) e
      later (m, shown) = (inr m, shown)

  -- What the directory is read as, and the entries that are listed for it.
  abbrev pub Lists : List DirEntryInfo → Type 0
  Lists entries =
      (names : List String) × (sys.read_dir directory ≡ inl names)
      × ((e : DirEntryInfo) → Has e entries → IsOf include_hidden names e)
      × DirectoriesFirst entries

  listed_lem :
      (r : List String ⊎ IoError) (entries : List DirEntryInfo)
      → listed sys directory include_hidden r ≡ inl entries
      → (names : List String) × (r ≡ inl names)
        × ((e : DirEntryInfo) → Has e entries → IsOf include_hidden names e)
        × DirectoriesFirst entries
  listed_lem (inr err) entries h = cc
  listed_lem (inl names) entries h =
      let all_entries = present (map (dir_entry sys directory include_hidden) names) in
      let sorted : sort_by precedes all_entries ≡ entries = ground (arith, h) in
      (
        names,
        refl,
        λ e m. present_named names e ((Has-sort_by_iff precedes e all_entries).0 (rw sorted m)),
        rw (← sorted) (sort_by-DirectoriesFirst all_entries),
      )

  guarded_lem :
      (path : String) (entries : List DirEntryInfo)
      → guarded sys path include_hidden directory ≡ inl entries
      → Any (Below directory) browsable_roots × Lists entries
  guarded_lem path entries h = elim (Bool-cases (is_browsable directory)) [
    | inr b ↦
        let refused : guarded sys path include_hidden directory
            ≡ inr (path ++ " is outside the directories this panel may browse") =
          rw b refl in
        absurd (clash h refused)
    | inl b ↦
        let shown : guarded sys path include_hidden directory
            ≡ listed sys directory include_hidden (sys.read_dir directory) =
          rw b refl in
        (any_below browsable_roots b, listed_lem (sys.read_dir directory) entries (sym shown ∙ h))
  ]
    where
      clash : {why : String} {r : List DirEntryInfo ⊎ String} → r ≡ inl entries → r ≡ inr why → ⊥
      clash a b = cc

      any_below :
          (roots : List String)
          → any (is_below directory) roots ≡ true
          → Any (Below directory) roots
      any_below [] a = cc
      any_below (root ∷ roots) a = elim (Bool-cases (is_below directory root)) [
        | inl e ↦ inl (below directory root e)
        | inr e ↦ inr (any_below roots (ground (arith, e, a)))
      ]

module _ (sys : System) (path : String) (include_hidden : Bool) (entries : List DirEntryInfo) where
  opened_lem :
      (r : String ⊎ String)
      → opened sys path include_hidden r ≡ inl entries
      → (canonical : String) × (r ≡ inl canonical)
        × Any (Below canonical) browsable_roots
        × Lists sys include_hidden canonical entries
  opened_lem (inr err) h = cc
  opened_lem (inl canonical) h =
      let (root, shown) = guarded_lem sys include_hidden canonical path entries h in
      (canonical, refl, root, shown)

  -- The panel shows a directory only where the path, with its links followed, is one of the
  -- browsable roots or below one; what it shows are entries of that directory, hidden ones only if
  -- asked for and directories before all others.
  pub list_directory_lem :
      list_directory sys path include_hidden ≡ inl entries
      → (canonical : String) × (sys.canonicalize path ≡ inl canonical)
        × Any (Below canonical) browsable_roots
        × Lists sys include_hidden canonical entries
  unfolding list_directory
  list_directory_lem h = opened_lem (sys.canonicalize path) h
