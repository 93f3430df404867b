-- ===== src/Agent/Filesystem/Entries.antt =====
-- What a directory must hold for its checks to pass.
use Prim.Native.String.{String, ◌++◌}
use linuxpracticelab.Common.{
  ◌≡◌, ◌↔◌, inl, inr, Bool, true, false, not, ◌||◌, some, List, [], ◌∷◌, Has, select, is_empty,
  refl, Bool-cases, any_iff, Has-select_iff, sym, if◌then◌else◌,
}
use linuxpracticelab.Common.Text.{starts_with}
use linuxpracticelab.Common.Sorting.{sort, Has-sort_by_iff}
use linuxpracticelab.SharedTypes.Lesson.{Validator, str_param}
use linuxpracticelab.SharedTypes.Validation.{pass, fail, expected, observed}
use linuxpracticelab.Agent.Args.{string_list, flag, flag_or}
use linuxpracticelab.Agent.System.{System}
use linuxpracticelab.Agent.System.Accounts.{same}
use linuxpracticelab.Agent.Filesystem.Directories.{
  list_entries, lists, beyond, nothing_else, entries_compared, directory_contains,
}
use linuxpracticelab.Agent.Outcomes.{
  Passes, through, both, passes_if, passes_and, same_iff, arg-path,
}

abbrev pub Within : List String → List String → Type 0
Within names others = (name : String) → Has name names → Has name others

lists_iff : (others : List String) (name : String) → (lists others name ≡ true) ↔ Has name others
lists_iff others name =
    any_iff (λ other. same other name) (λ other. name ≡ other)
      (λ other. through (same_iff other name) (sym, sym)) others

beyond_iff :
    (names others : List String) → (is_empty (beyond names others) ≡ true) ↔ Within names others
beyond_iff [] others = (λ h name m. absurd m, λ h. refl)
beyond_iff (n ∷ names) others =
    let rest = beyond_iff names others in
    let here = lists_iff others n in
    elim (Bool-cases (lists others n)) [
      | inl e ↦ rw e (λ h. with_first (here.0 e) (rest.0 h), λ h. rest.1 (λ name m. h name (inr m)))
      | inr e ↦ rw e (λ h. cc, λ h. absurd (missing_first e (here.1 (h n (inl refl)))))
    ]
  where
    with_first : Has n others → Within names others → Within (n ∷ names) others
    with_first first within name (inl same_name) = rw same_name first
    with_first first within name (inr m) = within name m

    missing_first : {b : Bool} → b ≡ false → b ≡ true → ⊥
    missing_first e t = cc

-- The entry is one that the check looks at.
abbrev pub IsShown : Validator → List String → String → Type 0
IsShown v names name =
    Has name names × ((flag_or v "includeHidden" true || not (starts_with name ".")) ≡ true)

module _ (sys : System) (v : Validator) (p : String) (wanted : List String) where
  compared_iff :
      (actual : List String)
      → Passes (entries_compared v p wanted actual)
        ↔ (Within wanted actual × (flag v "exact" ≡ true → Within actual wanted))
  unfolding pass fail expected observed
  compared_iff actual =
      through (passes_and (is_empty (beyond wanted actual)) _ _ refl)
        (both (beyond_iff wanted actual) only)
    where
      only :
          Passes (
            if flag v "exact"
            then nothing_else v p wanted actual
            else pass v.kind (p ++ " contains everything the task asked for."))
          ↔ (flag v "exact" ≡ true → Within actual wanted)
      only = elim (Bool-cases (flag v "exact")) [
        | inl e ↦
            let exact =
              through (passes_if (is_empty (beyond actual wanted)) _ _ refl refl)
                (beyond_iff actual wanted) in
            rw e (λ h _. exact.0 h, λ h. exact.1 (h refl))
        | inr e ↦ rw e (λ h t. cc, λ h. refl)
      ]

  -- A check of the entries of a directory that can be listed passes exactly if every entry asked for
  -- is shown in it and, where the check is exact, nothing else is.
  pub directory_contains_iff :
      (names : List String)
      → str_param v "path" ≡ some p
      → string_list v "entries" ≡ inl wanted
      → sys.read_dir p ≡ inl names
      → Passes (directory_contains sys v) ↔ (
          ((name : String) → Has name wanted → IsShown v names name)
          × (flag v "exact" ≡ true → (name : String) → IsShown v names name → Has name wanted))
  unfolding directory_contains list_entries
  directory_contains_iff names here entries listed =
      rw (arg-path v "path" p _ here, entries, listed)
        (through
          (compared_iff (
            sort (
              select (λ name. flag_or v "includeHidden" true || not (starts_with name ".")) names)))
          (
            λ (a, b).
                (λ name m. (shown name).0 (a name m), λ x name m. b x name ((shown name).1 m)),
            λ (a, b).
                (λ name m. (shown name).1 (a name m), λ x name m. b x name ((shown name).0 m)),
          ))
    where
      shown :
          (name : String)
          → Has name (
              sort (
                select
                  (λ name. flag_or v "includeHidden" true || not (starts_with name "."))
                  names))
            ↔ IsShown v names name
      shown name = through (Has-sort_by_iff _ name _) (Has-select_iff _ name names)
