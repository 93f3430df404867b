-- ===== src/Agent/Filesystem/Facts.antt =====
-- What it takes for a check of a path to pass.
use Prim.Native.String.{String}
use linuxpracticelab.Common.{
  ℕ, ◌≡◌, ◌↔◌, ◌∙◌, true, false, inl, inr, Option, none, some, arith, refl, ap, Option-cases,
  get_or, [], ◌∷◌, ==_iff,
}
use linuxpracticelab.SharedTypes.Lesson.{Validator, str_param}
use linuxpracticelab.SharedTypes.Validation.{CheckOutcome, pass, fail, expected, observed}
use linuxpracticelab.Agent.Outcomes.{
  through, negated, same_iff, passes_if, passes_unless, passes_and, both, arg-path, Passes,
}
use linuxpracticelab.Agent.System.{System}
use linuxpracticelab.Agent.System.Accounts.{same}
use linuxpracticelab.Agent.System.Modes.{
  FileKind, regular, directory, symlink, fifo, socket, block, char, unknown, tag, is_kind,
  FileFacts, lstat, stat,
}
use linuxpracticelab.Agent.Filesystem.Objects.{
  exists_as, link_target, points_at, target_as, link_as, symbolic_link_exists, missing_as,
  directory_as, no_directory, file_exists, file_missing, directory_exists, directory_missing,
}

abbrev kind_tagged : ℕ → FileKind
kind_tagged n = get_or (regular ∷ directory ∷ symlink ∷ fifo ∷ socket ∷ block ∷ char ∷ []) n unknown

kind_tagged-tag : (k : FileKind) → kind_tagged (tag k) ≡ k
kind_tagged-tag regular = refl
kind_tagged-tag directory = refl
kind_tagged-tag symlink = refl
kind_tagged-tag fifo = refl
kind_tagged-tag socket = refl
kind_tagged-tag block = refl
kind_tagged-tag char = refl
kind_tagged-tag unknown = refl

pub is_kind_iff : (k l : FileKind) → (is_kind k l ≡ true) ↔ (k ≡ l)
is_kind_iff k l =
    let test = ==_iff (tag k) (tag l) in
    (
      λ h.
          let same = ap kind_tagged (test.0 h) in
          let back = kind_tagged-tag k in let back' = kind_tagged-tag l in cc,
      λ e. test.1 (ap tag e),
    )

-- The path leads to something with the property.
abbrev pub Found : (FileFacts → Type 0) → Option FileFacts → Type 0
Found P o = (facts : FileFacts) × (o ≡ some facts) × P facts

pub found_lem :
    (P : FileFacts → Type 0) (outcome : Option FileFacts → CheckOutcome)
    → (outcome none).passed ≡ false
    → ((facts : FileFacts) → ((outcome (some facts)).passed ≡ true) ↔ P facts)
    → (o : Option FileFacts) → ((outcome o).passed ≡ true) ↔ Found P o
found_lem P outcome absent here none = (λ h. cc, λ (facts, e, p). cc)
found_lem P outcome absent here (some facts) = (
  λ h. (facts, refl, (here facts).0 h),
  λ (other, e, p). let same : other ≡ facts = ground (arith, e) in (here facts).1 (rw (← same) p),
)

pub not_found_lem :
    (P : FileFacts → Type 0) (outcome : Option FileFacts → CheckOutcome)
    → (outcome none).passed ≡ true
    → ((facts : FileFacts) → ((outcome (some facts)).passed ≡ true) ↔ ¬ P facts)
    → (o : Option FileFacts) → ((outcome o).passed ≡ true) ↔ ¬ Found P o
not_found_lem P outcome absent here none = (λ h (facts, e, p). cc, λ h. absent)
not_found_lem P outcome absent here (some facts) = (
  λ h (other, e, p).
      let same : other ≡ facts = ground (arith, e) in (here facts).0 h (rw (← same) p),
  λ none_such. (here facts).1 (λ p. none_such (facts, refl, p)),
)

abbrev pub IsA : FileKind → Option FileFacts → Type 0
IsA k o = Found (λ facts. facts.kind ≡ k) o

module _ (sys : System) (v : Validator) (p : String) where
  -- The link leads where the author wants it to, if the author says where.
  abbrev pub LeadsRight : Type 0
  LeadsRight =
      (target : String) → str_param v "target" ≡ some target → link_target sys v p ≡ some target

  points_at_iff :
      (target : String) (o : Option String) → Passes (points_at v p target o) ↔ (o ≡ some target)
  unfolding pass fail expected observed
  points_at_iff target none = (λ h. cc, λ h. cc)
  points_at_iff target (some actual) =
      through (through (passes_if (same actual target) _ _ refl refl) (same_iff actual target))
        (ap some, λ e. ground (arith, e))

  target_as_iff :
      (o : Option String)
      → Passes (target_as sys v p o)
        ↔ ((target : String) → o ≡ some target → link_target sys v p ≡ some target)
  unfolding pass
  target_as_iff none = (λ h target e. cc, λ h. refl)
  target_as_iff (some wanted) =
      let points = points_at_iff wanted (link_target sys v p) in
      (λ h target e. points.0 h ∙ e, λ h. points.1 (h wanted refl))

module _ (sys : System) (v : Validator) (p : String) (here : str_param v "path" ≡ some p) where
  file_exists_iff : Passes (file_exists sys v) ↔ IsA regular (stat sys p)
  unfolding file_exists pass fail expected observed
  file_exists_iff = rw (arg-path v "path" p (λ p. exists_as v p (stat sys p)) here) (
      found_lem _ (exists_as v p) refl
        (λ facts. through (passes_if (is_kind facts.kind regular) _ _ refl refl) (is_kind_iff _ _))
        (stat sys p))

  file_missing_iff : Passes (file_missing sys v) ↔ (lstat sys p ≡ none)
  unfolding file_missing pass fail
  file_missing_iff =
      rw (arg-path v "path" p (λ p. missing_as v p (lstat sys p)) here)
        elim (Option-cases (lstat sys p)) [
          | inl e ↦ rw e (λ h. refl, λ h. refl)
          | inr (facts, e) ↦ rw e (λ h. cc, λ h. cc)
        ]

  directory_exists_iff : Passes (directory_exists sys v) ↔ IsA directory (stat sys p)
  unfolding directory_exists pass fail expected observed
  directory_exists_iff = rw (arg-path v "path" p (λ p. directory_as sys v p (stat sys p)) here) (
      found_lem _ (directory_as sys v p) refl
        (λ facts.
          through (passes_if (is_kind facts.kind directory) _ _ refl refl) (is_kind_iff _ _))
        (stat sys p))

  directory_missing_iff : Passes (directory_missing sys v) ↔ ¬ IsA directory (lstat sys p)
  unfolding directory_missing pass fail
  directory_missing_iff = rw (arg-path v "path" p (λ p. no_directory v p (lstat sys p)) here) (
      not_found_lem _ (no_directory v p) refl
        (λ facts.
          through (passes_unless (is_kind facts.kind directory) _ _ refl refl)
            (negated (is_kind_iff _ _)))
        (lstat sys p))

  symbolic_link_exists_iff :
      Passes (symbolic_link_exists sys v) ↔ (IsA symlink (lstat sys p) × LeadsRight sys v p)
  unfolding symbolic_link_exists fail expected observed
  symbolic_link_exists_iff =
      rw (arg-path v "path" p (λ p. link_as sys v p (lstat sys p)) here)
        (through (found_lem _ (link_as sys v p) refl link_here (lstat sys p)) regroup)
    where
      link_here :
          (facts : FileFacts)
          → Passes (link_as sys v p (some facts)) ↔ ((facts.kind ≡ symlink) × LeadsRight sys v p)
      link_here facts =
          through (passes_and (is_kind facts.kind symlink) _ _ refl)
            (both (is_kind_iff _ _) (target_as_iff sys v p (str_param v "target")))

      regroup :
          Found (λ facts. (facts.kind ≡ symlink) × LeadsRight sys v p) (lstat sys p)
          ↔ (IsA symlink (lstat sys p) × LeadsRight sys v p)
      regroup = (λ (facts, e, (k, l)). ((facts, e, k), l), λ ((facts, e, k), l). (facts, e, (k, l)))

  -- The checks that ask what a path leads to pass exactly if it leads there: to a file or to a
  -- directory, with links followed, to nothing at all, to no directory, or to a link with the target
  -- that is asked for.
  pub objects_lem :
      (Passes (file_exists sys v) ↔ IsA regular (stat sys p))
      × (Passes (file_missing sys v) ↔ (lstat sys p ≡ none))
      × (Passes (directory_exists sys v) ↔ IsA directory (stat sys p))
      × (Passes (directory_missing sys v) ↔ ¬ IsA directory (lstat sys p))
      × (Passes (symbolic_link_exists sys v) ↔ (IsA symlink (lstat sys p) × LeadsRight sys v p))
  objects_lem = (
    file_exists_iff, file_missing_iff, directory_exists_iff, directory_missing_iff,
    symbolic_link_exists_iff,
  )
