-- ===== src/VmManager/Overlay.antt =====
-- crates/vm-manager/src/overlay.rs: how an identifier from a lesson package becomes part of a file
-- name. A text is the list of its characters, and a character is its Unicode scalar value.
pub mod Names
use linuxpracticelab.Common.{
  ℕ, Bool, true, false, not, ◌&&◌, ◌||◌, List, [], ◌∷◌, is_empty, leb, ◌==◌, if◌then◌else◌,
}

abbrev pub dot : ℕ
dot = 46

abbrev pub underscore : ℕ
underscore = 95

-- `"unnamed"`.
abbrev pub unnamed : List ℕ
unnamed = 117 ∷ 110 ∷ 110 ∷ 97 ∷ 109 ∷ 101 ∷ 100 ∷ []

abbrev between : ℕ → ℕ → ℕ → Bool
between low high c = leb low c && leb c high

-- `is_ascii_alphanumeric() || character == '-' || character == '_'`
unfoldable pub is_plain : ℕ → Bool
is_plain c = between 48 57 c || between 65 90 c || between 97 122 c || c == 45 || c == underscore

unfoldable pub safe : Bool → ℕ → ℕ
safe after_dot c = if is_plain c || (c == dot && not after_dot) then c else underscore

-- The loop. The flag is `cleaned.ends_with('.')`, of which the next round needs to know.
unfoldable pub clean : Bool → List ℕ → List ℕ
clean after_dot [] = []
clean after_dot (c ∷ cs) = safe after_dot c ∷ clean (safe after_dot c == dot) cs

unfoldable pub trim_start : List ℕ → List ℕ
trim_start [] = []
trim_start (c ∷ cs) = let rest = trim_start cs in if c == dot then rest else c ∷ cs

unfoldable pub trim_end : List ℕ → List ℕ
trim_end [] = []
trim_end (c ∷ cs) = let rest = trim_end cs in if is_empty rest && c == dot then [] else c ∷ rest

unfoldable pub all_dots : List ℕ → Bool
all_dots [] = true
all_dots (c ∷ cs) = c == dot && all_dots cs

unfoldable pub or_unnamed : List ℕ → List ℕ
or_unnamed cs = if is_empty cs then unnamed else cs

unfoldable pub sanitise_id : List ℕ → List ℕ
sanitise_id id =
    if is_empty id || all_dots id
    then unnamed
    else or_unnamed (trim_end (trim_start (clean false id)))
