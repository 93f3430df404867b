-- ===== src/Agent/Tests/Paths.antt =====
-- A guest with a file, a directory and a symbolic link, and the checks of them.
use Prim.Native.String.{String}
use text.Mathlib.Text
use linuxpracticelab.Common.{ℕ, ◌≡◌, ◌↔◌, inl, inr, true, false, none, some, [], ◌∷◌, Has, refl}
use linuxpracticelab.Common.Bits.{AgreeOn}
use linuxpracticelab.Common.Assoc.{Assoc, lookup}
use linuxpracticelab.SharedTypes.Json.{Json, Items, Members, get}
use linuxpracticelab.SharedTypes.Lesson.{Validator, str_param, bool_param}
use linuxpracticelab.SharedTypes.Validation.{pass, fail, observed, expected}
use linuxpracticelab.Agent.Args.{string, string_list, texts, path, flag, flag_or}
use linuxpracticelab.Agent.System.{Metadata, System}
use linuxpracticelab.Agent.System.Modes.{regular, directory, symlink, stat, lstat, from_mode}
use linuxpracticelab.Agent.Filesystem.Objects.{
  mode_param, mask_of, file_exists, file_missing, directory_exists, directory_missing,
  symbolic_link_exists, file_mode,
}
use linuxpracticelab.Agent.Filesystem.Directories.{directory_contains}
use linuxpracticelab.Agent.Outcomes.{Passes}
use linuxpracticelab.Agent.Filesystem.Facts.{Found, IsA, LeadsRight, objects_lem}
use linuxpracticelab.Agent.Filesystem.Masks.{file_mode_iff}
use linuxpracticelab.Agent.Filesystem.Entries.{IsShown, directory_contains_iff}

abbrev inode : ℕ → ℕ → Metadata
inode ino mode = record { mode = mode; size = 5; uid = 0; gid = 0; ino = ino }

-- A file with the mode 0640, a directory and a link to the file, which `stat` follows.
abbrev followed : Assoc Metadata
followed = ("/tmp/a", inode 1 33184) ∷ ("/tmp", inode 2 17407) ∷ ("/tmp/l", inode 1 33184) ∷ []

abbrev unfollowed : Assoc Metadata
unfollowed = ("/tmp/a", inode 1 33184) ∷ ("/tmp", inode 2 17407) ∷ ("/tmp/l", inode 3 41471) ∷ []

abbrev pub guest : System
guest = record {
  metadata = λ p. lookup p followed;
  symlink_metadata = λ p. lookup p unfollowed;
  is_dir = λ p. text.Mathlib.Text.◌==◌ p "/tmp";
  parents = λ p. "/tmp" ∷ "/" ∷ [];
  canonicalize = λ p. inl p;
  read_link = λ p. some "/tmp/a";
  same_path = λ p q. text.Mathlib.Text.◌==◌ p q;
  read = λ p. inr record { is_permission_denied = false; text = "not found" };
  read_to_string = λ p. none;
  read_dir = λ p. inl ("a" ∷ "l" ∷ ".hidden" ∷ []);
  run = λ program arguments limit. inr "could not run it";
  regex = λ pattern' i m. inr "no patterns";
  to_lowercase = λ s. s;
  own_pid = 100;
  modified = λ p. none;
  now = 0;
}

abbrev pub of_path : String → Members → Validator
of_path p more = record { kind = "check"; params = Members.member "path" (Json.string p) more }

abbrev link : Validator
link = of_path "/tmp/l" (Members.member "target" (Json.string "/tmp/a") Members.end)

link_path : str_param link "path" ≡ some "/tmp/l"
unfolding str_param get
link_path = refl

link_run :
    ((symbolic_link_exists guest link).passed ≡ true)
    × ((file_exists guest link).passed ≡ true)
    × ((directory_exists guest link).passed ≡ false)
unfolding symbolic_link_exists file_exists directory_exists path string str_param bool_param flag
    flag_or get lookup stat lstat from_mode pass fail expected observed
link_run = (refl, refl, refl)

objects_lem_example :
    (Passes (file_exists guest link) ↔ IsA regular (stat guest "/tmp/l"))
    × (Passes (file_missing guest link) ↔ (lstat guest "/tmp/l" ≡ none))
    × (Passes (directory_exists guest link) ↔ IsA directory (stat guest "/tmp/l"))
    × (Passes (directory_missing guest link) ↔ ¬ IsA directory (lstat guest "/tmp/l"))
    × (Passes (symbolic_link_exists guest link)
        ↔ (IsA symlink (lstat guest "/tmp/l") × LeadsRight guest link "/tmp/l"))
objects_lem_example = objects_lem guest link "/tmp/l" link_path

-- Nobody else may read it.
abbrev closed : Validator
closed = of_path "/tmp/a" (
    Members.member "mode" (Json.string "0000")
      (Members.member "mask" (Json.string "0007") Members.end))

closed_path : str_param closed "path" ≡ some "/tmp/a"
unfolding str_param get
closed_path = refl

file_mode_iff_example : Passes (file_mode guest closed) ↔ (
    (mode : ℕ) × (mode_param closed "mode" ≡ some mode)
    × Found (λ facts. AgreeOn (mask_of closed) facts.permissions mode) (stat guest "/tmp/a"))
file_mode_iff_example = file_mode_iff guest closed "/tmp/a" closed_path

abbrev listing : Validator
listing =
    of_path "/tmp"
      (Members.member "entries" (Json.array (Items.cons (Json.string "a") Items.nil)) Members.end)

listing_path : str_param listing "path" ≡ some "/tmp"
unfolding str_param get
listing_path = refl

listing_entries : string_list listing "entries" ≡ inl ("a" ∷ [])
unfolding string_list texts get
listing_entries = refl

directory_contains_iff_example : Passes (directory_contains guest listing) ↔ (
    ((name : String) → Has name ("a" ∷ []) → IsShown listing ("a" ∷ "l" ∷ ".hidden" ∷ []) name)
    × (flag listing "exact" ≡ true
        → (name : String) → IsShown listing ("a" ∷ "l" ∷ ".hidden" ∷ []) name
        → Has name ("a" ∷ [])))
directory_contains_iff_example =
    directory_contains_iff guest listing "/tmp" ("a" ∷ []) ("a" ∷ "l" ∷ ".hidden" ∷ []) listing_path
      listing_entries refl
