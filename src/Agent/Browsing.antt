-- ===== src/Agent/Browsing.antt =====
-- guest/linuxlab-agent/src/handlers.rs: the requests that only report or that name something in the
-- guest: the directory panel, the scripts of lessons, checkpoints and the size of the terminal.
pub mod Roots
pub mod Order
use Prim.Native.Char.{code}
use Prim.Native.String.{String, ◌++◌, compare}
use Prim.Native.String
use text.Mathlib.Text.{is_lt}
use linuxpracticelab.Common.{
  ℕ, Bool, true, false, not, ◌&&◌, ◌||◌, ◌⊎◌, inl, inr, Option, none, some, List, [], ◌∷◌, map, any,
  ltb, leb, ◌==◌, if◌then◌else◌,
}
use linuxpracticelab.Common.Decimal.{decimal}
use linuxpracticelab.Common.Sorting.{sort_by}
use linuxpracticelab.Common.Text.{is_blank, trim, starts_with}
use linuxpracticelab.SharedTypes.Protocol.{DirEntryInfo}
use linuxpracticelab.Agent.Args.{unwrap_or}
use linuxpracticelab.Agent.System.{System, IoError}
use linuxpracticelab.Agent.System.Modes.{FileFacts, symlink, is_kind, as_str, lstat, format_mode}
use linuxpracticelab.Agent.System.Accounts.{same, present, user_for_uid, group_for_gid}
use linuxpracticelab.Agent.Service.{is_ascii_alphanumeric}

abbrev pub browsable_roots : List String
browsable_roots = "/home" ∷ "/tmp" ∷ "/var/log" ∷ "/etc" ∷ "/opt/linuxlab/lessons" ∷ "/srv" ∷ []

-- `Path::starts_with` of canonical paths: the root itself, or the root and a separator before more.
abbrev pub is_below : String → String → Bool
is_below path root = same path root || starts_with path (root ++ "/")

abbrev pub is_browsable : String → Bool
is_browsable path = any (is_below path) browsable_roots

abbrev pub is_hidden : String → Bool
is_hidden name = starts_with name "."

abbrev link_of : System → String → FileFacts → Option String
link_of sys path facts = if is_kind facts.kind symlink then sys.read_link path else none

abbrev entry_of : System → String → String → Option FileFacts → Option DirEntryInfo
entry_of sys path name none = none
entry_of sys path name (some facts) = some record {
  name = name;
  file_type = as_str facts.kind;
  size = facts.size;
  mode = format_mode facts.permissions;
  owner = unwrap_or (user_for_uid sys facts.uid) (decimal facts.uid);
  group = unwrap_or (group_for_gid sys facts.gid) (decimal facts.gid);
  link_target = link_of sys path facts;
}

unfoldable pub dir_entry : System → String → Bool → String → Option DirEntryInfo
dir_entry sys directory include_hidden name =
    if not include_hidden && is_hidden name
    then none
    else entry_of sys (directory ++ ("/" ++ name)) name (lstat sys (directory ++ ("/" ++ name)))

abbrev pub is_directory : DirEntryInfo → Bool
is_directory e = same e.file_type "directory"

-- Directories first, then by name.
abbrev pub precedes : DirEntryInfo → DirEntryInfo → Bool
precedes a b =
    if is_directory a
    then (if is_directory b then is_lt (compare a.name b.name) else true)
    else (if is_directory b then false else is_lt (compare a.name b.name))

abbrev listed : System → String → Bool → List String ⊎ IoError → List DirEntryInfo ⊎ String
listed sys directory include_hidden (inr err) = inr err.text
listed sys directory include_hidden (inl names) =
    inl (sort_by precedes (present (map (dir_entry sys directory include_hidden) names)))

abbrev guarded : System → String → Bool → String → List DirEntryInfo ⊎ String
guarded sys path include_hidden canonical =
    if is_browsable canonical
    then listed sys canonical include_hidden (sys.read_dir canonical)
    else inr (path ++ " is outside the directories this panel may browse")

abbrev opened : System → String → Bool → String ⊎ String → List DirEntryInfo ⊎ String
opened sys path include_hidden (inr err) = inr (path ++ (" could not be opened: " ++ err))
opened sys path include_hidden (inl canonical) = guarded sys path include_hidden canonical

unfoldable pub list_directory : System → String → Bool → List DirEntryInfo ⊎ String
list_directory sys path include_hidden = opened sys path include_hidden (sys.canonicalize path)
