-- ===== src/Agent/Filesystem.antt =====
-- guest/linuxlab-agent/src/validators/filesystem.rs: the checks of files and directories, by the
-- tags that they own.
pub mod Objects
pub mod Contents
pub mod Directories
pub mod Facts
pub mod Masks
pub mod Entries
use Prim.Native.String.{String}
use linuxpracticelab.Common.{Option, none, some, List, [], ◌∷◌}
use linuxpracticelab.Common.Assoc.{Assoc, lookup}
use linuxpracticelab.SharedTypes.Lesson.{Validator}
use linuxpracticelab.SharedTypes.Validation.{CheckOutcome}
use linuxpracticelab.Agent.System.{System}
use linuxpracticelab.Agent.Validators.{Ctx}
use Objects.{
  file_exists, file_missing, directory_exists, directory_missing, symbolic_link_exists,
  hard_link_exists, file_type, file_size, file_owner, file_group, file_mode,
}
use Contents.{file_contains, file_matches_regex, file_line_count, file_checksum}
use Directories.{directory_contains, directory_empty, current_directory}

abbrev pub handlers : System → Ctx → Validator → Assoc CheckOutcome
handlers sys ctx v =
    ("file_exists", file_exists sys v)
    ∷ ("file_missing", file_missing sys v)
    ∷ ("directory_exists", directory_exists sys v)
    ∷ ("directory_missing", directory_missing sys v)
    ∷ ("symbolic_link_exists", symbolic_link_exists sys v)
    ∷ ("hard_link_exists", hard_link_exists sys v)
    ∷ ("file_type", file_type sys v)
    ∷ ("file_size", file_size sys v)
    ∷ ("file_owner", file_owner sys v)
    ∷ ("file_group", file_group sys v)
    ∷ ("file_mode", file_mode sys v)
    ∷ ("file_contains", file_contains sys v)
    ∷ ("file_matches_regex", file_matches_regex sys v)
    ∷ ("file_line_count", file_line_count sys v)
    ∷ ("file_checksum", file_checksum sys v)
    ∷ ("directory_contains", directory_contains sys v)
    ∷ ("directory_empty", directory_empty sys v)
    ∷ ("current_directory", current_directory sys ctx v)
    ∷ []

-- `none` for the tags that belong to other categories.
unfoldable pub file_dispatch : System → Ctx → Validator → Option CheckOutcome
file_dispatch sys ctx v = lookup v.kind (handlers sys ctx v)
