-- ===== src/Agent/Filesystem/Objects.antt =====
-- guest/linuxlab-agent/src/validators/filesystem.rs: what a path leads to, and its metadata. A path
-- is the text that `display` shows.
use Prim.Native.Nat.{bit_and}
use Prim.Native.String.{String, ◌++◌}
use linuxpracticelab.Common.{ℕ, ◌-◌, ◌^◌, ltb, Option, none, some, find, ◌==◌, if◌then◌else◌}
use linuxpracticelab.Common.Decimal.{decimal}
use linuxpracticelab.Common.Int.{ℤ, pos, negsuc}
use linuxpracticelab.SharedTypes.Json.{get}
use linuxpracticelab.SharedTypes.Lesson.{Validator, str_param}
use linuxpracticelab.SharedTypes.Validation.{CheckOutcome, pass, fail, error, expected, observed}
use linuxpracticelab.SharedTypes.Validation.Category.{
  wrong_path, wrong_file_type, wrong_file_contents, file_already_exists, wrong_ownership,
  wrong_permissions,
}
use linuxpracticelab.Agent.Args.{
  arg, path, string, flag, unwrap_or, Bounds, read, satisfied_by, describe,
}
use linuxpracticelab.Agent.System.{System, ok}
use linuxpracticelab.Agent.System.Modes.{
  regular, directory, symlink, as_str, is_kind, FileFacts, lstat, stat, format_mode, parse_mode,
}
use linuxpracticelab.Agent.System.Accounts.{same, and_then, user_for_uid, group_for_gid}

abbrev pub at_wrong_path : Validator → String → CheckOutcome
at_wrong_path v message = fail v.kind message wrong_path

abbrev pub absent : Validator → String → CheckOutcome
absent v p = at_wrong_path v (p ++ " does not exist.")

abbrev pub exists_as : Validator → String → Option FileFacts → CheckOutcome
exists_as v p none = absent v p
exists_as v p (some facts) =
    if is_kind facts.kind regular
    then pass v.kind (p ++ " exists.")
    else observed
        (expected
          (fail v.kind (p ++ (" exists but is a " ++ (as_str facts.kind ++ ", not a file.")))
            wrong_file_type)
          "regular file")
        (as_str facts.kind)

unfoldable pub file_exists : System → Validator → CheckOutcome
file_exists sys v = arg (path v "path") (λ p. exists_as v p (stat sys p))

abbrev pub missing_as : Validator → String → Option FileFacts → CheckOutcome
missing_as v p none = pass v.kind (p ++ " is gone.")
missing_as v p (some facts) = fail v.kind (p ++ " still exists.") file_already_exists

unfoldable pub file_missing : System → Validator → CheckOutcome
file_missing sys v = arg (path v "path") (λ p. missing_as v p (lstat sys p))

unfoldable pub deepest_existing_parent : System → String → Option String
deepest_existing_parent sys p = find sys.is_dir (sys.parents p)

abbrev pub closest : Option String → String
closest none = ""
closest (some parent) = " The closest existing directory is " ++ (parent ++ ".")

abbrev pub directory_as : System → Validator → String → Option FileFacts → CheckOutcome
directory_as sys v p none =
    at_wrong_path v
      ("The directory " ++ (p ++ (" does not exist." ++ closest (deepest_existing_parent sys p))))
directory_as sys v p (some facts) =
    if is_kind facts.kind directory
    then pass v.kind ("The directory " ++ (p ++ " exists."))
    else observed
        (expected
          (fail v.kind (p ++ (" exists but is a " ++ (as_str facts.kind ++ ", not a directory.")))
            wrong_file_type)
          "directory")
        (as_str facts.kind)

unfoldable pub directory_exists : System → Validator → CheckOutcome
directory_exists sys v = arg (path v "path") (λ p. directory_as sys v p (stat sys p))

abbrev pub no_directory : Validator → String → Option FileFacts → CheckOutcome
no_directory v p none = pass v.kind (p ++ " is not a directory.")
no_directory v p (some facts) =
    if is_kind facts.kind directory
    then fail v.kind ("The directory " ++ (p ++ " still exists.")) file_already_exists
    else pass v.kind (p ++ " is not a directory.")

unfoldable pub directory_missing : System → Validator → CheckOutcome
directory_missing sys v = arg (path v "path") (λ p. no_directory v p (lstat sys p))

abbrev pub points_at : Validator → String → String → Option String → CheckOutcome
points_at v p target none = fail v.kind (p ++ " is a broken symbolic link.") wrong_path
points_at v p target (some actual) =
    if same actual target
    then pass v.kind (p ++ (" points at " ++ (target ++ ".")))
    else observed (expected (fail v.kind (p ++ " points somewhere else.") wrong_path) target) actual

-- The target of the link, followed to its end if the author asks for that.
abbrev pub link_target : System → Validator → String → Option String
link_target sys v p = if flag v "resolved" then ok (sys.canonicalize p) else sys.read_link p

abbrev pub target_as : System → Validator → String → Option String → CheckOutcome
target_as sys v p none = pass v.kind (p ++ " is a symbolic link.")
target_as sys v p (some target) = points_at v p target (link_target sys v p)

abbrev pub link_as : System → Validator → String → Option FileFacts → CheckOutcome
link_as sys v p none = absent v p
link_as sys v p (some facts) =
    if is_kind facts.kind symlink
    then target_as sys v p (str_param v "target")
    else observed
        (expected
          (fail v.kind
            (p ++ (" exists but is a " ++ (as_str facts.kind ++ ", not a symbolic link.")))
            wrong_file_type)
          "symbolic link")
        (as_str facts.kind)

unfoldable pub symbolic_link_exists : System → Validator → CheckOutcome
symbolic_link_exists sys v = arg (path v "path") (λ p. link_as sys v p (lstat sys p))

abbrev pub both_must_exist : Validator → String → String → CheckOutcome
both_must_exist v p q =
    at_wrong_path v (p ++ (" and " ++ (q ++ " must both exist for a hard link to be checked.")))

abbrev pub one_inode :
    Validator → String → String → Option FileFacts → Option FileFacts → CheckOutcome
one_inode v p q none _ = both_must_exist v p q
one_inode v p q (some a) none = both_must_exist v p q
one_inode v p q (some a) (some b) =
    if a.inode == b.inode
    then pass v.kind
        (p ++ (" and " ++ (q ++ (" are the same file (inode " ++ (decimal a.inode ++ ").")))))
    else observed
        (expected
          (fail v.kind
            (p
              ++ (" and "
                  ++ (q
                      ++ " are separate files rather than hard links to one inode. A copy is not a link.")))
            wrong_file_type)
          "one shared inode")
        ("inodes " ++ (decimal a.inode ++ (" and " ++ decimal b.inode)))

unfoldable pub hard_link_exists : System → Validator → CheckOutcome
hard_link_exists sys v =
    arg (path v "path")
      (λ p. arg (path v "linkTo") (λ q. one_inode v p q (lstat sys p) (lstat sys q)))

abbrev pub typed_as : Validator → String → String → Option FileFacts → CheckOutcome
typed_as v p wanted none = absent v p
typed_as v p wanted (some facts) =
    if same (as_str facts.kind) wanted
    then pass v.kind (p ++ (" is a " ++ (wanted ++ ".")))
    else observed
        (expected (fail v.kind (p ++ " is the wrong kind of object.") wrong_file_type) wanted)
        (as_str facts.kind)

-- A link is looked at itself where a link is asked for.
abbrev pub looked_at : System → String → String → Option FileFacts
looked_at sys p wanted = if same wanted "symlink" then lstat sys p else stat sys p

unfoldable pub file_type : System → Validator → CheckOutcome
file_type sys v =
    arg (path v "path")
      (λ p. arg (string v "fileType") (λ wanted. typed_as v p wanted (looked_at sys p wanted)))

-- `as i64` of a `u64`.
unfoldable pub as_i64 : ℕ → ℤ
as_i64 n = if ltb n (2 ^ 63) then pos n else negsuc (2 ^ 64 - 1 - n)

abbrev pub sized_as : Validator → String → Bounds → Option FileFacts → CheckOutcome
sized_as v p bounds none = absent v p
sized_as v p bounds (some facts) =
    if satisfied_by bounds (as_i64 facts.size)
    then pass v.kind (p ++ (" is " ++ (decimal facts.size ++ " bytes.")))
    else observed
        (expected (fail v.kind (p ++ " is not the expected size.") wrong_file_contents)
          (describe bounds ++ " bytes"))
        (decimal facts.size ++ " bytes")

unfoldable pub file_size : System → Validator → CheckOutcome
file_size sys v = arg (path v "path") (λ p. sized_as v p (read v) (stat sys p))

abbrev pub compared : Validator → String → String → String → String → CheckOutcome
compared v good bad wanted actual =
    if same actual wanted
    then pass v.kind good
    else observed (expected (fail v.kind bad wrong_ownership) wanted) actual

abbrev pub owned_as : System → Validator → String → String → Option FileFacts → CheckOutcome
owned_as sys v p wanted none = absent v p
owned_as sys v p wanted (some facts) =
    compared v (p ++ (" is owned by " ++ (wanted ++ "."))) (p ++ " has the wrong owner.") wanted
      (unwrap_or (user_for_uid sys facts.uid) (decimal facts.uid))

unfoldable pub file_owner : System → Validator → CheckOutcome
file_owner sys v =
    arg (path v "path")
      (λ p. arg (string v "owner") (λ wanted. owned_as sys v p wanted (stat sys p)))

abbrev pub grouped_as : System → Validator → String → String → Option FileFacts → CheckOutcome
grouped_as sys v p wanted none = absent v p
grouped_as sys v p wanted (some facts) =
    compared v (p ++ (" belongs to group " ++ (wanted ++ "."))) (p ++ " has the wrong group.")
      wanted (unwrap_or (group_for_gid sys facts.gid) (decimal facts.gid))

unfoldable pub file_group : System → Validator → CheckOutcome
file_group sys v =
    arg (path v "path")
      (λ p. arg (string v "group") (λ wanted. grouped_as sys v p wanted (stat sys p)))

abbrev pub wanted_mode : ℕ → ℕ → String
wanted_mode mode mask =
    if mask == 4095
    then format_mode mode
    else format_mode mode ++ (" in the bits " ++ format_mode mask)

abbrev pub permitted_as : Validator → String → ℕ → ℕ → Option FileFacts → CheckOutcome
permitted_as v p mode mask none = absent v p
permitted_as v p mode mask (some facts) =
    if bit_and facts.permissions mask == bit_and mode mask
    then pass v.kind (p ++ (" has permissions " ++ (format_mode facts.permissions ++ ".")))
    else observed
        (expected (fail v.kind (p ++ " does not have the required permissions.") wrong_permissions)
          (wanted_mode mode mask))
        (format_mode facts.permissions)

abbrev pub mode_param : Validator → String → Option ℕ
mode_param v param = and_then (get param v.params) parse_mode

-- The default mask is 0o7777.
abbrev pub mask_of : Validator → ℕ
mask_of v = unwrap_or (mode_param v "mask") 4095

abbrev pub mode_as : System → Validator → String → Option ℕ → CheckOutcome
mode_as sys v p none = error v.kind "the mode parameter is not a valid octal mode"
mode_as sys v p (some mode) = permitted_as v p mode (mask_of v) (stat sys p)

unfoldable pub file_mode : System → Validator → CheckOutcome
file_mode sys v = arg (path v "path") (λ p. mode_as sys v p (mode_param v "mode"))
