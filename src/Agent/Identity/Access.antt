-- ===== src/Agent/Identity/Access.antt =====
-- guest/linuxlab-agent/src/validators/identity.rs: what an account may do: sudo, passwords and access
-- control lists.
use Prim.Native.String.{String, ◌++◌}
use linuxpracticelab.Common.{
  Bool, true, false, not, ◌&&◌, ◌||◌, ◌⊎◌, inl, inr, Option, none, some, List, [], ◌∷◌, map, select,
  any, if◌then◌else◌,
}
use linuxpracticelab.Common.Text.{
  is_blank, trim, starts_with, strip_prefix, lines, split, join, contains,
}
use linuxpracticelab.SharedTypes.Lesson.{Validator, str_param}
use linuxpracticelab.SharedTypes.Validation.{CheckOutcome, pass, fail, error, expected, observed}
use linuxpracticelab.SharedTypes.Validation.Category.{
  task_partially_completed, permission_denied, wrong_path, wrong_permissions,
}
use linuxpracticelab.Agent.Args.{arg, path, string, flag, flag_or, unwrap_or}
use linuxpracticelab.Agent.System.{System, CommandOutput, success}
use linuxpracticelab.Agent.System.Accounts.{same, field}

abbrev pub is_allowed_by : Option String → CommandOutput → Bool
is_allowed_by (some command) output = success output
is_allowed_by none output = success output && not (contains output.stdout "not allowed to run sudo")

abbrev sudo_subject : Option String → String
sudo_subject none = "use sudo"
sudo_subject (some command) = "run " ++ (command ++ " with sudo")

abbrev pub sudo_verdict : Validator → String → String → Bool → Bool → CheckOutcome
sudo_verdict v user subject true true = pass v.kind (user ++ (" may " ++ (subject ++ ".")))
sudo_verdict v user subject false false = pass v.kind (user ++ (" may not " ++ (subject ++ ".")))
sudo_verdict v user subject true false =
    fail v.kind (user ++ (" can still " ++ (subject ++ ", but should not be able to.")))
      permission_denied
sudo_verdict v user subject false true =
    fail v.kind (user ++ (" cannot " ++ (subject ++ " yet."))) permission_denied

abbrev sudo_arguments : String → Option String → List String
sudo_arguments user none = "-l" ∷ "-U" ∷ user ∷ []
sudo_arguments user (some command) = "-l" ∷ "-U" ∷ user ∷ "--" ∷ command ∷ []

abbrev sudo_listed : Validator → String → Option String → CommandOutput ⊎ String → CheckOutcome
sudo_listed v user command (inr err) = error v.kind err
sudo_listed v user command (inl output) =
    sudo_verdict v user (sudo_subject command) (is_allowed_by command output)
      (flag_or v "allowed" true)

unfoldable pub sudo_permission : System → Validator → CheckOutcome
sudo_permission sys v = arg (string v "user") (λ user.
    let command = str_param v "command" in
    sudo_listed v user command (sys.run "sudo" (sudo_arguments user command) none))

abbrev pub same_bool : Bool → Bool → Bool
same_bool true b = b
same_bool false b = not b

-- The password field of the first line of a user.
unfoldable pub shadow_hash : String → List String → Option String
shadow_hash user [] = none
shadow_hash user (line ∷ rest) =
    let later = shadow_hash user rest in
    if same (field (split 58 line) 0) user then some (field (split 58 line) 1) else later

unfoldable pub is_locked : String → Bool
is_locked hash = is_blank hash || starts_with hash "!" || starts_with hash "*"

abbrev lock_word : Bool → String
lock_word locked = if locked then "locked" else "not locked"

abbrev pub locked_as : Validator → String → Bool → Bool → CheckOutcome
locked_as v user locked wanted =
    if same_bool locked wanted
    then pass v.kind (
        "The password for "
        ++ (user ++ (" is " ++ ((if locked then "locked" else "usable") ++ "."))))
    else observed
        (expected
          (fail v.kind ("The password for " ++ (user ++ (" is " ++ (lock_word locked ++ "."))))
            permission_denied)
          (lock_word wanted))
        (lock_word locked)

abbrev shadow_as : Validator → String → Option String → CheckOutcome
shadow_as v user none =
    fail v.kind ("There is no shadow entry for " ++ (user ++ ".")) task_partially_completed
shadow_as v user (some hash) = locked_as v user (is_locked hash) (flag_or v "locked" true)

abbrev with_shadow : Validator → String → Option String → CheckOutcome
with_shadow v user none = error v.kind "could not read /etc/shadow; the agent must run as root"
with_shadow v user (some shadow) = shadow_as v user (shadow_hash user (lines shadow))

unfoldable pub password_locked : System → Validator → CheckOutcome
password_locked sys v =
    arg (string v "user") (λ user. with_shadow v user (sys.read_to_string "/etc/shadow"))

-- The entries that `getfacl` prints.
unfoldable pub acl_lines : String → List String
acl_lines text =
    select (λ line. not (is_blank line) && not (starts_with line "#")) (map trim (lines text))

abbrev pub is_entry : String → Bool → String → Bool
is_entry entry want_default line =
    same_bool (starts_with line "default:") want_default
    && same (unwrap_or (strip_prefix line "default:") line) entry

abbrev acl_compared : Validator → String → String → Bool → List String → CheckOutcome
acl_compared v p entry want_default acl =
    if any (is_entry entry want_default) acl
    then pass v.kind (p ++ " has the expected ACL entry.")
    else observed
        (expected (fail v.kind (p ++ " does not have the expected ACL entry.") wrong_permissions)
          (if want_default then "default:" ++ entry else entry))
        (join ", " acl)

abbrev acl_listed : Validator → String → String → CommandOutput ⊎ String → CheckOutcome
acl_listed v p entry (inr err) = error v.kind err
acl_listed v p entry (inl output) =
    if success output
    then acl_compared v p entry (flag v "isDefault") (acl_lines output.stdout)
    else fail v.kind ("Could not read the ACL of " ++ (p ++ ". Does it exist?")) wrong_path

unfoldable pub acl_contains : System → Validator → CheckOutcome
acl_contains sys v = arg (path v "path") (λ p.
    arg (string v "entry")
      (λ entry. acl_listed v p entry (sys.run "getfacl" ("--omit-header" ∷ "--" ∷ p ∷ []) none)))
