-- ===== src/Agent/Identity.antt =====
-- guest/linuxlab-agent/src/validators/identity.rs: the checks of accounts, groups, sudo and access
-- control lists.
pub mod Access
pub mod Members
use Prim.Native.String.{String, ◌++◌}
use linuxpracticelab.Common.{
  ℕ, Bool, true, false, not, ◌&&◌, ◌||◌, ◌⊎◌, inl, inr, Option, none, some, List, [], ◌∷◌, map,
  select, any, find, ◌==◌, if◌then◌else◌,
}
use linuxpracticelab.Common.Assoc.{Assoc, lookup}
use linuxpracticelab.Common.Decimal.{decimal}
use linuxpracticelab.Common.Int.{ℤ, pos, earlier, show_int}
use linuxpracticelab.Common.Text.{
  is_blank, trim, starts_with, strip_prefix, lines, split, join, contains,
}
use linuxpracticelab.SharedTypes.Lesson.{Validator, str_param, i64_param}
use linuxpracticelab.SharedTypes.Validation.{CheckOutcome, pass, fail, error, expected, observed}
use linuxpracticelab.SharedTypes.Validation.Category.{
  task_partially_completed, wrong_ownership, permission_denied, wrong_path, wrong_permissions,
}
use linuxpracticelab.Agent.Args.{arg, path, string, flag, flag_or, unwrap_or}
use linuxpracticelab.Agent.System.{System, CommandOutput, success}
use linuxpracticelab.Agent.System.Accounts.{
  PasswdEntry, GroupEntry, same, field, read_passwd, read_groups, user_named, group_named,
  group_for_gid, groups_for_user,
}
use linuxpracticelab.Agent.Validators.{Ctx}
use Access.{sudo_permission, password_locked, acl_contains}

abbrev pub no_account : Validator → String → CheckOutcome
no_account v user =
    fail v.kind ("There is no account called " ++ (user ++ ".")) task_partially_completed

-- What a check does with a table, where it can be read.
abbrev pub given : {A : Type 0} → Validator → String → Option A → (A → CheckOutcome) → CheckOutcome
given v message none next = error v.kind message
given v message (some table) next = next table

abbrev pub with_passwd : System → Validator → (List PasswdEntry → CheckOutcome) → CheckOutcome
with_passwd sys v next = given v "could not read /etc/passwd" (read_passwd sys) next

abbrev pub with_groups : System → Validator → (List GroupEntry → CheckOutcome) → CheckOutcome
with_groups sys v next = given v "could not read /etc/group" (read_groups sys) next

abbrev account_exists : Validator → String → PasswdEntry → CheckOutcome
account_exists v user entry =
    observed (pass v.kind ("The account " ++ (user ++ " exists."))) ("uid " ++ decimal entry.uid)

abbrev above_minimum : Validator → String → PasswdEntry → Option ℤ → CheckOutcome
above_minimum v user entry none = account_exists v user entry
above_minimum v user entry (some minimum) =
    if earlier (pos entry.uid) minimum
    then observed
        (expected
          (fail v.kind
            ("The account "
              ++ (user
                  ++ (" exists but has uid "
                      ++ (decimal entry.uid
                          ++ ", which is in the system range rather than the regular user range."))))
            task_partially_completed)
          ("uid of at least " ++ show_int minimum))
        (decimal entry.uid)
    else account_exists v user entry

abbrev pub exists_in : Validator → String → Option PasswdEntry → CheckOutcome
exists_in v user none = no_account v user
exists_in v user (some entry) = above_minimum v user entry (i64_param v "uidMin")

unfoldable pub user_exists : System → Validator → CheckOutcome
user_exists sys v =
    arg (string v "user")
      (λ user. with_passwd sys v (λ entries. exists_in v user (user_named user entries)))

unfoldable pub user_missing : System → Validator → CheckOutcome
user_missing sys v = arg (string v "user") (λ user. with_passwd sys v (λ entries.
    if any (λ (e : PasswdEntry). same e.name user) entries
    then fail v.kind ("The account " ++ (user ++ " still exists.")) task_partially_completed
    else pass v.kind ("There is no account called " ++ (user ++ "."))))

abbrev pub no_group : Validator → String → CheckOutcome
no_group v group =
    fail v.kind ("There is no group called " ++ (group ++ ".")) task_partially_completed

unfoldable pub group_exists : System → Validator → CheckOutcome
group_exists sys v = arg (string v "group") (λ group. with_groups sys v (λ groups.
    if any (λ (g : GroupEntry). same g.name group) groups
    then pass v.kind ("The group " ++ (group ++ " exists."))
    else no_group v group))

abbrev pub primary_in :
    System → Validator → String → String → PasswdEntry → GroupEntry → CheckOutcome
primary_in sys v user group entry target =
    if entry.gid == target.gid
    then pass v.kind (group ++ (" is the primary group of " ++ (user ++ ".")))
    else observed
        (expected
          (fail v.kind (group ++ (" is not the primary group of " ++ (user ++ ".")))
            wrong_ownership)
          group)
        (unwrap_or (group_for_gid sys entry.gid) (decimal entry.gid))

abbrev pub member_in :
    System → Validator → String → String → PasswdEntry → GroupEntry → CheckOutcome
member_in sys v user group entry target =
    if any (λ m. same m user) target.members || entry.gid == target.gid
    then pass v.kind (user ++ (" is a member of " ++ (group ++ ".")))
    else observed
        (expected
          (fail v.kind
            (user
              ++ (" is not in the "
                  ++ (group
                      ++ " group. Note that adding a user to a group does not change the groups of sessions that are already open.")))
            wrong_ownership)
          group)
        (join ", " (unwrap_or (groups_for_user sys user) []))

abbrev pub in_group :
    System → Validator → String → String → PasswdEntry → Option GroupEntry → CheckOutcome
in_group sys v user group entry none = no_group v group
in_group sys v user group entry (some target) =
    if flag v "primary"
    then primary_in sys v user group entry target
    else member_in sys v user group entry target

abbrev pub member_of : System → Validator → String → String → Option PasswdEntry → CheckOutcome
member_of sys v user group none = no_account v user
member_of sys v user group (some entry) =
    with_groups sys v (λ groups. in_group sys v user group entry (group_named group groups))

unfoldable pub group_membership : System → Validator → CheckOutcome
group_membership sys v = arg (string v "user") (λ user.
    arg (string v "group") (λ group.
      with_passwd sys v (λ entries. member_of sys v user group (user_named user entries))))

abbrev shell_as : Validator → String → String → Option PasswdEntry → CheckOutcome
shell_as v user wanted none = no_account v user
shell_as v user wanted (some entry) =
    if same entry.shell wanted
    then pass v.kind ("The login shell for " ++ (user ++ (" is " ++ (wanted ++ "."))))
    else observed
        (expected
          (fail v.kind ("The login shell for " ++ (user ++ " is not what the task asked for."))
            task_partially_completed)
          wanted)
        entry.shell

unfoldable pub login_shell : System → Validator → CheckOutcome
login_shell sys v = arg (string v "user") (λ user.
    arg (string v "shell")
      (λ wanted. with_passwd sys v (λ entries. shell_as v user wanted (user_named user entries))))

abbrev home_there : System → Validator → String → String → CheckOutcome
home_there sys v user wanted =
    if flag v "mustExist" && not (sys.is_dir wanted)
    then fail v.kind
        (user
          ++ (" is configured with the home directory "
              ++ (wanted
                  ++ ", but that directory does not exist. Creating a user does not create their home directory unless you ask for it.")))
        wrong_path
    else pass v.kind ("The home directory for " ++ (user ++ (" is " ++ (wanted ++ "."))))

abbrev home_as : System → Validator → String → String → Option PasswdEntry → CheckOutcome
home_as sys v user wanted none = no_account v user
home_as sys v user wanted (some entry) =
    if same entry.home wanted
    then home_there sys v user wanted
    else observed
        (expected
          (fail v.kind
            ("The home directory recorded for " ++ (user ++ " is not what the task asked for."))
            task_partially_completed)
          wanted)
        entry.home

unfoldable pub home_directory : System → Validator → CheckOutcome
home_directory sys v = arg (string v "user") (λ user.
    arg (string v "path") (λ wanted.
      with_passwd sys v (λ entries. home_as sys v user wanted (user_named user entries))))

abbrev pub account_handlers : System → Validator → Assoc CheckOutcome
account_handlers sys v =
    ("user_exists", user_exists sys v)
    ∷ ("user_missing", user_missing sys v)
    ∷ ("group_exists", group_exists sys v)
    ∷ ("group_membership", group_membership sys v)
    ∷ ("sudo_permission", sudo_permission sys v)
    ∷ ("password_locked", password_locked sys v)
    ∷ ("login_shell", login_shell sys v)
    ∷ ("home_directory", home_directory sys v)
    ∷ ("acl_contains", acl_contains sys v)
    ∷ []

unfoldable pub account_dispatch : System → Ctx → Validator → Option CheckOutcome
account_dispatch sys ctx v = lookup v.kind (account_handlers sys v)
