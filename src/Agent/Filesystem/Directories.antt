-- ===== src/Agent/Filesystem/Directories.antt =====
-- guest/linuxlab-agent/src/validators/filesystem.rs: the entries of a directory, and the directory
-- that the learner's shell is in.
use Prim.Native.String.{String, ◌++◌}
use linuxpracticelab.Common.{
  ℕ, Bool, true, not, ◌||◌, ◌⊎◌, inl, inr, Option, none, some, List, [], ◌∷◌, select, any, is_empty,
  if◌then◌else◌,
}
use linuxpracticelab.Common.Decimal.{decimal}
use linuxpracticelab.Common.Sorting.{sort}
use linuxpracticelab.Common.Text.{starts_with, join}
use linuxpracticelab.SharedTypes.Lesson.{Validator}
use linuxpracticelab.SharedTypes.Validation.{CheckOutcome, pass, fail, error, expected, observed}
use linuxpracticelab.SharedTypes.Validation.Category.{
  task_partially_completed, wrong_working_directory,
}
use linuxpracticelab.Agent.Args.{ArgResult, arg, path, string_list, flag, flag_or, unwrap_or}
use linuxpracticelab.Agent.System.{System, ok, IoError, process_cwd}
use linuxpracticelab.Agent.System.Accounts.{same}
use linuxpracticelab.Agent.System.Processes.{ProcessFacts, find_login_shell}
use linuxpracticelab.Agent.Validators.{Ctx}
use linuxpracticelab.Agent.Filesystem.Contents.{category_of_error}

abbrev pub entries_of : System → String → Bool → List String ⊎ IoError → ArgResult (List String)
entries_of sys p include_hidden (inl names) =
    inl (sort (select (λ name. include_hidden || not (starts_with name ".")) names))
entries_of sys p include_hidden (inr err) = inr (
    fail "read_dir" (p ++ (" could not be listed (" ++ (err.text ++ ")."))) (category_of_error err))

unfoldable pub list_entries : System → String → Bool → ArgResult (List String)
list_entries sys p include_hidden = entries_of sys p include_hidden (sys.read_dir p)

abbrev pub lists : List String → String → Bool
lists names name = any (λ other. same other name) names

-- The names of the first list that the second does not have.
abbrev pub beyond : List String → List String → List String
beyond names others = select (λ name. not (lists others name)) names

abbrev pub all_there : Validator → String → CheckOutcome
all_there v p = pass v.kind (p ++ " contains everything the task asked for.")

abbrev pub nothing_else : Validator → String → List String → List String → CheckOutcome
nothing_else v p wanted actual =
    if is_empty (beyond actual wanted)
    then all_there v p
    else observed
        (expected
          (fail v.kind
            (p
              ++ (" also contains "
                  ++ (join ", " (beyond actual wanted) ++ ", which should not be there.")))
            task_partially_completed)
          ("only " ++ join ", " wanted))
        (join ", " actual)

abbrev pub entries_compared : Validator → String → List String → List String → CheckOutcome
entries_compared v p wanted actual =
    if is_empty (beyond wanted actual)
    then (if flag v "exact" then nothing_else v p wanted actual else all_there v p)
    else observed
        (expected
          (fail v.kind (p ++ (" is missing " ++ (join ", " (beyond wanted actual) ++ ".")))
            task_partially_completed)
          (join ", " wanted))
        (if is_empty actual then "an empty directory" else join ", " actual)

unfoldable pub directory_contains : System → Validator → CheckOutcome
directory_contains sys v = arg (path v "path") (λ p. arg (string_list v "entries") (λ wanted.
    arg (list_entries sys p (flag_or v "includeHidden" true))
      (λ actual. entries_compared v p wanted actual)))

abbrev pub emptied : Validator → String → List String → CheckOutcome
emptied v p [] = pass v.kind (p ++ " is empty.")
emptied v p (name ∷ names) =
    observed (fail v.kind (p ++ " is not empty yet.") task_partially_completed)
      (join ", " (name ∷ names))

unfoldable pub directory_empty : System → Validator → CheckOutcome
directory_empty sys v =
    arg (path v "path") (λ p.
      arg (list_entries sys p (flag_or v "includeHidden" true)) (λ actual. emptied v p actual))

-- A directory as it is compared: with its links followed, where that is asked for and works.
abbrev pub resolved : System → Validator → String → String
resolved sys v p =
    if flag_or v "resolveSymlinks" true then unwrap_or (ok (sys.canonicalize p)) p else p

abbrev pub directories_compared : System → Validator → String → String → CheckOutcome
directories_compared sys v wanted actual =
    if sys.same_path (resolved sys v wanted) (resolved sys v actual)
    then pass v.kind ("Your shell is in " ++ (actual ++ "."))
    else observed
        (expected
          (fail v.kind
            "Your shell is not in the directory the task asked for. Run pwd to see where you are."
            wrong_working_directory)
          wanted)
        actual

abbrev pub shell_in : System → Validator → String → ℕ → Option String → CheckOutcome
shell_in sys v wanted pid none =
    error v.kind ("could not read the working directory of process " ++ decimal pid)
shell_in sys v wanted pid (some actual) = directories_compared sys v wanted actual

abbrev pub shell_of : System → Ctx → Validator → String → Option ProcessFacts → CheckOutcome
shell_of sys ctx v wanted none =
    error v.kind ("could not find an interactive shell for " ++ (ctx.subject_user ++ " to inspect"))
shell_of sys ctx v wanted (some shell) = shell_in sys v wanted shell.pid (process_cwd sys shell.pid)

unfoldable pub current_directory : System → Ctx → Validator → CheckOutcome
current_directory sys ctx v =
    arg (path v "path")
      (λ wanted. shell_of sys ctx v wanted (find_login_shell sys ctx.subject_user))
