-- ===== src/Agent/Process.antt =====
-- guest/linuxlab-agent/src/validators/process.rs: the checks of processes and jobs.
pub mod Table
pub mod Candidates
use Prim.Native.Char.{code}
use Prim.Native.String.{String}
use Prim.Native.String
use linuxpracticelab.Common.{
  ℕ, zero, suc, ◌+◌, ◌^◌, ◌-◌, Bool, true, false, not, ◌&&◌, ◌||◌, ◌⊎◌, inl, inr, Option, none,
  some, List, [], ◌∷◌, ◌++◌, map, select, any, all, is_empty, length, take, ltb, leb, ◌==◌,
  if◌then◌else◌,
}
use linuxpracticelab.Common.Assoc.{Assoc, lookup}
use linuxpracticelab.Common.Decimal.{decimal}
use linuxpracticelab.Common.Int.{ℤ, pos, negsuc, same_int, show_int}
use linuxpracticelab.Common.Sorting.{sort}
use linuxpracticelab.Common.Text.{is_blank, trim, lines, join, contains}
use linuxpracticelab.SharedTypes.Lesson.{Validator, str_param, i64_param}
use linuxpracticelab.SharedTypes.Validation.{CheckOutcome, pass, fail, error, expected, observed}
use linuxpracticelab.SharedTypes.Validation.Category.{process_not_running, wrong_ownership}
use linuxpracticelab.Agent.Args.{
  ArgResult, arg, string, flag, unwrap_or, Bounds, read, satisfied_by, describe,
}
use linuxpracticelab.Agent.System.{System}
use linuxpracticelab.Agent.System.Accounts.{same, dedup, uid_for, user_for_uid}
use linuxpracticelab.Agent.System.Processes.{ProcessFacts, match_text, read_processes}
use linuxpracticelab.Agent.Service.{is_ascii_alphanumeric}
use linuxpracticelab.Agent.Validators.{Ctx}
use Table.{text, matching, describe_processes}

abbrev compiled : Validator → String → (String → Bool) ⊎ String → ArgResult (String → Bool)
compiled v shown (inl regex) = inl regex
compiled v shown (inr err) =
    inr (error v.kind (text ("the pattern '" ∷ shown ∷ "' is not a valid regex: " ∷ err ∷ [])))

unfoldable pub compile : System → Validator → String → ArgResult (String → Bool)
compile sys v shown = compiled v shown (sys.regex shown false false)

abbrev not_running : Validator → String → CheckOutcome
not_running v message = fail v.kind message process_not_running

-- What every check of processes starts with: the pattern, and the processes that match it.
abbrev with_matching :
    System → Validator → (String → List ProcessFacts → CheckOutcome) → CheckOutcome
with_matching sys v next =
    arg (string v "pattern")
      (λ shown. arg (compile sys v shown) (λ regex. next shown (matching sys regex)))

-- `unwrap_or(1).max(1) as usize`
abbrev pub required_count : Option ℤ → ℕ
required_count none = 1
required_count (some (pos n)) = if ltb n 1 then 1 else n
required_count (some (negsuc n)) = 1

abbrev enough_running : Validator → String → ℕ → List ProcessFacts → CheckOutcome
enough_running v shown required found =
    if leb required (length found)
    then observed
        (pass v.kind (text ("Found " ∷ decimal (length found) ∷ " matching process(es)." ∷ [])))
        (describe_processes found 3)
    else observed
        (expected (not_running v (text ("No process matching '" ∷ shown ∷ "' is running." ∷ [])))
          (text ("at least " ∷ decimal required ∷ " matching '" ∷ shown ∷ "'" ∷ [])))
        (describe_processes found 3)

abbrev owned_by : Validator → String → String → List ProcessFacts → Option ℕ → CheckOutcome
owned_by v shown owner found none =
    fail v.kind (text ("There is no user called " ∷ owner ∷ "." ∷ [])) wrong_ownership
owned_by v shown owner found (some uid) =
    enough_running v shown (required_count (i64_param v "minCount"))
      (select (λ (p : ProcessFacts). p.uid == uid) found)

abbrev running_for : System → Validator → String → List ProcessFacts → Option String → CheckOutcome
running_for sys v shown found none =
    enough_running v shown (required_count (i64_param v "minCount")) found
running_for sys v shown found (some owner) = owned_by v shown owner found (uid_for sys owner)

unfoldable pub process_running : System → Validator → CheckOutcome
process_running sys v =
    with_matching sys v (λ shown found. running_for sys v shown found (str_param v "owner"))

abbrev none_running : Validator → String → List ProcessFacts → CheckOutcome
none_running v shown [] = pass v.kind (text ("Nothing matching '" ∷ shown ∷ "' is running." ∷ []))
none_running v shown (p ∷ ps) =
    observed (not_running v (text ("A process matching '" ∷ shown ∷ "' is still running." ∷ [])))
      (describe_processes (p ∷ ps) 3)

unfoldable pub process_not_running_check : System → Validator → CheckOutcome
process_not_running_check sys v = with_matching sys v (none_running v)

abbrev owners_of : System → List ProcessFacts → List String
owners_of sys found =
    map (λ (p : ProcessFacts). unwrap_or (user_for_uid sys p.uid) (decimal p.uid)) found

abbrev owners_compared : Validator → String → List String → CheckOutcome
owners_compared v wanted owners =
    if all (λ owner. same owner wanted) owners
    then pass v.kind (text ("The process runs as " ∷ wanted ∷ "." ∷ []))
    else observed
        (expected (fail v.kind "The process is not running as the expected user." wrong_ownership)
          wanted)
        (join ", " (dedup (sort owners)))

abbrev owner_as : System → Validator → String → String → List ProcessFacts → CheckOutcome
owner_as sys v shown wanted [] =
    not_running v (
      text ("No process matching '" ∷ shown ∷ "' is running, so its owner cannot be checked." ∷ []))
owner_as sys v shown wanted (p ∷ ps) = owners_compared v wanted (owners_of sys (p ∷ ps))

unfoldable pub process_owner : System → Validator → CheckOutcome
process_owner sys v = arg (string v "pattern") (λ shown. arg (string v "owner") (λ wanted.
    arg (compile sys v shown) (λ regex. owner_as sys v shown wanted (matching sys regex))))

abbrev counted_as : Validator → Bounds → String → List ProcessFacts → CheckOutcome
counted_as v bounds shown found =
    if satisfied_by bounds (pos (length found))
    then pass v.kind (text (decimal (length found) ∷ " matching process(es) are running." ∷ []))
    else observed
        (expected
          (not_running v (
            text (
              "The number of processes matching '" ∷ shown ∷ "' is not what the task asked for."
              ∷ [])))
          (describe bounds))
        (decimal (length found))

unfoldable pub process_count : System → Validator → CheckOutcome
process_count sys v = with_matching sys v (counted_as v (read v))

abbrev started_with : Validator → String → String → List ProcessFacts → CheckOutcome
started_with v shown needle [] =
    not_running v (text ("No process matching '" ∷ shown ∷ "' is running." ∷ []))
started_with v shown needle (p ∷ ps) =
    if any (λ q. contains (match_text q) needle) (p ∷ ps)
    then pass v.kind (text ("A matching process was started with '" ∷ needle ∷ "'." ∷ []))
    else observed
        (expected
          (not_running v
            (text ("The process is running but was not started with '" ∷ needle ∷ "'." ∷ [])))
          needle)
        (describe_processes (p ∷ ps) 2)

unfoldable pub process_command : System → Validator → CheckOutcome
process_command sys v = arg (string v "pattern") (λ shown. arg (string v "contains") (λ needle.
    arg (compile sys v shown) (λ regex. started_with v shown needle (matching sys regex))))

-- The characters of a handle that may stand in a file name.
unfoldable pub safe_handle : String → String
safe_handle String.[] = String.[]
safe_handle (String.◌∷◌ c s) =
    let rest = safe_handle s in
    if is_ascii_alphanumeric (code c) || code c == 45 || code c == 95
    then String.◌∷◌ c rest
    else rest

abbrev signals_seen : Validator → String → List String → CheckOutcome
signals_seen v wanted seen =
    if any (λ signal. same signal wanted) seen
    then pass v.kind (text ("The process received " ∷ wanted ∷ "." ∷ []))
    else observed
        (expected (not_running v (text ("The process has not received " ∷ wanted ∷ "." ∷ [])))
          wanted)
        (if is_empty seen then "no signals" else join ", " seen)

abbrev signal_log : Validator → String → String → Option String → CheckOutcome
signal_log v handle wanted none =
    if same wanted "SIGKILL"
    then not_running v "The process was not stopped, or the lesson's signal wrapper is not running."
    else not_running v (text ("No signal has been recorded for '" ∷ handle ∷ "' yet." ∷ []))
signal_log v handle wanted (some content) =
    signals_seen v wanted (select (λ line. not (is_blank line)) (map trim (lines content)))

abbrev logged_under : System → Validator → String → String → CheckOutcome
logged_under sys v wanted handle =
    if is_blank handle
    then error v.kind "the handle parameter is empty after sanitising"
    else signal_log v handle wanted
        (sys.read_to_string (text ("/run/linuxlab/signals/" ∷ handle ∷ [])))

unfoldable pub process_signal_received : System → Validator → CheckOutcome
process_signal_received sys v =
    arg (string v "handle")
      (λ handle. arg (string v "signal") (λ wanted. logged_under sys v wanted (safe_handle handle)))

-- `as i32` of a `u32`.
abbrev as_i32 : ℕ → ℤ
as_i32 n = if ltb n (2 ^ 31) then pos n else negsuc (2 ^ 32 - 1 - n)

abbrev is_below_zero : ℤ → Bool
is_below_zero (pos n) = false
is_below_zero (negsuc n) = true

-- Not in the foreground group of its terminal, or without a terminal.
unfoldable pub in_background : ProcessFacts → Bool
in_background p = is_below_zero p.tpgid || not (same_int (as_i32 p.pgrp) p.tpgid)

abbrev background_as : Validator → List ProcessFacts → CheckOutcome
background_as v found =
    if any in_background found
    then pass v.kind "The job is running in the background."
    else observed
        (not_running v
          "The command is running in the foreground. Suspend it with Ctrl+Z and resume it with bg, or start it with a trailing &.")
        (describe_processes found 2)

abbrev detached_as : Validator → List ProcessFacts → CheckOutcome
detached_as v found =
    if any (λ (p : ProcessFacts). p.ppid == 1) found
    then pass v.kind "The job is running independently of your shell."
    else observed
        (expected
          (not_running v
            "The job is running but is still attached to your shell, so it would stop when you log out.")
          "a process reparented to init")
        (describe_processes found 2)

abbrev job_as : Validator → String → List ProcessFacts → CheckOutcome
job_as v shown [] = not_running v (text ("Nothing matching '" ∷ shown ∷ "' is running." ∷ []))
job_as v shown (p ∷ ps) =
    if flag v "detached" then detached_as v (p ∷ ps) else background_as v (p ∷ ps)

abbrev job_of : System → Ctx → Validator → String → (String → Bool) → Option ℕ → CheckOutcome
job_of sys ctx v shown regex none =
    error v.kind (text ("there is no user called " ∷ ctx.subject_user ∷ []))
job_of sys ctx v shown regex (some uid) =
    job_as v shown (select (λ (p : ProcessFacts). p.uid == uid) (matching sys regex))

unfoldable pub background_job_running : System → Ctx → Validator → CheckOutcome
background_job_running sys ctx v = arg (string v "pattern") (λ shown.
    arg (compile sys v shown)
      (λ regex. job_of sys ctx v shown regex (uid_for sys ctx.subject_user)))

abbrev pub process_handlers : System → Ctx → Validator → Assoc CheckOutcome
process_handlers sys ctx v =
    ("process_running", process_running sys v)
    ∷ ("process_not_running", process_not_running_check sys v)
    ∷ ("process_owner", process_owner sys v)
    ∷ ("process_count", process_count sys v)
    ∷ ("process_command", process_command sys v)
    ∷ ("process_signal_received", process_signal_received sys v)
    ∷ ("background_job_running", background_job_running sys ctx v)
    ∷ []

unfoldable pub process_dispatch : System → Ctx → Validator → Option CheckOutcome
process_dispatch sys ctx v = lookup v.kind (process_handlers sys ctx v)
