-- ===== src/Agent/Service.antt =====
-- guest/linuxlab-agent/src/validators/service.rs: the checks of units, of the journal and
-- of ports.
pub mod Units
pub mod States
pub mod Ports
use Prim.Native.Char.{code}
use Prim.Native.String.{String, ◌++◌}
use Prim.Native.String
use linuxpracticelab.Common.{
  ℕ, Bool, true, false, not, ◌&&◌, ◌||◌, ◌⊎◌, inl, inr, Option, none, some, List, [], ◌∷◌, map,
  select, is_empty, length, leb, ◌==◌, if◌then◌else◌,
}
use linuxpracticelab.Common.Assoc.{Assoc, lookup}
use linuxpracticelab.Common.Decimal.{decimal}
use linuxpracticelab.Common.Text.{is_blank, trim, starts_with, lines, join, contains}
use linuxpracticelab.SharedTypes.Lesson.{Validator, str_param}
use linuxpracticelab.SharedTypes.Validation.{CheckOutcome, pass, fail, error, expected, observed}
use linuxpracticelab.SharedTypes.Validation.Category.{service_not_active, script_syntax_failure}
use linuxpracticelab.Agent.Args.{ArgResult, arg, string, unwrap_or}
use linuxpracticelab.Agent.System.{System, CommandOutput, success, stdout_trimmed}
use linuxpracticelab.Agent.System.Accounts.{same}
use linuxpracticelab.Agent.Identity.Access.{same_bool}
use linuxpracticelab.Agent.Validators.{Ctx, attempt_since_expression}
use Ports.{port_listening}

abbrev pub is_ascii_alphanumeric : ℕ → Bool
is_ascii_alphanumeric c = leb 48 c && leb c 57 || leb 65 c && leb c 90 || leb 97 c && leb c 122

-- `.`, `-`, `_`, `@`, `:` and `\`.
abbrev pub unit_char : ℕ → Bool
unit_char c =
    is_ascii_alphanumeric c || c == 46 || c == 45 || c == 95 || c == 64 || c == 58 || c == 92

unfoldable pub all_unit_chars : String → Bool
all_unit_chars String.[] = true
all_unit_chars (String.◌∷◌ c s) = unit_char (code c) && all_unit_chars s

abbrev pub is_acceptable : String → Bool
is_acceptable unit = not (is_blank unit) && not (starts_with unit "-") && all_unit_chars unit

abbrev accept : Validator → String → ArgResult String
accept v unit =
    if is_acceptable unit
    then inl unit
    else inr (error v.kind ("'" ++ (unit ++ "' is not a valid systemd unit name")))

abbrev accepted : Validator → ArgResult String → ArgResult String
accepted v (inl unit) = accept v unit
accepted v (inr outcome) = inr outcome

unfoldable pub safe_unit : Validator → ArgResult String
safe_unit v = accepted v (string v "unit")

-- The printed word, or what was printed as an error.
abbrev pub printed_state : CommandOutput → String
printed_state output =
    if is_blank (stdout_trimmed output) then trim output.stderr else stdout_trimmed output

abbrev state_compared : Validator → String → String → Bool → String → CheckOutcome
state_compared v unit positive want_positive state =
    if same_bool (same state positive) want_positive
    then observed (pass v.kind (unit ++ (" is " ++ (state ++ ".")))) state
    else observed
        (expected
          (fail v.kind
            (unit
              ++ (" is "
                  ++ (state
                      ++ (". Check `systemctl status "
                          ++ (unit ++ ("` and `journalctl -u " ++ (unit ++ "`.")))))))
            service_not_active)
          (if want_positive then positive else "not " ++ positive))
        state

abbrev pub state_of :
    Validator → String → String → Bool → String → CommandOutput ⊎ String → CheckOutcome
state_of v subcommand positive want_positive unit (inr err) = error v.kind err
state_of v subcommand positive want_positive unit (inl output) =
    if output.timed_out
    then error v.kind ("systemctl " ++ (subcommand ++ " timed out"))
    else state_compared v unit positive want_positive (printed_state output)

unfoldable pub service_state : System → Validator → String → String → Bool → CheckOutcome
service_state sys v subcommand positive want_positive = arg (safe_unit v) (λ unit.
    state_of v subcommand positive want_positive unit
      (sys.run "systemctl" (subcommand ∷ "--" ∷ unit ∷ []) none))

abbrev failed_as : Validator → String → CommandOutput ⊎ String → CheckOutcome
failed_as v unit (inr err) = error v.kind err
failed_as v unit (inl output) =
    if same (stdout_trimmed output) "failed"
    then pass v.kind (unit ++ " is in the failed state.")
    else observed
        (expected
          (fail v.kind (unit ++ (" is " ++ (stdout_trimmed output ++ ", not failed.")))
            service_not_active)
          "failed")
        (stdout_trimmed output)

unfoldable pub service_failed : System → Validator → CheckOutcome
service_failed sys v = arg (safe_unit v) (λ unit.
    failed_as v unit
      (sys.run "systemctl" ("show" ∷ "-p" ∷ "ActiveState" ∷ "--value" ∷ "--" ∷ unit ∷ []) none))

abbrev complaints : CommandOutput → List String
complaints output = select (λ line. not (is_blank line)) (map trim (lines output.stderr))

abbrev verified_as : Validator → String → CommandOutput ⊎ String → CheckOutcome
verified_as v unit (inr err) = error v.kind err
verified_as v unit (inl output) =
    if success output && is_empty (complaints output)
    then pass v.kind ("The unit file for " ++ (unit ++ " is valid."))
    else observed
        (fail v.kind ("The unit file for " ++ (unit ++ " has problems.")) script_syntax_failure)
        (join "; " (complaints output))

unfoldable pub unit_file_valid : System → Validator → CheckOutcome
unit_file_valid sys v =
    arg (safe_unit v)
      (λ unit. verified_as v unit (sys.run "systemd-analyze" ("verify" ∷ "--" ∷ unit ∷ []) none))

abbrev option_argument : String → Option String → List String → List String
option_argument name none rest = rest
option_argument name (some value) rest = name ∷ value ∷ rest

abbrev pub journal_arguments : Validator → String → List String
journal_arguments v since =
    "--no-pager"
    ∷ "--output=cat"
    ∷ "--since"
    ∷ since
    ∷ option_argument "-u" (str_param v "unit") (option_argument "-p" (str_param v "priority") [])

abbrev journal_as : Validator → String → String → CommandOutput ⊎ String → CheckOutcome
journal_as v text since (inr err) = error v.kind err
journal_as v text since (inl output) =
    if contains output.stdout text
    then pass v.kind "The journal contains the expected message."
    else observed
        (expected
          (fail v.kind "The journal does not contain the expected message." service_not_active)
          text)
        (decimal (length (lines output.stdout)) ++ (" journal lines since " ++ since))

-- The messages are those of this attempt, unless the author gives another start.
abbrev pub journal_since : Ctx → Validator → String
journal_since ctx v = unwrap_or (str_param v "since") (attempt_since_expression ctx)

unfoldable pub journal_contains : System → Ctx → Validator → CheckOutcome
journal_contains sys ctx v = arg (string v "text") (λ text.
    let since = journal_since ctx v in
    journal_as v text since (sys.run "journalctl" (journal_arguments v since) none))

unfoldable pub service_active : System → Validator → CheckOutcome
service_active sys v = service_state sys v "is-active" "active" true

unfoldable pub service_inactive : System → Validator → CheckOutcome
service_inactive sys v = service_state sys v "is-active" "active" false

unfoldable pub service_enabled : System → Validator → CheckOutcome
service_enabled sys v = service_state sys v "is-enabled" "enabled" true

unfoldable pub service_disabled : System → Validator → CheckOutcome
service_disabled sys v = service_state sys v "is-enabled" "enabled" false

abbrev pub service_handlers : System → Ctx → Validator → Assoc CheckOutcome
service_handlers sys ctx v =
    ("service_active", service_active sys v)
    ∷ ("service_inactive", service_inactive sys v)
    ∷ ("service_enabled", service_enabled sys v)
    ∷ ("service_disabled", service_disabled sys v)
    ∷ ("service_failed", service_failed sys v)
    ∷ ("unit_file_valid", unit_file_valid sys v)
    ∷ ("journal_contains", journal_contains sys ctx v)
    ∷ ("port_listening", port_listening sys v)
    ∷ []

unfoldable pub service_dispatch : System → Ctx → Validator → Option CheckOutcome
service_dispatch sys ctx v = lookup v.kind (service_handlers sys ctx v)
