-- ===== src/Agent/Lessons.antt =====
-- guest/linuxlab-agent/src/handlers.rs: the requests that change the guest. The guest is the history
-- of what was done to it, the latest first: what the system answers, and what is then observed, may
-- depend on all of it.
pub mod Policy
pub mod Names
use Prim.Native.Char.{code}
use Prim.Native.String.{String, ◌++◌}
use Prim.Native.String
use linuxpracticelab.Common.{
  ℕ, Bool, true, false, ◌||◌, ◌⊎◌, inl, inr, Option, none, some, List, [], ◌∷◌, ltb, leb, ◌==◌,
  if◌then◌else◌,
}
use linuxpracticelab.Common.Decimal.{decimal}
use linuxpracticelab.Common.Int.{show_int}
use linuxpracticelab.Common.Text.{is_blank, trim}
use linuxpracticelab.SharedTypes.Protocol.{AgentResponse, terminal_resized, error}
use linuxpracticelab.Agent.System.{System, IoError, CommandOutput, success}
use linuxpracticelab.Agent.Service.{is_ascii_alphanumeric}

pub data Action : Type 0 where
  create_dir_all : String → Action
  write : String → String → Action
  set_permissions : String → ℕ → Action
  rename : String → String → Action
  remove_file : String → Action
  -- The limit is in seconds; none is the default.
  run : String → List String → Option ℕ → Action

abbrev pub History : Type 0
History = List Action

abbrev pub Done : Type 0
Done = Unit

pub record Guest : Type 0 where
  pub perform : History → Action → Done ⊎ String
  pub execute : History → Action → CommandOutput ⊎ String
  pub observe : History → System
  pub is_file : History → String → Bool
  pub file_name : String → Option String
  pub uptime_seconds : History → ℕ

-- `Result` with what was done on the way.
abbrev pub Outcome : Type 0 → Type 0
Outcome A = (A ⊎ String) × History

-- The operator `?`.
abbrev pub and_next : {A B : Type 0} → Outcome A → (A → History → Outcome B) → Outcome B
and_next (inl a, h) next = next a h
and_next (inr err, h) next = (inr err, h)

abbrev pub act : Guest → Action → History → Outcome Done
act g a h = (g.perform h a, a ∷ h)

abbrev pub execute : Guest → Action → History → Outcome CommandOutput
execute g a h = (g.execute h a, a ∷ h)

abbrev is_name_char : ℕ → Bool
is_name_char c = is_ascii_alphanumeric c || c == 45 || c == 95

unfoldable pub keep : (ℕ → Bool) → String → String
keep test String.[] = String.[]
keep test (String.◌∷◌ c s) =
    let rest = keep test s in if test (code c) then String.◌∷◌ c rest else rest

unfoldable pub trim_dots_front : String → String
trim_dots_front String.[] = String.[]
trim_dots_front (String.◌∷◌ c s) =
    let rest = trim_dots_front s in if code c == 46 then rest else String.◌∷◌ c s

unfoldable pub trim_dots_back : String → String
trim_dots_back String.[] = String.[]
trim_dots_back (String.◌∷◌ c s) =
    let rest = trim_dots_back s in
    if is_blank rest
    then (if code c == 46 then String.[] else String.◌∷◌ c rest)
    else String.◌∷◌ c rest

abbrev or_unknown : String → String
or_unknown safe = if is_blank safe then "unknown" else safe

abbrev pub id_char : ℕ → Bool
id_char c = is_name_char c || c == 46

-- The name of a lesson's directory.
unfoldable pub lesson_directory : String → String
lesson_directory id = or_unknown (trim_dots_back (trim_dots_front (keep id_char id)))

abbrev pub lesson_root_for : String → String
lesson_root_for id = "/opt/linuxlab/lessons/" ++ lesson_directory id

abbrev script_at : Guest → String → String → Option String → History → Outcome String
script_at g id script none h = (inr ("'" ++ (script ++ "' is not a script file name")), h)
script_at g id script (some name) h =
    if g.is_file h (lesson_root_for id ++ ("/" ++ name))
    then (inl (lesson_root_for id ++ ("/" ++ name)), h)
    else (
      inr ("the lesson script " ++ ((lesson_root_for id ++ ("/" ++ name)) ++ " is not installed")),
      h,
    )

unfoldable pub resolve_lesson_script : Guest → String → String → History → Outcome String
resolve_lesson_script g id script h = script_at g id script (g.file_name script) h

abbrev pub target : String
target = "/etc/sudoers.d/010-linuxlab-lesson"

abbrev pub staging : String
staging = "/etc/sudoers.d/.010-linuxlab-lesson.staged"

abbrev pub policy : Bool → String
policy true = "# Managed by linuxlab-agent. Lesson permits escalation.\nstudent ALL=(ALL:ALL) ALL\n"
policy false =
    "# Managed by linuxlab-agent. Lesson does not permit escalation.\nstudent ALL=(ALL:ALL) !ALL\n"

abbrev pub visudo : Action
visudo = run "visudo" ("-c" ∷ "-f" ∷ staging ∷ []) none

abbrev install : Guest → History → Outcome Done
install g h = act g (rename staging target) h

-- The result of removing the staged file is not looked at.
abbrev refuse : Guest → CommandOutput → History → Outcome Done
refuse g output h = (
  inr ("refusing to install an invalid sudoers policy: " ++ trim output.stderr),
  remove_file staging ∷ h,
)

abbrev pub checked : Guest → CommandOutput ⊎ String → History → Outcome Done
checked g (inr err) h = install g h
checked g (inl output) h = if success output then install g h else refuse g output h

unfoldable pub apply_sudo_policy : Guest → Bool → History → Outcome Done
apply_sudo_policy g allowed h = and_next (act g (write staging (policy allowed)) h) (λ _ h'.
    and_next (act g (set_permissions staging 288) h')
      (λ _ h''. checked g (g.execute h'' visudo) (visudo ∷ h'')))

abbrev script_ran : CommandOutput → History → Outcome Done
script_ran output h = if success output then (inl tt, h) else (
  inr (
      "the lesson reset script failed ("
      ++ (show_int output.status ++ ("): " ++ trim output.stderr))),
  h,
)

abbrev run_reset_script : Guest → String → Option String → History → Outcome Done
run_reset_script g id none h = (inl tt, h)
run_reset_script g id (some script) h =
    and_next (resolve_lesson_script g id script h) (λ path h'.
      and_next (execute g (run "/bin/bash" ("--" ∷ path ∷ []) (some 120)) h') script_ran)

abbrev pub signals : String
signals = "/run/linuxlab/signals"

unfoldable pub remove_all : List String → History → History
remove_all [] h = h
remove_all (name ∷ names) h = remove_all names (remove_file (signals ++ ("/" ++ name)) ∷ h)

abbrev clear_signals : List String ⊎ IoError → History → Outcome Done
clear_signals (inr err) h = (inl tt, h)
clear_signals (inl names) h = (inl tt, remove_all names h)

-- Files that cannot be removed are left.
unfoldable pub reset_lesson : Guest → String → Option String → History → Outcome Done
reset_lesson g id script h =
    and_next (run_reset_script g id script h)
      (λ _ h'. clear_signals ((g.observe h').read_dir signals) h')

abbrev recorded : Guest → String → History → Outcome Done
recorded g safe h = and_next (act g (create_dir_all "/run/linuxlab/checkpoints") h) (λ _ h'.
    act g
      (write ("/run/linuxlab/checkpoints/" ++ safe)
        ("uptime=" ++ (decimal (g.uptime_seconds h') ++ "\n")))
      h')

unfoldable pub checkpoint : Guest → String → History → Outcome Done
checkpoint g name h =
    let safe = keep is_name_char name in
    if is_blank safe
    then (inr "checkpoint names must contain at least one letter or digit", h)
    else recorded g safe h

-- `clamp`
abbrev pub clamp : ℕ → ℕ → ℕ → ℕ
clamp n low high = if ltb n low then low else (if ltb high n then high else n)

abbrev resized : {D : Type 0} → ℕ → ℕ → CommandOutput ⊎ String → AgentResponse D
resized rows cols (inr err) = error err true
resized rows cols (inl output) =
    if success output
    then terminal_resized rows cols
    else error ("could not set the terminal size: " ++ trim output.stderr) true

abbrev pub stty : ℕ → ℕ → Action
stty rows cols =
    run "stty" ("-F" ∷ "/dev/ttyS0" ∷ "rows" ∷ decimal rows ∷ "cols" ∷ decimal cols ∷ []) none

unfoldable pub set_terminal_size :
    {D : Type 0} → Guest → ℕ → ℕ → History → AgentResponse D × History
set_terminal_size g rows cols h =
    let r = clamp rows 10 300 in
    let c = clamp cols 20 500 in (resized r c (g.execute h (stty r c)), stty r c ∷ h)
