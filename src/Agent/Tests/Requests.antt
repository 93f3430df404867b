-- ===== src/Agent/Tests/Requests.antt =====
-- Requests to a guest: a directory that may be shown, a script that is installed, and a policy.
use Prim.Native.String.{String, ◌++◌}
use linuxpracticelab.Common.{
  arith, ◌≡◌, inl, inr, true, false, Option, none, some, List, [], ◌∷◌, Any, refl,
}
use linuxpracticelab.Common.Assoc.{lookup}
use linuxpracticelab.Common.Decimal.{decimal, decimal_from}
use linuxpracticelab.Common.Int.{pos}
use linuxpracticelab.Common.Sorting.{insert, sort_by}
use linuxpracticelab.Common.Text.{starts_with}
use linuxpracticelab.SharedTypes.Protocol.{DirEntryInfo, terminal_resized}
use linuxpracticelab.Agent.System.{CommandOutput, success}
use linuxpracticelab.Agent.System.Modes.{as_str, from_mode, lstat, format_mode}
use linuxpracticelab.Agent.System.Accounts.{read_passwd, read_groups, user_for_uid, group_for_gid}
use linuxpracticelab.Agent.Browsing.{browsable_roots, dir_entry, list_directory}
use linuxpracticelab.Agent.Browsing.Roots.{Below, Lists, list_directory_lem}
use linuxpracticelab.Agent.Lessons.{
  Guest, keep, trim_dots_front, trim_dots_back, lesson_directory, resolve_lesson_script,
  apply_sudo_policy, checkpoint, set_terminal_size,
}
use linuxpracticelab.Agent.Lessons.Policy.{Installed}
use linuxpracticelab.Agent.Lessons.Names.{
  IsSafeDirectory, IsEntryName, NamesEntries, resolve_lesson_script_lem,
}
use linuxpracticelab.Agent.Tests.Paths.{guest}

abbrev entry : String → String → String → Option String → DirEntryInfo
entry name file_type mode target = record {
  name = name;
  file_type = file_type;
  size = 5;
  mode = mode;
  owner = "0";
  group = "0";
  link_target = target;
}

abbrev shown : List DirEntryInfo
shown = entry "a" "regular" "0640" none ∷ entry "l" "symlink" "0777" (some "/tmp/a") ∷ []

tmp_shown : list_directory guest "/tmp" false ≡ inl shown
unfolding list_directory dir_entry starts_with lstat from_mode as_str format_mode user_for_uid
    group_for_gid read_passwd read_groups lookup decimal decimal_from insert sort_by
tmp_shown = refl

list_directory_run :
    list_directory guest "/root" true ≡ inr "/root is outside the directories this panel may browse"
unfolding list_directory starts_with
list_directory_run = refl

list_directory_lem_example :
    (canonical : String) × (guest.canonicalize "/tmp" ≡ inl canonical)
    × Any (Below canonical) browsable_roots
    × Lists guest false canonical shown
list_directory_lem_example = list_directory_lem guest "/tmp" false shown tmp_shown

abbrev done_well : CommandOutput
done_well = record { status = pos 0; stdout = ""; stderr = ""; timed_out = false }

abbrev machine : Guest
machine = record {
  perform = λ h a. inl tt;
  execute = λ h a. inl done_well;
  observe = λ h. guest;
  is_file = λ h path. true;
  file_name = λ script. some "reset.sh";
  uptime_seconds = λ h. 5;
}

apply_sudo_policy_run : Installed ((apply_sudo_policy machine true []).1)
unfolding apply_sudo_policy success
apply_sudo_policy_run = inl refl

abbrev reset_script : String
reset_script = "/opt/linuxlab/lessons/etc/reset.sh"

script_found : (resolve_lesson_script machine "../etc" "a/reset.sh" []).0 ≡ inl reset_script
unfolding resolve_lesson_script lesson_directory keep trim_dots_front trim_dots_back
script_found = refl

reset_entry : IsEntryName "reset.sh"
reset_entry = (λ e. cc, ground arith, λ e. cc)

machine_names : NamesEntries machine
machine_names path name e = let same : name ≡ "reset.sh" = ground (arith, e) in rw same reset_entry

resolve_lesson_script_lem_example :
    IsSafeDirectory (lesson_directory "../etc")
    × ((name : String) × (machine.file_name "a/reset.sh" ≡ some name)
        × IsEntryName name
        × (reset_script ≡ ("/opt/linuxlab/lessons/" ++ lesson_directory "../etc") ++ ("/" ++ name))
        × (machine.is_file [] reset_script ≡ true))
resolve_lesson_script_lem_example =
    resolve_lesson_script_lem machine "../etc" "a/reset.sh" reset_script [] machine_names
      script_found

-- A name without a letter or a digit is accepted.
checkpoint_run : (checkpoint machine "---" []).0 ≡ inl tt
unfolding checkpoint keep
checkpoint_run = refl

set_terminal_size_run : (set_terminal_size {D = Unit} machine 1 9999 []).0 ≡ terminal_resized 10 500
unfolding set_terminal_size success
set_terminal_size_run = refl
