-- ===== src/Agent/Tests/Accounts.antt =====
-- A guest with one account and a table of processes, with the agent among them.
use Prim.Native.String.{String}
use linuxpracticelab.Common.{◌≡◌, ◌↔◌, inl, true, some, [], ◌∷◌, map, Has, refl}
use linuxpracticelab.Common.Assoc.{Assoc, lookup}
use linuxpracticelab.Common.Int.{pos}
use linuxpracticelab.Common.Decimal.{decimal}
use linuxpracticelab.Common.Text.{
  trim_front, trim_back, starts_with, lines, split, split_whitespace, parse_digits, digits_from,
  join,
}
use linuxpracticelab.SharedTypes.Json.{Json, Members, get}
use linuxpracticelab.SharedTypes.Lesson.{Validator, str_param, bool_param}
use linuxpracticelab.SharedTypes.Validation.{pass, fail, observed, expected}
use linuxpracticelab.Agent.Args.{string, flag, flag_or}
use linuxpracticelab.Agent.System.{System}
use linuxpracticelab.Agent.System.Accounts.{
  PasswdEntry, GroupEntry, passwd_line, group_line, parse_passwd, parse_groups, read_passwd,
  read_groups, user_named, group_named,
}
use linuxpracticelab.Agent.System.Processes.{
  ProcessFacts, after_open, around_close, split_proc_stat, read_process, read_processes,
  parse_status_uid,
}
use linuxpracticelab.Agent.Identity.{group_membership}
use linuxpracticelab.Agent.Identity.Members.{Belongs, Holds, group_membership_iff}
use linuxpracticelab.Agent.Process.Table.{candidate_processes, grow, outside}
use linuxpracticelab.Agent.Process.Candidates.{Descends, candidate_processes_lem}
use linuxpracticelab.Agent.Tests.Paths.{guest}

abbrev passwd : String
passwd = "# accounts\nstudent:x:1000:1000:Student:/home/student:/bin/bash\nbroken line\n"

abbrev groups : String
groups = "student:x:1000:\ndevelopers:x:2000:student,other\n"

-- Process 7 is the learner's, 100 is the agent and 101 was started by it; `(sd)` has a name with a
-- parenthesis.
abbrev tables : Assoc String
tables =
    ("/etc/passwd", passwd)
    ∷ ("/etc/group", groups)
    ∷ ("/proc/7/stat", "7 (sleep 9)) S 1 7 7 0 -1 0")
    ∷ ("/proc/100/stat", "100 (agent) S 1 100 100 0 -1 0")
    ∷ ("/proc/101/stat", "101 (bash) S 100 100 100 0 -1 0")
    ∷ []

abbrev machine : System
machine = record guest {
  read_to_string = λ p. lookup p tables;
  read_dir = λ p. inl ("7" ∷ "100" ∷ "101" ∷ "self" ∷ []);
}

abbrev member : Validator
member = record {
  kind = "group_membership";
  params =
      Members.member "group" (Json.string "developers")
        (Members.member "user" (Json.string "student") Members.end);
}

member_run : (group_membership machine member).passed ≡ true
unfolding group_membership string str_param bool_param flag flag_or get lookup read_passwd
    read_groups parse_passwd parse_groups passwd_line group_line trim_front trim_back starts_with
    lines split parse_digits digits_from pass fail observed expected
member_run = refl

member_user : str_param member "user" ≡ some "student"
unfolding str_param get
member_user = refl

member_group : str_param member "group" ≡ some "developers"
unfolding str_param get
member_group = refl

accounts_there : read_passwd machine ≡ some (parse_passwd passwd)
unfolding read_passwd lookup
accounts_there = refl

groups_there : read_groups machine ≡ some (parse_groups groups)
unfolding read_groups lookup
groups_there = refl

group_membership_iff_example :
    ((group_membership machine member).passed ≡ true)
    ↔ Holds
        (λ (entry : PasswdEntry).
          Holds
            (λ (target : GroupEntry). Belongs member "student" entry target)
            (group_named "developers" (parse_groups groups)))
        (user_named "student" (parse_passwd passwd))
group_membership_iff_example =
    group_membership_iff machine member "student" "developers" (parse_passwd passwd)
      (parse_groups groups) member_user member_group accounts_there groups_there

abbrev sleeper : ProcessFacts
sleeper = record {
  pid = 7;
  ppid = 1;
  uid = 0;
  cmdline = "";
  comm = "sleep 9)";
  session_id = 7;
  tpgid = pos 0;
  pgrp = 7;
}

candidate_processes_run : map (λ (p : ProcessFacts). p.pid) (candidate_processes machine) ≡ 7 ∷ []
unfolding candidate_processes grow outside read_processes read_process split_proc_stat after_open
    around_close parse_status_uid lookup trim_front split_whitespace parse_digits digits_from split
    join lines starts_with decimal
candidate_processes_run = refl

candidate_processes_lem_example :
    Has sleeper (candidate_processes machine)
    ↔ (Has sleeper (read_processes machine) × ¬ Descends (read_processes machine) (100 ∷ []) 4 7)
candidate_processes_lem_example = candidate_processes_lem machine sleeper
