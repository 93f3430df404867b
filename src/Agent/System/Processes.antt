-- ===== src/Agent/System/Processes.antt =====
-- guest/linuxlab-agent/src/sys.rs, "Processes": the table of /proc, and the learner's shell.
use Prim.Native.Char.{Char, code}
use Prim.Native.String.{String, ◌++◌, ◌∷◌}
use linuxpracticelab.Common.{
  ℕ, ◌+◌, ◌^◌, Bool, false, not, ◌&&◌, ◌||◌, ◌⊎◌, inl, inr, Option, none, some, List, [], map,
  select, find, ltb, ◌==◌, if◌then◌else◌, get_elem?, leb,
}
use linuxpracticelab.Common.Decimal.{decimal}
use linuxpracticelab.Common.Int.{ℤ, pos, negsuc, minus}
use linuxpracticelab.Common.Text.{
  is_blank, trim, trim_front, starts_with, lines, split, split_whitespace, join, parse_digits,
}
use linuxpracticelab.SharedTypes.Validation.{or_else}
use linuxpracticelab.Agent.System.{System, IoError}
use linuxpracticelab.Agent.System.Accounts.{same, present, map_option, and_then, uid_for, parse_u32}

pub record ProcessFacts : Type 0 where
  pub pid : ℕ
  pub ppid : ℕ
  pub uid : ℕ
  pub cmdline : String
  pub comm : String
  pub session_id : ℕ
  pub tpgid : ℤ
  pub pgrp : ℕ

unfoldable pub match_text : ProcessFacts → String
match_text p = if is_blank (trim p.cmdline) then p.comm else p.cmdline

-- What stands after the first opening parenthesis.
unfoldable pub after_open : String → Option String
after_open String.[] = none
after_open (c ∷ s) = let rest = after_open s in if code c == 40 then some s else rest

abbrev put : Char → Option (String × String) → Option (String × String)
put c none = none
put c (some (before, after)) = some (c ∷ before, after)

abbrev or_close : String → Option (String × String) → Option (String × String)
or_close s none = some (String.[], s)
or_close s (some pair) = some pair

-- What stands before the last closing parenthesis, and after it.
unfoldable pub around_close : String → Option (String × String)
around_close String.[] = none
around_close (c ∷ s) =
    let rest = around_close s in if code c == 41 then or_close s (put c rest) else put c rest

abbrev trimmed : String × String → String × String
trimmed (comm, rest) = (comm, trim_front rest)

-- The last closing parenthesis of the whole line stands after the first opening one, or there is no
-- name.
unfoldable pub split_proc_stat : String → Option (String × String)
split_proc_stat stat = and_then (after_open stat) (λ inner. map_option trimmed (around_close inner))

-- `parse::<i32>` of what the kernel writes: a sign may stand before the digits.
abbrev starts_digit : String → Bool
starts_digit String.[] = false
starts_digit (c ∷ s) = leb 48 (code c) && leb (code c) 57

abbrev parse_i32 : String → Option ℤ
parse_i32 (c ∷ s) =
    if code c == 45 && starts_digit s
    then and_then (parse_digits 10 (2 ^ 31 + 1) s) (λ n. some (minus (pos 0) n))
    else map_option pos (parse_digits 10 (2 ^ 31) (c ∷ s))
parse_i32 String.[] = none

abbrev pub or_zero : Option ℕ → ℕ
or_zero none = 0
or_zero (some n) = n

abbrev or_minus_one : Option ℤ → ℤ
or_minus_one none = negsuc 0
or_minus_one (some i) = i

abbrev uid_in : List String → Option ℕ
uid_in fields = and_then (get_elem? fields 1) parse_u32

unfoldable pub parse_status_uid : String → Option ℕ
parse_status_uid status =
    and_then (find (λ line. starts_with line "Uid:") (lines status))
      (λ line. uid_in (split_whitespace line))

abbrev cmdline_of : String ⊎ IoError → String
cmdline_of (inl bytes) = join " " (select (λ part. not (is_blank part)) (split 0 bytes))
cmdline_of (inr err) = ""

-- The fields after the name: the state, the parent, the group, the session, the terminal and the
-- terminal's foreground group.
abbrev process_of : System → ℕ → String → String → List String → Option ProcessFacts
process_of sys pid root comm fields = and_then (get_elem? fields 1) (λ ppid.
    and_then (get_elem? fields 2) (λ pgrp. and_then (get_elem? fields 3) (λ session.
      and_then (get_elem? fields 5) (λ tpgid. some record {
        pid = pid;
        ppid = or_zero (parse_u32 ppid);
        uid =
            or_zero (
              and_then (sys.read_to_string (root ++ "/status"))
                (λ status. parse_status_uid status));
        cmdline = cmdline_of (sys.read (root ++ "/cmdline"));
        comm = comm;
        session_id = or_zero (parse_u32 session);
        tpgid = or_minus_one (parse_i32 tpgid);
        pgrp = or_zero (parse_u32 pgrp);
      }))))

unfoldable pub read_process : System → ℕ → Option ProcessFacts
read_process sys pid =
    let root = "/proc/" ++ decimal pid in
    and_then (sys.read_to_string (root ++ "/stat")) (λ stat_raw.
      and_then (split_proc_stat stat_raw)
        (λ (comm, rest). process_of sys pid root comm (split_whitespace rest)))

abbrev processes_in : System → List String ⊎ IoError → List ProcessFacts
processes_in sys (inl names) =
    present (map (λ name. and_then (parse_u32 name) (read_process sys)) names)
processes_in sys (inr err) = []

unfoldable pub read_processes : System → List ProcessFacts
read_processes sys = processes_in sys (sys.read_dir "/proc")

unfoldable pub is_shell : String → Bool
is_shell comm = same comm "bash" || same comm "sh" || same comm "dash" || same comm "-bash"

-- `max_by_key` of the process ids: the last of those with the greatest.
abbrev newer : ProcessFacts → Option ProcessFacts → ProcessFacts
newer p none = p
newer p (some q) = if ltb q.pid p.pid then p else q

unfoldable pub newest : List ProcessFacts → Option ProcessFacts
newest [] = none
newest (List.◌∷◌ p ps) = some (newer p (newest ps))

abbrev pub shells : ℕ → List ProcessFacts → List ProcessFacts
shells uid processes = select (λ (p : ProcessFacts). p.uid == uid && is_shell p.comm) processes

-- The shell that leads its session before the newest one.
unfoldable pub find_login_shell : System → String → Option ProcessFacts
find_login_shell sys user = and_then (uid_for sys user) (λ uid.
    let own = shells uid (read_processes sys) in
    or_else (find (λ (p : ProcessFacts). p.pid == p.session_id) own) (newest own))
