-- ===== src/Agent/System/Accounts.antt =====
-- guest/linuxlab-agent/src/sys.rs, "Users and groups": the tables of /etc. A line that cannot be
-- read is passed over, and no table is refused.
use Prim.Native.String.{String}
use text.Mathlib.Text
use linuxpracticelab.Common.{
  ℕ, ◌^◌, Bool, false, not, ◌||◌, Option, none, some, List, [], ◌∷◌, map, select, find, any, ◌==◌,
  ltb, length, if◌then◌else◌, get_or,
}
use linuxpracticelab.Common.Sorting.{sort}
use linuxpracticelab.Common.Text.{is_blank, trim, starts_with, lines, split, parse_digits}
use linuxpracticelab.Agent.System.{System}

pub record PasswdEntry : Type 0 where
  pub name : String
  pub uid : ℕ
  pub gid : ℕ
  pub home : String
  pub shell : String

pub record GroupEntry : Type 0 where
  pub name : String
  pub gid : ℕ
  pub members : List String

abbrev pub same : String → String → Bool
same s t = text.Mathlib.Text.◌==◌ s t

abbrev pub field : List String → ℕ → String
field fields i = get_or fields i ""

abbrev pub parse_u32 : String → Option ℕ
parse_u32 s = parse_digits 10 (2 ^ 32) s

abbrev is_skipped : String → Bool
is_skipped line = is_blank (trim line) || starts_with line "#"

abbrev passwd_ids : List String → Option ℕ → Option ℕ → Option PasswdEntry
passwd_ids fields (some uid) (some gid) = some record {
  name = field fields 0;
  uid = uid;
  gid = gid;
  home = field fields 5;
  shell = field fields 6;
}
passwd_ids fields none _ = none
passwd_ids fields (some uid) none = none

abbrev passwd_fields : List String → Option PasswdEntry
passwd_fields fields =
    if ltb (length fields) 7
    then none
    else passwd_ids fields (parse_u32 (field fields 2)) (parse_u32 (field fields 3))

unfoldable pub passwd_line : String → Option PasswdEntry
passwd_line line = if is_skipped line then none else passwd_fields (split 58 line)

abbrev pub present : {A : Type 0} → List (Option A) → List A
present [] = []
present (none ∷ os) = present os
present (some a ∷ os) = a ∷ present os

unfoldable pub parse_passwd : String → List PasswdEntry
parse_passwd content = present (map passwd_line (lines content))

abbrev group_gid : List String → Option ℕ → Option GroupEntry
group_gid fields none = none
group_gid fields (some gid) = some record {
  name = field fields 0;
  gid = gid;
  members = select (λ m. not (is_blank m)) (split 44 (field fields 3));
}

abbrev group_fields : List String → Option GroupEntry
group_fields fields =
    if ltb (length fields) 4 then none else group_gid fields (parse_u32 (field fields 2))

unfoldable pub group_line : String → Option GroupEntry
group_line line = if is_skipped line then none else group_fields (split 58 line)

unfoldable pub parse_groups : String → List GroupEntry
parse_groups content = present (map group_line (lines content))

abbrev pub map_option {ℓ κ} : {A : Type ℓ} {B : Type κ} → (A → B) → Option A → Option B
map_option f none = none
map_option f (some a) = some (f a)

-- `none` where the file cannot be read.
unfoldable pub read_passwd : System → Option (List PasswdEntry)
read_passwd sys = map_option parse_passwd (sys.read_to_string "/etc/passwd")

unfoldable pub read_groups : System → Option (List GroupEntry)
read_groups sys = map_option parse_groups (sys.read_to_string "/etc/group")

abbrev pub user_named : String → List PasswdEntry → Option PasswdEntry
user_named user entries = find (λ (e : PasswdEntry). same e.name user) entries

abbrev pub group_named : String → List GroupEntry → Option GroupEntry
group_named group groups = find (λ (g : GroupEntry). same g.name group) groups

abbrev pub and_then {ℓ κ} : {A : Type ℓ} {B : Type κ} → Option A → (A → Option B) → Option B
and_then none f = none
and_then (some a) f = f a

unfoldable pub uid_for : System → String → Option ℕ
uid_for sys user =
    and_then (read_passwd sys)
      (λ entries. map_option (λ (e : PasswdEntry). e.uid) (user_named user entries))

unfoldable pub user_for_uid : System → ℕ → Option String
user_for_uid sys uid = and_then (read_passwd sys) (λ entries.
    map_option (λ (e : PasswdEntry). e.name) (find (λ (e : PasswdEntry). e.uid == uid) entries))

unfoldable pub group_for_gid : System → ℕ → Option String
group_for_gid sys gid = and_then (read_groups sys) (λ groups.
    map_option (λ (g : GroupEntry). g.name) (find (λ (g : GroupEntry). g.gid == gid) groups))

abbrev pub is_primary : Option ℕ → ℕ → Bool
is_primary none gid = false
is_primary (some primary) gid = gid == primary

-- `dedup` of a sorted list.
unfoldable pub dedup : List String → List String
dedup [] = []
dedup (s ∷ []) = s ∷ []
dedup (s ∷ t ∷ ts) = let rest = dedup (t ∷ ts) in if same s t then rest else s ∷ rest

abbrev pub belongs : String → Option ℕ → GroupEntry → Bool
belongs user primary g = any (λ m. same m user) g.members || is_primary primary g.gid

unfoldable pub groups_for_user : System → String → Option (List String)
groups_for_user sys user = and_then (read_passwd sys) (λ passwd.
    and_then (read_groups sys) (λ groups.
      let primary = map_option (λ (e : PasswdEntry). e.gid) (user_named user passwd) in
      some (
        dedup
          (sort (map (λ (g : GroupEntry). g.name) (select (λ g. belongs user primary g) groups))))))
