-- ===== src/Agent/System/Modes.antt =====
-- guest/linuxlab-agent/src/sys.rs, "File metadata": the kind of a file and its permissions.
use Prim.Native.Nat.{bit_and}
use Prim.Native.String.{String, ◌++◌}
use linuxpracticelab.Common.{ℕ, ◌/◌, ◌%◌, ◌^◌, Bool, Option, none, some, ◌==◌, if◌then◌else◌}
use linuxpracticelab.Common.Decimal.{digit}
use linuxpracticelab.Common.Text.{trim, parse_digits}
use linuxpracticelab.SharedTypes.Json.{Json, Number}
use linuxpracticelab.SharedTypes.Registry.Values.{trim_0o}
use linuxpracticelab.Agent.System.{System, Metadata}

pub data FileKind : Type 0 where
  regular : FileKind
  directory : FileKind
  symlink : FileKind
  fifo : FileKind
  socket : FileKind
  block : FileKind
  char : FileKind
  unknown : FileKind

unfoldable pub as_str : FileKind → String
as_str regular = "regular"
as_str directory = "directory"
as_str symlink = "symlink"
as_str fifo = "fifo"
as_str socket = "socket"
as_str block = "block"
as_str char = "char"
as_str unknown = "unknown"

abbrev pub tag : FileKind → ℕ
tag regular = 0
tag directory = 1
tag symlink = 2
tag fifo = 3
tag socket = 4
tag block = 5
tag char = 6
tag unknown = 7

-- The derived `==`.
abbrev pub is_kind : FileKind → FileKind → Bool
is_kind k l = tag k == tag l

abbrev kind_of : ℕ → FileKind
kind_of format =
    if format == 32768
    then regular
    else (if format == 16384
        then directory
        else (if format == 40960
            then symlink
            else (if format == 4096
                then fifo
                else (if format == 49152
                    then socket
                    else (if format == 24576
                        then block
                        else (if format == 8192 then char else unknown))))))

-- The format is what the mask 0o170000 leaves.
unfoldable pub from_mode : ℕ → FileKind
from_mode mode = kind_of (bit_and mode 61440)

pub record FileFacts : Type 0 where
  pub kind : FileKind
  pub permissions : ℕ
  pub size : ℕ
  pub uid : ℕ
  pub gid : ℕ
  pub inode : ℕ

abbrev pub facts_of : Option Metadata → Option FileFacts
facts_of none = none
facts_of (some m) = some record {
  kind = from_mode m.mode;
  permissions = bit_and m.mode 4095;
  size = m.size;
  uid = m.uid;
  gid = m.gid;
  inode = m.ino;
}

-- A final symbolic link is not followed.
unfoldable pub lstat : System → String → Option FileFacts
lstat sys path = facts_of (sys.symlink_metadata path)

unfoldable pub stat : System → String → Option FileFacts
stat sys path = facts_of (sys.metadata path)

-- `{:04o}` of the lower twelve bits, which are four octal digits.
unfoldable pub format_mode : ℕ → String
format_mode mode =
    let n = bit_and mode 4095 in
    digit (n / 512) ++ (digit (n / 64 % 8) ++ (digit (n / 8 % 8) ++ digit (n % 8)))

abbrev pub parse_mode : Json → Option ℕ
parse_mode (Json.string s) = parse_digits 8 (2 ^ 32) (trim_0o (trim s))
parse_mode (Json.number (Number.pos_int n)) = some (n % 2 ^ 32)
parse_mode _ = none
