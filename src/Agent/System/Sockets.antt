-- ===== src/Agent/System/Sockets.antt =====
-- guest/linuxlab-agent/src/sys.rs, "Listening sockets": the tables of /proc/net.
use Prim.Native.Char.{code}
use Prim.Native.String.{String, ◌++◌, len, slice}
use linuxpracticelab.Common.{
  ℕ, zero, suc, ◌+◌, ◌-◌, ◌*◌, ◌/◌, ◌%◌, ◌^◌, Bool, true, false, ◌&&◌, ◌||◌, Option, none, some,
  List, [], ◌∷◌, map, all, drop, ltb, leb, ◌==◌, if◌then◌else◌, length,
}
use mathlib.Core.List
use linuxpracticelab.Common.Decimal.{decimal}
use linuxpracticelab.Common.Text.{
  lines, join, split_once, split_whitespace, eq_ignore_ascii_case, parse_digits,
}
use linuxpracticelab.Agent.System.{System}
use linuxpracticelab.Agent.System.Accounts.{same, field, present, map_option, and_then}
use linuxpracticelab.Agent.System.Processes.{or_zero}

pub record SocketFacts : Type 0 where
  pub local_address : String
  pub port : ℕ
  pub listening : Bool
  pub inode : ℕ

abbrev hex_value : ℕ → Option ℕ
hex_value c =
    if leb 48 c && leb c 57
    then some (c - 48)
    else (if leb 65 c && leb c 70
        then some (c - 55)
        else (if leb 97 c && leb c 102 then some (c - 87) else none))

abbrev hex_step : ℕ → ℕ → Option ℕ → Option ℕ
hex_step limit value none = none
hex_step limit value (some d) = if ltb (value * 16 + d) limit then some (value * 16 + d) else none

-- The digits of a number below a limit, from the value so far.
unfoldable pub hex_from : ℕ → Option ℕ → String → Option ℕ
hex_from limit none s = none
hex_from limit (some value) String.[] = some value
hex_from limit (some value) (String.◌∷◌ c s) =
    hex_from limit (hex_step limit value (hex_value (code c))) s

-- `from_str_radix` for the base 16.
unfoldable pub parse_hex : ℕ → String → Option ℕ
parse_hex limit String.[] = none
parse_hex limit (String.◌∷◌ c String.[]) = hex_from limit (some 0) (String.◌∷◌ c String.[])
parse_hex limit (String.◌∷◌ c (String.◌∷◌ d s)) =
    if code c == 43
    then hex_from limit (some 0) (String.◌∷◌ d s)
    else hex_from limit (some 0) (String.◌∷◌ c (String.◌∷◌ d s))

abbrev le_bytes : ℕ → List ℕ
le_bytes n = n % 256 ∷ n / 256 % 256 ∷ n / 65536 % 256 ∷ n / 16777216 % 256 ∷ []

abbrev or_text : String → Option String → String
or_text s none = s
or_text s (some t) = t

abbrev appended : List (List ℕ) → List ℕ
appended [] = []
appended (bs ∷ rest) = List.◌++◌ bs (appended rest)

abbrev ipv4 : ℕ → String
ipv4 raw = join "." (map decimal (le_bytes raw))

abbrev hex_digit : ℕ → String
hex_digit d = slice "0123456789abcdef" d (d + 1)

-- `{:x}` of a `u16`, which has at most four digits.
unfoldable pub hex_text : ℕ → ℕ → String
hex_text zero n = ""
hex_text (suc fuel) n =
    let rest = hex_text fuel (n / 16) in
    if ltb n 16 then hex_digit n else rest ++ hex_digit (n % 16)

unfoldable pub hex_groups : List ℕ → List String
hex_groups [] = []
hex_groups (a ∷ []) = []
hex_groups (a ∷ b ∷ bytes) = hex_text 4 (a * 256 + b) ∷ hex_groups bytes

abbrev ipv6 : List ℕ → String
ipv6 bytes = if all (λ b. b == 0) bytes then "::" else join ":" (hex_groups bytes)

abbrev word : String → ℕ → Option ℕ
word hex i = parse_hex (2 ^ 32) (slice hex (i * 8) (i * 8 + 8))

-- Each address is stored in words of 32 bits, the lowest byte of each first.
unfoldable pub decode_hex_address : String → String
decode_hex_address hex =
    if len hex == 8
    then or_text hex (map_option ipv4 (parse_hex (2 ^ 32) hex))
    else (if len hex == 32
        then or_text hex (
            and_then (word hex 0) (λ a. and_then (word hex 1) (λ b. and_then (word hex 2) (λ c.
              map_option
                (λ d. ipv6 (appended (le_bytes a ∷ le_bytes b ∷ le_bytes c ∷ le_bytes d ∷ [])))
                (word hex 3)))))
        else hex)

abbrev socket_at : Bool → List String → String → ℕ → SocketFacts
socket_at is_udp fields address_hex port = record {
  local_address = decode_hex_address address_hex;
  port = port;
  listening = is_udp || eq_ignore_ascii_case (field fields 3) "0A";
  inode = or_zero (parse_digits 10 (2 ^ 64) (field fields 9));
}

abbrev socket_of : Bool → List String → Option SocketFacts
socket_of is_udp fields =
    if ltb (length fields) 10
    then none
    else and_then (split_once 58 (field fields 1)) (λ (address_hex, port_hex).
      map_option (socket_at is_udp fields address_hex) (parse_hex (2 ^ 16) port_hex))

unfoldable pub parse_proc_net : Bool → String → List SocketFacts
parse_proc_net is_udp content =
    present (map (λ line. socket_of is_udp (split_whitespace line)) (drop 1 (lines content)))

abbrev net_tables : Bool → List String
net_tables true = "/proc/net/udp" ∷ "/proc/net/udp6" ∷ []
net_tables false = "/proc/net/tcp" ∷ "/proc/net/tcp6" ∷ []

abbrev table_in : System → Bool → String → List SocketFacts
table_in sys is_udp file = elim (sys.read_to_string file) [
  | none ↦ []
  | some content ↦ parse_proc_net is_udp content
]

unfoldable pub read_all : System → Bool → List String → List SocketFacts
read_all sys is_udp [] = []
read_all sys is_udp (file ∷ files) =
    List.◌++◌ (table_in sys is_udp file) (read_all sys is_udp files)

unfoldable pub read_sockets : System → String → List SocketFacts
read_sockets sys protocol = read_all sys (same protocol "udp") (net_tables (same protocol "udp"))
