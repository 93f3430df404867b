-- ===== src/Agent/System.antt =====
-- guest/linuxlab-agent/src/sys.rs: what the checks observe of the guest. The system calls and the
-- programs that they run are parameters; the tables of /proc and /etc are read here.
pub mod Modes
pub mod Accounts
pub mod Processes
pub mod Sockets
use Prim.Native.String.{String, ◌++◌}
use linuxpracticelab.Common.{
  ℕ, Bool, true, false, not, ◌&&◌, ◌⊎◌, Option, none, some, List, map, ◌==◌, inl, inr, none, some,
}
use linuxpracticelab.Common.Decimal.{decimal}
use linuxpracticelab.Common.Int.{ℤ, same_int, pos}
use linuxpracticelab.Common.Text.{trim}

-- What `stat` reports, as far as it is read.
pub record Metadata : Type 0 where
  pub mode : ℕ
  pub size : ℕ
  pub uid : ℕ
  pub gid : ℕ
  pub ino : ℕ

-- An `io::Error`: whether its kind is `PermissionDenied`, and its text.
pub record IoError : Type 0 where
  pub is_permission_denied : Bool
  pub text : String

pub record CommandOutput : Type 0 where
  pub status : ℤ
  pub stdout : String
  pub stderr : String
  pub timed_out : Bool

unfoldable pub success : CommandOutput → Bool
success output = same_int output.status (pos 0) && not output.timed_out

unfoldable pub stdout_trimmed : CommandOutput → String
stdout_trimmed output = trim output.stdout

-- One moment of the guest. `parents` lists what `parent` and then `pop` yield; `same_path` is `==` of
-- `PathBuf`s, which compares their components; `regex` compiles a pattern, without case and over
-- lines if so asked; `run` is a program that only
-- reports; `own_pid` is the agent's process; `modified` and `now` are times in nanoseconds.
pub record System : Type 0 where
  pub metadata : String → Option Metadata
  pub symlink_metadata : String → Option Metadata
  pub is_dir : String → Bool
  pub parents : String → List String
  pub canonicalize : String → String ⊎ String
  pub read_link : String → Option String
  pub read : String → String ⊎ IoError
  pub read_to_string : String → Option String
  pub read_dir : String → List String ⊎ IoError
  pub run : String → List String → Option ℕ → CommandOutput ⊎ String
  pub regex : String → Bool → Bool → (String → Bool) ⊎ String
  pub to_lowercase : String → String
  pub own_pid : ℕ
  pub modified : String → Option ℕ
  pub now : ℕ
  pub same_path : String → String → Bool

-- `Result::ok`
abbrev pub ok : {A B : Type 0} → A ⊎ B → Option A
ok (inl a) = some a
ok (inr err) = none

-- `std::fs::read_link` of a process's directory.
unfoldable pub process_cwd : System → ℕ → Option String
process_cwd sys pid = sys.read_link ("/proc/" ++ (decimal pid ++ "/cwd"))
