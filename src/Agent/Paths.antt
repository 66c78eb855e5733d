-- ===== src/Agent/Paths.antt =====
-- src/agent/mod.rs: the agent's socket and pid file, and what is used of the operating system.
use btwattch2_rs.Prelude.{
  ℕ, Bool, if◌then◌else◌, Option, none, some, Result, ok, err, and_then, unwrap_or, ◌^◌,
}
use btwattch2_rs.Prelude.Text.{Text, codes, trim, parse_radix}
use btwattch2_rs.Prelude.FilePath.{join, with_extension}

pub record AgentPaths : Type 0 where
  pub socket : Text
  pub pid : Text

pub data Flock : Type 0 where
  locked would_block lock_failed : Flock

pub record Os : Type 1 where
  pub System : Type 0
  pub Error : Type 0
  pub File : Type 0
  pub Listener : Type 0
  -- Whether there is a file, and its permission bits; the umask of the process.
  pub exists : Text → System → Bool
  pub permissions : Text → System → ℕ
  pub mask : System → ℕ
  -- Recursively, with this mode for what is created.
  pub create_dir : Text → ℕ → System → Result Error (Unit {0}) × System
  -- For reading and writing, created if it is missing, not through a symlink.
  pub open_file : Text → System → Result Error File × System
  pub flock : File → System → Flock × System
  pub read_to_string : Text → System → Option Text
  -- `remove_file`, whose result is dropped.
  pub remove_file : Text → System → System
  -- Sets the umask and gives the one before.
  pub umask : ℕ → System → ℕ × System
  pub bind : Text → System → Result Error Listener × System
  pub set_permissions : Text → ℕ → System → Result Error (Unit {0}) × System
  -- `set_len(0)`, the write of the process's pid, and the flush.
  pub write_pid : File → System → Result Error (Unit {0}) × System

module _ (o : Os) where
  unfoldable pub remove_files : AgentPaths → o.System → o.System
  remove_files paths s = o.remove_file paths.pid (o.remove_file paths.socket s)

  -- Missing, empty and unparsable all mean that there is none.
  unfoldable pub read_pid : Text → o.System → Option ℕ
  read_pid path s = and_then (o.read_to_string path s) (λ text. parse_radix 10 (2 ^ 32) (trim text))

  -- Only `Some` of an agent that answers a ping, which is asked only where there is a socket.
  unfoldable pub probe_daemon :
      {E D : Type 0} → (o.System → Result E D) → AgentPaths → o.System → Option D
  probe_daemon ping paths s =
      if o.exists paths.socket s then (elim (ping s) [ ok d ↦ some d | err e ↦ none ]) else none

-- `$XDG_RUNTIME_DIR` may be unset.
abbrev pub runtime_fallback : Text
runtime_fallback = codes "/run/btwattch2"

unfoldable pub pid_for : Text → Text
pid_for socket = with_extension socket (codes "pid")

unfoldable pub paths_from_socket : Text → AgentPaths
unfolding pid_for
paths_from_socket socket = record { socket = socket; pid = pid_for socket }

-- `env` is the environment of the process.
runtime_dir : (Text → Option Text) → Text
runtime_dir env = unwrap_or (env (codes "XDG_RUNTIME_DIR")) runtime_fallback

unfoldable pub default_paths : (Text → Option Text) → AgentPaths
unfolding runtime_dir paths_from_socket
default_paths env = paths_from_socket (join (runtime_dir env) (codes "btwattch2.sock"))
