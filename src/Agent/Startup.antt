-- ===== src/Agent/Startup.antt =====
-- src/agent/server.rs: taking over the socket and the pid file, and giving them back. What the
-- operating system does is an interface; a call takes its state and gives the next one.
pub mod Steps
pub mod Refused
pub mod Permissions
use btwattch2_rs.Prelude.{
  ℕ, ◌-◌, ◌%◌, ◌≡◌, ◌≢◌, if◌then◌else◌, Bool, true, false, Option, none, some, is_some, Result, ok,
  err,
}
use btwattch2_rs.Prelude.Text.{Text}
use btwattch2_rs.Prelude.Decimal.{decimal}
use btwattch2_rs.Connection.Link.{Op, ◌>>=◌, ◌>>◌, lift}
use btwattch2_rs.Agent.Paths.{
  AgentPaths, Os, Flock, locked, would_block, lock_failed, remove_files, read_pid, probe_daemon,
}

pub data StartError (E : Type 0) : Type 0 where
  -- With the pid that the file holds.
  already_running : Option ℕ → StartError E
  answers : StartError E
  open_failed write_failed bind_failed set_mode_failed create_failed : E → StartError E

module _ (o : Os) where
  abbrev pub OnOs {ℓ} : Type ℓ → Type ℓ
  OnOs A = Op o.System (StartError o.Error) A

  -- A system that cannot lock is let through with a warning.
  held : AgentPaths → o.File → Flock × o.System → Result (StartError o.Error) o.File × o.System
  unfolding read_pid
  held paths file (locked, s) = (ok file, s)
  held paths file (would_block, s) = (err (already_running (read_pid o paths.pid s)), s)
  held paths file (lock_failed, s) = (ok file, s)

  -- The open file is the claim.
  unfoldable pub claim : AgentPaths → OnOs o.File
  unfolding held
  claim paths = do
    file ← lift open_failed (o.open_file paths.pid)
    λ s. held paths file (o.flock file s)

  -- `ping` is what a client of the socket gets.
  unfoldable pub cleanup_stale :
      {P D : Type 0} → (o.System → Result P D) → AgentPaths → OnOs (Unit {0})
  unfolding probe_daemon
  cleanup_stale ping paths s =
      if is_some (probe_daemon o ping paths s)
      then (err answers, s)
      else (ok tt, o.remove_file paths.socket s)

  -- `!mode & 0o777`.
  abbrev pub mask_of : ℕ → ℕ
  mask_of mode = 0o777 - mode % 512

  -- The umask takes away what the mode does not grant, and is restored after the bind.
  pub bind_narrowed : Text → ℕ → OnOs o.Listener
  bind_narrowed sock mode s =
      let (old, t) = o.umask (mask_of mode) s in
      let (r, u) = o.bind sock t in
      let (narrowed, v) = o.umask old u in
      elim r [ ok listener ↦ (ok listener, v) | err e ↦ (err (bind_failed e), v) ]

  unfoldable pub bind_socket : Text → ℕ → OnOs o.Listener
  unfolding bind_narrowed
  bind_socket sock mode = do
    listener ← bind_narrowed sock mode
    lift set_mode_failed (o.set_permissions sock mode)
    λ s. (ok listener, s)

  -- `parent` is the directory of the socket, where its path has one.
  unfoldable pub ensure_socket_dir : Option Text → OnOs (Unit {0})
  ensure_socket_dir none s = (ok tt, s)
  ensure_socket_dir (some dir) s = lift create_failed (o.create_dir dir 0o700) s

  -- The guard removes both files when a call after it fails.
  pub guarded {ℓ} : {A : Type ℓ} → AgentPaths → OnOs A → OnOs A
  unfolding remove_files
  guarded paths m s =
      let (r, t) = m s in elim r [ ok a ↦ (ok a, t) | err e ↦ (err e, remove_files o paths t) ]

  -- Binding, and the pid over whatever the file held.
  pub serve_from : AgentPaths → ℕ → o.File → OnOs o.Listener
  unfolding bind_socket
  serve_from paths mode file = do
    listener ← bind_socket paths.socket mode
    lift write_failed (o.write_pid file)
    λ s. (ok listener, s)

  unfoldable pub take_over :
      {P D : Type 0}
      → (o.System → Result P D)
      → Option Text
      → AgentPaths
      → ℕ
      → OnOs (o.File × o.Listener)
  unfolding ensure_socket_dir claim cleanup_stale guarded serve_from
  take_over ping parent paths mode = do
    ensure_socket_dir parent
    file ← claim paths
    cleanup_stale ping paths
    listener ← guarded paths (serve_from paths mode file)
    λ s. (ok (file, listener), s)
