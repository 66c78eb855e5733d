-- ===== src/Agent/Startup/Refused.antt =====
-- A start that finds another agent.
use btwattch2_rs.Prelude.{
  ℕ, ◌≡◌, refl, subst, Bool, true, false, Bool-cases, inl, inr, Option, none, some, is_some, Result,
  ok, err,
}
use btwattch2_rs.Prelude.Text.{Text}
use btwattch2_rs.Connection.Link.{lift}
use btwattch2_rs.Connection.Link.Post.{Ends, Ends->>=, Ends-lift}
use btwattch2_rs.Agent.Paths.{
  AgentPaths, Os, Flock, locked, would_block, lock_failed, remove_files, probe_daemon,
}
use btwattch2_rs.Agent.Startup.Steps.{serve_from-Ends, take_over-Ends}
use btwattch2_rs.Agent.Startup.{
  StartError, already_running, answers, open_failed, write_failed, bind_failed, set_mode_failed,
  create_failed, OnOs, mask_of, held, bind_narrowed, claim, cleanup_stale, ensure_socket_dir,
  guarded, serve_from, take_over,
}

-- Creating a directory, opening a file and locking it delete nothing.
pub record DeletesNothing (o : Os) : Type 0 where
  pub by_create_dir :
      (p d : Text) (m : ℕ) (s : o.System)
      → o.exists p s ≡ true
      → o.exists p (o.create_dir d m s).1 ≡ true
  pub by_open :
      (p d : Text) (s : o.System) → o.exists p s ≡ true → o.exists p (o.open_file d s).1 ≡ true
  pub by_flock :
      (p : Text) (file : o.File) (s : o.System)
      → o.exists p s ≡ true
      → o.exists p (o.flock file s).1 ≡ true

-- The errors of a start that gives way to a running agent.
abbrev pub is_refusal : {E : Type 0} → StartError E → Bool
is_refusal (already_running pid) = true
is_refusal answers = true
is_refusal _ = false

module _ (o : Os) (laws : DeletesNothing o) (paths : AgentPaths) where
  abbrev There : {A : Type 0} → A → o.System → Type 0
  There a s = o.exists paths.socket s ≡ true

  -- After a refusal the socket is still there.
  abbrev Left : StartError o.Error → o.System → Type 0
  Left (already_running pid) s = o.exists paths.socket s ≡ true
  Left answers s = o.exists paths.socket s ≡ true
  Left _ s = Unit

  abbrev Any : {A : Type 0} → A → o.System → Type 0
  Any a s = Unit

  ensure-Left :
      (parent : Option Text) (s : o.System)
      → o.exists paths.socket s ≡ true
      → Ends There Left (ensure_socket_dir o parent s)
  unfolding ensure_socket_dir
  ensure-Left none s h = h
  ensure-Left (some dir) s h =
      Ends-lift There Left create_failed (o.create_dir dir 0o700) s
        (λ u e. laws.by_create_dir paths.socket dir 0o700 s h) (λ e. tt)

  held-Left :
      (file : o.File) (x : Flock × o.System)
      → o.exists paths.socket (x.1) ≡ true
      → Ends There Left (held o paths file x)
  unfolding held
  held-Left file (locked, t) h = h
  held-Left file (would_block, t) h = h
  held-Left file (lock_failed, t) h = h

  claim-Left : (s : o.System) → o.exists paths.socket s ≡ true → Ends There Left (claim o paths s)
  unfolding claim
  claim-Left s h =
      Ends->>= There There Left (lift open_failed (o.open_file paths.pid))
        (λ file s. held o paths file (o.flock file s)) s
        (Ends-lift There Left open_failed (o.open_file paths.pid) s
          (λ u e. laws.by_open paths.socket paths.pid s h) (λ e. tt))
        (λ file t k. held-Left file (o.flock file t) (laws.by_flock paths.socket file t k))

  abbrev NoRefusal : StartError o.Error → o.System → Type 0
  NoRefusal e s = is_refusal e ≡ false

  NoRefusal-Left : (e : StartError o.Error) (s : o.System) → is_refusal e ≡ false → Left e s
  NoRefusal-Left (already_running pid) s h = absurd (cc)
  NoRefusal-Left answers s h = absurd (cc)
  NoRefusal-Left (open_failed e) s h = tt
  NoRefusal-Left (write_failed e) s h = tt
  NoRefusal-Left (bind_failed e) s h = tt
  NoRefusal-Left (set_mode_failed e) s h = tt
  NoRefusal-Left (create_failed e) s h = tt

  bind_narrowed-NoRefusal :
      (sock : Text) (mode : ℕ) (s : o.System) → Ends Any NoRefusal (bind_narrowed o sock mode s)
  unfolding bind_narrowed
  bind_narrowed-NoRefusal sock mode s = go (o.bind sock (o.umask (mask_of o mode) s).1).0
    where
      go :
          (r : Result o.Error o.Listener)
          → Ends Any NoRefusal (elim r as (λ r. Result (StartError o.Error) o.Listener × o.System) [
            | ok listener ↦ (
              ok listener,
              (o.umask
                  (o.umask (mask_of o mode) s).0
                  (o.bind sock (o.umask (mask_of o mode) s).1).1).1,
            )
            | err e ↦ (
              err (bind_failed e),
              (o.umask
                  (o.umask (mask_of o mode) s).0
                  (o.bind sock (o.umask (mask_of o mode) s).1).1).1,
            )
          ])
      go (ok listener) = tt
      go (err e) = refl

  serve_from-NoRefusal :
      (mode : ℕ) (file : o.File) (s : o.System)
      → Ends Any NoRefusal (serve_from o paths mode file s)
  serve_from-NoRefusal mode file s =
      serve_from-Ends o paths mode NoRefusal (λ t. Unit) (λ t. Unit) file s
        (bind_narrowed-NoRefusal paths.socket mode s) (λ t u e. tt) (λ t u e. refl) (λ t u. tt)
        (λ t u e. refl)

  guarded-Left :
      {A : Type 0} (m : OnOs o A) (s : o.System)
      → Ends Any NoRefusal (m s)
      → Ends Any Left (guarded o paths m s)
  unfolding guarded
  guarded-Left {A = A} m s h = go (m s) h
    where
      go :
          (x : Result (StartError o.Error) A × o.System)
          → Ends Any NoRefusal x
          → Ends Any Left (elim (x.0) as (λ r. Result (StartError o.Error) A × o.System) [
            | ok a ↦ (ok a, x.1)
            | err e ↦ (err e, remove_files o paths (x.1))
          ])
      go (ok a, t) h = tt
      go (err e, t) h = NoRefusal-Left e (remove_files o paths t) h

  cleanup_stale-Left :
      {P D : Type 0} (ping : o.System → Result P D) (s : o.System)
      → o.exists paths.socket s ≡ true
      → Ends Any Left (cleanup_stale o ping paths s)
  unfolding cleanup_stale
  cleanup_stale-Left ping s h = elim (Bool-cases (is_some (probe_daemon o ping paths s))) [
    | inl k ↦ rw (cleanup_stale, k) h
    | inr k ↦ rw (cleanup_stale, k) tt
  ]

  Left-is_refusal :
      (e : StartError o.Error) (s : o.System)
      → is_refusal e ≡ true
      → Left e s
      → o.exists paths.socket s ≡ true
  Left-is_refusal (already_running pid) s h l = l
  Left-is_refusal answers s h l = l
  Left-is_refusal (open_failed e) s h l = absurd (cc)
  Left-is_refusal (write_failed e) s h l = absurd (cc)
  Left-is_refusal (bind_failed e) s h l = absurd (cc)
  Left-is_refusal (set_mode_failed e) s h l = absurd (cc)
  Left-is_refusal (create_failed e) s h l = absurd (cc)

  -- A start that gives way to a running agent, because that one holds the pid file or answers on
  -- the socket, leaves the socket where it was, if opening files and directories deletes nothing.
  pub take_over_refused :
      {P D : Type 0} (ping : o.System → Result P D) (parent : Option Text) (mode : ℕ)
      (e : StartError o.Error) (s t : o.System)
      → o.exists paths.socket s ≡ true
      → is_refusal e ≡ true
      → take_over o ping parent paths mode s ≡ (err e, t)
      → o.exists paths.socket t ≡ true
  take_over_refused ping parent mode e s t h refusal failed = Left-is_refusal e t refusal (
      subst (Ends Any Left) failed (
        take_over-Ends o paths mode Left ping parent (λ s. o.exists paths.socket s ≡ true)
          (λ s. Unit) (λ s. Unit) s (ensure-Left parent s h) claim-Left (cleanup_stale-Left ping)
          (λ file s u.
            guarded-Left (serve_from o paths mode file) s (serve_from-NoRefusal mode file s))))
