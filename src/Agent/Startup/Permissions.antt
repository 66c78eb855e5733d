-- ===== src/Agent/Startup/Permissions.antt =====
-- The umask of the process, and the mode of the socket.
use btwattch2_rs.Prelude.{
  ℕ, ◌≡◌, ◌∙◌, Bool-cases, inl, inr, Option, none, some, is_some, Result, ok, err,
}
use btwattch2_rs.Prelude.Text.{Text}
use btwattch2_rs.Connection.Link.{lift}
use btwattch2_rs.Connection.Link.Post.{Ends, Ends->>=, Ends-lift}
use btwattch2_rs.Agent.Paths.{
  AgentPaths, Os, Flock, locked, would_block, lock_failed, remove_files, probe_daemon,
}
use btwattch2_rs.Agent.Startup.Steps.{serve_from-Ends, take_over-Ends}
use btwattch2_rs.Agent.Startup.{
  StartError, bind_failed, open_failed, create_failed, OnOs, mask_of, held, bind_narrowed, claim,
  cleanup_stale, ensure_socket_dir, guarded, serve_from, take_over,
}

-- The umask is the process's: only `umask` changes it. A mode that was set is the file's until it
-- is set again.
pub record SetsModes (o : Os) : Type 0 where
  pub umask_old : (m : ℕ) (s : o.System) → (o.umask m s).0 ≡ o.mask s
  pub umask_new : (m : ℕ) (s : o.System) → o.mask (o.umask m s).1 ≡ m
  pub by_create_dir : (d : Text) (m : ℕ) (s : o.System) → o.mask (o.create_dir d m s).1 ≡ o.mask s
  pub by_open : (p : Text) (s : o.System) → o.mask (o.open_file p s).1 ≡ o.mask s
  pub by_flock : (f : o.File) (s : o.System) → o.mask (o.flock f s).1 ≡ o.mask s
  pub by_remove : (p : Text) (s : o.System) → o.mask (o.remove_file p s) ≡ o.mask s
  pub by_set : (p : Text) (m : ℕ) (s : o.System) → o.mask (o.set_permissions p m s).1 ≡ o.mask s
  pub by_write : (f : o.File) (s : o.System) → o.mask (o.write_pid f s).1 ≡ o.mask s
  pub set_mode :
      (p : Text) (m : ℕ) (s : o.System)
      → (o.set_permissions p m s).0 ≡ ok tt
      → o.permissions p (o.set_permissions p m s).1 ≡ m
  pub write_mode :
      (p : Text) (f : o.File) (s : o.System)
      → o.permissions p (o.write_pid f s).1 ≡ o.permissions p s

module _ (o : Os) (laws : SetsModes o) (paths : AgentPaths) (mode umask : ℕ) where
  abbrev pub Masked : o.System → Type 0
  Masked s = o.mask s ≡ umask

  -- The socket has its mode.
  abbrev pub Serving : o.System → Type 0
  Serving s = (o.mask s ≡ umask) × (o.permissions paths.socket s ≡ mode)

  abbrev pub MaskedAfter : {A : Type 0} → A → o.System → Type 0
  MaskedAfter a s = o.mask s ≡ umask

  abbrev pub ServingAfter : {A : Type 0} → A → o.System → Type 0
  ServingAfter a s = (o.mask s ≡ umask) × (o.permissions paths.socket s ≡ mode)

  ensure-Masked :
      (parent : Option Text) (s : o.System)
      → Masked s
      → Ends MaskedAfter MaskedAfter (ensure_socket_dir o parent s)
  unfolding ensure_socket_dir
  ensure-Masked none s h = h
  ensure-Masked (some dir) s h =
      Ends-lift MaskedAfter MaskedAfter create_failed (o.create_dir dir 0o700) s
        (λ u e. laws.by_create_dir dir 0o700 s ∙ h) (λ e. laws.by_create_dir dir 0o700 s ∙ h)

  held-Masked :
      (file : o.File) (x : Flock × o.System)
      → Masked (x.1)
      → Ends MaskedAfter MaskedAfter (held o paths file x)
  unfolding held
  held-Masked file (locked, t) h = h
  held-Masked file (would_block, t) h = h
  held-Masked file (lock_failed, t) h = h

  claim-Masked : (s : o.System) → Masked s → Ends MaskedAfter MaskedAfter (claim o paths s)
  unfolding claim
  claim-Masked s h =
      Ends->>= MaskedAfter MaskedAfter MaskedAfter (lift open_failed (o.open_file paths.pid))
        (λ file s. held o paths file (o.flock file s)) s
        (Ends-lift MaskedAfter MaskedAfter open_failed (o.open_file paths.pid) s
          (λ u e. laws.by_open paths.pid s ∙ h) (λ e. laws.by_open paths.pid s ∙ h))
        (λ file t k. held-Masked file (o.flock file t) (laws.by_flock file t ∙ k))

  cleanup_stale-Masked :
      {P D : Type 0} (ping : o.System → Result P D) (s : o.System)
      → Masked s
      → Ends MaskedAfter MaskedAfter (cleanup_stale o ping paths s)
  unfolding cleanup_stale
  cleanup_stale-Masked ping s h = elim (Bool-cases (is_some (probe_daemon o ping paths s))) [
    | inl k ↦ rw (cleanup_stale, k) h
    | inr k ↦ rw (cleanup_stale, k) (laws.by_remove paths.socket s ∙ h)
  ]

  bind_narrowed-Masked :
      (s : o.System) → Masked s → Ends MaskedAfter MaskedAfter (bind_narrowed o paths.socket mode s)
  unfolding bind_narrowed
  bind_narrowed-Masked s h = go (o.bind paths.socket narrow).0
    where
      narrow : o.System
      narrow = (o.umask (mask_of o mode) s).1

      restored : o.System
      restored = (o.umask (o.umask (mask_of o mode) s).0 (o.bind paths.socket narrow).1).1

      back : o.mask restored ≡ umask
      back =
          laws.umask_new (o.umask (mask_of o mode) s).0 (o.bind paths.socket narrow).1
          ∙ laws.umask_old (mask_of o mode) s
          ∙ h

      go :
          (r : Result o.Error o.Listener)
          → Ends MaskedAfter MaskedAfter
              (elim r as (λ r. Result (StartError o.Error) o.Listener × o.System) [
                | ok listener ↦ (ok listener, restored)
                | err e ↦ (err (bind_failed e), restored)
              ])
      go (ok listener) = back
      go (err e) = back

  guarded-Masked :
      {A : Type 0} (m : OnOs o A) (s : o.System)
      → Ends ServingAfter MaskedAfter (m s)
      → Ends ServingAfter MaskedAfter (guarded o paths m s)
  unfolding guarded remove_files
  guarded-Masked {A = A} m s h = go (m s) h
    where
      go :
          (x : Result (StartError o.Error) A × o.System)
          → Ends ServingAfter MaskedAfter x
          → Ends ServingAfter MaskedAfter
              (elim (x.0) as (λ r. Result (StartError o.Error) A × o.System) [
                | ok a ↦ (ok a, x.1)
                | err e ↦ (err e, remove_files o paths (x.1))
              ])
      go (ok a, t) h = h
      go (err e, t) h =
          laws.by_remove paths.pid (o.remove_file paths.socket t)
          ∙ laws.by_remove paths.socket t
          ∙ h

  -- However a start ends, the umask of the process is what it was before; where it succeeds, the
  -- socket has exactly the mode asked for.
  pub take_over-Serving :
      {P D : Type 0} (ping : o.System → Result P D) (parent : Option Text) (s : o.System)
      → o.mask s ≡ umask
      → Ends ServingAfter MaskedAfter (take_over o ping parent paths mode s)
  take_over-Serving ping parent s h =
      take_over-Ends o paths mode MaskedAfter ping parent Masked Masked Serving s
        (ensure-Masked parent s h) claim-Masked (cleanup_stale-Masked ping)
        (λ file t h. guarded-Masked (serve_from o paths mode file) t (
          serve_from-Ends o paths mode MaskedAfter Masked Serving file t (bind_narrowed-Masked t h)
            (λ t h e. (laws.by_set paths.socket mode t ∙ h, laws.set_mode paths.socket mode t e))
            (λ t h e. laws.by_set paths.socket mode t ∙ h)
            (λ t h. (laws.by_write file t ∙ h.0, laws.write_mode paths.socket file t ∙ h.1))
            (λ t h e. laws.by_write file t ∙ h.0)))
