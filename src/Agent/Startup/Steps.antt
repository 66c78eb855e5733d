-- ===== src/Agent/Startup/Steps.antt =====
-- What holds after a start, from what holds after each of its steps.
use btwattch2_rs.Prelude.{ℕ, ◌≡◌, Option, Result, ok}
use btwattch2_rs.Prelude.Text.{Text}
use btwattch2_rs.Connection.Link.{◌>>=◌, ◌>>◌, lift}
use btwattch2_rs.Connection.Link.Post.{Ends, Ends->>=, Ends-lift}
use btwattch2_rs.Agent.Paths.{AgentPaths, Os}
use btwattch2_rs.Agent.Startup.{
  StartError, set_mode_failed, write_failed, OnOs, claim, cleanup_stale, bind_narrowed, bind_socket,
  ensure_socket_dir, guarded, serve_from, take_over,
}

module _ (o : Os) (paths : AgentPaths) (mode : ℕ) (Q : StartError o.Error → o.System → Type 0) where
  -- A state of the system, whatever the result is.
  abbrev pub Now : (o.System → Type 0) → {A : Type 0} → A → o.System → Type 0
  Now C a s = C s

  -- The last two calls of a start, and the bind before them.
  pub serve_from-Ends :
      (B C : o.System → Type 0) (file : o.File) (s : o.System)
      → Ends (Now B) Q (bind_narrowed o paths.socket mode s)
      → ((t : o.System)
          → B t
          → (o.set_permissions paths.socket mode t).0 ≡ ok tt
          → C (o.set_permissions paths.socket mode t).1)
      → ((t : o.System)
          → B t
          → (e : o.Error) → Q (set_mode_failed e) (o.set_permissions paths.socket mode t).1)
      → ((t : o.System) → C t → C (o.write_pid file t).1)
      → ((t : o.System) → C t → (e : o.Error) → Q (write_failed e) (o.write_pid file t).1)
      → Ends (Now C) Q (serve_from o paths mode file s)
  unfolding serve_from bind_socket
  serve_from-Ends B C file s bound set unset written unwritten =
      Ends->>= (Now C) (Now C) Q (bind_socket o paths.socket mode)
        (λ listener. lift write_failed (o.write_pid file) >>= λ u s. (ok listener, s)) s
        (Ends->>= (Now B) (Now C) Q (bind_narrowed o paths.socket mode)
          (λ listener.
            lift set_mode_failed (o.set_permissions paths.socket mode) >>= λ u s. (ok listener, s))
          s bound
          (λ listener t b.
            Ends->>= (Now C) (Now C) Q (lift set_mode_failed (o.set_permissions paths.socket mode))
              (λ u s. (ok listener, s)) t
              (Ends-lift (Now C) Q set_mode_failed (o.set_permissions paths.socket mode) t
                (λ a e. set t b e) (unset t b))
              (λ a t c. c)))
        (λ listener t c.
          Ends->>= (Now C) (Now C) Q (lift write_failed (o.write_pid file))
            (λ u s. (ok listener, s)) t
            (Ends-lift (Now C) Q write_failed (o.write_pid file) t (λ a e. written t c)
              (unwritten t c))
            (λ a t c. c))

  -- The four steps of a start.
  pub take_over-Ends :
      {P D : Type 0} (ping : o.System → Result P D) (parent : Option Text)
      (B C R : o.System → Type 0) (s : o.System)
      → Ends (Now B) Q (ensure_socket_dir o parent s)
      → ((t : o.System) → B t → Ends (Now B) Q (claim o paths t))
      → ((t : o.System) → B t → Ends (Now C) Q (cleanup_stale o ping paths t))
      → ((file : o.File) (t : o.System)
          → C t
          → Ends (Now R) Q (guarded o paths (serve_from o paths mode file) t))
      → Ends (Now R) Q (take_over o ping parent paths mode s)
  unfolding take_over
  take_over-Ends ping parent B C R s made claimed cleaned served =
      let bound : o.File → OnOs o (o.File × o.Listener) = λ file.
        guarded o paths (serve_from o paths mode file) >>= λ listener s. (ok (file, listener), s) in
      let opened : OnOs o (o.File × o.Listener) =
        claim o paths >>= λ file. cleanup_stale o ping paths >> bound file in
      Ends->>= (Now B) (Now R) Q (ensure_socket_dir o parent) (λ u. opened) s made
        (λ u t b.
          Ends->>= (Now B) (Now R) Q (claim o paths)
            (λ file. cleanup_stale o ping paths >> bound file) t (claimed t b)
            (λ file t b.
              Ends->>= (Now C) (Now R) Q (cleanup_stale o ping paths) (λ u. bound file) t
                (cleaned t b)
                (λ u t c.
                  Ends->>= (Now R) (Now R) Q (guarded o paths (serve_from o paths mode file))
                    (λ listener s. (ok (file, listener), s)) t (served file t c)
                    (λ listener t r. r))))
