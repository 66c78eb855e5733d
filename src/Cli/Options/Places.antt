-- ===== src/Cli/Options/Places.antt =====
-- src/cli.rs, `agent_paths` and `default_config_path`: where the files are.
use btwattch2_rs.Prelude.{
  ℕ, ◌≡◌, ◌≢◌, ◌↔◌, sym, ap, ◌∙◌, [], ◌∷◌, ◌++◌, Option, none, some, or_else, append_assoc,
}
use btwattch2_rs.Prelude.Text.{Text, codes}
use btwattch2_rs.Prelude.FilePath.{join}
use btwattch2_rs.Prelude.FilePath.Extension.{IsExtension, with_extension_lem}
use mathlib.Core.Option
use mathlib.Core.List.{append_cancel_left}
use btwattch2_rs.Chrono.{Chrono}
use btwattch2_rs.Agent.Paths.{AgentPaths, paths_from_socket, default_paths}
use btwattch2_rs.Cli.Foreign.{Foreign}
use btwattch2_rs.Cli.Settings.{Settings}
use btwattch2_rs.Cli.Options.{Cli}

-- `$XDG_CONFIG_HOME`, else `.config` in the home directory.
unfoldable pub default_config_path : (Text → Option Text) → Option Text
default_config_path env =
    Option.map (λ base. join (join base (codes "btwattch2")) (codes "config.toml"))
      (or_else (env (codes "XDG_CONFIG_HOME"))
        (Option.map (λ home. join home (codes ".config")) (env (codes "HOME"))))

module _ (f : Foreign) (c : Chrono) (env : Text → Option Text) where
  socket_paths : Option Text → AgentPaths
  socket_paths (some socket) = paths_from_socket socket
  socket_paths none = default_paths env

  with_pid_file : Option Text → AgentPaths → AgentPaths
  with_pid_file (some pid) paths = record paths { pid = pid }
  with_pid_file none paths = paths

  unfoldable pub agent_paths : Cli f c → Settings f → AgentPaths
  unfolding socket_paths with_pid_file paths_from_socket default_paths
  agent_paths cli settings = with_pid_file cli.pid_file (socket_paths settings.socket)

  -- The pid file of a socket whose file name has an extension has the extension `pid` in its place,
  -- where no pid file is given; so it is the socket itself exactly when the socket's is `pid` too.
  pub agent_paths-pid :
      (cli : Cli f c) (settings : Settings f) (base : Text) (last : ℕ) (extension : Text)
      → cli.pid_file ≡ none
      → settings.socket ≡ some (base ++ (last ∷ b'.' ∷ extension))
      → last ≢ b'/'
      → IsExtension extension
      → extension ≢ []
      → let paths = agent_paths cli settings in
        (paths.socket ≡ base ++ (last ∷ b'.' ∷ extension))
        × (paths.pid ≡ (base ++ (last ∷ [])) ++ codes ".pid")
        × ((paths.pid ≡ paths.socket) ↔ (extension ≡ codes "pid"))
  unfolding agent_paths
  agent_paths-pid cli settings base last extension no_pid given k h some_extension = (
    in_place,
    swapped,
    (
      λ e.
          let tails : (last ∷ b'.' ∷ codes "pid") ≡ (last ∷ b'.' ∷ extension) =
            append_cancel_left base _ _ (sym joined ∙ sym swapped ∙ e ∙ in_place) in
          cc,
      λ e. swapped ∙ joined ∙ ap (λ x. base ++ (last ∷ b'.' ∷ x)) (sym e) ∙ sym in_place,
    ),
  )
    where
      socket : Text
      socket = base ++ (last ∷ b'.' ∷ extension)

      chosen : agent_paths cli settings ≡ paths_from_socket socket
      chosen =
          ap (λ o. with_pid_file o (socket_paths settings.socket)) no_pid ∙ ap socket_paths given

      in_place : (agent_paths cli settings).socket ≡ socket
      in_place = ap (λ p. p.socket) chosen

      swapped : (agent_paths cli settings).pid ≡ (base ++ (last ∷ [])) ++ codes ".pid"
      swapped =
          ap (λ p. p.pid) chosen
          ∙ with_extension_lem base last extension (codes "pid") k h some_extension

      joined : (base ++ (last ∷ [])) ++ codes ".pid" ≡ base ++ (last ∷ codes ".pid")
      joined = append_assoc base (last ∷ []) (codes ".pid")
