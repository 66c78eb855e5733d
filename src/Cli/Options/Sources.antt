-- ===== src/Cli/Options/Sources.antt =====
-- Where the settings of an invocation come from.
use btwattch2_rs.Prelude.{◌≡◌, refl, arith, ap, true, Option, none, some, or_else, ok}
use btwattch2_rs.Prelude.Text.{Text}
use btwattch2_rs.Chrono.{Chrono}
use btwattch2_rs.Cli.Foreign.{Foreign}
use btwattch2_rs.Cli.Settings.{Settings, or, or_connect}
use btwattch2_rs.Cli.Config.{FileConfig, lookup, parse_config, profile}
use btwattch2_rs.Cli.Options.{
  Cli, Files, AgentAction, start, stop, status, metrics_listen_flag, load_config, read_config,
  select_profile, cli_settings, settings,
}

module _ (f : Foreign) (c : Chrono) where
  read_config-ok :
      (files : Files) (path text : Text) (file : FileConfig f)
      → files.read path ≡ some text
      → parse_config f text path ≡ ok file
      → read_config f c files path ≡ ok (some file)
  unfolding read_config
  read_config-ok files path text file er ec = ground arith

  load_config-ok :
      (files : Files) (default_path : Option Text) (path text : Text) (file : FileConfig f)
      → files.exists path ≡ true
      → files.read path ≡ some text
      → parse_config f text path ≡ ok file
      → load_config f c files default_path (some path) ≡ ok (some file)
  unfolding load_config
  load_config-ok files default_path path text file ee er ec =
      rw ee (read_config-ok files path text file er ec)

  select_profile-ok :
      (name : Text) (file : FileConfig f) (device : Settings f)
      → lookup name file.devices ≡ some device
      → select_profile f c (some file) (some name) ≡ ok (or f device file.defaults)
  unfolding select_profile profile
  select_profile-ok name file device el = ground arith

  -- What `agent start --metrics-listen` asks for.
  abbrev pub asked_listen : Option (AgentAction f) → Option f.SocketAddr
  asked_listen (some (start listen)) = listen
  asked_listen _ = none

  -- For a device that the command line names in a file that was read: each value that the command
  -- line can give is taken from it if it does, then from the device's section, then from the
  -- file's defaults, and so is the listener of `agent start --metrics-listen`; the socket's mode
  -- comes from the file alone.
  pub settings_precedence :
      (files : Files) (default_path : Option Text) (cli : Cli f c) (path text name : Text)
      (file : FileConfig f) (device : Settings f)
      → cli.config ≡ some path
      → files.exists path ≡ true
      → files.read path ≡ some text
      → parse_config f text path ≡ ok file
      → cli.device ≡ some name
      → lookup name file.devices ≡ some device
      → (s : Settings f) × (settings f c files default_path cli ≡ ok s)
        × (s.connect.addr
            ≡ or_else cli.connect.addr (or_else device.connect.addr file.defaults.connect.addr))
        × (s.connect.index
            ≡ or_else cli.connect.index (or_else device.connect.index file.defaults.connect.index))
        × (s.connect.interval
            ≡ or_else cli.connect.interval
                (or_else device.connect.interval file.defaults.connect.interval))
        × (s.socket ≡ or_else cli.socket (or_else device.socket file.defaults.socket))
        × (s.socket_mode ≡ or_else device.socket_mode file.defaults.socket_mode)
        × (s.metrics_listen
            ≡ or_else
                (asked_listen cli.command)
                (or_else device.metrics_listen file.defaults.metrics_listen))
  unfolding settings load_config read_config select_profile cli_settings profile or or_connect
      metrics_listen_flag
  settings_precedence files default_path cli path text name file device ep ee er ec ed el =
      let loaded = load_config-ok files default_path path text file ee er ec in
      let selected = select_profile-ok name file device el in
      let found : settings f c files default_path cli
          ≡ ok (or f (cli_settings f c cli) (or f device file.defaults)) =
        ground (arith, ep, ed, loaded, selected) in
      (
        or f (cli_settings f c cli) (or f device file.defaults),
        found,
        refl,
        refl,
        refl,
        refl,
        refl,
        ap (λ o. or_else o (or_else device.metrics_listen file.defaults.metrics_listen))
            (asked cli.command),
      )
    where
      asked :
          (o : Option (AgentAction f))
          → elim o [
            | some (start listen) ↦ listen
            | some stop ↦ none
            | some status ↦ none
            | none ↦ none
          ]
            ≡ asked_listen o
      asked none = refl
      asked (some (start listen)) = refl
      asked (some stop) = refl
      asked (some status) = refl
