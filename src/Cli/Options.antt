-- ===== src/Cli/Options.antt =====
-- src/cli.rs, `Cli`: what an invocation asks for, and the settings that it runs with. The argument
-- parser fills the record; the file system and the environment are arguments.
pub mod Sources
pub mod Times
pub mod Places
use btwattch2_rs.Prelude.{
  ℕ, if◌then◌else◌, Bool, true, false, not, ◌||◌, List, [], ◌∷◌, Option, none, some, is_some,
  and_then, or_else, unwrap_or, Result, ok, err, ◌>>=◌, ok_or,
}
use btwattch2_rs.Prelude.Text.{Text, codes}
use btwattch2_rs.Chrono.{Chrono}
use btwattch2_rs.Payload.{rtc}
use btwattch2_rs.Connection.Measure.{local_datetime}
use btwattch2_rs.Cli.Foreign.{Foreign}
use btwattch2_rs.Cli.Names.{OutputFormat, plain, mackerel, validate_prefix}
use btwattch2_rs.Cli.Settings.{ConnectOpts, Settings, default_settings, or}
use btwattch2_rs.Cli.Config.{ConfigError, FileConfig, parse_config, profile}

pub data LogLevel : Type 0 where
  off info : LogLevel

pub data ScanMode : Type 0 where
  watt_checkers everything : ScanMode

-- `AgentAction`, the only subcommand's.
pub data AgentAction (f : Foreign) : Type 0 where
  start : Option f.SocketAddr → AgentAction f
  stop status : AgentAction f

pub data Mode (c : Chrono) : Type 0 where
  set_rtc : c.DateTime → Mode c
  power : Bool → Mode c
  metric : Text → Mode c
  get_rtc test_led monitor : Mode c

pub record Cli (f : Foreign) (c : Chrono) : Type 0 where
  pub connect : ConnectOpts f
  pub config : Option Text
  pub device : Option Text
  pub socket : Option Text
  pub pid_file : Option Text
  pub on : Bool
  pub off : Bool
  pub set_rtc : Option c.DateTime
  pub set_rtc_now : Bool
  pub test_led : Bool
  pub metric_name : Option Text
  pub scan : Bool
  pub scan_all : Bool
  pub get_rtc : Bool
  pub format : Option OutputFormat
  pub count : Option ℕ
  pub duration : Option ℕ
  pub debug : Bool
  pub quiet : Bool
  pub log_level : Option LogLevel
  pub command : Option (AgentAction f)

pub data SettingsFailure : Type 0 where
  config_not_found config_unreadable : Text → SettingsFailure
  no_config_for_device : Text → SettingsFailure
  bad_config : ConfigError → SettingsFailure

-- `exists` and `read_to_string`.
pub record Files : Type 0 where
  pub exists : Text → Bool
  pub read : Text → Option Text

abbrev is_metric : {c : Chrono} → Mode c → Bool
is_metric (metric name) = true
is_metric _ = false

module _ (f : Foreign) (c : Chrono) where
  unfoldable pub is_agent_start : Cli f c → Bool
  is_agent_start cli = elim cli.command [
    | some (start listen) ↦ true
    | some stop ↦ false
    | some status ↦ false
    | none ↦ false
  ]

  unfoldable pub scan_mode : Cli f c → Option ScanMode
  scan_mode cli =
      if cli.scan then some watt_checkers else if cli.scan_all then some everything else none

  unfoldable pub explicit_addr : Cli f c → Option f.BdAddr
  explicit_addr cli = cli.connect.addr

  mode_of_rest : Cli f c → Mode c
  mode_of_rest cli =
      if cli.on
      then power true
      else if cli.off
      then power false
      else if cli.test_led
      then test_led
      else (elim cli.metric_name [ some name ↦ metric name | none ↦ monitor ])

  -- `now` is the time of the system.
  unfoldable pub mode : c.DateTime → Cli f c → Mode c
  unfolding mode_of_rest
  mode now cli =
      if cli.get_rtc
      then get_rtc
      else if cli.set_rtc_now
      then set_rtc now
      else (elim cli.set_rtc [ some time ↦ set_rtc time | none ↦ mode_of_rest cli ])

  -- `Mode::prefix`.
  unfoldable pub prefix_of : Mode c → Text
  prefix_of (metric name) = name
  prefix_of _ = codes "btwattch2"

  -- How many measurements a run takes; `none` streams until it is stopped.
  unfoldable pub sample_count : Mode c → Cli f c → Option ℕ
  sample_count m cli =
      if is_metric m
      then (elim cli.count [
        | some n ↦ some n
        | none ↦ if is_some cli.duration then none else some 1
      ])
      else cli.count

  unfoldable pub output_format : Cli f c → OutputFormat
  output_format cli = unwrap_or cli.format (if is_some cli.metric_name then mackerel else plain)

  unfoldable pub validate_mode_prefix : Mode c → Cli f c → Result ℕ (Unit {0})
  unfolding output_format prefix_of
  validate_mode_prefix m cli = validate_prefix (output_format cli) (prefix_of m)

  unfoldable pub effective_log_level : Bool → Cli f c → LogLevel
  effective_log_level is_metric cli = elim cli.log_level [
    | some level ↦ level
    | none ↦ if cli.quiet then off else if cli.debug || not is_metric then info else off
  ]

  metrics_listen_flag : Cli f c → Option f.SocketAddr
  metrics_listen_flag cli = elim cli.command [
    | some (start listen) ↦ listen
    | some stop ↦ none
    | some status ↦ none
    | none ↦ none
  ]

  read_config : Files → Text → Result SettingsFailure (Option (FileConfig f))
  read_config files path = do
    text ← ok_or (files.read path) (config_unreadable path)
    elim (parse_config f text path) [ ok config ↦ ok (some config) | err e ↦ err (bad_config e) ]

  -- The file asked for must be there; the one at the default path may be missing.
  load_config : Files → Option Text → Option Text → Result SettingsFailure (Option (FileConfig f))
  unfolding read_config
  load_config files default_path (some path) =
      if files.exists path then read_config files path else err (config_not_found path)
  load_config files none none = ok none
  load_config files (some path) none = if files.exists path then read_config files path else ok none

  select_profile : Option (FileConfig f) → Option Text → Result SettingsFailure (Settings f)
  select_profile (some file) device = elim (profile f device file) [
    | ok s ↦ ok s
    | err e ↦ err (bad_config e)
  ]
  select_profile none none = ok (default_settings f)
  select_profile none (some device) = err (no_config_for_device device)

  -- The command line's own; it has no flag for the socket's mode.
  cli_settings : Cli f c → Settings f
  unfolding metrics_listen_flag
  cli_settings cli = record {
    connect = cli.connect;
    socket = cli.socket;
    socket_mode = none;
    metrics_listen = metrics_listen_flag cli;
  }

  unfoldable pub settings : Files → Option Text → Cli f c → Result SettingsFailure (Settings f)
  unfolding load_config select_profile cli_settings
  settings files default_path cli = do
    file ← load_config files default_path cli.config
    found ← select_profile file cli.device
    ok (or f (cli_settings cli) found)

pub data TimeError : Type 0 where
  unrecognized_format year_out_of_range : TimeError

abbrev time_formats : List Text
time_formats =
    codes "%Y-%m-%d %H:%M:%S"
    ∷ codes "%Y-%m-%dT%H:%M:%S"
    ∷ codes "%Y/%m/%d %H:%M:%S"
    ∷ codes "%Y-%m-%d %H:%M"
    ∷ codes "%Y/%m/%d %H:%M"
    ∷ []

module _ (c : Chrono) (parse_from_str : Text → Text → Option c.NaiveDateTime) where
  first_format : Text → List Text → Option c.NaiveDateTime
  first_format s [] = none
  first_format s (format ∷ formats) = or_else (parse_from_str s format) (first_format s formats)

  recognize : Text → Option c.DateTime
  unfolding first_format
  recognize s =
      or_else (c.parse_from_rfc3339 s) (and_then (first_format s time_formats) (local_datetime c))

  -- A time whose frame cannot be built is refused here.
  unfoldable pub parse_time : Text → Result TimeError c.DateTime
  unfolding recognize
  parse_time s = do
    time ← ok_or (recognize s) unrecognized_format
    elim (rtc c time) [ some frame ↦ ok time | none ↦ err year_out_of_range ]
