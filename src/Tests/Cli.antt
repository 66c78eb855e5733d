-- ===== src/Tests/Cli.antt =====
-- Tests of the command line: values, names, settings and the config file.
use btwattch2_rs.Prelude.{
  ℕ, ◌*◌, ◌≤◌, ◌<◌, ◌≡◌, ◌≢◌, ◌↔◌, refl, true, false, [], ◌∷◌, none, some, ok,
}
use btwattch2_rs.Prelude.Int.{pos}
use btwattch2_rs.Prelude.Text.{Text, codes}
use btwattch2_rs.Payload.{rtc}
use btwattch2_rs.Connection.Measure.{local_datetime}
use btwattch2_rs.Agent.Status.{AgentStats, stale_after, second}
use btwattch2_rs.Cli.Values.{parse_interval, display_socket_mode}
use btwattch2_rs.Cli.Values.Ranges.{parse_interval-stale_after}
use btwattch2_rs.Cli.Names.{prometheus, validate_prefix, parse_metric_name}
use btwattch2_rs.Cli.Names.Prometheus.{IsPrometheusName, prometheus_names}
use btwattch2_rs.Cli.Settings.{Settings, default_settings}
use btwattch2_rs.Cli.Config.{FileConfig, parse_config, profile, unquote}
use btwattch2_rs.Cli.Config.Profile.{parse_config-profile}
use btwattch2_rs.Cli.Options.{Cli, Files, start, settings, parse_time}
use btwattch2_rs.Cli.Options.Sources.{settings_precedence}
use btwattch2_rs.Cli.Options.Times.{parse_time-rtc}
use btwattch2_rs.Tests.World.{calendar, new_year, texts}

test_unquote : unquote (codes "\"\"abc\"\"") ≡ codes "\"abc\""
unfolding unquote
test_unquote = refl

test_socket_mode : display_socket_mode 384 ≡ codes "0600"
unfolding display_socket_mode
test_socket_mode = refl

abbrev half_second : AgentStats ℕ
half_second = record {
  started = 0;
  interval = 500_000_000;
  metrics_listen = none;
  connected = false;
  samples = 0;
  reconnects = 0;
  clients = 0;
  latest = none;
}

parse_interval-stale_after_example :
    (0 < 500_000_000)
    × (5 * second ≤ stale_after half_second)
    × (stale_after half_second ≤ 3 * 86400 * second)
unfolding parse_interval
parse_interval-stale_after_example =
    parse_interval-stale_after texts (codes " 500ms") 500_000_000 half_second refl refl

prometheus_names_example :
    ((parse_metric_name (codes "a_b1") ≡ ok (codes "a_b1"))
      × (validate_prefix prometheus (codes "a_b1") ≡ ok tt))
    ↔ IsPrometheusName (codes "a_b1")
prometheus_names_example = prometheus_names (codes "a_b1")

abbrev with_socket : Settings texts
with_socket = record (default_settings texts) { socket = some (codes "/run/x.sock") }

abbrev with_mode : Settings texts
with_mode = record (default_settings texts) { socket_mode = some 432 }

abbrev config_text : Text
config_text =
    codes
      "# two meters\ndefault = \"a\"\n[devices.a]\naddr = x\n[devices.b]\naddr = y\n[devices.a]\nindex = 1\n"

abbrev device_a : Settings texts
device_a = record (default_settings texts) {
  connect = record { index = some 1; addr = some (codes "x"); interval = none };
}

abbrev device_b : Settings texts
device_b = record (default_settings texts) {
  connect = record { index = none; addr = some (codes "y"); interval = none };
}

abbrev two_devices : FileConfig texts
two_devices = record {
  defaults = default_settings texts;
  devices = (codes "a", device_a) ∷ (codes "b", device_b) ∷ [];
  default_device = some (codes "a");
  path = codes "config.toml";
}

test_parse_config : parse_config texts config_text (codes "config.toml") ≡ ok two_devices
unfolding parse_config
test_parse_config = refl

parse_config-profile_example : (s : Settings texts) × (profile texts none two_devices ≡ ok s)
parse_config-profile_example =
    parse_config-profile texts config_text (codes "config.toml") two_devices test_parse_config

abbrev one_file : Files
one_file = record { exists = λ p. true; read = λ p. some config_text }

abbrev for_b : Cli texts calendar
for_b = record {
  connect = record { index = some 7; addr = none; interval = none };
  config = some (codes "config.toml");
  device = some (codes "b");
  socket = none;
  pid_file = none;
  on = false;
  off = false;
  set_rtc = none;
  set_rtc_now = false;
  test_led = false;
  metric_name = none;
  scan = false;
  scan_all = false;
  get_rtc = false;
  format = none;
  count = none;
  duration = none;
  debug = false;
  quiet = false;
  log_level = none;
  command = some (start (some (codes "[::1]:9090")));
}

settings_precedence_example :
    (s : Settings texts) × (settings texts calendar one_file none for_b ≡ ok s)
    × (s.connect.addr ≡ some (codes "y"))
    × (s.connect.index ≡ some 7)
    × (s.connect.interval ≡ none)
    × (s.socket ≡ none)
    × (s.socket_mode ≡ none)
    × (s.metrics_listen ≡ some (codes "[::1]:9090"))
settings_precedence_example =
    settings_precedence texts calendar one_file none for_b (codes "config.toml") config_text
      (codes "b") two_devices device_b refl refl refl test_parse_config refl refl

parse_time-rtc_example :
    (rtc calendar new_year ≢ none) × (y : ℕ) × (pos 2021 ≡ pos y) × (1900 ≤ y) × (y ≤ 2155)
unfolding parse_time rtc local_datetime
parse_time-rtc_example =
    parse_time-rtc calendar (λ s format. some new_year) (codes "2021-01-02 03:04:05") new_year refl
