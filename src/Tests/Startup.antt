-- ===== src/Tests/Startup.antt =====
-- Tests of taking over the agent's files, and of the choice between the agent and the direct link.
use btwattch2_rs.Prelude.{
  ℕ, ◌≡◌, ◌↔◌, if◌then◌else◌, refl, Bool, true, false, [], Option, none, some, Result, ok, err,
}
use btwattch2_rs.Prelude.Text.{Text, codes, eq_text, eq_text_iff}
use btwattch2_rs.Connection.Link.Post.{Ends}
use btwattch2_rs.Agent.Client.{DaemonInfo}
use btwattch2_rs.Agent.Handler.{AgentInfo, handle_client}
use btwattch2_rs.Agent.Protocol.{Request, shutdown}
use btwattch2_rs.Agent.Serve.{Tasks, connected, run}
use btwattch2_rs.Agent.Status.{second}
use btwattch2_rs.Main.Command.{run_agent_command}
use btwattch2_rs.Main.Command.Stop.{lines_of, stopped, stop_iff_told}
use btwattch2_rs.Agent.Paths.{AgentPaths, Os, locked, would_block}
use btwattch2_rs.Agent.Startup.{take_over, already_running}
use btwattch2_rs.Agent.Startup.Permissions.{SetsModes, ServingAfter, MaskedAfter, take_over-Serving}
use btwattch2_rs.Agent.Startup.Refused.{DeletesNothing, take_over_refused}
use btwattch2_rs.Cli.Options.{
  Cli, info, power, stop, explicit_addr, validate_mode_prefix, scan_mode, mode, effective_log_level,
}
use btwattch2_rs.Cli.Names.{validate_prefix}
use btwattch2_rs.Cli.Settings.{default_settings, ConnectionConfig}
use btwattch2_rs.Main.{run_cli}
use btwattch2_rs.Main.Routing.{noted, took_daemon, run_cli_same_device}
use btwattch2_rs.Tests.World.{calendar, new_year, texts, whole_numbers}

-- The socket, its mode, the umask, and whether the pid file is locked by another process.
record Machine : Type 0 where
  socket : Bool
  mode : ℕ
  umask : ℕ
  taken : Bool

abbrev machine : Os
machine = record {
  System = Machine;
  Error = ℕ;
  File = ℕ;
  Listener = ℕ;
  exists = λ p s. s.socket;
  permissions = λ p s. s.mode;
  mask = λ s. s.umask;
  create_dir = λ d m s. (ok tt, s);
  open_file = λ p s. (ok 3, s);
  flock = λ f s. (if s.taken then would_block else locked, s);
  read_to_string = λ p s. some (codes "42\n");
  remove_file = λ p s. record s { socket = false };
  umask = λ m s. (s.umask, record s { umask = m });
  bind = λ p s. (ok 4, record s { socket = true; mode = s.umask });
  set_permissions = λ p m s. (ok tt, record s { mode = m });
  write_pid = λ f s. (ok tt, s);
}

machine-DeletesNothing : DeletesNothing machine
machine-DeletesNothing = record {
  by_create_dir = λ p d m s h. h;
  by_open = λ p d s h. h;
  by_flock = λ p f s h. h;
}

machine-SetsModes : SetsModes machine
machine-SetsModes = record {
  umask_old = λ m s. refl;
  umask_new = λ m s. refl;
  by_create_dir = λ d m s. refl;
  by_open = λ p s. refl;
  by_flock = λ f s. refl;
  by_remove = λ p s. refl;
  by_set = λ p m s. refl;
  by_write = λ f s. refl;
  set_mode = λ p m s h. refl;
  write_mode = λ p f s. refl;
}

abbrev files : AgentPaths
files = record { socket = codes "a.sock"; pid = codes "a.pid" }

abbrev busy : Machine
busy = record { socket = true; mode = 384; umask = 18; taken = true }

abbrev idle : Machine
idle = record { socket = false; mode = 0; umask = 18; taken = false }

abbrev silent : Machine → Result ℕ ℕ
silent s = err 0

take_over_refused_example : machine.exists files.socket busy ≡ true
unfolding take_over
take_over_refused_example =
    take_over_refused machine machine-DeletesNothing files silent none 384
      (already_running (some 42)) busy busy refl refl refl

take_over-Serving_example :
    Ends
      (ServingAfter machine machine-SetsModes files 384 18)
      (MaskedAfter machine machine-SetsModes files 384 18)
      (take_over machine silent none files 384 idle)
take_over-Serving_example =
    take_over-Serving machine machine-SetsModes files 384 18 silent none idle refl

abbrev tasks : Tasks machine ℕ ℕ ℕ
tasks = record {
  bind_metrics = λ addr s. (ok tt, s);
  connect = λ s. (connected 7, s);
  serve = λ always stats conn s. (if always then err 1 else ok tt, s);
}

-- The files are taken over, and removed at the end.
test_run :
    (run machine ℕ ℕ ℕ tasks silent none files 384 second (some (codes "[::1]:1")) 0 idle).1
    ≡ record { socket = false; mode = 384; umask = 18; taken = false }
unfolding run take_over
test_run = refl

abbrev pub at_x : DaemonInfo ℕ Text
at_x = record { addr = some (codes "x"); status = none }

abbrev pub decode : Text → Option Request
decode line = if eq_text line (codes "stop") then some shutdown else none

abbrev pub no_info : AgentInfo ℕ
no_info = record {
  addr = codes "x";
  status = record {
    uptime_seconds = 0;
    interval_seconds = 1;
    connected = true;
    samples = 0;
    last_sample_age_seconds = none;
    reconnects = 0;
    clients = 0;
    metrics_listen = none;
  };
}

abbrev start_fails : ConnectionConfig texts → Result ℕ (Unit {0})
start_fails config = err 0

stop_iff_told_example :
    let exchange = handle_client {E = ℕ} decode (some (codes "stop")) 1 false true no_info [] in
    (run_agent_command texts whole_numbers
        (λ a. a)
        start_fails
        stop
        (default_settings texts)
        (some at_x)
        (lines_of texts whole_numbers (λ a. a) start_fails exchange.written)
        (codes "a.sock")
        none
      ≡ stopped texts whole_numbers (λ a. a) start_fails)
    ↔ (exchange.notified ≡ true)
stop_iff_told_example =
    stop_iff_told texts whole_numbers (λ a. a) start_fails decode (codes "stop") 1 false true
      no_info [] at_x (default_settings texts) (codes "a.sock") none refl

abbrev pub power_on : Cli texts calendar
power_on = record {
  connect = record { index = none; addr = some (codes "x"); interval = none };
  config = none;
  device = none;
  socket = none;
  pid_file = none;
  on = true;
  off = false;
  set_rtc = none;
  set_rtc_now = false;
  test_led = false;
  metric_name = none;
  scan = false;
  scan_all = false;
  get_rtc = false;
  format = none;
  count = none;
  duration = none;
  debug = false;
  quiet = false;
  log_level = none;
  command = none;
}

test_reaches_agent :
    run_cli texts calendar eq_text
      (noted texts calendar)
      new_year
      (ok (default_settings texts))
      (some at_x)
      power_on
    ≡ took_daemon [] (power true) info
unfolding run_cli explicit_addr validate_mode_prefix validate_prefix scan_mode mode
    effective_log_level
test_reaches_agent = refl

run_cli_same_device_example : codes "x" ≡ codes "x"
unfolding run_cli explicit_addr validate_mode_prefix validate_prefix scan_mode
run_cli_same_device_example =
    run_cli_same_device texts calendar eq_text new_year (ok (default_settings texts)) at_x power_on
      (codes "x") (codes "x") eq_text_iff refl refl tt
