-- ===== src/Main/Program.antt =====
-- src/main.rs, `run_cli` with the ways that it has: an invocation from its settings to what it
-- prints.
use btwattch2_rs.Prelude.{
  ℕ, Bool, true, false, List, [], ◌++◌, map, Option, none, some, Result, ok, err,
}
use btwattch2_rs.Prelude.Text.{Text, codes}
use btwattch2_rs.Chrono.{Chrono}
use btwattch2_rs.Float.{Float}
use btwattch2_rs.Cli.Foreign.{Foreign}
use btwattch2_rs.Cli.Options.{Cli, Mode, LogLevel, info, off, ScanMode, SettingsFailure}
use btwattch2_rs.Cli.Settings.{Settings, ConnectionConfig}
use btwattch2_rs.Connection.Ble.{Ble}
use btwattch2_rs.Connection.Direct.{DirectError}
use btwattch2_rs.Connection.Radio.{Radio}
use btwattch2_rs.Connection.Scan.{ScanError, open_device, scan}
use btwattch2_rs.Connection.Subscribe.{Turn}
use btwattch2_rs.Agent.Client.{DaemonInfo}
use btwattch2_rs.Agent.Protocol.{Request, shutdown, Response}
use btwattch2_rs.Main.{RunError, Warning, interval_ignored, index_ignored, run_cli}
use btwattch2_rs.Main.Command.{CommandError, run_agent_command}
use btwattch2_rs.Main.Report.{print_scan}
use btwattch2_rs.Main.Session.{SessionError, start_session, run_via_daemon}
use btwattch2_rs.Main.Session.Direct.{Fate, direct_session}
use btwattch2_rs.Output.Printer.{Line, diagnostic, JsonEncoder}

pub data ProgramError (E R H B : Type 0) : Type 0 where
  run_failed : RunError → ProgramError E R H B
  command_failed : CommandError E R → ProgramError E R H B
  session_failed : SessionError E → ProgramError E R H B
  scan_failed : ScanError H → ProgramError E R H B
  direct_failed : DirectError B → ProgramError E R H B
  -- It dies of a signal, and returns nothing.
  killed : ProgramError E R H B

-- What an invocation meets: the adapters and a device's link, the agent on the socket, and time.
pub record Surroundings (f : Foreign) (fl : Float) (c : Chrono) (r : Radio) (b : Ble) (E R : Type 0)
    : Type 0 where
  pub host : r.Host
  -- The device that a scan or a lookup gave, as it is connected to.
  pub peripheral : r.Device → b.Peripheral
  pub bd_addr : f.BdAddr → r.BdAddr
  pub probe : Option (DaemonInfo fl.F64 f.BdAddr)
  -- The lines that answer a request on the socket.
  pub agent : Request → List (Option (Response fl.F64 E))
  -- Running an agent in this process.
  pub serve : ConnectionConfig f → Result R (Unit {0})
  pub socket : Text
  pub pid : Option ℕ
  pub now : c.DateTime
  -- The instant of each sample, and whether the deadline comes while a run waits.
  pub clock : ℕ → ℕ
  pub expires : Bool
  -- The rounds of a scan, by its window; those of a lookup and of a wait; a direct run's turns.
  pub scan_rounds : ℕ → ℕ
  pub find_rounds : ℕ
  pub wait_rounds : ℕ
  pub turns : List Turn
  -- How a direct session ends, of itself or of a signal.
  pub fate : Fate b

abbrev flag_of : Warning → Text
flag_of interval_ignored = codes "--interval"
flag_of index_ignored = codes "--index"

warning_line : Warning → Line
warning_line w = diagnostic (
    codes "[WARN] "
    ++ flag_of w
    ++ codes " is ignored while the agent is running; the "
    ++ codes "value it was started with applies")

abbrev is_info : LogLevel → Bool
is_info info = true
is_info off = false

module _ (f : Foreign) (fl : Float) (c : Chrono) (to_json : JsonEncoder fl c) (r : Radio) (b : Ble)
    (eq_addr : f.BdAddr → f.BdAddr → Bool) (show : f.BdAddr → Text) (show_scanned : r.BdAddr → Text)
    {E R : Type 0} (w : Surroundings f fl c r b E R) where
  abbrev pub Program : Type 0
  Program = Result (ProgramError E R r.Error b.Error) (Unit {0}) × List Line

  told {ℓ} :
      {X : Type ℓ}
      → (X → ProgramError E R r.Error b.Error)
      → Result X (Unit {0}) × List Line
      → Program
  told g (ok u, lines) = (ok u, lines)
  told g (err e, lines) = (err (g e), lines)

  -- What a direct session tells, if it was not killed.
  told_direct : Option (Result (DirectError b.Error) (Unit {0})) × List Line → Program
  unfolding told
  told_direct (some x, lines) = told direct_failed (x, lines)
  told_direct (none, lines) = (err killed, lines)

  scan_way : ℕ → ℕ → ScanMode → LogLevel → Program
  scan_way index window mode level = elim (scan r index (w.scan_rounds window) w.host).0 [
    | ok devices ↦ (ok tt, print_scan show_scanned (is_info level) devices mode)
    | err e ↦ (err (scan_failed e), [])
  ]

  daemon_way : Cli f c → List Warning → Mode c → LogLevel → Program
  unfolding told warning_line
  daemon_way cli warnings m level =
      let (result, lines) = told session_failed (
        run_via_daemon fl c to_json w.clock E w.agent w.now w.expires (is_info level)
          (start_session fl c to_json w.clock f cli m level) m) in
      (result, map warning_line warnings ++ lines)

  direct_way : Cli f c → ConnectionConfig f → Mode c → LogLevel → Program
  unfolding told_direct
  direct_way cli config m level =
      elim (open_device r config.index (w.bd_addr config.addr) w.find_rounds w.host).0 [
        | err e ↦ (err (scan_failed e), [])
        | ok dev ↦
            told_direct
              (direct_session fl c to_json w.clock b w.wait_rounds w.turns w.now w.fate
                (start_session fl c to_json w.clock f cli m level) m (w.peripheral dev)).0
      ]

  unfoldable pub program : Result SettingsFailure (Settings f) → Cli f c → Program
  unfolding told scan_way daemon_way direct_way
  program settings cli =
      run_cli f c eq_addr
        (record {
          agent_command = λ action found. told command_failed (
              run_agent_command f fl show w.serve action found w.probe (w.agent shutdown) w.socket
                w.pid);
          scan = scan_way;
          via_daemon = daemon_way cli;
          direct = direct_way cli;
          failed = λ e. (err (run_failed e), []);
        })
        w.now settings w.probe cli
