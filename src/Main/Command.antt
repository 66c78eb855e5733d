-- ===== src/Main/Command.antt =====
-- src/main.rs, `run_agent_command`: starting, stopping and asking an agent. Running it is an
-- argument, and so are the answers on its socket.
pub mod Stop
use btwattch2_rs.Prelude.{
  ℕ, Bool, true, false, List, [], ◌∷◌, ◌++◌, Option, none, some, Result, ok, err,
}
use btwattch2_rs.Prelude.Text.{Text, codes}
use btwattch2_rs.Float.{Float}
use btwattch2_rs.Cli.Foreign.{Foreign}
use btwattch2_rs.Cli.Options.{AgentAction, start, stop, status}
use btwattch2_rs.Cli.Settings.{Settings, ConnectionConfig, SettingsError, connection_config}
use btwattch2_rs.Agent.Client.{ClientError, DaemonInfo, send_shutdown}
use btwattch2_rs.Agent.Protocol.{Response}
use btwattch2_rs.Main.Report.{print_daemon}
use btwattch2_rs.Output.Printer.{Line, out, diagnostic}

pub data CommandError (E R : Type 0) : Type 0 where
  bad_settings : SettingsError → CommandError E R
  run_failed : R → CommandError E R
  not_stopped : ClientError E → CommandError E R

module _ (f : Foreign) (fl : Float) (show : f.BdAddr → Text) where
  report_agent : Option (DaemonInfo fl.F64 f.BdAddr) → Text → Option ℕ → List Line
  report_agent (some daemon) socket pid = print_daemon fl show daemon socket pid
  report_agent none socket pid = out (codes "Agent is not running (" ++ socket ++ codes ")") ∷ []

  module _ {E R : Type 0} (run : ConnectionConfig f → Result R (Unit {0})) where
    start_agent : Settings f → Result (CommandError E R) (Unit {0}) × List Line
    start_agent settings = elim (connection_config f settings) [
      | err e ↦ (err (bad_settings e), [])
      | ok config ↦ (elim (run config) [ ok u ↦ (ok u, []) | err e ↦ (err (run_failed e), []) ])
    ]

    -- The answer to the shutdown request, if a probe found an agent.
    stop_agent :
        Option (DaemonInfo fl.F64 f.BdAddr)
        → List (Option (Response fl.F64 E))
        → Result (CommandError E R) (Unit {0}) × List Line
    stop_agent none lines = (ok tt, diagnostic (codes "Agent is not running") ∷ [])
    stop_agent (some daemon) lines = elim (send_shutdown lines) [
      | ok u ↦ (ok tt, diagnostic (codes "Agent stopped") ∷ [])
      | err e ↦ (err (not_stopped e), [])
    ]

    unfoldable pub run_agent_command :
        AgentAction f
        → Settings f
        → Option (DaemonInfo fl.F64 f.BdAddr)
        → List (Option (Response fl.F64 E))
        → Text
        → Option ℕ
        → Result (CommandError E R) (Unit {0}) × List Line
    unfolding start_agent stop_agent report_agent
    run_agent_command (start listen) settings probe lines socket pid = start_agent settings
    run_agent_command stop settings probe lines socket pid = stop_agent probe lines
    run_agent_command status settings probe lines socket pid =
        (ok tt, report_agent probe socket pid)
