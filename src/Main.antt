-- ===== src/Main.antt =====
-- src/main.rs: which way an invocation takes. The agent's answer to a probe, and the ways
-- themselves, are arguments.
pub mod Report
pub mod Sigpipe
pub mod Session
pub mod Command
pub mod Program
pub mod Routing
use btwattch2_rs.Prelude.{
  ℕ, if◌then◌else◌, Bool, true, false, List, [], ◌∷◌, ◌++◌, Option, none, some, is_some, unwrap_or,
  Result, ok, err,
}
use btwattch2_rs.Prelude.Text.{Text, codes}
use btwattch2_rs.Chrono.{Chrono}
use btwattch2_rs.Cli.Foreign.{Foreign}
use btwattch2_rs.Cli.Settings.{
  Settings, ConnectionConfig, SettingsError, adapter_index, connection_config,
}
use btwattch2_rs.Cli.Options.{
  Cli, Mode, metric, LogLevel, ScanMode, AgentAction, SettingsFailure, mode, scan_mode,
  explicit_addr, effective_log_level, validate_mode_prefix,
}
use btwattch2_rs.Agent.Client.{DaemonInfo}

abbrev default_scan_window : ℕ
default_scan_window = 10

pub data RunError : Type 0 where
  settings_failed : SettingsFailure → RunError
  connection_failed : SettingsError → RunError
  -- With the character that the format cannot carry.
  bad_prefix : ℕ → RunError
  attached_elsewhere : RunError

-- What a flag is worth warning about.
pub data Warning : Type 0 where
  interval_ignored index_ignored : Warning

abbrev is_metric : {c : Chrono} → Mode c → Bool
is_metric (metric name) = true
is_metric _ = false

-- What each way of running gives.
pub record Ways {ℓ} (f : Foreign) (c : Chrono) (R : Type ℓ) : Type ℓ where
  pub agent_command : AgentAction f → Settings f → R
  -- The adapter and the window in seconds.
  pub scan : ℕ → ℕ → ScanMode → LogLevel → R
  pub via_daemon : List Warning → Mode c → LogLevel → R
  pub direct : ConnectionConfig f → Mode c → LogLevel → R
  pub failed : RunError → R

module _ (f : Foreign) (c : Chrono) (eq_addr : f.BdAddr → f.BdAddr → Bool) where
  -- An agent too old to report its device is let through.
  unfoldable pub ensure_addr_matches :
      {F : Type 0} → Cli f c → DaemonInfo F f.BdAddr → Result RunError (Unit {0})
  ensure_addr_matches cli daemon = elim (explicit_addr f c cli) [
    | some want ↦ (elim daemon.addr [
      | some have ↦ if eq_addr want have then ok tt else err attached_elsewhere
      | none ↦ ok tt
    ])
    | none ↦ ok tt
  ]

  unfoldable pub warn_ignored_flags : Cli f c → List Warning
  warn_ignored_flags cli =
      (if is_some cli.connect.interval then interval_ignored ∷ [] else [])
      ++ (if is_some cli.connect.index then index_ignored ∷ [] else [])

  module _ {ℓ} {R : Type ℓ} (ways : Ways f c R) where
    run_direct : Settings f → Mode c → LogLevel → R
    run_direct settings m level = elim (connection_config f settings) [
      | ok config ↦ ways.direct config m level
      | err e ↦ ways.failed (connection_failed e)
    ]

    run_connected :
        {F : Type 0} → Cli f c → Settings f → Option (DaemonInfo F f.BdAddr) → Mode c → LogLevel → R
    unfolding run_direct ensure_addr_matches warn_ignored_flags
    run_connected cli settings none m level = run_direct settings m level
    run_connected cli settings (some daemon) m level = elim (ensure_addr_matches cli daemon) [
      | ok u ↦ ways.via_daemon (warn_ignored_flags cli) m level
      | err e ↦ ways.failed e
    ]

    run_mode : {F : Type 0} → Cli f c → Settings f → Option (DaemonInfo F f.BdAddr) → Mode c → R
    unfolding run_connected
    run_mode cli settings probe m =
        let level = effective_log_level f c (is_metric m) cli in
        elim (validate_mode_prefix f c m cli) [
          | err bad ↦ ways.failed (bad_prefix bad)
          | ok u ↦ (elim (scan_mode f c cli) [
            | some sm ↦
                ways.scan (adapter_index f settings) (unwrap_or cli.duration default_scan_window) sm
                  level
            | none ↦ run_connected cli settings probe m level
          ])
        ]

    -- `now` is the time of the system, and `probe` what an agent on the socket answers.
    unfoldable pub run_cli :
        {F : Type 0}
        → c.DateTime
        → Result SettingsFailure (Settings f)
        → Option (DaemonInfo F f.BdAddr)
        → Cli f c
        → R
    unfolding run_mode
    run_cli now (err e) probe cli = ways.failed (settings_failed e)
    run_cli now (ok settings) probe cli = elim cli.command [
      | some action ↦ ways.agent_command action settings
      | none ↦ run_mode cli settings probe (mode f c now cli)
    ]
