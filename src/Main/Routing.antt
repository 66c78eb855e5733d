-- ===== src/Main/Routing.antt =====
-- Which invocations reach an agent.
use btwattch2_rs.Prelude.{
  ℕ, ◌≡◌, refl, ◌↔◌, true, Bool, Bool-cases, inl, inr, List, Option, none, some, unwrap_or, Result,
  ok, err,
}
use btwattch2_rs.Chrono.{Chrono}
use btwattch2_rs.Cli.Foreign.{Foreign}
use btwattch2_rs.Cli.Settings.{Settings, ConnectionConfig, adapter_index}
use btwattch2_rs.Cli.Options.{
  Cli, Mode, LogLevel, ScanMode, AgentAction, SettingsFailure, explicit_addr, mode, scan_mode,
  validate_mode_prefix, effective_log_level,
}
use btwattch2_rs.Agent.Client.{DaemonInfo}
use btwattch2_rs.Main.{
  Ways, RunError, Warning, attached_elsewhere, ensure_addr_matches, run_cli, run_mode,
  run_connected, warn_ignored_flags, is_metric, bad_prefix, default_scan_window,
}

-- The way that was taken.
pub data Taken (f : Foreign) (c : Chrono) : Type 0 where
  took_agent_command : AgentAction f → Settings f → Taken f c
  took_scan : ℕ → ℕ → ScanMode → LogLevel → Taken f c
  took_daemon : List Warning → Mode c → LogLevel → Taken f c
  took_direct : ConnectionConfig f → Mode c → LogLevel → Taken f c
  took_failure : RunError → Taken f c

abbrev pub noted : (f : Foreign) (c : Chrono) → Ways f c (Taken f c)
noted f c = record {
  agent_command = took_agent_command;
  scan = took_scan;
  via_daemon = took_daemon;
  direct = took_direct;
  failed = took_failure;
}

module _ (f : Foreign) (c : Chrono) (eq_addr : f.BdAddr → f.BdAddr → Bool) where
  abbrev pub IsDaemon : Taken f c → Type 0
  IsDaemon (took_daemon ws m level) = Unit
  IsDaemon _ = ⊥

  ensure-same :
      {F : Type 0} (cli : Cli f c) (daemon : DaemonInfo F f.BdAddr) (want have : f.BdAddr)
      (u : Unit {0})
      → explicit_addr f c cli ≡ some want
      → daemon.addr ≡ some have
      → ensure_addr_matches f c eq_addr cli daemon ≡ ok u
      → eq_addr want have ≡ true
  unfolding ensure_addr_matches
  ensure-same cli daemon want have u w h e = elim (Bool-cases (eq_addr want have)) [
    | inl k ↦ k
    | inr k ↦ absurd (differ (rw (ensure_addr_matches, w, h, k) at e))
  ]
    where
      differ : err attached_elsewhere ≡ ok u → ⊥
      differ d = absurd (cc)

  run_connected-same :
      {F : Type 0} (cli : Cli f c) (settings : Settings f) (daemon : DaemonInfo F f.BdAddr)
      (m : Mode c) (level : LogLevel) (want have : f.BdAddr)
      → explicit_addr f c cli ≡ some want
      → daemon.addr ≡ some have
      → IsDaemon (run_connected f c eq_addr (noted f c) cli settings (some daemon) m level)
      → eq_addr want have ≡ true
  unfolding run_connected
  run_connected-same cli settings daemon m level want have w h taken =
      go (ensure_addr_matches f c eq_addr cli daemon) refl taken
    where
      go :
          (r : Result RunError (Unit {0}))
          → ensure_addr_matches f c eq_addr cli daemon ≡ r
          → IsDaemon (elim r [
            | ok u ↦ took_daemon (warn_ignored_flags f c eq_addr cli) m level
            | err e ↦ took_failure e
          ])
          → eq_addr want have ≡ true
      go (ok u) e t = ensure-same cli daemon want have u w h e
      go (err x) e t = absurd t

  run_mode-same :
      {F : Type 0} (cli : Cli f c) (settings : Settings f) (daemon : DaemonInfo F f.BdAddr)
      (m : Mode c) (want have : f.BdAddr)
      → explicit_addr f c cli ≡ some want
      → daemon.addr ≡ some have
      → IsDaemon (run_mode f c eq_addr (noted f c) cli settings (some daemon) m)
      → eq_addr want have ≡ true
  unfolding run_mode
  run_mode-same cli settings daemon m want have w h taken =
      checked (validate_mode_prefix f c m cli) taken
    where
      level : LogLevel
      level = effective_log_level f c (is_metric m) cli

      connected : Taken f c
      connected = run_connected f c eq_addr (noted f c) cli settings (some daemon) m level

      scanned :
          (o : Option ScanMode)
          → IsDaemon (elim o [
            | some sm ↦
                took_scan
                  (adapter_index f settings)
                  (unwrap_or cli.duration default_scan_window)
                  sm
                  level
            | none ↦ connected
          ])
          → eq_addr want have ≡ true
      scanned none t = run_connected-same cli settings daemon m level want have w h t
      scanned (some sm) t = absurd t

      checked :
          (r : Result ℕ (Unit {0}))
          → IsDaemon (elim r [
            | err bad ↦ took_failure (bad_prefix bad)
            | ok u ↦ (elim (scan_mode f c cli) [
              | some sm ↦
                  took_scan
                    (adapter_index f settings)
                    (unwrap_or cli.duration default_scan_window)
                    sm
                    level
              | none ↦ connected
            ])
          ])
          → eq_addr want have ≡ true
      checked (ok u) t = scanned (scan_mode f c cli) t
      checked (err bad) t = absurd t

  -- An invocation with an explicit address hands its command or its run to an agent that reports its
  -- device only if that device has this address, equality of addresses being decided: whatever
  -- the settings and the other options are. The `agent` subcommands, which hand over neither and
  -- look at no address, are apart.
  pub run_cli_same_device :
      {F : Type 0} (now : c.DateTime) (settings : Result SettingsFailure (Settings f))
      (daemon : DaemonInfo F f.BdAddr) (cli : Cli f c) (want have : f.BdAddr)
      → ((a b : f.BdAddr) → (eq_addr a b ≡ true) ↔ (a ≡ b))
      → explicit_addr f c cli ≡ some want
      → daemon.addr ≡ some have
      → IsDaemon (run_cli f c eq_addr (noted f c) now settings (some daemon) cli)
      → want ≡ have
  unfolding run_cli
  run_cli_same_device now (err e) daemon cli want have decides w h taken = absurd taken
  run_cli_same_device now (ok settings) daemon cli want have decides w h taken =
      (decides want have).0 (go cli.command taken)
    where
      go :
          (o : Option (AgentAction f))
          → IsDaemon (elim o [
            | some action ↦ took_agent_command action settings
            | none ↦ run_mode f c eq_addr (noted f c) cli settings (some daemon) (mode f c now cli)
          ])
          → eq_addr want have ≡ true
      go none t = run_mode-same cli settings daemon (mode f c now cli) want have w h t
      go (some action) t = absurd t
