-- ===== src/Main/Report.antt =====
-- src/main.rs: what is printed about an agent and about a scan.
use btwattch2_rs.Prelude.{
  ℕ, ◌-◌, ◌/◌, ◌%◌, ltb, ◌==◌, if◌then◌else◌, Bool, true, false, ◌||◌, List, [], ◌∷◌, ◌++◌, map,
  length, Option, none, some, unwrap_or,
}
use btwattch2_rs.Prelude.Text.{Text, codes}
use btwattch2_rs.Prelude.Decimal.{decimal, signed_decimal}
use btwattch2_rs.Float.{Float}
use btwattch2_rs.Chrono.{Chrono}
use btwattch2_rs.Connection.Measure.{Measurement}
use btwattch2_rs.Connection.Scan.{ScannedDevice, is_watt_checker}
use btwattch2_rs.Agent.Protocol.{AgentStatus}
use btwattch2_rs.Agent.Client.{DaemonInfo}
use btwattch2_rs.Cli.Options.{ScanMode, watt_checkers, everything}
use btwattch2_rs.Output.Printer.{Line, out, diagnostic}

-- An uptime as `3h 12m 4s`, without the units that would read as zero.
unfoldable pub format_duration : ℕ → Text
format_duration seconds =
    let h = seconds / 3600 in
    let m = seconds % 3600 / 60 in
    let s = seconds % 60 in
    if h == 0
    then (if m == 0
        then decimal s ++ codes "s"
        else decimal m ++ codes "m " ++ decimal s ++ codes "s")
    else decimal h ++ codes "h " ++ decimal m ++ codes "m " ++ decimal s ++ codes "s"

-- The digits of a fraction of a second, in milliseconds.
fraction : ℕ → Text
fraction r =
    if r == 0
    then []
    else if r % 100 == 0
    then codes "." ++ decimal (r / 100)
    else if r % 10 == 0
    then codes "." ++ decimal (r / 100) ++ decimal (r / 10 % 10)
    else codes "." ++ decimal (r / 100) ++ decimal (r / 10 % 10) ++ decimal (r % 10)

-- `{:?}` of a `Duration` of whole milliseconds.
unfoldable pub debug_millis : ℕ → Text
unfolding fraction
debug_millis ms =
    if ltb ms 1000
    then (if ms == 0 then codes "0ns" else decimal ms ++ codes "ms")
    else decimal (ms / 1000) ++ fraction (ms % 1000) ++ codes "s"

module _ (fl : Float) where
  unfoldable pub format_seconds : fl.F64 → Text
  unfolding debug_millis
  format_seconds seconds =
      debug_millis
        (fl.to_u64 (fl.maximum (fl.round (fl.mul seconds (fl.of_u64 1000))) (fl.of_u64 0)))

  samples_line : AgentStatus fl.F64 → Text
  unfolding format_seconds
  samples_line status =
      codes "Samples:     " ++ decimal status.samples ++ elim status.last_sample_age_seconds [
        | some age ↦ codes " (last " ++ format_seconds age ++ codes " ago)"
        | none ↦ codes " (none yet)"
      ]

  unfoldable pub print_agent_status : AgentStatus fl.F64 → List Line
  unfolding format_duration format_seconds samples_line
  print_agent_status status =
      out (
        codes "Link:        "
        ++ (if status.connected then codes "connected" else codes "disconnected"))
      ∷ out (codes "Interval:    " ++ format_seconds status.interval_seconds)
      ∷ out (codes "Uptime:      " ++ format_duration status.uptime_seconds)
      ∷ out (samples_line status)
      ∷ out (codes "Reconnects:  " ++ decimal status.reconnects)
      ∷ out (codes "Clients:     " ++ decimal status.clients)
      ∷ elim status.metrics_listen [
        | some addr ↦ out (codes "Metrics:     http://" ++ addr ++ codes "/metrics") ∷ []
        | none ↦ []
      ]

  module _ {BdAddr : Type 0} (show : BdAddr → Text) where
    unfoldable pub print_daemon : DaemonInfo fl.F64 BdAddr → Text → Option ℕ → List Line
    unfolding print_agent_status
    print_daemon daemon socket pid =
        out (
            codes "Agent is running (pid "
            ++ elim pid [ some n ↦ decimal n | none ↦ codes "unknown" ]
            ++ codes ")")
          ∷ out (codes "Socket:      " ++ socket)
          ∷ elim daemon.addr [
            | some addr ↦ out (codes "Attached to: " ++ show addr) ∷ []
            | none ↦ []
          ]
        ++ elim daemon.status [ some status ↦ print_agent_status status | none ↦ [] ]

module _ (fl : Float) (c : Chrono) where
  unfoldable pub print_rtc_drift : c.DateTime → Measurement fl c → List Line
  print_rtc_drift now m =
      out (codes "device_time = " ++ c.to_rfc3339 m.timestamp)
      ∷ out (codes "system_time = " ++ c.to_rfc3339 now)
      ∷ out (codes "drift_seconds = " ++ signed_decimal (c.seconds_since m.timestamp now))
      ∷ []

module _ {BdAddr : Type 0} (show : BdAddr → Text) where
  abbrev is_everything : ScanMode → Bool
  is_everything everything = true
  is_everything watt_checkers = false

  unfoldable pub shown : ScanMode → List (ScannedDevice BdAddr) → List (ScannedDevice BdAddr)
  shown mode [] = []
  shown mode (d ∷ ds) =
      let rest = shown mode ds in if is_everything mode || is_watt_checker d then d ∷ rest else rest

  device_line : ScannedDevice BdAddr → Line
  device_line d = out (
      show d.addr
      ++ codes "\t"
      ++ unwrap_or d.name (codes "(unknown)")
      ++ codes "\trssi="
      ++ signed_decimal d.rssi)

  no_devices : List (ScannedDevice BdAddr) → List Line
  no_devices [] = out (codes "No devices found.") ∷ []
  no_devices (d ∷ ds) = []

  unfoldable pub print_scan : Bool → List (ScannedDevice BdAddr) → ScanMode → List Line
  unfolding shown device_line no_devices
  print_scan info_enabled devices mode =
      let listed = shown mode devices in
      let hidden = length devices - length listed in
      no_devices listed
      ++ map device_line listed
      ++ (if ltb 0 hidden
          then (if info_enabled
              then diagnostic (
                  codes "[INFO] "
                  ++ decimal hidden
                  ++ codes " other device(s) hidden; use --scan-all to list them")
                ∷ []
              else [])
          else [])
