-- ===== src/Main/Session.antt =====
-- src/main.rs: a command, and a run of measurements, through the agent and without it. The instant
-- that the n-th sample is recorded at is `clock n`; `expires` tells that the deadline or Ctrl-C
-- comes while the run still waits.
pub mod Monitor
pub mod Same
pub mod Alone
pub mod Cut
pub mod Commands
pub mod Direct
pub mod LetGo
use btwattch2_rs.Prelude.{
  ℕ, ◌+◌, ◌==◌, if◌then◌else◌, Bool, true, false, List, [], ◌∷◌, ◌++◌, Option, none, some, Result,
  ok, err,
}
use btwattch2_rs.Prelude.Text.{Text, codes}
use btwattch2_rs.Chrono.{Chrono}
use btwattch2_rs.Float.{Float}
use btwattch2_rs.Cli.Foreign.{Foreign}
use btwattch2_rs.Cli.Options.{
  Cli, Mode, get_rtc, set_rtc, power, test_led, metric, monitor, LogLevel, prefix_of, sample_count,
  output_format,
}
use btwattch2_rs.Connection.Measure.{Measurement}
use btwattch2_rs.Connection.Ble.{Ble}
use btwattch2_rs.Connection.Link.{LinkError, Connection, attach, disconnect}
use btwattch2_rs.Connection.Subscribe.{Turn, Ended, subscribe_measure}
use btwattch2_rs.Connection.Direct.{DirectError, blink, set_clock, measure_once}
use btwattch2_rs.Agent.Protocol.{Request, Response, command_result, subscribe, to_measurement}
use btwattch2_rs.Agent.Protocol
use btwattch2_rs.Agent.Client.{ClientError, closed_early, execute, request}
use btwattch2_rs.Main.Report.{print_rtc_drift}
use btwattch2_rs.Output.Printer.{Line, diagnostic, JsonEncoder}
use btwattch2_rs.Output.Stream.{
  StreamRenderer, Rendered, new_renderer, record_sample, drop_renderer,
}

pub data SessionError (E : Type 0) : Type 0 where
  client_failed : ClientError E → SessionError E
  unexpected_rtc_response unexpected_command_response : SessionError E
  -- A status other than zero.
  command_failed : ℕ → SessionError E

-- A renderer that is being driven.
pub record Session (fl : Float) : Type 0 where
  pub renderer : StreamRenderer fl
  pub ticks : ℕ
  pub printed : List Line

module _ (fl : Float) (c : Chrono) (to_json : JsonEncoder fl c) (clock : ℕ → ℕ) where
  unfoldable pub on_measurement : Measurement fl c → Session fl → Bool × Session fl
  unfolding record_sample
  on_measurement m s =
      let r = record_sample fl c to_json (clock s.ticks) m s.renderer in
      (
        r.break,
        record { renderer = r.renderer; ticks = s.ticks + 1; printed = s.printed ++ r.lines },
      )

  -- `renderer`.
  unfoldable pub start_session : (f : Foreign) → Cli f c → Mode c → LogLevel → Session fl
  unfolding new_renderer
  start_session f cli m level = record {
    renderer =
        new_renderer fl (output_format f c cli) (prefix_of f c m) (sample_count f c m cli) level;
    ticks = 0;
    printed = [];
  }

  -- The lines of a run, the summary at the end among them.
  unfoldable pub finish_session : Session fl → List Line
  unfolding drop_renderer
  finish_session s = s.printed ++ drop_renderer fl c to_json s.renderer

  module _ (E : Type 0) where
    unfoldable pub on_response : Response fl.F64 E → Session fl → Bool × Session fl
    unfolding on_measurement
    on_response r s = elim (to_measurement fl c E r) [
      | some m ↦ on_measurement m s
      | none ↦ (false, s)
    ]

    -- An end that comes while the run waits is a normal stop.
    unfoldable pub until_deadline :
        Bool → Result (ClientError E) (Unit {0}) → Result (SessionError E) (Unit {0})
    until_deadline expires (ok u) = ok u
    until_deadline true (err closed_early) = ok tt
    until_deadline expires (err e) = err (client_failed e)

    unfoldable pub stream_via_daemon :
        List (Option (Response fl.F64 E))
        → Bool
        → Session fl
        → Result (SessionError E) (Unit {0}) × Session fl
    unfolding on_response until_deadline
    stream_via_daemon lines expires s =
        let (r, t) = execute on_response lines s in (until_deadline expires r, t)

    -- The line on success, which the level may leave out.
    abbrev pub succeeded : Bool → Text → List Line
    succeeded is_info action =
        if is_info then diagnostic (codes "[INFO] " ++ (action ++ codes " succeeded")) ∷ [] else []

    -- `report_command`, for an answer that is one of a command.
    unfoldable pub command_code :
        Bool → Text → Response fl.F64 E → Result (SessionError E) (Unit {0}) × List Line
    command_code is_info action (command_result code) =
        if code == 0 then (ok tt, succeeded is_info action) else (err (command_failed code), [])
    command_code is_info action _ = (err unexpected_command_response, [])

    unfoldable pub send_daemon_command :
        Bool
        → Text
        → List (Option (Response fl.F64 E))
        → Result (SessionError E) (Unit {0}) × List Line
    unfolding command_code
    send_daemon_command is_info action lines = elim (request lines) [
      | ok r ↦ command_code is_info action r
      | err e ↦ (err (client_failed e), [])
    ]

    read_rtc :
        c.DateTime
        → List (Option (Response fl.F64 E))
        → Result (SessionError E) (Unit {0}) × List Line
    read_rtc now lines = elim (request lines) [
      | err e ↦ (err (client_failed e), [])
      | ok r ↦ (elim (to_measurement fl c E r) [
        | some m ↦ (ok tt, print_rtc_drift fl c now m)
        | none ↦ (err unexpected_rtc_response, [])
      ])
    ]

    streamed :
        Result (SessionError E) (Unit {0}) × Session fl
        → Result (SessionError E) (Unit {0}) × List Line
    unfolding finish_session
    streamed (r, s) = (r, finish_session s)

    -- `agent` gives the lines that answer a request; `is_info` is whether the level lets
    -- informational lines through.
    unfoldable pub run_via_daemon :
        (Request → List (Option (Response fl.F64 E)))
        → c.DateTime
        → Bool
        → Bool
        → Session fl
        → Mode c
        → Result (SessionError E) (Unit {0}) × List Line
    unfolding send_daemon_command read_rtc stream_via_daemon streamed
    run_via_daemon agent now expires is_info s (set_rtc time) =
        send_daemon_command is_info (codes "RTC set") (agent (Protocol.set_rtc (c.to_rfc3339 time)))
    run_via_daemon agent now expires is_info s get_rtc = read_rtc now (agent Protocol.get_rtc)
    run_via_daemon agent now expires is_info s (power on) =
        send_daemon_command is_info (if on then codes "Power on" else codes "Power off")
          (agent (Protocol.power on))
    run_via_daemon agent now expires is_info s test_led =
        send_daemon_command is_info (codes "Blink") (agent Protocol.test_led)
    run_via_daemon agent now expires is_info s (metric name) =
        streamed (stream_via_daemon (agent subscribe) expires s)
    run_via_daemon agent now expires is_info s monitor =
        streamed (stream_via_daemon (agent subscribe) expires s)
