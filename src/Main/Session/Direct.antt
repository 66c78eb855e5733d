-- ===== src/Main/Session/Direct.antt =====
-- src/main.rs: an invocation without an agent, from the device that was found to the end of
-- `run_cli`, which lets go of it.
use btwattch2_rs.Prelude.{ℕ, List, [], Option, none, some, Result, ok, err}
use btwattch2_rs.Chrono.{Chrono}
use btwattch2_rs.Float.{Float}
use btwattch2_rs.Cli.Options.{Mode, get_rtc, set_rtc, power, test_led, metric, monitor}
use btwattch2_rs.Connection.Measure.{Measurement}
use btwattch2_rs.Connection.Ble.{Ble}
use btwattch2_rs.Connection.Link.{LinkError, Connection, attach, disconnect}
use btwattch2_rs.Connection.Subscribe.{Turn, subscribe_measure}
use btwattch2_rs.Connection.Direct.{DirectError, blink, set_clock, measure_once}
use btwattch2_rs.Connection.Direct
use btwattch2_rs.Main.Report.{print_rtc_drift}
use btwattch2_rs.Output.Printer.{Line, JsonEncoder}
use btwattch2_rs.Main.Session.{Session, on_measurement, finish_session}

module _ (b : Ble) where
  -- Ctrl-C, where it comes first in the `select`: with the lines printed until then, on the
  -- connection as it is then.
  abbrev pub Interrupt : Type 0
  Interrupt = Option (List Line × Connection b)

  -- What befalls the process: it comes to its own end, with Ctrl-C in the `select` or without, or is
  -- killed, by a Ctrl-C before the `select` waits for it or by SIGPIPE, with the lines printed and
  -- the device as it is then.
  pub data Fate : Type 0 where
    survives : Interrupt → Fate
    killed : List Line → b.Peripheral → Fate

module _ (fl : Float) (c : Chrono) (to_json : JsonEncoder fl c) (clock : ℕ → ℕ) where
  module _ (b : Ble) where
    stream_outcome :
        Option (Result (LinkError b.Error) (Unit {0})) → Result (DirectError b.Error) (Unit {0})
    stream_outcome none = ok tt
    stream_outcome (some (ok u)) = ok u
    stream_outcome (some (err e)) = err (Direct.link_failed e)

    -- What a run gives, and the connection that it leaves.
    abbrev pub Ran : Type 0
    Ran = (Result (DirectError b.Error) (Unit {0}) × List Line) × Connection b

    stream_direct : List Turn → Session fl → Connection b → Ran
    unfolding stream_outcome on_measurement finish_session
    stream_direct turns s conn =
        let e = subscribe_measure fl c b (on_measurement fl c to_json clock) turns s conn in
        ((stream_outcome e.outcome, finish_session fl c to_json clock e.state), e.conn)

    told_only : Result (DirectError b.Error) (Unit {0}) × Connection b → Ran
    told_only (r, conn) = ((r, []), conn)

    printed_drift :
        c.DateTime → Result (DirectError b.Error) (Measurement fl c) × Connection b → Ran
    printed_drift now (ok m, conn) = ((ok tt, print_rtc_drift fl c now m), conn)
    printed_drift now (err e, conn) = ((err e, []), conn)

    -- `rounds` bounds the one-shot commands' waits, and the turns are those before the deadline.
    unfoldable pub run : ℕ → List Turn → c.DateTime → Session fl → Mode c → Connection b → Ran
    unfolding stream_direct printed_drift told_only
    run rounds turns now s (set_rtc time) conn = told_only (set_clock b fl c rounds time conn)
    run rounds turns now s get_rtc conn = printed_drift now (measure_once b fl c rounds conn)
    run rounds turns now s (power on) conn = told_only (Direct.power b rounds on conn)
    run rounds turns now s test_led conn = told_only (blink b rounds conn)
    run rounds turns now s (metric name) conn = stream_direct turns s conn
    run rounds turns now s monitor conn = stream_direct turns s conn

    pub or_interrupted : Interrupt b → Ran → Ran
    or_interrupted none ran = ran
    or_interrupted (some (lines, conn)) ran = ((ok tt, lines), conn)

    -- What is told, and how the device is left.
    abbrev pub Over : Type 0
    Over = (Result (DirectError b.Error) (Unit {0}) × List Line) × b.Peripheral

    unfoldable pub let_go : Ran → Over
    let_go (told, conn) = (told, (disconnect b conn).device)

    unfoldable pub on_attached :
        (Connection b → Over) → Result (LinkError b.Error) (Connection b) × b.Peripheral → Over
    on_attached ran (ok conn, d) = ran conn
    on_attached ran (err e, d) = ((err (Direct.link_failed e), []), d)

    -- What the process returns, if it is not killed, what it printed, and how the device is left.
    abbrev pub Ended : Type 0
    Ended = (Option (Result (DirectError b.Error) (Unit {0})) × List Line) × b.Peripheral

    returned : Over → Ended
    returned ((r, lines), d) = ((some r, lines), d)

    -- The end of `run_cli`, on the device that was found.
    unfoldable pub direct_session :
        ℕ → List Turn → c.DateTime → Fate b → Session fl → Mode c → b.Peripheral → Ended
    unfolding run or_interrupted let_go on_attached returned
    direct_session rounds turns now (killed lines left) s m device = ((none, lines), left)
    direct_session rounds turns now (survives interrupt) s m device = returned (
        on_attached (λ conn. let_go (or_interrupted interrupt (run rounds turns now s m conn)))
          (attach b device))
