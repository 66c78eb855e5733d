-- ===== src/Tests/Alone.antt =====
-- Tests of a run without an agent.
use btwattch2_rs.Prelude.{ℕ, ◌≡◌, refl, arith, List, [], ◌∷◌, some, Bytes, ok}
use btwattch2_rs.Cli.Options.{monitor, info, sample_count}
use btwattch2_rs.Connection.Assembler.{feed}
use btwattch2_rs.Connection.Measure.{try_measurement, read_measure, read_timestamp, local_datetime}
use btwattch2_rs.Connection.Replies.{Stream, closed, event, c_rx}
use btwattch2_rs.Connection.Subscribe.{
  Turn, ticked, notified, next_event, measure_frame, subscribe_loop,
}
use btwattch2_rs.Main.Session.{start_session, on_measurement}
use btwattch2_rs.Main.Session.Alone.{direct_exactly}
use btwattch2_rs.Main.Session.Monitor.{stamped}
use btwattch2_rs.Main.Session.Same.{measurements}
use btwattch2_rs.Output.Stats.{new_stats}
use btwattch2_rs.Output.Stats.Summary.{record_all}
use btwattch2_rs.Payload.{generate, crc8, monitoring}
use btwattch2_rs.Tests.Output.{Watts, two_times, no_json}
use btwattch2_rs.Tests.Radio.{steady, steady-Polls, link}
use btwattch2_rs.Tests.World.{calendar, texts, whole_numbers}

-- A measurement of 1905, all of its bytes five.
abbrev report : Bytes
report = generate (
    5 ∷ 5 ∷ 5 ∷ 5 ∷ 5 ∷ 5 ∷ 5 ∷ 5 ∷ 5 ∷ 5 ∷ 5 ∷ 5 ∷ 5 ∷ 5 ∷ 5 ∷ 5 ∷ 5 ∷ 5 ∷ 5 ∷ 5 ∷ 5 ∷ 5 ∷ 5 ∷ 5
    ∷ 5 ∷ 5 ∷ [])

abbrev reports : Stream
reports =
    event (record { uuid = c_rx; value = report })
      (event (record { uuid = c_rx; value = report }) closed)

abbrev schedule : List Turn
schedule = ticked ∷ notified ∷ ticked ∷ notified ∷ []

abbrev read : List Watts
read = measurements whole_numbers calendar no_json (λ n. n) ℕ (report ∷ report ∷ [])

direct_exactly_example :
    let s = start_session whole_numbers calendar no_json (λ n. n) texts two_times monitor info in
    let e =
      subscribe_loop steady
        (measure_frame whole_numbers calendar
          (on_measurement whole_numbers calendar no_json (λ n. n)))
        monitoring
        schedule
        reports
        []
        s
        link in
    (e.outcome ≡ some (ok tt))
    × (e.state.renderer.samples ≡ 2)
    × (e.state.renderer.stats
        ≡ record_all whole_numbers calendar
            (stamped whole_numbers calendar no_json (λ n. n) ℕ 0 read)
            (new_stats whole_numbers))
unfolding next_event feed generate crc8 try_measurement read_measure read_timestamp local_datetime
    sample_count
direct_exactly_example =
    direct_exactly whole_numbers calendar no_json (λ n. n) texts two_times monitor info steady
      (λ c. Unit {0}) schedule reports link 2 read [] steady-Polls tt tt refl (refl, (refl, tt))
      refl refl (omega arith) (omega arith)
