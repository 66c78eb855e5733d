-- ===== src/Tests/Output.antt =====
-- Tests of what is printed, of a run through the agent, and of the metrics endpoint.
use btwattch2_rs.Prelude.{
  ℕ, ◌+◌, ◌*◌, ◌≡◌, refl, arith, true, false, List, [], ◌∷◌, ◌++◌, map, Bytes, none, some, ok, err,
}
use btwattch2_rs.Prelude.Text.{codes}
use btwattch2_rs.Connection.Measure.{
  Measurement, try_measurement, read_measure, read_timestamp, local_datetime,
}
use btwattch2_rs.Agent.Protocol.{command_result}
use btwattch2_rs.Agent.Status.{AgentStats, second}
use btwattch2_rs.Agent.Metrics.{route, metrics, method_not_allowed}
use btwattch2_rs.Cli.Names.{csv}
use btwattch2_rs.Cli.Options.{Cli, monitor, info, sample_count}
use btwattch2_rs.Main.Report.{format_duration, debug_millis}
use btwattch2_rs.Main.Session.{start_session, stream_via_daemon, on_measurement, on_response}
use btwattch2_rs.Main.Session.Same.{measurements, client_result, same_session}
use btwattch2_rs.Connection.Subscribe.{hand_frames, measure_frame}
use btwattch2_rs.Agent.Client.{execute}
use btwattch2_rs.Main.Session.Monitor.{messages, stamped, stream_exactly}
use btwattch2_rs.Output.{channels}
use btwattch2_rs.Output.Printer.{JsonEncoder, csv_header}
use btwattch2_rs.Output.Stats.{new_stats, record_stats}
use btwattch2_rs.Output.Stats.Summary.{
  record_all, channel_summary, values_of, energies, fold_left, record_all-summary,
}
use btwattch2_rs.Tests.World.{calendar, new_year, shaky, texts, whole_numbers}

abbrev pub Watts : Type 0
Watts = Measurement whole_numbers calendar

abbrev pub watts : ℕ → Watts
watts n = record { voltage = 100; ampere = 1; wattage = n; power_factor = 1; timestamp = new_year }

abbrev three_samples : List (ℕ × Watts)
three_samples = (0, watts 3600) ∷ (2 * second, watts 7200) ∷ (3 * second, watts 3600) ∷ []

test_energy :
    (record_all whole_numbers calendar three_samples (new_stats whole_numbers)).energy_wh ≡ 5
unfolding record_all new_stats record_stats
test_energy = refl

record_all-summary_example :
    let s = record_all whole_numbers calendar three_samples (new_stats whole_numbers) in
    (s.count ≡ 3)
    × (s.channels
        ≡ map
            (λ spec.
              channel_summary whole_numbers (values_of whole_numbers calendar spec three_samples))
            (channels whole_numbers calendar))
    × (s.energy_wh ≡ fold_left (λ a b. a + b) 0 (energies whole_numbers calendar three_samples))
record_all-summary_example = record_all-summary whole_numbers calendar three_samples

abbrev pub no_json : JsonEncoder whole_numbers calendar
no_json entries = err []

test_csv_header :
    csv_header whole_numbers calendar ≡ codes "time,voltage,ampere,wattage,power_factor,energy_wh"
unfolding csv_header
test_csv_header = refl

abbrev pub two_times : Cli texts calendar
two_times = record {
  connect = record { index = none; addr = none; interval = none };
  config = none;
  device = none;
  socket = none;
  pid_file = none;
  on = false;
  off = false;
  set_rtc = none;
  set_rtc_now = false;
  test_led = false;
  metric_name = none;
  scan = false;
  scan_all = false;
  get_rtc = false;
  format = some csv;
  count = some 2;
  duration = none;
  debug = false;
  quiet = false;
  log_level = none;
  command = none;
}

stream_exactly_example :
    let s = start_session whole_numbers calendar no_json (λ n. n) texts two_times monitor info in
    let x =
      stream_via_daemon whole_numbers calendar no_json
        (λ n. n)
        ℕ
        (messages whole_numbers calendar no_json (λ n. n) ℕ (watts 5 ∷ watts 6 ∷ [])
          ++ some (command_result 0) ∷ [])
        false
        s in
    (x.0 ≡ ok tt)
    × ((x.1).renderer.samples ≡ 2)
    × ((x.1).renderer.stats
        ≡ record_all whole_numbers calendar
            (stamped whole_numbers calendar no_json (λ n. n) ℕ 0 (watts 5 ∷ watts 6 ∷ []))
            (new_stats whole_numbers))
unfolding sample_count
stream_exactly_example =
    stream_exactly whole_numbers calendar no_json (λ n. n) ℕ texts two_times monitor info 2
      (watts 5 ∷ watts 6 ∷ []) (some (command_result 0) ∷ []) false refl refl (omega arith)
      (omega arith) (refl, (refl, tt))

-- A frame of thirty bytes, all of them five: a measurement of 1905.
abbrev fives : Bytes
fives =
    5 ∷ 5 ∷ 5 ∷ 5 ∷ 5 ∷ 5 ∷ 5 ∷ 5 ∷ 5 ∷ 5 ∷ 5 ∷ 5 ∷ 5 ∷ 5 ∷ 5 ∷ 5 ∷ 5 ∷ 5 ∷ 5 ∷ 5 ∷ 5 ∷ 5 ∷ 5 ∷ 5
    ∷ 5 ∷ 5 ∷ 5 ∷ 5 ∷ 5 ∷ 5 ∷ []

abbrev two_frames : List Bytes
two_frames = fives ∷ (5 ∷ []) ∷ fives ∷ []

same_session_example :
    let s = start_session whole_numbers calendar no_json (λ n. n) texts two_times monitor info in
    let direct =
      hand_frames shaky
        (measure_frame whole_numbers calendar
          (on_measurement whole_numbers calendar no_json (λ n. n)))
        two_frames
        s in
    let relayed =
      execute
        (on_response whole_numbers calendar no_json (λ n. n) ℕ)
        (messages whole_numbers calendar no_json
          (λ n. n)
          ℕ
          (measurements whole_numbers calendar no_json (λ n. n) ℕ two_frames))
        s in
    (relayed.0 ≡ client_result whole_numbers calendar no_json (λ n. n) ℕ (direct.0))
    × (relayed.1 ≡ direct.1)
unfolding try_measurement read_measure read_timestamp local_datetime
same_session_example =
    same_session whole_numbers calendar no_json (λ n. n) ℕ shaky two_frames
      (start_session whole_numbers calendar no_json (λ n. n) texts two_times monitor info)
      (refl, (refl, tt))

test_route : route (codes "GET /metrics?collect=all HTTP/1.1\r\n") ≡ some metrics
unfolding route
test_route = refl

test_route_method : route (codes "POST /metrics HTTP/1.1") ≡ some method_not_allowed
unfolding route
test_route_method = refl

test_route_blank : route (codes "GET") ≡ none
unfolding route
test_route_blank = refl

abbrev pub sampled : AgentStats Watts
sampled = record {
  started = 0;
  interval = second;
  metrics_listen = none;
  connected = true;
  samples = 1;
  reconnects = 0;
  clients = 0;
  latest = some (record { reading = watts 5; at = 7 * second });
}

abbrev pub two_seconds_later : ℕ → ℕ × AgentStats Watts
two_seconds_later lines = (9 * second, sampled)

test_duration : format_duration 11524 ≡ codes "3h 12m 4s"
unfolding format_duration
test_duration = refl

test_millis : debug_millis 1500 ≡ codes "1.5s"
unfolding debug_millis
test_millis = refl
