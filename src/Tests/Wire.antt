-- ===== src/Tests/Wire.antt =====
-- A request over the bytes of a connection, and one of the metrics endpoint.
use btwattch2_rs.Prelude.{
  map, ℕ, ◌-◌, ◌*◌, ◌≤◌, ◌≡◌, ◌≢◌, ◌↔◌, ◌⊎◌, refl, arith, true, false, ◌++◌, [], ◌∷◌, List, Option,
  none, some, if◌then◌else◌, length,
}
use btwattch2_rs.Prelude.Text.{Text, codes, eq_text, trim}
use btwattch2_rs.Agent.Protocol.{Request, power, Response, command_result, from_measurement}
use btwattch2_rs.Agent.Handler.{handle_client}
use btwattch2_rs.Agent.Actor.Requests.{handle}
use btwattch2_rs.Agent.Client.{request}
use btwattch2_rs.Agent.Client.Answer.{outcome_of}
use btwattch2_rs.Agent.Wire.{write_message, written, received, next_line}
use btwattch2_rs.Agent.Wire.Framing.{IsEncoded, Reads, received-written}
use btwattch2_rs.Agent.Wire.Exchange.{EndsWith, request_over_connection}
use btwattch2_rs.Tests.World.{whole_numbers, calendar, good_link, texts, new_year}
use btwattch2_rs.Tests.Actors.{idle, Watts}
use btwattch2_rs.Tests.Startup.{no_info}
use btwattch2_rs.Tests.Output.{sampled, two_seconds_later, two_times, no_json, watts}
use btwattch2_rs.Cli.Options.{Cli, monitor, info, sample_count}
use btwattch2_rs.Main.Session.{start_session, stream_via_daemon, run_via_daemon}
use btwattch2_rs.Main.Session.Monitor.{stamped}
use btwattch2_rs.Main.Session.Commands.{TellsOutcome, answers, command_reported}
use btwattch2_rs.Cli.Options
use btwattch2_rs.Main.Session.Cut.{Ended, stream_cut}
use btwattch2_rs.Output.Stats.{new_stats}
use btwattch2_rs.Output.Stats.Summary.{record_all}
use btwattch2_rs.Agent.Clients.{try_send, reap}
use btwattch2_rs.Connection.Measure.{command_status}
use btwattch2_rs.Connection.Replies.{next_matching_frame}
use btwattch2_rs.Connection.Assembler.{next_frame, matches}
use btwattch2_rs.Payload.{crc8}
use btwattch2_rs.Prelude.Reading.{read_lines, from_utf8}
use btwattch2_rs.Agent.Status.{Sample, second, reading}
use btwattch2_rs.Agent.Metrics.{route, handle_bytes, exposition}
use btwattch2_rs.Agent.Metrics.Framing.{read_reply}
use btwattch2_rs.Agent.Metrics.Scrape.{last_part, up_line}
use btwattch2_rs.Agent.Metrics.Limit.{scrape_bytes}
use btwattch2_rs.Output.{metrics_exposition}

abbrev encode_power : Request → Text
encode_power r = codes "{p}"

abbrev decode_power : Text → Option Request
decode_power s = some (power true)

abbrev encode : Response ℕ ℕ → Text
encode r = codes "{r}"

-- One message has a text, in braces.
abbrev decode_to : {A : Type 0} → A → Text → Option A
decode_to m s = if eq_text s (codes "{r}") then some m else none

abbrev decode : Text → Option (Response ℕ ℕ)
decode = decode_to (command_result 0)

part :
    {A : Type 0} (m : A) (p q : Text) → codes "{r}" ≡ p ++ q → q ≢ [] → decode_to m (trim p) ≡ none
part m [] q e h = refl
part m (a ∷ []) q e h = let f : a ≡ b'{' = cc in rw f refl
part m (a ∷ b ∷ []) q e h = let f : a ≡ b'{' = cc in let g : b ≡ b'r' = cc in rw (f, g) refl
part m (a ∷ b ∷ d ∷ []) q e h = absurd (h (cc))
part m (a ∷ b ∷ d ∷ x ∷ p) q e h = absurd (cc)

braced-IsEncoded : (m : Response ℕ ℕ) → IsEncoded encode (decode_to m) m
braced-IsEncoded m = record { is_line = omega arith; whole = refl; part = part m }

done-IsEncoded : IsEncoded encode decode (command_result 0)
done-IsEncoded = braced-IsEncoded (command_result 0)

abbrev sent : List (Response ℕ ℕ)
sent =
    (handle_client decode_power (next_line (write_message encode_power (power true) ++ [])) 1 false
      true no_info
      ((handle whole_numbers calendar good_link 50 (power true) 9 idle).clients.channels
        9).queue).written

sent_is : sent ≡ command_result 0 ∷ []
unfolding handle handle_client next_line write_message read_lines next_matching_frame next_frame
    crc8 matches try_send reap command_status
sent_is = refl

sent_cut : (codes "{r") ++ codes "}\n" ≡ written encode sent
unfolding written
sent_cut = rw sent_is refl

request_over_connection_example :
    (reply : Response ℕ ℕ) × (sent ≡ reply ∷ [])
    × EndsWith reply (request (received decode (codes "{r")))
    × (codes "}\n" ≡ [] → request (received decode (codes "{r")) ≡ outcome_of reply)
request_over_connection_example =
    request_over_connection whole_numbers calendar good_link encode_power decode_power encode decode
      (power true) [] no_info 0 50 9 idle (codes "{r") (codes "}\n") (omega arith) refl tt refl refl
      (rw sent_is (done-IsEncoded, tt)) sent_cut

received-written_example :
    Reads encode decode (command_result 0 ∷ command_result 0 ∷ []) (codes "{r}\n{") (codes "r}\n")
unfolding written
received-written_example =
    received-written encode decode (command_result 0 ∷ command_result 0 ∷ []) (codes "{r}\n{")
      (codes "r}\n") (done-IsEncoded, (done-IsEncoded, tt)) refl

-- A head that is not UTF-8 and does not end.
abbrev request_line : Text
request_line = codes "GET /metrics HTTP/1.1\r"

scrape_bytes_example :
    (reply : Text) × (body : Text) × (handle_bytes whole_numbers calendar two_seconds_later
        (request_line ++ (b'\n' ∷ 0xFF ∷ []))
      ≡ some reply)
    × (read_reply reply ≡ some body)
    × ((last_part 15 body ≡ up_line) ↔ (
        (sampled.connected ≡ true)
        × (x : Sample Watts) × (sampled.latest ≡ some x)
        × ((9 * second - x.at ≤ 3 * sampled.interval) ⊎ (9 * second - x.at ≤ 5 * second))))
unfolding route exposition metrics_exposition reading from_utf8 read_lines
scrape_bytes_example =
    scrape_bytes whole_numbers calendar two_seconds_later request_line (0xFF ∷ [])
      (codes "GET /metrics HTTP/1.1\r\n") (9 * second) sampled (omega arith) (omega arith) refl refl
      refl (omega arith)

abbrev unlimited : Cli texts calendar
unlimited = record two_times { count = none }

abbrev one_measured : List Watts
one_measured = watts 5 ∷ []

-- The connection breaks within the only measurement.
stream_cut_example :
    let s = start_session whole_numbers calendar no_json (λ n. n) texts unlimited monitor info in
    let x =
      stream_via_daemon whole_numbers calendar no_json
        (λ n. n)
        ℕ
        (received (decode_to (from_measurement whole_numbers calendar ℕ (watts 5))) (codes "{r"))
        false
        s in
    (seen : List Watts) × (unseen : List Watts) × (one_measured ≡ seen ++ unseen)
    × Ended whole_numbers calendar no_json (λ n. n) ℕ (x.0)
    × ((x.1).renderer.samples ≡ length seen)
    × ((x.1).renderer.stats
        ≡ record_all whole_numbers calendar
            (stamped whole_numbers calendar no_json (λ n. n) ℕ 0 (map (λ m. m) seen))
            (new_stats whole_numbers))
    × (codes "}\n" ≡ [] → unseen ≡ [])
unfolding sample_count written
stream_cut_example =
    stream_cut whole_numbers calendar no_json (λ n. n) ℕ encode
      (decode_to (from_measurement whole_numbers calendar ℕ (watts 5))) texts unlimited monitor info
      (λ m. m) one_measured (codes "{r") (codes "}\n") refl (omega arith) (refl, tt)
      (
        (let b = braced-IsEncoded (from_measurement whole_numbers calendar ℕ (watts 5)) in
            record { is_line = b.is_line; whole = b.whole; part = b.part }),
        tt,
      )
      refl

abbrev power_answers : Request → List (Option (Response ℕ ℕ))
power_answers q = received decode (
    written encode (
      answers whole_numbers calendar no_json (λ n. n) good_link encode_power decode_power encode
        decode no_info 0 50 9 idle q))

command_reported_example :
    let s = start_session whole_numbers calendar no_json (λ n. n) texts unlimited monitor info in
    let x =
      run_via_daemon whole_numbers calendar no_json
        (λ n. n)
        ℕ
        power_answers
        new_year
        false
        true
        s
        (Options.power true) in
    (reply : Response ℕ ℕ) × (sent ≡ reply ∷ [])
    × TellsOutcome whole_numbers calendar no_json (λ n. n) ℕ true (codes "Power on") reply x
command_reported_example =
    command_reported whole_numbers calendar no_json (λ n. n) good_link encode_power decode_power
      encode decode (Options.power true) (power true) no_info 0 50 9 idle new_year false true
      (start_session whole_numbers calendar no_json (λ n. n) texts unlimited monitor info) refl
      (omega arith) refl refl refl (rw sent_is (done-IsEncoded, tt))
