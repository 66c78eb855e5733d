-- ===== src/Agent/Actor/Requests.antt =====
-- src/agent/server.rs, `Actor`: the requests of the clients, and their answers.
use btwattch2_rs.Prelude.{ℕ, if◌then◌else◌, Bool, not, none, some, Bytes, Result, ok, err}
use btwattch2_rs.Chrono.{Chrono}
use btwattch2_rs.Float.{Float}
use btwattch2_rs.Payload.{rtc, on, off, blink_led, monitoring}
use btwattch2_rs.Connection.Assembler.{command, measurement}
use btwattch2_rs.Connection.Measure.{read_measure, command_status}
use btwattch2_rs.Connection.Link.{◌>>=◌}
use btwattch2_rs.Agent.Protocol.{
  Request, set_rtc, power, get_rtc, test_led, subscribe, ping, shutdown, Message, listen_failed,
  measurement_write_failed, reconnect_failed, write_failed, no_notification_stream, stream_closed,
  command_timed_out, reply_too_short, get_rtc_failed, invalid_time, year_out_of_range, Response,
  stream_end, command_result, from_measurement,
}
use btwattch2_rs.Agent.Protocol
use btwattch2_rs.Agent.Clients.{try_send, add}
use btwattch2_rs.Agent.Link.{Link}
use btwattch2_rs.Agent.Actor.{Reply, StreamError, Actor, wants_poll, subscribed, reaped, oneshot}

module _ (fl : Float) (c : Chrono) (l : Link) where
  unfoldable pub send : ℕ → Reply fl c l → Actor fl c l → Actor fl c l
  send tx r a = record a {
    clients = record (a.clients) { channels = try_send tx r a.clients.channels };
  }

  -- `reply`, and `send_error`.
  unfoldable pub reply :
      ℕ → Result (StreamError fl c l) (Reply fl c l) × Actor fl c l → Actor fl c l
  unfolding send
  reply tx (ok r, a) = send tx r a
  reply tx (err e, a) = send tx (Protocol.error e) a

  pub parse_command_result : Bytes → Reply fl c l
  parse_command_result frame = elim (command_status frame) [
    | some code ↦ command_result code
    | none ↦ Protocol.error reply_too_short
  ]

  unfoldable pub run_command : ℕ → Bytes → ℕ → Actor fl c l → Actor fl c l
  unfolding oneshot parse_command_result reply
  run_command now payload tx a =
      reply tx (
        (do frame ← oneshot fl c l now payload command; λ a. (ok (parse_command_result frame), a))
          a)

  pub rtc_reading : Bytes → Result (StreamError fl c l) (Reply fl c l)
  rtc_reading frame = elim (read_measure fl c frame) [
    | ok m ↦ ok (from_measurement fl c l.Error m)
    | err e ↦ err (get_rtc_failed e)
  ]

  -- The frame for `SetRtc`: the time can fail to parse, and its year to fit the wire.
  pub rtc_frame : Bytes → Result (StreamError fl c l) Bytes
  rtc_frame time = elim (c.parse_from_rfc3339 time) [
    | none ↦ err invalid_time
    | some t ↦ elim (rtc c t) [ some p ↦ ok p | none ↦ err year_out_of_range ]
  ]

  unfoldable pub run_rtc : ℕ → Result (StreamError fl c l) Bytes → ℕ → Actor fl c l → Actor fl c l
  unfolding run_command send
  run_rtc now (ok p) tx a = run_command now p tx a
  run_rtc now (err e) tx a = send tx (Protocol.error e) a

  unfoldable pub admit :
      ℕ → ℕ → Bool → Result (StreamError fl c l) (Unit {0}) × Actor fl c l → Actor fl c l
  unfolding send
  admit now tx idle (ok u, a) =
      let added = record a { clients = add tx a.clients } in
      if idle then record added { ticker = now } else added
  admit now tx idle (err e, a) = send tx (Protocol.error e) a

  unfoldable pub serve : ℕ → Request → ℕ → Actor fl c l → Actor fl c l
  unfolding run_command rtc_reading rtc_frame run_rtc admit subscribed reply
  serve now ping tx a = a
  serve now shutdown tx a = a
  serve now subscribe tx a =
      admit now tx (not (wants_poll fl c l a)) (subscribed fl c l a.notifications a)
  serve now get_rtc tx a =
      reply tx
        ((do frame ← oneshot fl c l now monitoring measurement; λ a. (rtc_reading frame, a)) a)
  serve now (power up) tx a = run_command now (if up then on else off) tx a
  serve now test_led tx a = run_command now blink_led tx a
  serve now (set_rtc time) tx a = run_rtc now (rtc_frame time) tx a

  -- One request, to be answered on the channel `tx`.
  unfoldable pub handle : ℕ → Request → ℕ → Actor fl c l → Actor fl c l
  unfolding serve reaped
  handle now request tx a = serve now request tx (reaped fl c l a)
