-- ===== src/Agent/Actor/Replies.antt =====
-- Every one-shot request is answered, and once.
use btwattch2_rs.Prelude.{
  ℕ, ◌≡◌, ap, sym, ◌∙◌, subst, if◌then◌else◌, true, false, Bytes, Result, ok, err,
}
use btwattch2_rs.Chrono.{Chrono}
use btwattch2_rs.Float.{Float}
use btwattch2_rs.Payload.{monitoring, on, off, blink_led}
use btwattch2_rs.Connection.Assembler.{command, measurement}
use btwattch2_rs.Agent.Protocol.{
  Request, set_rtc, power, get_rtc, test_led, subscribe, ping, shutdown,
}
use btwattch2_rs.Agent.Protocol
use btwattch2_rs.Agent.Clients.{Channel, push}
use btwattch2_rs.Agent.Clients.Delivery.{
  mem, accepts, Apart, broadcast-Apart, reap-Apart, abort-Apart, try_send_room,
}
use btwattch2_rs.Agent.Link.{Link}
use btwattch2_rs.Agent.Actor.{Reply, StreamError, Actor, reaped, oneshot}
use btwattch2_rs.Agent.Actor.Requests.{
  send, reply, parse_command_result, run_command, rtc_reading, rtc_frame, run_rtc, serve, handle,
}
use btwattch2_rs.Agent.Actor.Counted.{Keeps, reaped-P}
use btwattch2_rs.Agent.Actor.Waits.{oneshot-Holds, bind-Holds}

-- A request that the actor answers with one reply, rather than a stream.
abbrev pub IsOneshot : Request → Type 0
IsOneshot get_rtc = Unit {0}
IsOneshot (power up) = Unit {0}
IsOneshot test_led = Unit {0}
IsOneshot (set_rtc time) = Unit {0}
IsOneshot _ = ⊥

module _ (fl : Float) (c : Chrono) (l : Link) (tx : ℕ) (ch : Channel (Reply fl c l)) where
  Apart-Keeps : Keeps fl c l (Apart tx ch)
  Apart-Keeps = record {
    at_sample = λ now m s h. broadcast-Apart tx ch _ _ h;
    at_reap = λ s h. reap-Apart tx ch s h;
    at_abort = λ r s h. abort-Apart tx ch r s h;
    at_connected = λ up s h. h;
    at_reconnect = λ s h. h;
  }

  module _ (room : accepts ch ≡ true) where
    -- The channel has one more message than before, and is still no subscriber's.
    abbrev pub Answered : Actor fl c l → Type 0
    Answered a =
        (r : Reply fl c l) × (a.clients.channels tx ≡ push r ch) × (mem tx a.clients.list ≡ false)

    send-Answered :
        (r : Reply fl c l) (a : Actor fl c l)
        → Apart tx ch a.clients
        → Answered (send fl c l tx r a)
    unfolding send
    send-Answered r a h =
        let open_room : accepts (a.clients.channels tx) ≡ true =
          subst (λ x. accepts x ≡ true) (sym h.1) room in
        (r, try_send_room tx r a.clients.channels open_room ∙ ap (push r) h.1, h.0)

    reply-Answered :
        (x : Result (StreamError fl c l) (Reply fl c l) × Actor fl c l)
        → Apart tx ch x.1.clients
        → Answered (reply fl c l tx x)
    unfolding reply
    reply-Answered (ok r, a) h = send-Answered r a h
    reply-Answered (err e, a) h = send-Answered (Protocol.error e) a h

    run_command-Answered :
        (now : ℕ) (p : Bytes) (a : Actor fl c l)
        → Apart tx ch a.clients
        → Answered (run_command fl c l now p tx a)
    unfolding run_command
    run_command-Answered now p a h = reply-Answered _ (
        bind-Holds fl c l (Apart tx ch) (Apart-Keeps.at_sample) (oneshot fl c l now p command)
          (λ frame b. (ok (parse_command_result fl c l frame), b)) a
          (oneshot-Holds fl c l (Apart tx ch) (Apart-Keeps.at_sample) now p command a h)
          λ x b hb. hb)

    run_rtc-Answered :
        (now : ℕ) (x : Result (StreamError fl c l) Bytes) (a : Actor fl c l)
        → Apart tx ch a.clients
        → Answered (run_rtc fl c l now x tx a)
    unfolding run_rtc
    run_rtc-Answered now (ok p) a h = run_command-Answered now p a h
    run_rtc-Answered now (err e) a h = send-Answered (Protocol.error e) a h

    serve-Answered :
        (now : ℕ) (request : Request) (a : Actor fl c l)
        → IsOneshot request
        → Apart tx ch a.clients
        → Answered (serve fl c l now request tx a)
    unfolding serve
    serve-Answered now get_rtc a o h = reply-Answered _ (
        bind-Holds fl c l (Apart tx ch) (Apart-Keeps.at_sample)
          (oneshot fl c l now monitoring measurement) (λ frame b. (rtc_reading fl c l frame, b)) a
          (oneshot-Holds fl c l (Apart tx ch) (Apart-Keeps.at_sample) now monitoring measurement a
            h)
          λ x b hb. hb)
    serve-Answered now (power up) a o h = run_command-Answered now (if up then on else off) a h
    serve-Answered now test_led a o h = run_command-Answered now blink_led a h
    serve-Answered now (set_rtc time) a o h = run_rtc-Answered now (rtc_frame fl c l time) a h
    serve-Answered now subscribe a o h = absurd o
    serve-Answered now ping a o h = absurd o
    serve-Answered now shutdown a o h = absurd o

    -- A one-shot request on a channel that is open, has room and is no subscriber's is answered by
    -- exactly one message, whatever the link does and whatever arrives meanwhile, and does not
    -- subscribe the channel.
    pub handle_answers_once :
        (now : ℕ) (request : Request) (a : Actor fl c l)
        → IsOneshot request
        → mem tx a.clients.list ≡ false
        → a.clients.channels tx ≡ ch
        → Answered (handle fl c l now request tx a)
    unfolding handle
    handle_answers_once now request a o apart fresh =
        serve-Answered now request (reaped fl c l a) o
          (reaped-P fl c l (Apart tx ch) Apart-Keeps a (apart, fresh))
