-- ===== src/Agent/Actor/Invariant.antt =====
-- The invariant of the clients, kept by every request.
use btwattch2_rs.Prelude.{ℕ, if◌then◌else◌, Bool, true, false, Bytes, Result, ok, err}
use btwattch2_rs.Chrono.{Chrono}
use btwattch2_rs.Float.{Float}
use btwattch2_rs.Payload.{monitoring, on, off, blink_led}
use btwattch2_rs.Connection.Assembler.{command, measurement}
use btwattch2_rs.Agent.Protocol.{
  Request, set_rtc, power, get_rtc, test_led, subscribe, ping, shutdown,
}
use btwattch2_rs.Agent.Protocol
use btwattch2_rs.Agent.Status.{record_sample, set_connected, record_reconnect}
use btwattch2_rs.Agent.Clients.{try_send, add}
use btwattch2_rs.Agent.Clients.Count.{
  IsCounted, broadcast-IsCounted, reap-IsCounted, add-IsCounted, abort-IsCounted, IsBounded,
  try_send-IsBounded, broadcast-IsBounded, reap-IsBounded, add-IsBounded, abort-IsBounded,
}
use btwattch2_rs.Agent.Link.{Link}
use btwattch2_rs.Agent.Actor.{Reply, StreamError, Subscribers, Actor, reaped, oneshot}
use btwattch2_rs.Agent.Actor.Requests.{
  send, reply, parse_command_result, run_command, rtc_reading, rtc_frame, run_rtc, admit, serve,
  handle,
}
use btwattch2_rs.Agent.Actor.Counted.{Keeps, subscribed-Holds, reaped-P}
use btwattch2_rs.Agent.Actor.Waits.{oneshot-Holds, bind-Holds}

module _ (fl : Float) (c : Chrono) (l : Link) where
  -- What a request on the channel `tx` may change in the end, from what holds until then.
  pub record Serves (tx : ℕ) (P Q : Subscribers fl c l → Type 0) : Type 0 where
    pub keeps : Keeps fl c l P
    pub at_end : (s : Subscribers fl c l) → P s → Q s
    pub at_add : (s : Subscribers fl c l) → P s → Q (add tx s)
    pub at_send :
        (r : Reply fl c l) (s : Subscribers fl c l)
        → P s
        → Q (record s { channels = try_send tx r s.channels })

  module _ (tx : ℕ) (P Q : Subscribers fl c l → Type 0) (serves : Serves tx P Q) where
    open serves use {keeps, at_end, at_add, at_send}

    reply-P :
        (x : Result (StreamError fl c l) (Reply fl c l) × Actor fl c l)
        → P x.1.clients
        → Q (reply fl c l tx x).clients
    unfolding reply send
    reply-P (ok r, a) h = at_send r a.clients h
    reply-P (err e, a) h = at_send (Protocol.error e) a.clients h

    run_command-P :
        (now : ℕ) (p : Bytes) (a : Actor fl c l)
        → P a.clients
        → Q (run_command fl c l now p tx a).clients
    unfolding run_command
    run_command-P now p a h = reply-P _ (
        bind-Holds fl c l P (keeps.at_sample) (oneshot fl c l now p command)
          (λ frame b. (ok (parse_command_result fl c l frame), b)) a
          (oneshot-Holds fl c l P (keeps.at_sample) now p command a h) λ x b hb. hb)

    run_rtc-P :
        (now : ℕ) (x : Result (StreamError fl c l) Bytes) (a : Actor fl c l)
        → P a.clients
        → Q (run_rtc fl c l now x tx a).clients
    unfolding run_rtc send
    run_rtc-P now (ok p) a h = run_command-P now p a h
    run_rtc-P now (err e) a h = at_send (Protocol.error e) a.clients h

    admit-P :
        (now : ℕ) (idle : Bool) (x : Result (StreamError fl c l) (Unit {0}) × Actor fl c l)
        → P x.1.clients
        → Q (admit fl c l now tx idle x).clients
    unfolding admit send
    admit-P now true (ok u, a) h = at_add a.clients h
    admit-P now false (ok u, a) h = at_add a.clients h
    admit-P now idle (err e, a) h = at_send (Protocol.error e) a.clients h

    serve-P :
        (now : ℕ) (request : Request) (a : Actor fl c l)
        → P a.clients
        → Q (serve fl c l now request tx a).clients
    unfolding serve
    serve-P now ping a h = at_end a.clients h
    serve-P now shutdown a h = at_end a.clients h
    serve-P now subscribe a h =
        admit-P now _ _ (subscribed-Holds fl c l P keeps a.notifications a h)
    serve-P now get_rtc a h = reply-P _ (
        bind-Holds fl c l P (keeps.at_sample) (oneshot fl c l now monitoring measurement)
          (λ frame b. (rtc_reading fl c l frame, b)) a
          (oneshot-Holds fl c l P (keeps.at_sample) now monitoring measurement a h) λ x b hb. hb)
    serve-P now (power up) a h = run_command-P now (if up then on else off) a h
    serve-P now test_led a h = run_command-P now blink_led a h
    serve-P now (set_rtc time) a h = run_rtc-P now (rtc_frame fl c l time) a h

    pub handle-P :
        (now : ℕ) (request : Request) (a : Actor fl c l)
        → P a.clients
        → Q (handle fl c l now request tx a).clients
    unfolding handle
    handle-P now request a h = serve-P now request (reaped fl c l a) (reaped-P fl c l P keeps a h)

  -- The reported count is that of the subscribers, and nobody has more than 64 messages unread.
  pub record IsConsistent (s : Subscribers fl c l) : Type 0 where
    pub counted : IsCounted s
    pub bounded : IsBounded s.channels

  pub IsConsistent-Serves : (tx : ℕ) → Serves tx IsConsistent IsConsistent
  unfolding record_sample set_connected record_reconnect
  IsConsistent-Serves tx = record {
    keeps = record {
      at_sample = λ now m s h. record {
        counted = broadcast-IsCounted _ _ h.counted;
        bounded = broadcast-IsBounded _ _ h.bounded;
      };
      at_reap = λ s h. record {
        counted = reap-IsCounted s h.counted;
        bounded = reap-IsBounded s h.bounded;
      };
      at_abort = λ r s h. record {
        counted = abort-IsCounted r s;
        bounded = abort-IsBounded r s h.bounded;
      };
      at_connected = λ up s h. record { counted = h.counted; bounded = h.bounded };
      at_reconnect = λ s h. record { counted = h.counted; bounded = h.bounded };
    };
    at_end = λ s h. h;
    at_add = λ s h. record { counted = add-IsCounted tx s; bounded = add-IsBounded tx s h.bounded };
    at_send = λ r s h. record {
      counted = h.counted;
      bounded = try_send-IsBounded tx r s.channels h.bounded;
    };
  }
