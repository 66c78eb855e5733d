-- ===== src/Agent/Actor/Counted.antt =====
-- What every event of the actor keeps about its clients: a rule for any property that the single
-- changes keep, and its uses.
use btwattch2_rs.Prelude.{
  ℕ, ◌==◌, Bool, true, false, Bool-cases, inl, inr, List, [], ◌∷◌, Option, none, some, Bytes,
  Result, ok, err,
}
use btwattch2_rs.Chrono.{Chrono}
use btwattch2_rs.Float.{Float}
use btwattch2_rs.Payload.{monitoring}
use btwattch2_rs.Connection.Assembler.{feed}
use btwattch2_rs.Connection.Replies.{Stream, ValueNotification, c_rx}
use btwattch2_rs.Agent.Protocol.{
  Request, set_rtc, power, get_rtc, test_led, subscribe, ping, shutdown, from_measurement,
  measurement_write_failed, reconnect_failed, write_failed,
}
use btwattch2_rs.Agent.Protocol
use btwattch2_rs.Agent.Status.{set_connected, record_reconnect}
use btwattch2_rs.Agent.Clients.{reap, abort}
use btwattch2_rs.Agent.Link.{Link}
use btwattch2_rs.Agent.Actor.Waits.{KeepsSample, on_conn-Holds, relisten-Holds, on_frame-P}
use btwattch2_rs.Agent.Actor.{
  Reply, StreamError, Subscribers, Actor, on_stats, on_conn, apply_subscription, abort_stream,
  or_abort, after_poll, send_poll, subscribed, reaped, poll_device, wants_poll, on_frame, on_frames,
  reconnected, handle_notification,
}

module _ (fl : Float) (c : Chrono) (l : Link) where
  pub record Keeps (P : Subscribers fl c l → Type 0) : Type 0 where
    pub at_sample : KeepsSample fl c l P
    pub at_reap : (s : Subscribers fl c l) → P s → P (reap s)
    pub at_abort : (r : Reply fl c l) (s : Subscribers fl c l) → P s → P (abort r s)
    pub at_connected :
        (up : Bool) (s : Subscribers fl c l)
        → P s
        → P (record s { stats = set_connected up s.stats })
    pub at_reconnect :
        (s : Subscribers fl c l) → P s → P (record s { stats = record_reconnect s.stats })

  module _ (P : Subscribers fl c l → Type 0) (keeps : Keeps P) where
    open keeps use {at_sample, at_reap, at_abort, at_connected, at_reconnect}

    abbrev Kept {ℓ} : {A : Type ℓ} → A × Actor fl c l → Type 0
    Kept x = P x.1.clients

    abort_stream-P :
        (e : StreamError fl c l) (a : Actor fl c l)
        → P a.clients
        → P (abort_stream fl c l e a).clients
    unfolding abort_stream
    abort_stream-P e a h = at_abort (Protocol.error e) _ (at_connected false a.clients h)

    or_abort-P :
        (x : Result (StreamError fl c l) (Unit {0}) × Actor fl c l)
        → Kept x
        → P (or_abort fl c l x).clients
    unfolding or_abort
    or_abort-P (ok u, a) h = h
    or_abort-P (err e, a) h = abort_stream-P e a h

    after_poll-P :
        (x : Result (StreamError fl c l) Bool × Actor fl c l)
        → Kept x
        → P (after_poll fl c l x).clients
    unfolding after_poll
    after_poll-P (ok true, a) h = or_abort-P _ (
        relisten-Holds fl c l P at_sample (on_stats fl c l record_reconnect a)
          (at_reconnect a.clients h))
    after_poll-P (ok false, a) h = h
    after_poll-P (err e, a) h = abort_stream-P e a h

    send_poll-P :
        (x : Result (StreamError fl c l) (Unit {0}) × Actor fl c l)
        → Kept x
        → P (send_poll fl c l x).clients
    unfolding send_poll
    send_poll-P (ok u, a) h =
        after_poll-P (on_conn fl c l measurement_write_failed (l.write monitoring) a)
          (on_conn-Holds fl c l P at_sample measurement_write_failed (l.write monitoring) a h)
    send_poll-P (err e, a) h = abort_stream-P e a h

    pub subscribed-Holds :
        (o : Option Stream) (a : Actor fl c l) → P a.clients → Kept (subscribed fl c l o a)
    unfolding subscribed
    subscribed-Holds none a h = relisten-Holds fl c l P at_sample a h
    subscribed-Holds (some n) a h = h

    pub reaped-P : (a : Actor fl c l) → P a.clients → P (reaped fl c l a).clients
    unfolding reaped
    reaped-P a h = at_reap a.clients h

    pub poll_device-P : (a : Actor fl c l) → P a.clients → P (poll_device fl c l a).clients
    unfolding poll_device
    poll_device-P a h =
        let r = reaped fl c l a in
        let held = reaped-P a h in
        elim (Bool-cases (wants_poll fl c l r)) [
          | inl e ↦ rw e (send_poll-P _ (subscribed-Holds r.notifications r held))
          | inr e ↦ rw e held
        ]

    on_frames-P :
        (now : ℕ) (fs : List Bytes) (s : Subscribers fl c l) → P s → P (on_frames fl c l now fs s)
    unfolding on_frames
    on_frames-P now [] s h = h
    on_frames-P now (f ∷ fs) s h =
        on_frames-P now fs (on_frame fl c l now f s) (on_frame-P fl c l P at_sample now f s h)

    reconnected-P :
        (x : Result (StreamError fl c l) Stream × Actor fl c l)
        → Kept x
        → P (reconnected fl c l x).clients
    unfolding reconnected apply_subscription
    reconnected-P (ok n, a) h = at_reconnect a.clients h
    reconnected-P (err e, a) h = abort_stream-P e a h

    pub handle_notification-P :
        (now : ℕ) (n : Option ValueNotification) (a : Actor fl c l)
        → P a.clients
        → P (handle_notification fl c l now n a).clients
    unfolding handle_notification
    handle_notification-P now none a h =
        reconnected-P (on_conn fl c l reconnect_failed l.reconnect_stream a)
          (on_conn-Holds fl c l P at_sample reconnect_failed l.reconnect_stream a h)
    handle_notification-P now (some n) a h = elim (Bool-cases (n.uuid == c_rx)) [
      | inl e ↦ rw e (on_frames-P now (feed a.assembler n.value).0 a.clients h)
      | inr e ↦ rw e h
    ]
