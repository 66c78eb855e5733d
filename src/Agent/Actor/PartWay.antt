-- ===== src/Agent/Actor/PartWay.antt =====
-- src/agent/server.rs, `until_shutdown`: a handler that the shutdown abandons half way. It stops
-- at one of its awaits, so of the changes that the handlers make to the clients some have been
-- made, in some order, and the others have not.
use btwattch2_rs.Prelude.{ℕ, Bool, Option, none, some}
use btwattch2_rs.Chrono.{Chrono}
use btwattch2_rs.Float.{Float}
use btwattch2_rs.Connection.Measure.{Measurement}
use btwattch2_rs.Connection.Replies.{ValueNotification}
use btwattch2_rs.Agent.Protocol.{Request, from_measurement}
use btwattch2_rs.Agent.Status.{record_sample, set_connected, record_reconnect}
use btwattch2_rs.Agent.Clients.{try_send, add, broadcast, reap, abort}
use btwattch2_rs.Agent.Link.{Link}
use btwattch2_rs.Agent.Actor.{Reply, Subscribers, Actor, poll_device, handle_notification}
use btwattch2_rs.Agent.Actor.Requests.{handle}
use btwattch2_rs.Agent.Actor.Counted.{Keeps, poll_device-P, handle_notification-P}
use btwattch2_rs.Agent.Actor.Invariant.{Serves, handle-P}

module _ (fl : Float) (c : Chrono) (l : Link) where
  -- The clients after some of the changes that the handlers consist of.
  pub data PartWay (s : Subscribers fl c l) : Subscribers fl c l → Type 0 where
    untouched : PartWay s s
    sampled :
        (now : ℕ) (m : Measurement fl c) {t : Subscribers fl c l}
        → PartWay s t
        → PartWay s (
            broadcast
              (from_measurement fl c l.Error m)
              (record t { stats = record_sample now m t.stats }))
    reaped : {t : Subscribers fl c l} → PartWay s t → PartWay s (reap t)
    aborted : (r : Reply fl c l) {t : Subscribers fl c l} → PartWay s t → PartWay s (abort r t)
    connected :
        (up : Bool) {t : Subscribers fl c l}
        → PartWay s t
        → PartWay s (record t { stats = set_connected up t.stats })
    reconnected :
        {t : Subscribers fl c l}
        → PartWay s t
        → PartWay s (record t { stats = record_reconnect t.stats })

  -- The clients when a request on the channel `tx` is dealt with, or while it is: the client is
  -- added or answered last.
  pub data Handled (s : Subscribers fl c l) (tx : ℕ) : Subscribers fl c l → Type 0 where
    so_far : {t : Subscribers fl c l} → PartWay s t → Handled s tx t
    added : {t : Subscribers fl c l} → PartWay s t → Handled s tx (add tx t)
    replied :
        (r : Reply fl c l) {t : Subscribers fl c l}
        → PartWay s t
        → Handled s tx (record t { channels = try_send tx r t.channels })

  -- The clients when a handler is abandoned, which is that of a request on the channel `some tx`.
  abbrev pub Abandoned : Subscribers fl c l → Option ℕ → Subscribers fl c l → Type 0
  Abandoned s none t = PartWay s t
  Abandoned s (some tx) t = Handled s tx t

  -- A property that the single changes keep holds wherever a handler is abandoned.
  pub PartWay-P :
      (P : Subscribers fl c l → Type 0)
      → Keeps fl c l P
      → {s t : Subscribers fl c l} → PartWay s t
      → P s
      → P t
  PartWay-P P v untouched h = h
  PartWay-P P v (sampled now m w) h = v.at_sample now m _ (PartWay-P P v w h)
  PartWay-P P v (reaped w) h = v.at_reap _ (PartWay-P P v w h)
  PartWay-P P v (aborted r w) h = v.at_abort r _ (PartWay-P P v w h)
  PartWay-P P v (connected up w) h = v.at_connected up _ (PartWay-P P v w h)
  PartWay-P P v (reconnected w) h = v.at_reconnect _ (PartWay-P P v w h)

  pub Handled-P :
      (tx : ℕ) (P Q : Subscribers fl c l → Type 0)
      → Serves fl c l tx P Q
      → {s t : Subscribers fl c l} → Handled s tx t
      → P s
      → Q t
  Handled-P tx P Q v (so_far w) h = v.at_end _ (PartWay-P P (v.keeps) w h)
  Handled-P tx P Q v (added w) h = v.at_add _ (PartWay-P P (v.keeps) w h)
  Handled-P tx P Q v (replied r w) h = v.at_send r _ (PartWay-P P (v.keeps) w h)

  pub Abandoned-P :
      (P : Subscribers fl c l → Type 0) (whose : Option ℕ)
      → ((tx : ℕ) → Serves fl c l tx P P)
      → {s t : Subscribers fl c l} → Abandoned s whose t
      → P s
      → P t
  Abandoned-P P none serves w h = PartWay-P P (serves 0).keeps w h
  Abandoned-P P (some tx) serves w h = Handled-P tx P P (serves tx) w h

  PartWay-Keeps : (s : Subscribers fl c l) → Keeps fl c l (PartWay s)
  PartWay-Keeps s = record {
    at_sample = λ now m t w. sampled now m w;
    at_reap = λ t w. reaped w;
    at_abort = λ r t w. aborted r w;
    at_connected = λ up t w. connected up w;
    at_reconnect = λ t w. reconnected w;
  }

  -- A handler consists of these changes: one that runs to its end has made them all.
  pub handle-Handled :
      (now : ℕ) (request : Request) (tx : ℕ) (a : Actor fl c l)
      → Handled a.clients tx (handle fl c l now request tx a).clients
  handle-Handled now request tx a =
      handle-P fl c l tx (PartWay a.clients) (Handled a.clients tx)
        (record {
          keeps = PartWay-Keeps a.clients;
          at_end = λ t w. so_far w;
          at_add = λ t w. added w;
          at_send = λ r t w. replied r w;
        })
        now request a untouched

  pub poll_device-PartWay : (a : Actor fl c l) → PartWay a.clients (poll_device fl c l a).clients
  poll_device-PartWay a =
      poll_device-P fl c l (PartWay a.clients) (PartWay-Keeps a.clients) a untouched

  pub handle_notification-PartWay :
      (now : ℕ) (n : Option ValueNotification) (a : Actor fl c l)
      → PartWay a.clients (handle_notification fl c l now n a).clients
  handle_notification-PartWay now n a =
      handle_notification-P fl c l (PartWay a.clients) (PartWay-Keeps a.clients) now n a untouched
