-- ===== src/Agent/Actor/Subscription.antt =====
-- The actor's subscription to the device: who takes it out, who keeps it, who loses it.
use btwattch2_rs.Prelude.{
  ℕ, ◌≡◌, refl, ap, sym, subst, ◌∙◌, arith, if◌then◌else◌, Bool, true, false, [], Option, none,
  some, is_some, Bytes, Result, ok, err,
}
use btwattch2_rs.Chrono.{Chrono}
use btwattch2_rs.Float.{Float}
use btwattch2_rs.Payload.{monitoring}
use btwattch2_rs.Connection.Assembler.{FrameKind}
use btwattch2_rs.Connection.Replies.{Stream}
use btwattch2_rs.Agent.Protocol.{subscribe, listen_failed, measurement_write_failed, write_failed}
use btwattch2_rs.Agent.Protocol
use btwattch2_rs.Agent.Status.{record_reconnect, record_sample, set_connected}
use btwattch2_rs.Agent.Clients.{reap, add}
use btwattch2_rs.Agent.Clients.Count.{broadcast-reconnects, abort_lem}
use btwattch2_rs.Agent.Link.{Link}
use btwattch2_rs.Agent.Actor.{
  StreamError, Actor, on_conn, relistened, relisten, apply_subscription, abort_stream, or_abort,
  after_poll, send_poll, subscribed, reaped, poll_device, wants_poll, write_and_wait, teardown,
  oneshot_from, oneshot, on_stats,
}
use btwattch2_rs.Agent.Actor.Requests.{send, admit, serve, handle}
use btwattch2_rs.Agent.Actor.Waits.{oneshot-Holds}

module _ (fl : Float) (c : Chrono) (l : Link) where
  -- A client that subscribes while a subscription is in place joins it: the stream, the
  -- part-received frame and the link are left as they are, and the ticker too, unless this client
  -- is the first reason to poll.
  pub subscribe_joins :
      (now tx : ℕ) (a : Actor fl c l) (st : Stream)
      → a.notifications ≡ some st
      → handle fl c l now subscribe tx a ≡ record a {
        clients = add tx (reap a.clients);
        ticker = if wants_poll fl c l (reaped fl c l a) then a.ticker else now;
      }
  unfolding handle serve admit subscribed reaped
  subscribe_joins now tx a st h = ground arith

  -- Where no subscription is in place, one that cannot be taken out is reported to the client that asked, which is not
  -- added; nobody else is told anything.
  subscribe_fails :
      (now tx : ℕ) (a : Actor fl c l) (conn : l.Conn) (e : l.Error)
      → a.notifications ≡ none
      → l.listen a.conn ≡ (err e, conn)
      → handle fl c l now subscribe tx a
        ≡ send fl c l tx
            (Protocol.error (listen_failed e))
            (record (reaped fl c l a) { conn = conn })
  unfolding handle serve admit subscribed reaped relisten relistened send
  subscribe_fails now tx a conn e h le = ground arith

  write_and_wait-teardown :
      (x : Result (StreamError fl c l) Bytes × Actor fl c l)
      → (teardown fl c l false x).1.notifications ≡ none
  unfolding teardown
  write_and_wait-teardown (r, a) = refl

  abbrev Lost : Result (StreamError fl c l) (Unit {0}) × Actor fl c l → Type 0
  Lost (ok u, a) = Unit {0}
  Lost (err e, a) = a.notifications ≡ none

  relistened-Lost :
      (x : Result (StreamError fl c l) Stream × Actor fl c l) → Lost (relistened fl c l x)
  unfolding relistened
  relistened-Lost (ok n, a) = tt
  relistened-Lost (err e, a) = refl

  relisten-Lost : (a : Actor fl c l) → Lost (relisten fl c l a)
  unfolding relisten
  relisten-Lost a = relistened-Lost _

  oneshot_from-none :
      (now : ℕ) (p : Bytes) (kind : FrameKind) (a : Actor fl c l)
      → (oneshot_from fl c l false now p kind a).1.notifications ≡ none
  unfolding oneshot_from
  oneshot_from-none now p kind a = go (relisten fl c l a) (relisten-Lost a)
    where
      go :
          (x : Result (StreamError fl c l) (Unit {0}) × Actor fl c l)
          → Lost x
          → let y : Result (StreamError fl c l) Bytes × Actor fl c l = elim x.0 [
            | ok u ↦ teardown fl c l false (write_and_wait fl c l now p kind x.1)
            | err e ↦ (err e, x.1)
          ] in
            y.1.notifications ≡ none
      go (ok u, b) e = write_and_wait-teardown (write_and_wait fl c l now p kind b)
      go (err x, b) e = e

  -- A one-shot request that found no subscription leaves none, whether it succeeds or fails and
  -- wherever it fails.
  pub oneshot_tears_down :
      (now : ℕ) (p : Bytes) (kind : FrameKind) (a : Actor fl c l)
      → a.notifications ≡ none
      → (oneshot fl c l now p kind a).1.notifications ≡ none
  unfolding oneshot
  oneshot_tears_down now p kind a h =
      ap (λ (n : Option Stream). (oneshot_from fl c l (is_some n) now p kind a).1.notifications) h
      ∙ oneshot_from-none now p kind a

  -- A link that a one-shot request re-established is not counted: whatever the link does, the
  -- number of reconnects is what it was.
  pub oneshot_counts_no_reconnect :
      (now : ℕ) (p : Bytes) (kind : FrameKind) (a : Actor fl c l)
      → (oneshot fl c l now p kind a).1.clients.stats.reconnects ≡ a.clients.stats.reconnects
  unfolding record_sample
  oneshot_counts_no_reconnect now p kind a =
      oneshot-Holds fl c l (λ s. s.stats.reconnects ≡ a.clients.stats.reconnects)
        (λ now m s h. broadcast-reconnects _ _ ∙ h) now p kind a refl

  abbrev GaveUp : Actor fl c l → Type 0
  GaveUp a = a.notifications ≡ none → (a.clients.list ≡ []) × (a.clients.stats.connected ≡ false)

  abbrev Has : Result (StreamError fl c l) (Unit {0}) × Actor fl c l → Type 0
  Has (ok u, a) = (n : Stream) × (a.notifications ≡ some n)
  Has (err e, a) = Unit {0}

  relistened-Has :
      (x : Result (StreamError fl c l) Stream × Actor fl c l) → Has (relistened fl c l x)
  unfolding relistened apply_subscription
  relistened-Has (ok n, a) = (n, refl)
  relistened-Has (err e, a) = tt

  relisten-Has : (a : Actor fl c l) → Has (relisten fl c l a)
  unfolding relisten
  relisten-Has a = relistened-Has _

  subscribed-Has :
      (o : Option Stream) (a : Actor fl c l) → a.notifications ≡ o → Has (subscribed fl c l o a)
  unfolding subscribed
  subscribed-Has none a h = relisten-Has a
  subscribed-Has (some n) a h = (n, h)

  abort_stream-GaveUp :
      (e : StreamError fl c l) (a : Actor fl c l) → GaveUp (abort_stream fl c l e a)
  unfolding abort_stream set_connected
  abort_stream-GaveUp e a h = ground (
    arith,
    abort_lem (Protocol.error e)
        (on_stats fl c l (set_connected false) (record a { notifications = none })).clients,
  )

  or_abort-GaveUp :
      (x : Result (StreamError fl c l) (Unit {0}) × Actor fl c l)
      → Has x
      → GaveUp (or_abort fl c l x)
  unfolding or_abort
  or_abort-GaveUp (ok u, a) (n, h) = λ gone. absurd (cc)
  or_abort-GaveUp (err e, a) h = abort_stream-GaveUp e a

  after_poll-GaveUp :
      (x : Result (StreamError fl c l) Bool × Actor fl c l)
      → ((n : Stream) × (x.1.notifications ≡ some n))
      → GaveUp (after_poll fl c l x)
  unfolding after_poll
  after_poll-GaveUp (ok true, a) h =
      or_abort-GaveUp _ (relisten-Has (on_stats fl c l record_reconnect a))
  after_poll-GaveUp (ok false, a) (n, h) = λ gone. absurd (cc)
  after_poll-GaveUp (err e, a) h = abort_stream-GaveUp e a

  send_poll-GaveUp :
      (x : Result (StreamError fl c l) (Unit {0}) × Actor fl c l)
      → Has x
      → GaveUp (send_poll fl c l x)
  unfolding send_poll
  send_poll-GaveUp (ok u, a) (n, h) =
      after_poll-GaveUp (on_conn fl c l measurement_write_failed (l.write monitoring) a)
        (n, same ∙ h)
    where
      same :
          (on_conn fl c l measurement_write_failed (l.write monitoring) a).1.notifications
          ≡ a.notifications
      same = ground arith
  send_poll-GaveUp (err e, a) h = abort_stream-GaveUp e a

  -- No client is left waiting on a link that the actor has given up: when a poll was wanted and
  -- ends without a subscription, every client has been dismissed and the link is reported as down.
  pub poll_device_gives_up :
      (a : Actor fl c l)
      → wants_poll fl c l (reaped fl c l a) ≡ true
      → (poll_device fl c l a).notifications ≡ none
      → ((poll_device fl c l a).clients.list ≡ [])
        × ((poll_device fl c l a).clients.stats.connected ≡ false)
  poll_device_gives_up a w h =
      subst GaveUp (sym polled) (send_poll-GaveUp _ (subscribed-Has r.notifications r refl)) h
    where
      r : Actor fl c l
      r = reaped fl c l a

      polled : poll_device fl c l a ≡ send_poll fl c l (subscribed fl c l r.notifications r)
      polled = unfold poll_device in rw w
