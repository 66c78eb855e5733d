-- ===== src/Agent/Actor.antt =====
-- src/agent/server.rs, `Actor`: the one owner of the link, its subscription, polls and one-shot
-- exchanges. A call that reads the clock takes the instant `now`. Logging does not show.
pub mod Requests
pub mod Replies
pub mod Waits
pub mod Counted
pub mod Invariant
pub mod Subscription
pub mod Stranded
pub mod PartWay
use btwattch2_rs.Prelude.{
  ℕ, zero, suc, ◌+◌, ◌==◌, if◌then◌else◌, Bool, true, false, not, ◌||◌, List, [], ◌∷◌, ◌++◌, Option,
  none, some, is_some, Bytes, Result, ok, err,
}
use btwattch2_rs.Chrono.{Chrono}
use btwattch2_rs.Float.{Float}
use btwattch2_rs.Payload.{rtc, on, off, blink_led, monitoring}
use btwattch2_rs.Connection.Assembler.{FrameKind, command, measurement, feed}
use btwattch2_rs.Connection.Measure.{Measurement, read_measure, try_measurement, command_status}
use btwattch2_rs.Connection.Replies.{
  Stream, closed, deadline, event, ValueNotification, Wait, found, ended, timed_out, c_rx,
  next_matching_frame,
}
use btwattch2_rs.Connection.Link.{Op, ◌>>=◌, ◌>>◌}
use btwattch2_rs.Agent.Protocol.{
  Request, set_rtc, power, get_rtc, test_led, subscribe, ping, shutdown, Message, listen_failed,
  measurement_write_failed, reconnect_failed, write_failed, no_notification_stream, stream_closed,
  command_timed_out, reply_too_short, get_rtc_failed, invalid_time, year_out_of_range, Response,
  stream_end, command_result, from_measurement,
}
use btwattch2_rs.Agent.Protocol
use btwattch2_rs.Agent.Status.{AgentStats, record_sample, set_connected, record_reconnect}
use btwattch2_rs.Agent.Clients.{Clients, try_send, is_empty, broadcast, reap, add, abort, end}
use btwattch2_rs.Agent.Link.{Link}

module _ (fl : Float) (c : Chrono) (l : Link) where
  abbrev pub Reply : Type 0
  Reply = Response fl.F64 l.Error

  abbrev pub StreamError : Type 0
  StreamError = Message l.Error

  abbrev pub Subscribers : Type 0
  Subscribers = Clients (Measurement fl c) Reply

  pub record Actor : Type 0 where
    pub conn : l.Conn
    pub notifications : Option Stream
    -- The assembler's buffer.
    pub assembler : Bytes
    -- The instant from which the ticker counts its period.
    pub ticker : ℕ
    pub clients : Subscribers
    pub poll_always : Bool

  abbrev pub on_stats :
      (AgentStats (Measurement fl c) → AgentStats (Measurement fl c)) → Actor → Actor
  on_stats f a = record a { clients = record (a.clients) { stats = f a.clients.stats } }

  -- A call of the connection, its error turned into the actor's.
  abbrev on_conn {ℓ} :
      {A : Type ℓ} → (l.Error → StreamError) → Op l.Conn l.Error A → Op Actor StreamError A
  on_conn g m a =
      let (r, conn) = m a.conn in
      elim r [
        | ok x ↦ (ok x, record a { conn = conn })
        | err e ↦ (err (g e), record a { conn = conn })
      ]

  unfoldable pub wants_poll : Actor → Bool
  wants_poll a = a.poll_always || not (is_empty a.clients)

  unfoldable pub apply_subscription : Stream → Actor → Actor
  apply_subscription n a = record a { notifications = some n; assembler = [] }

  relistened : Result StreamError Stream × Actor → Result StreamError (Unit {0}) × Actor
  relistened (ok n, a) = (ok tt, apply_subscription n a)
  relistened (err e, a) = (err e, record a { notifications = none })

  unfoldable pub relisten : Op Actor StreamError (Unit {0})
  unfolding relistened apply_subscription
  relisten a = relistened (on_conn listen_failed l.listen a)

  unfoldable pub abort_stream : StreamError → Actor → Actor
  abort_stream reason a =
      let down = on_stats (set_connected false) (record a { notifications = none }) in
      record down { clients = abort (Protocol.error reason) down.clients }

  -- What `if let Err(e) = .. { self.abort_stream(e) }` does with a result.
  or_abort : Result StreamError (Unit {0}) × Actor → Actor
  unfolding abort_stream
  or_abort (ok u, a) = a
  or_abort (err e, a) = abort_stream e a

  after_poll : Result StreamError Bool × Actor → Actor
  unfolding relisten or_abort
  after_poll (ok true, a) = or_abort (relisten (on_stats record_reconnect a))
  after_poll (ok false, a) = a
  after_poll (err e, a) = abort_stream e a

  send_poll : Result StreamError (Unit {0}) × Actor → Actor
  unfolding after_poll
  send_poll (ok u, a) = after_poll (on_conn measurement_write_failed (l.write monitoring) a)
  send_poll (err e, a) = abort_stream e a

  -- A subscription, unless one is in place.
  pub subscribed : Option Stream → Op Actor StreamError (Unit {0})
  unfolding relisten
  subscribed (some n) a = (ok tt, a)
  subscribed none a = relisten a

  pub reaped : Actor → Actor
  reaped a = record a { clients = reap a.clients }

  unfoldable pub poll_device : Actor → Actor
  unfolding reaped send_poll subscribed
  poll_device a =
      let r = reaped a in if not (wants_poll r) then r else send_poll (subscribed r.notifications r)

  -- The measurement recorded and broadcast, with no client attached too.
  publish : ℕ → Option (Measurement fl c) → Subscribers → Subscribers
  publish now none s = s
  publish now (some m) s =
      broadcast (from_measurement fl c l.Error m) (record s { stats = record_sample now m s.stats })

  unfoldable pub on_frame : ℕ → Bytes → Subscribers → Subscribers
  unfolding publish
  on_frame now frame s = publish now (try_measurement fl c frame) s

  pub on_frames : ℕ → List Bytes → Subscribers → Subscribers
  unfolding on_frame
  on_frames now [] s = s
  on_frames now (f ∷ fs) s = on_frames now fs (on_frame now f s)

  reconnected : Result StreamError Stream × Actor → Actor
  unfolding abort_stream apply_subscription
  reconnected (ok n, a) = apply_subscription n (on_stats record_reconnect a)
  reconnected (err e, a) = abort_stream e a

  unfoldable pub handle_notification : ℕ → Option ValueNotification → Actor → Actor
  unfolding reconnected on_frames
  handle_notification now none a = reconnected (on_conn reconnect_failed l.reconnect_stream a)
  handle_notification now (some n) a =
      let (frames, rest) = feed a.assembler n.value in
      if not (n.uuid == c_rx)
      then a
      else record a { assembler = rest; clients = on_frames now frames a.clients }

  wait_result : Wait → Result StreamError Bytes
  wait_result (found frame) = ok frame
  wait_result ended = err stream_closed
  wait_result timed_out = err command_timed_out

  wait_on : ℕ → FrameKind → Option Stream → Op Actor StreamError Bytes
  unfolding wait_result on_frame
  wait_on now kind none a = (err no_notification_stream, a)
  wait_on now kind (some st) a =
      let out = next_matching_frame kind (on_frame now) st a.assembler a.clients in
      (
        wait_result out.result,
        record a { notifications = some out.stream; assembler = out.buf; clients = out.state },
      )

  unfoldable pub wait_for_frame : ℕ → FrameKind → Op Actor StreamError Bytes
  unfolding wait_on
  wait_for_frame now kind a = wait_on now kind a.notifications a

  resubscribe : Bool → Op Actor StreamError (Unit {0})
  unfolding relisten
  resubscribe true a = relisten a
  resubscribe false a = (ok tt, a)

  unfoldable pub write_and_wait : ℕ → Bytes → FrameKind → Op Actor StreamError Bytes
  unfolding resubscribe wait_for_frame
  write_and_wait now payload kind = do
    reconnected ← on_conn write_failed (l.write payload)
    resubscribe reconnected
    wait_for_frame now kind

  teardown : Bool → Result StreamError Bytes × Actor → Result StreamError Bytes × Actor
  teardown true (r, a) = (r, a)
  teardown false (r, a) = (r, record a { notifications = none })

  -- A temporary subscription, unless one was in place, is torn down afterwards.
  oneshot_from : Bool → ℕ → Bytes → FrameKind → Op Actor StreamError Bytes
  unfolding write_and_wait teardown relisten
  oneshot_from true now payload kind = write_and_wait now payload kind
  oneshot_from false now payload kind = do
    relisten
    λ a. teardown false (write_and_wait now payload kind a)

  unfoldable pub oneshot : ℕ → Bytes → FrameKind → Op Actor StreamError Bytes
  unfolding oneshot_from
  oneshot now payload kind a = oneshot_from (is_some a.notifications) now payload kind a
