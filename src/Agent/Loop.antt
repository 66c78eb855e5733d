-- ===== src/Agent/Loop.antt =====
-- src/agent/server.rs, `actor_loop`: the actor against a schedule of what wakes it.
pub mod Run
use btwattch2_rs.Prelude.{ℕ, ◌-◌, if◌then◌else◌, Bool, List, [], ◌∷◌, Option, none, some}
use btwattch2_rs.Chrono.{Chrono}
use btwattch2_rs.Float.{Float}
use btwattch2_rs.Connection.Replies.{Stream, closed, deadline, event, ValueNotification}
use btwattch2_rs.Connection.Measure.{Measurement}
use btwattch2_rs.Agent.Status.{AgentStats}
use btwattch2_rs.Agent.Protocol.{Request, stream_end}
use btwattch2_rs.Agent.Clients.{new_clients, end}
use btwattch2_rs.Agent.Link.{Link}
use btwattch2_rs.Agent.Actor.{Actor, wants_poll, poll_device, handle_notification}
use btwattch2_rs.Agent.Actor.Requests.{handle}

-- What the `select!` takes up: a request with the channel for its answer, the end of the
-- requests (the last handle is gone), a tick, the next notification, or the shutdown signal. One
-- that arrives while a handler runs is taken as one that arrives before it.
pub data Event : Type 0 where
  request : Request → ℕ → Event
  requests_end tick notification shutdown : Event

-- The stream's next item; the deadline of a wait means nothing outside one.
pub next_item : Stream → Option ValueNotification × Stream
next_item closed = (none, closed)
next_item (deadline rest) = next_item rest
next_item (event n rest) = (some n, rest)

module _ (fl : Float) (c : Chrono) (l : Link) where
  -- The ticker fires at once, so it counts from a period ago.
  unfoldable pub new_actor : l.Conn → AgentStats (Measurement fl c) → Bool → ℕ → ℕ → Actor fl c l
  unfolding new_clients
  new_actor conn stats poll_always period now = record {
    conn = conn;
    notifications = none;
    assembler = [];
    ticker = now - period;
    clients = new_clients stats;
    poll_always = poll_always;
  }

  -- Inert while no stream is subscribed.
  pub take_notification : ℕ → Option Stream → Actor fl c l → Actor fl c l
  unfolding next_item
  take_notification now none a = a
  take_notification now (some st) a =
      let (n, rest) = next_item st in
      handle_notification fl c l now n (record a { notifications = some rest })

  -- `none` ends the loop.
  unfoldable pub step : ℕ → Event → Actor fl c l → Option (Actor fl c l)
  unfolding take_notification
  step now (request r tx) a = some (handle fl c l now r tx a)
  step now requests_end a = none
  step now tick a = some (if wants_poll fl c l a then poll_device fl c l a else a)
  step now notification a = some (take_notification now a.notifications a)
  step now shutdown a = none

  -- The clients are owed a clean end, and the link is let go.
  unfoldable pub finish : Actor fl c l → Actor fl c l
  finish a = record a { clients = end stream_end a.clients; conn = l.disconnect a.conn }

  continue : (Actor fl c l → Actor fl c l) → Actor fl c l → Option (Actor fl c l) → Actor fl c l
  unfolding finish
  continue again a none = finish a
  continue again a (some b) = again b

  unfoldable pub actor_loop : List (ℕ × Event) → Actor fl c l → Actor fl c l
  unfolding step continue
  actor_loop [] a = finish a
  actor_loop ((now, e) ∷ es) a = continue (actor_loop es) a (step now e a)
