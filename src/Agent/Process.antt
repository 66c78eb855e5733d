-- ===== src/Agent/Process.antt =====
-- src/agent/server.rs: an agent that serves, as its tasks run side by side: the select and the end
-- of `run`, `accept_loop`, the task of each connection, and `actor_loop` with `until_shutdown`.
-- Every step of a task may come after any step of another; an instant, a line, what the peer
-- reads and what a handler was doing are free.
pub mod Steps
pub mod Names
pub mod Follows
pub mod Order
pub mod Consistent
pub mod Control
pub mod Told
pub mod Ends
pub mod Emptied
pub mod Drains
use btwattch2_rs.Prelude.{
  ℕ, ◌+◌, ◌==◌, ◌≡◌, ◌≢◌, ◌↔◌, if◌then◌else◌, Bool, true, false, not, ◌&&◌, ◌||◌, List, [], ◌∷◌,
  ◌++◌, Option, none, some, is_some,
}
use btwattch2_rs.Prelude.Text.{Text}
use btwattch2_rs.Chrono.{Chrono}
use btwattch2_rs.Float.{Float}
use btwattch2_rs.Agent.Protocol.{Request, Response, stream_end}
use btwattch2_rs.Agent.Clients.{Channel, update}
use btwattch2_rs.Agent.Clients.Delivery.{mem}
use btwattch2_rs.Agent.Status.{new, set_connected}
use btwattch2_rs.Agent.Link.{Link}
use btwattch2_rs.Agent.Actor.{Actor, Reply, wants_poll}
use btwattch2_rs.Agent.Actor.PartWay.{PartWay}
use btwattch2_rs.Agent.Loop.{
  new_actor, Event, request, requests_end, tick, notification, shutdown, step, finish,
}
use btwattch2_rs.Agent.Handler.{AgentInfo, Exchange, is_measurement, handle_client}

-- How `run` ends once it served: as it was told to, or because the actor is gone.
pub data Outcome : Type 0 where
  told_to actor_stopped : Outcome

-- `run`: in its select, waiting for the actor, or over.
pub data Phase : Type 0 where
  serving joining : Phase
  over : Outcome → Phase

-- What `actor_loop` runs under `until_shutdown`: `handle`, `poll_device`, `handle_notification`.
pub data Work : Type 0 where
  answering : Request → ℕ → Work
  polling hearing : Work

abbrev pub event_of : Work → Event
event_of (answering r tx) = request r tx
event_of polling = tick
event_of hearing = notification

-- The channel of the request that is answered.
abbrev pub whose : Work → Option ℕ
whose (answering r tx) = some tx
whose polling = none
whose hearing = none

-- `actor_loop`: in its select, within a handler, letting go of the link, or over.
pub data ActorState : Type 0 where
  looping disconnecting ended : ActorState
  handling : Work → ActorState

-- The task of a connection: before its line was read, or relaying what its channel delivers.
pub data Task : Type 0 where
  reading : Task
  relaying : ℕ → Task

-- The requests that the actor has not taken up, each with the channel of its answer.
abbrev pub Pending : Type 0
Pending = List (Request × ℕ)

abbrev pub is_pending : ℕ → Pending → Bool
is_pending tx [] = false
is_pending tx ((r, k) ∷ rest) = tx == k || is_pending tx rest

-- The requests whose channels the actor can still send on: one that it is answering is the first.
abbrev pub waiting : ActorState → Pending → Pending
waiting (handling (answering r tx)) p = (r, tx) ∷ p
waiting (handling polling) p = p
waiting (handling hearing) p = p
waiting looping p = p
waiting disconnecting p = p
waiting ended p = p

-- What a step shows: a signal, a connection's line and what became of it, or a message from a
-- channel and whether the peer could be written it.
pub data Label (F E : Type 0) : Type 0 where
  internal signal_arrived : Label F E
  answered : Option Text → Exchange F E → Label F E
  passed_on : ℕ → Bool → Response F E → Label F E

module _ (fl : Float) (c : Chrono) (l : Link) where
  -- A `Notify` is whether it holds a permit; `signal` whether one waits to be taken.
  pub record Process : Type 0 where
    pub phase : Phase
    pub signal : Bool
    pub shutdown : Bool
    pub actor_shutdown : Bool
    pub actor_state : ActorState
    pub actor : Actor fl c l
    pub pending : Pending
    pub tasks : List Task
    -- The name of the next channel.
    pub next : ℕ

  -- `run` once it is connected. `began` is when the counters were made.
  unfoldable pub start_tasks : l.Conn → ℕ → Option Text → ℕ → ℕ → Process
  unfolding new_actor
  start_tasks conn interval metrics_listen began now =
      let stats = set_connected true (new interval metrics_listen began) in
      record {
        phase = serving;
        signal = false;
        shutdown = false;
        actor_shutdown = false;
        actor_state = looping;
        actor = new_actor fl c l conn stats (is_some metrics_listen) interval now;
        pending = [];
        tasks = [];
        next = 0;
      }

  -- The end of `accept_loop`, and the lines of `run` up to the wait for the actor.
  unfoldable pub leave : Process → Process
  leave s = record s { phase = joining; actor_shutdown = true }

  unfoldable pub set_channel : ℕ → Channel (Reply fl c l) → Actor fl c l → Actor fl c l
  set_channel tx ch a = record a {
    clients = record (a.clients) { channels = update tx ch a.clients.channels };
  }

  -- A request passed on takes a new channel along; a task that is done lets go of its handle.
  conclude : List Task → List Task → Exchange fl.F64 l.Error → Option Request → Process → Process
  unfolding set_channel
  conclude before after x (some r) s = record s {
    tasks = before ++ (relaying s.next ∷ after);
    pending = s.pending ++ (r, s.next) ∷ [];
    actor = set_channel s.next (record { queue = []; is_closed = false }) s.actor;
    next = s.next + 1;
  }
  conclude before after x none s = record s {
    tasks = before ++ after;
    shutdown = x.notified || s.shutdown;
  }

  -- `handle_client` up to its last loop.
  unfoldable pub exchanged : List Task → List Task → Exchange fl.F64 l.Error → Process → Process
  unfolding conclude
  exchanged before after x s = conclude before after x x.passed_on s

  -- One turn of the last loop: on with it after a measurement that could be written; else the task
  -- is done, and its end of the channel closed.
  unfoldable pub relayed :
      List Task → List Task → ℕ → Bool → Reply fl c l → List (Reply fl c l) → Process → Process
  unfolding set_channel
  relayed before after tx written r rest s =
      if written && is_measurement r
      then record s { actor = set_channel tx (record { queue = rest; is_closed = false }) s.actor }
      else record s {
        tasks = before ++ after;
        actor = set_channel tx (record { queue = []; is_closed = true }) s.actor;
      }

  -- The actor's loop is left: its clients are dismissed, and the link is let go.
  unfoldable pub break_off : Actor fl c l → Process → Process
  break_off a s = record s { actor = finish fl c l a; actor_state = disconnecting }

  unfoldable pub acted : Option (Actor fl c l) → Process → Process
  unfolding break_off
  acted none s = break_off s.actor s
  acted (some b) s = record s { actor = b; actor_state = looping }
