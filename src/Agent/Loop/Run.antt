-- ===== src/Agent/Loop/Run.antt =====
-- The actor's invariant over a whole schedule, and how a schedule ends.
use btwattch2_rs.Prelude.{
  ℕ, ◌≡◌, ap, ◌∙◌, length, if◌then◌else◌, Bool-cases, inl, inr, List, [], ◌∷◌, Option, none, some,
}
use btwattch2_rs.Chrono.{Chrono}
use btwattch2_rs.Float.{Float}
use btwattch2_rs.Connection.Replies.{Stream}
use btwattch2_rs.Agent.Protocol.{stream_end}
use btwattch2_rs.Agent.Clients.Count.{end-IsCounted, end-IsBounded, end-list}
use btwattch2_rs.Agent.Link.{Link}
use btwattch2_rs.Agent.Actor.{Actor, Subscribers, wants_poll, poll_device}
use btwattch2_rs.Agent.Actor.Counted.{Keeps, poll_device-P, handle_notification-P}
use btwattch2_rs.Agent.Actor.Invariant.{Serves, handle-P, IsConsistent, IsConsistent-Serves}
use btwattch2_rs.Agent.Loop.{
  Event, request, requests_end, tick, notification, shutdown, take_notification, step, finish,
  continue, actor_loop,
}

module _ (fl : Float) (c : Chrono) (l : Link) where
  abbrev pub Safe : Actor fl c l → Type 0
  Safe a = IsConsistent fl c l a.clients

  abbrev keeps_safe : (tx : ℕ) → Serves fl c l tx (IsConsistent fl c l) (IsConsistent fl c l)
  keeps_safe = IsConsistent-Serves fl c l

  abbrev pub Stepped : Option (Actor fl c l) → Type 0
  Stepped none = Unit {0}
  Stepped (some b) = Safe b

  -- What the clients keep when the stream, or the ticker, wakes the actor.
  module _ (P : Subscribers fl c l → Type 0) (keeps : Keeps fl c l P) where
    pub notification-P :
        (now : ℕ) (o : Option Stream) (a : Actor fl c l)
        → P a.clients
        → P (take_notification fl c l now o a).clients
    unfolding take_notification
    notification-P now none a h = h
    notification-P now (some st) a h = handle_notification-P fl c l P keeps now _ _ h

    pub tick-P :
        (a : Actor fl c l)
        → P a.clients
        → P (if wants_poll fl c l a then poll_device fl c l a else a).clients
    tick-P a h = elim (Bool-cases (wants_poll fl c l a)) [
      | inl e ↦ rw e (poll_device-P fl c l P keeps a h)
      | inr e ↦ rw e h
    ]

  -- Whatever wakes the actor, and whatever the link does then, the count stays that of the
  -- subscribers and the queues stay within their bound.
  pub step-Safe : (now : ℕ) (e : Event) (a : Actor fl c l) → Safe a → Stepped (step fl c l now e a)
  unfolding step
  step-Safe now (request r tx) a h =
      handle-P fl c l tx (IsConsistent fl c l) (IsConsistent fl c l) (keeps_safe tx) now r a h
  step-Safe now requests_end a h = tt
  step-Safe now tick a h = tick-P (IsConsistent fl c l) (keeps_safe 0).keeps a h
  step-Safe now notification a h =
      notification-P (IsConsistent fl c l) (keeps_safe 0).keeps now a.notifications a h
  step-Safe now shutdown a h = tt

  -- The loop is over: nobody is subscribed any more, and the counters say so.
  abbrev pub Over : Actor fl c l → Type 0
  Over a = Safe a × (a.clients.list ≡ []) × (a.clients.stats.clients ≡ 0)

  pub finish-Over : (a : Actor fl c l) → Safe a → Over (finish fl c l a)
  unfolding finish
  finish-Over a h =
      let counted = end-IsCounted stream_end a.clients in
      let gone = end-list stream_end a.clients in
      (
        record { counted = counted; bounded = end-IsBounded stream_end a.clients h.bounded },
        gone,
        counted ∙ ap length gone,
      )

  -- From a consistent start, every schedule of requests, ticks, notifications and shutdowns ends
  -- with nobody subscribed, a reported count of zero and every queue within its bound.
  pub actor_loop-Over :
      (es : List (ℕ × Event)) (a : Actor fl c l) → Safe a → Over (actor_loop fl c l es a)
  unfolding actor_loop
  actor_loop-Over [] a h = finish-Over a h
  actor_loop-Over ((now, e) ∷ es) a h =
      go (step fl c l now e a) (step-Safe now e a h) (actor_loop-Over es)
    where
      go :
          (o : Option (Actor fl c l))
          → Stepped o
          → ((b : Actor fl c l) → Safe b → Over (actor_loop fl c l es b))
          → Over (continue fl c l (actor_loop fl c l es) a o)
      go none s ih = finish-Over a h
      go (some b) s ih = ih b s
