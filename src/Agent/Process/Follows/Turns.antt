-- ===== src/Agent/Process/Follows/Turns.antt =====
-- src/agent/server.rs, `actor_loop`: what the subscribers get in one turn of the actor.
use btwattch2_rs.Prelude.{ℕ, ◌≡◌, sym, subst, List}
use btwattch2_rs.Chrono.{Chrono}
use btwattch2_rs.Float.{Float}
use btwattch2_rs.Agent.Protocol.{stream_end}
use btwattch2_rs.Agent.Clients.Count.{end-list}
use btwattch2_rs.Agent.Link.{Link}
use btwattch2_rs.Agent.Actor.{Actor, Reply, Subscribers}
use btwattch2_rs.Agent.Actor.Invariant.{handle-P}
use btwattch2_rs.Agent.Actor.PartWay.{Abandoned, PartWay-P, Handled-P}
use btwattch2_rs.Agent.Loop.{step, finish}
use btwattch2_rs.Agent.Loop.Run.{notification-P, tick-P}
use btwattch2_rs.Agent.Process.{
  ActorState, Work, answering, polling, hearing, looping, handling, waiting, event_of, whose,
  Pending, Process, break_off, acted,
}
use btwattch2_rs.Agent.Process.Steps.{IsReady}
use btwattch2_rs.Agent.Process.Follows.{View, Views, View-dismissed, View-Keeps, View-Serves}

module _ (fl : Float) (c : Chrono) (l : Link) where
  abbrev Taking : Type 0
  Taking = ℕ → List (Reply fl c l)

  module _ (start : Subscribers fl c l) where
    pub break_off-Views :
        (taken : Taking) (a : Actor fl c l) (s : Process fl c l)
        → View fl c l start taken s.pending s.next a.clients
        → Views fl c l start taken (break_off fl c l a s)
    unfolding break_off finish
    break_off-Views taken a s h =
        View-dismissed fl c l start taken s.pending s.next a.clients _
          (end-list stream_end a.clients) h

    -- What holds of the actor out of a handler.
    pub Views-at :
        (taken : Taking) (state : ActorState) (s : Process fl c l)
        → s.actor_state ≡ state
        → Views fl c l start taken s
        → View fl c l start taken (waiting state s.pending) s.next s.actor.clients
    Views-at taken state s e h =
        subst (λ st. View fl c l start taken (waiting st s.pending) s.next s.actor.clients) e h

    pub taken_up-Views :
        (taken : Taking) (s : Process fl c l) (w : Work) (rest : Pending)
        → s.actor_state ≡ looping
        → IsReady fl c l s w rest
        → Views fl c l start taken s
        → Views fl c l start taken (record s { pending = rest; actor_state = handling w })
    taken_up-Views taken s w rest e ready h = same w ready
      where
        same :
            (w : Work)
            → IsReady fl c l s w rest
            → View fl c l start taken (waiting (handling w) rest) s.next s.actor.clients
        same (answering r tx) q =
            subst (λ p. View fl c l start taken p s.next s.actor.clients) q
              (Views-at taken looping s e h)
        same polling q =
            subst (λ p. View fl c l start taken p s.next s.actor.clients) (sym q.1)
              (Views-at taken looping s e h)
        same hearing q =
            subst (λ p. View fl c l start taken p s.next s.actor.clients) (sym q)
              (Views-at taken looping s e h)

    pub handled-Views :
        (taken : Taking) (s : Process fl c l) (now : ℕ) (w : Work)
        → s.actor_state ≡ handling w
        → Views fl c l start taken s
        → Views fl c l start taken (acted fl c l (step fl c l now (event_of w) s.actor) s)
    unfolding acted step
    handled-Views taken s now (answering r tx) e h =
        handle-P fl c l tx _ _ (View-Serves fl c l start taken r tx s.pending s.next) now r s.actor
          (Views-at taken (handling (answering r tx)) s e h)
    handled-Views taken s now polling e h =
        tick-P fl c l _ (View-Keeps fl c l start taken s.pending s.next) s.actor
          (Views-at taken (handling polling) s e h)
    handled-Views taken s now hearing e h =
        notification-P fl c l _ (View-Keeps fl c l start taken s.pending s.next) now
          s.actor.notifications s.actor (Views-at taken (handling hearing) s e h)

    pub Abandoned-View :
        (taken : Taking) (n : ℕ) (p : Pending) (w : Work) {s t : Subscribers fl c l}
        → Abandoned fl c l s (whose w) t
        → View fl c l start taken (waiting (handling w) p) n s
        → View fl c l start taken p n t
    Abandoned-View taken n p (answering r tx) part h =
        Handled-P fl c l tx _ _ (View-Serves fl c l start taken r tx p n) part h
    Abandoned-View taken n p polling part h =
        PartWay-P fl c l _ (View-Keeps fl c l start taken p n) part h
    Abandoned-View taken n p hearing part h =
        PartWay-P fl c l _ (View-Keeps fl c l start taken p n) part h
