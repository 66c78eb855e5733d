-- ===== src/Agent/Process/Consistent.antt =====
-- The clients of the agent, over all interleavings of its tasks.
use btwattch2_rs.Prelude.{
  ℕ, ◌≤◌, ◌==◌, ◌≡◌, ap, subst, sym, arith, Bool, false, not, ◌&&◌, Bool-cases, inl, inr, length,
  List, [], ◌∷◌, Option, none, some,
}
use btwattch2_rs.Prelude.Text.{Text}
use btwattch2_rs.Chrono.{Chrono}
use btwattch2_rs.Float.{Float}
use btwattch2_rs.Agent.Protocol.{Request}
use btwattch2_rs.Agent.Clients.{Channel, client_queue_len}
use btwattch2_rs.Agent.Clients.Count.{IsBounded}
use btwattch2_rs.Agent.Link.{Link}
use btwattch2_rs.Agent.Actor.{Actor, Reply}
use btwattch2_rs.Agent.Actor.Invariant.{IsConsistent, IsConsistent-Serves}
use btwattch2_rs.Agent.Actor.PartWay.{Abandoned-P}
use btwattch2_rs.Agent.Handler.{Exchange, is_measurement, handle_client}
use btwattch2_rs.Agent.Loop.Run.{Safe, Over, Stepped, step-Safe, finish-Over}
use btwattch2_rs.Agent.Process.{
  ActorState, looping, handling, disconnecting, ended, event_of, whose, Task, Process, Label,
  set_channel, conclude, exchanged, relayed, break_off, acted, leave,
}
use btwattch2_rs.Agent.Process.Steps.{
  Step, signalled, accepted, take_signal, take_shutdown, actor_gone, joined, line_read,
  message_relayed, channel_closed, shut_down, requests_over, taken_up, handled, abandoned, let_go,
  Reach, begun, then_step,
}

module _ (fl : Float) (c : Chrono) (l : Link) where
  -- The actor is out of its loop.
  abbrev pub HasLeft : ActorState → Type 0
  HasLeft looping = ⊥
  HasLeft (handling w) = ⊥
  HasLeft disconnecting = Unit {0}
  HasLeft ended = Unit {0}

  -- The clients are consistent, and dismissed once the actor's loop is left.
  pub record Steady (state : ActorState) (a : Actor fl c l) : Type 0 where
    pub safe : Safe fl c l a
    pub dismissed : HasLeft state → Over fl c l a

  set_channel-Safe :
      (tx : ℕ) (ch : Channel (Reply fl c l)) (a : Actor fl c l)
      → length ch.queue ≤ client_queue_len
      → Safe fl c l a
      → Safe fl c l (set_channel fl c l tx ch a)
  unfolding set_channel
  set_channel-Safe tx ch a small h = record { counted = h.counted; bounded = bounded }
    where
      bounded : IsBounded (set_channel fl c l tx ch a).clients.channels
      bounded k = elim (Bool-cases (k == tx)) [ inl e ↦ rw e small | inr e ↦ rw e (h.bounded k) ]

  set_channel-Steady :
      (state : ActorState) (tx : ℕ) (ch : Channel (Reply fl c l)) (a : Actor fl c l)
      → length ch.queue ≤ client_queue_len
      → Steady state a
      → Steady state (set_channel fl c l tx ch a)
  unfolding set_channel
  set_channel-Steady state tx ch a small h = record {
    safe = safe;
    dismissed = λ out. (safe, (h.dismissed out).1, (h.dismissed out).2);
  }
    where
      safe : Safe fl c l (set_channel fl c l tx ch a)
      safe = set_channel-Safe tx ch a small (h.safe)

  abbrev pub IsSteady : Process fl c l → Type 0
  IsSteady s = Steady s.actor_state s.actor

  conclude-IsSteady :
      (before after : List Task) (x : Exchange fl.F64 l.Error) (o : Option Request)
      (s : Process fl c l)
      → IsSteady s
      → IsSteady (conclude fl c l before after x o s)
  unfolding conclude
  conclude-IsSteady before after x none s h = h
  conclude-IsSteady before after x (some r) s h =
      set_channel-Steady (s.actor_state) _ _ (s.actor) (omega arith) h

  exchanged-IsSteady :
      (before after : List Task) (x : Exchange fl.F64 l.Error) (s : Process fl c l)
      → IsSteady s
      → IsSteady (exchanged fl c l before after x s)
  unfolding exchanged
  exchanged-IsSteady before after x s h = conclude-IsSteady before after x x.passed_on s h

  relayed-IsSteady :
      (before after : List Task) (tx : ℕ) (written : Bool) (r : Reply fl c l)
      (rest : List (Reply fl c l)) (s : Process fl c l)
      → (s.actor.clients.channels tx).queue ≡ r ∷ rest
      → IsSteady s
      → IsSteady (relayed fl c l before after tx written r rest s)
  unfolding relayed
  relayed-IsSteady before after tx written r rest s e h =
      elim (Bool-cases (written && is_measurement r)) [
        | inl on ↦ rw on (
            set_channel-Steady (s.actor_state) tx _ (s.actor)
              (omega (arith, ap length e, h.safe.bounded tx)) h)
        | inr off ↦ rw off (set_channel-Steady (s.actor_state) tx _ (s.actor) (omega arith) h)
      ]

  break_off-IsSteady :
      (a : Actor fl c l) (s : Process fl c l) → Safe fl c l a → IsSteady (break_off fl c l a s)
  unfolding break_off
  break_off-IsSteady a s h = record {
    safe = (finish-Over fl c l a h).0;
    dismissed = λ out. finish-Over fl c l a h;
  }

  acted-IsSteady :
      (o : Option (Actor fl c l)) (s : Process fl c l)
      → Stepped fl c l o
      → Safe fl c l s.actor
      → IsSteady (acted fl c l o s)
  unfolding acted
  acted-IsSteady none s stepped h = break_off-IsSteady (s.actor) s h
  acted-IsSteady (some b) s stepped h = record { safe = stepped; dismissed = λ out. absurd out }

  module _ (decode : Text → Option Request) where
    Step-IsSteady :
        {s t : Process fl c l} {label : Label fl.F64 l.Error}
        → Step fl c l decode s label t
        → IsSteady s
        → IsSteady t
    unfolding leave
    Step-IsSteady (signalled s) h = h
    Step-IsSteady (accepted s p) h = h
    Step-IsSteady (take_signal s p q) h = h
    Step-IsSteady (take_shutdown s p q) h = h
    Step-IsSteady (actor_gone s p q) h = h
    Step-IsSteady (joined s p q) h = h
    Step-IsSteady (line_read s before after line room gone info p q) h =
        exchanged-IsSteady before after (handle_client decode line room gone (not gone) info []) s h
    Step-IsSteady (message_relayed s before after tx written r rest p q) h =
        relayed-IsSteady before after tx written r rest s q h
    Step-IsSteady (channel_closed s before after tx p q m n) h = h
    Step-IsSteady (shut_down s p q) h = break_off-IsSteady s.actor _ h.safe
    Step-IsSteady (requests_over s p q tasks none_left) h = break_off-IsSteady s.actor _ h.safe
    Step-IsSteady (taken_up s w rest p ready) h = record {
      safe = h.safe;
      dismissed = λ out. absurd out;
    }
    Step-IsSteady (handled s now w p) h =
        acted-IsSteady _ s (step-Safe fl c l now (event_of w) s.actor h.safe) h.safe
    Step-IsSteady (abandoned s b w p q part) h =
        break_off-IsSteady b (record s { actor_shutdown = false })
          (Abandoned-P fl c l (IsConsistent fl c l) (whose w) (IsConsistent-Serves fl c l) part
            h.safe)
    Step-IsSteady (let_go s p) h = record {
      safe = h.safe;
      dismissed = λ out. h.dismissed (subst HasLeft (sym p) tt);
    }

    pub Reach-IsSteady :
        {start s : Process fl c l} {labels : List (Label fl.F64 l.Error)}
        → Reach fl c l decode start labels s
        → IsSteady start
        → IsSteady s
    Reach-IsSteady begun h = h
    Reach-IsSteady (then_step r st) h = Step-IsSteady st (Reach-IsSteady r h)
