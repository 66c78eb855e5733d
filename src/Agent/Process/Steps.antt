-- ===== src/Agent/Process/Steps.antt =====
-- src/agent/server.rs: the steps of an agent's tasks, and what can be reached by them.
use btwattch2_rs.Prelude.{ℕ, ◌≡◌, ◌≢◌, ◌↔◌, Bool, true, false, not, List, [], ◌∷◌, ◌++◌, Option}
use btwattch2_rs.Prelude.Text.{Text}
use btwattch2_rs.Chrono.{Chrono}
use btwattch2_rs.Float.{Float}
use btwattch2_rs.Agent.Protocol.{Request}
use btwattch2_rs.Agent.Clients.Delivery.{mem}
use btwattch2_rs.Agent.Link.{Link}
use btwattch2_rs.Agent.Actor.{Actor, Reply, wants_poll}
use btwattch2_rs.Agent.Actor.PartWay.{Abandoned}
use btwattch2_rs.Agent.Loop.{step}
use btwattch2_rs.Agent.Handler.{AgentInfo, handle_client}
use btwattch2_rs.Agent.Process.{
  Work, answering, polling, hearing, event_of, whose, handling, waiting, told_to, actor_stopped,
  serving, joining, over, looping, disconnecting, ended, Task, reading, relaying, Pending,
  is_pending, Label, internal, passed_on, signal_arrived, answered, Process, leave, exchanged,
  relayed, break_off, acted,
}

module _ (fl : Float) (c : Chrono) (l : Link) where
  abbrev pub State : Type 0
  State = Process fl c l

  -- What the actor's select can take up, with the requests that it leaves.
  abbrev pub IsReady : State → Work → Pending → Type 0
  IsReady s (answering r tx) rest = s.pending ≡ (r, tx) ∷ rest
  IsReady s polling rest = (wants_poll fl c l s.actor ≡ true) × (rest ≡ s.pending)
  IsReady s hearing rest = rest ≡ s.pending

  module _ (decode : Text → Option Request) where
    pub data Step : State → Label fl.F64 l.Error → State → Type 0 where
      signalled : (s : State) → Step s signal_arrived (record s { signal = true })
      accepted :
          (s : State) → s.phase ≡ serving → Step s internal (record s { tasks = reading ∷ s.tasks })
      -- The branches of `accept_loop`'s select.
      take_signal :
          (s : State)
          → s.phase ≡ serving
          → s.signal ≡ true
          → Step s internal (leave fl c l (record s { signal = false }))
      take_shutdown :
          (s : State)
          → s.phase ≡ serving
          → s.shutdown ≡ true
          → Step s internal (leave fl c l (record s { shutdown = false }))
      -- The other branch of `run`'s select, and its end.
      actor_gone :
          (s : State)
          → s.phase ≡ serving
          → s.actor_state ≡ ended
          → Step s internal (record s { phase = over actor_stopped })
      joined :
          (s : State)
          → s.phase ≡ joining
          → s.actor_state ≡ ended
          → Step s internal (record s { phase = over told_to })
      -- A connection's task. The actor takes requests until its loop has returned; `room` is how
      -- many messages the peer takes.
      line_read :
          (s : State) (before after : List Task) (line : Option Text) (room : ℕ) (gone : Bool)
          (info : AgentInfo fl.F64)
          → s.tasks ≡ before ++ (reading ∷ after)
          → (gone ≡ true) ↔ (s.actor_state ≡ ended)
          → Step s (answered line (handle_client decode line room gone (not gone) info [])) (
              exchanged fl c l before after
                (handle_client decode line room gone (not gone) info [])
                s)
      message_relayed :
          (s : State) (before after : List Task) (tx : ℕ) (written : Bool) (r : Reply fl c l)
          (rest : List (Reply fl c l))
          → s.tasks ≡ before ++ (relaying tx ∷ after)
          → (s.actor.clients.channels tx).queue ≡ r ∷ rest
          → Step s (passed_on tx written r) (relayed fl c l before after tx written r rest s)
      -- Nobody is left to send on the channel.
      channel_closed :
          (s : State) (before after : List Task) (tx : ℕ)
          → s.tasks ≡ before ++ (relaying tx ∷ after)
          → (s.actor.clients.channels tx).queue ≡ []
          → mem tx s.actor.clients.list ≡ false
          → is_pending tx (waiting s.actor_state s.pending) ≡ false
          → Step s internal (record s { tasks = before ++ after })
      -- The branches of the actor's select. No more requests come when `run` and every task have
      -- let go of their handles.
      shut_down :
          (s : State)
          → s.actor_state ≡ looping
          → s.actor_shutdown ≡ true
          → Step s internal (break_off fl c l s.actor (record s { actor_shutdown = false }))
      requests_over :
          (s : State)
          → s.actor_state ≡ looping
          → s.phase ≢ serving
          → s.tasks ≡ []
          → s.pending ≡ []
          → Step s internal (break_off fl c l s.actor s)
      taken_up :
          (s : State) (w : Work) (rest : Pending)
          → s.actor_state ≡ looping
          → IsReady s w rest
          → Step s internal (record s { pending = rest; actor_state = handling w })
      -- `until_shutdown`: the handler runs to its end, or the shutdown abandons it at one of its
      -- awaits, with a part of what it does done. What it has done shows from then on.
      handled :
          (s : State) (now : ℕ) (w : Work)
          → s.actor_state ≡ handling w
          → Step s internal (acted fl c l (step fl c l now (event_of w) s.actor) s)
      abandoned :
          (s : State) (b : Actor fl c l) (w : Work)
          → s.actor_state ≡ handling w
          → s.actor_shutdown ≡ true
          → Abandoned fl c l s.actor.clients (whose w) b.clients
          → Step s internal (break_off fl c l b (record s { actor_shutdown = false }))
      let_go :
          (s : State)
          → s.actor_state ≡ disconnecting
          → Step s internal (record s { actor_state = ended; pending = [] })

    -- The steps taken, the last first.
    pub data Reach (start : State) : List (Label fl.F64 l.Error) → State → Type 0 where
      begun : Reach start [] start
      then_step :
          {s t : State} {labels : List (Label fl.F64 l.Error)} {label : Label fl.F64 l.Error}
          → Reach start labels s
          → Step s label t
          → Reach start (label ∷ labels) t
