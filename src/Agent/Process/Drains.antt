-- ===== src/Agent/Process/Drains.antt =====
-- The connections that an agent leaves behind.
use btwattch2_rs.Prelude.{
  ◌+◌, ℕ, suc, ◌≤◌, ◌≡◌, ◌⊎◌, Bool, false, List, [], ◌∷◌, ◌++◌, length, Option,
}
use btwattch2_rs.Prelude.Text.{Text}
use btwattch2_rs.Chrono.{Chrono}
use btwattch2_rs.Float.{Float}
use btwattch2_rs.Agent.Protocol.{Request}
use btwattch2_rs.Agent.Clients.Delivery.{mem}
use btwattch2_rs.Agent.Link.{Link}
use btwattch2_rs.Agent.Actor.{Reply}
use btwattch2_rs.Agent.Process.{
  waiting, Task, relaying, is_pending, Process, Label, internal, passed_on, relayed,
}
use btwattch2_rs.Agent.Process.Steps.{Step, message_relayed, channel_closed}

module _ (fl : Float) (c : Chrono) (l : Link) where
  module _ (decode : Text → Option Request) (before after : List Task) (tx : ℕ) where
    -- A turn of one connection, the peer taking what it is written or not: it relays the next
    -- message of its channel, or finds the channel closed and empty.
    pub data Turn (peer : Bool) (s : Process fl c l) : Process fl c l → Type 0 where
      relay :
          (r : Reply fl c l) (rest : List (Reply fl c l))
          → s.tasks ≡ before ++ (relaying tx ∷ after)
          → (s.actor.clients.channels tx).queue ≡ r ∷ rest
          → Turn peer s (relayed fl c l before after tx peer r rest s)
      close :
          s.tasks ≡ before ++ (relaying tx ∷ after)
          → (s.actor.clients.channels tx).queue ≡ []
          → mem tx s.actor.clients.list ≡ false
          → is_pending tx (waiting s.actor_state s.pending) ≡ false
          → Turn peer s (record s { tasks = before ++ after })

    -- Each is a step of the agent.
    pub Turn-Step :
        {peer : Bool} {s t : Process fl c l}
        → Turn peer s t
        → (label : Label fl.F64 l.Error) × Step fl c l decode s label t
    Turn-Step {peer} {s} (relay r rest p q) =
        (passed_on tx peer r, message_relayed s before after tx peer r rest p q)
    Turn-Step {s = s} (close p q m n) = (internal, channel_closed s before after tx p q m n)

    -- Turns one after another, the last one at the end.
    pub data Turns (s : Process fl c l) : ℕ → Process fl c l → Type 0 where
      none_yet : Turns s 0 s
      then_turn :
          {n : ℕ} {peer : Bool} {t u : Process fl c l}
          → Turns s n t
          → Turn peer t u
          → Turns s (suc n) u

    -- The connection has `k` messages at most, and nobody is left who sends it more; or it is done.
    record IsLast (k : ℕ) (s : Process fl c l) : Type 0 where
      here : s.tasks ≡ before ++ (relaying tx ∷ after)
      few : length (s.actor.clients.channels tx).queue ≤ k
      dismissed : mem tx s.actor.clients.list ≡ false
      untaken : is_pending tx (waiting s.actor_state s.pending) ≡ false

    abbrev IsDone : Process fl c l → Type 0
    IsDone s = s.tasks ≡ before ++ after

    -- After `n` turns of a connection that had `k` messages.
    abbrev After : ℕ → ℕ → Process fl c l → Type 0
    After n k t = ((j : ℕ) × (n + j ≡ k) × IsLast j t) ⊎ ((n ≤ suc k) × IsDone t)
