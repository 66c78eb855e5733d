-- ===== src/Agent/Process/Emptied.antt =====
-- The requests that an agent leaves untaken.
use btwattch2_rs.Prelude.{
  ℕ, ◌≡◌, refl, ap, ◌∙◌, Bool, not, ◌&&◌, Bool-cases, inl, inr, List, [], Option, none, some,
}
use btwattch2_rs.Prelude.Text.{Text}
use btwattch2_rs.Chrono.{Chrono}
use btwattch2_rs.Float.{Float}
use btwattch2_rs.Agent.Protocol.{Request}
use btwattch2_rs.Agent.Link.{Link}
use btwattch2_rs.Agent.Actor.{Actor, Reply}
use btwattch2_rs.Agent.Handler.{Exchange, is_measurement, handle_client}
use btwattch2_rs.Agent.Handler.Refused.{handle_client-refused}
use btwattch2_rs.Agent.Loop.{step}
use btwattch2_rs.Agent.Process.{
  event_of, ended, Task, Process, Label, conclude, exchanged, relayed, break_off, acted, leave,
}
use btwattch2_rs.Agent.Process.Steps.{
  Step, signalled, accepted, take_signal, take_shutdown, actor_gone, joined, line_read,
  message_relayed, channel_closed, shut_down, requests_over, taken_up, handled, abandoned, let_go,
  Reach, begun, then_step,
}

module _ (fl : Float) (c : Chrono) (l : Link) where
  -- Once the actor is gone, so are the requests that it had not taken.
  abbrev pub IsEmptied : Process fl c l → Type 0
  IsEmptied s = s.actor_state ≡ ended → s.pending ≡ []

  exchanged-IsEmptied :
      (before after : List Task) (x : Exchange fl.F64 l.Error) (s : Process fl c l)
      → (s.actor_state ≡ ended → x.passed_on ≡ none)
      → IsEmptied s
      → IsEmptied (exchanged fl c l before after x s)
  unfolding exchanged
  exchanged-IsEmptied before after x s refused h = conclude-IsEmptied x.passed_on refused
    where
      conclude-IsEmptied :
          (o : Option Request)
          → (s.actor_state ≡ ended → o ≡ none)
          → IsEmptied (conclude fl c l before after x o s)
      conclude-IsEmptied none k = h
      conclude-IsEmptied (some r) k = λ e. absurd (let f : some r ≡ none = k e in cc)

  relayed-IsEmptied :
      (before after : List Task) (tx : ℕ) (written : Bool) (r : Reply fl c l)
      (rest : List (Reply fl c l)) (s : Process fl c l)
      → IsEmptied s
      → IsEmptied (relayed fl c l before after tx written r rest s)
  unfolding relayed
  relayed-IsEmptied before after tx written r rest s h =
      elim (Bool-cases (written && is_measurement r)) [ inl on ↦ rw on h | inr off ↦ rw off h ]

  acted-IsEmptied : (o : Option (Actor fl c l)) (s : Process fl c l) → IsEmptied (acted fl c l o s)
  unfolding acted
  acted-IsEmptied none s = λ e. absurd (cc)
  acted-IsEmptied (some b) s = λ e. absurd (cc)

  module _ (decode : Text → Option Request) where
    Step-IsEmptied :
        {s t : Process fl c l} {label : Label fl.F64 l.Error}
        → Step fl c l decode s label t
        → IsEmptied s
        → IsEmptied t
    unfolding leave break_off
    Step-IsEmptied (signalled s) h = h
    Step-IsEmptied (accepted s p) h = h
    Step-IsEmptied (take_signal s p q) h = h
    Step-IsEmptied (take_shutdown s p q) h = h
    Step-IsEmptied (actor_gone s p q) h = h
    Step-IsEmptied (joined s p q) h = h
    Step-IsEmptied (line_read s before after line room gone info p q) h =
        exchanged-IsEmptied before after (handle_client decode line room gone (not gone) info []) s
          (λ e.
            ap (λ b. (handle_client {E = l.Error} decode line room gone (not b) info []).passed_on)
              (q.1 e)
            ∙ handle_client-refused room gone info [] decode line)
          h
    Step-IsEmptied (message_relayed s before after tx written r rest p q) h =
        relayed-IsEmptied before after tx written r rest s h
    Step-IsEmptied (channel_closed s before after tx p q m n) h = h
    Step-IsEmptied (shut_down s p q) h = λ e. absurd (cc)
    Step-IsEmptied (requests_over s p q tasks none_left) h = λ e. absurd (cc)
    Step-IsEmptied (taken_up s w rest p ready) h = λ e. absurd (cc)
    Step-IsEmptied (handled s now w p) h = acted-IsEmptied (step fl c l now (event_of w) s.actor) s
    Step-IsEmptied (abandoned s b w p q part) h = λ e. absurd (cc)
    Step-IsEmptied (let_go s p) h = λ e. refl

    pub Reach-IsEmptied :
        {start s : Process fl c l} {labels : List (Label fl.F64 l.Error)}
        → Reach fl c l decode start labels s
        → IsEmptied start
        → IsEmptied s
    Reach-IsEmptied begun h = h
    Reach-IsEmptied (then_step r st) h = Step-IsEmptied st (Reach-IsEmptied r h)
