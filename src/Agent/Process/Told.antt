-- ===== src/Agent/Process/Told.antt =====
-- Why an agent stops, over all interleavings of its tasks.
use btwattch2_rs.Prelude.{
  ℕ, ◌≡◌, ◌⊎◌, ◌↔◌, refl, sym, ◌∙◌, subst, inl, inr, Bool, true, false, not, ◌&&◌, Bool-cases, List,
  [], ◌∷◌, Option, none, some,
}
use btwattch2_rs.Prelude.Text.{Text}
use btwattch2_rs.Chrono.{Chrono}
use btwattch2_rs.Float.{Float}
use btwattch2_rs.Agent.Protocol.{Request}
use btwattch2_rs.Agent.Link.{Link}
use btwattch2_rs.Agent.Actor.{Reply}
use btwattch2_rs.Agent.Handler.{Exchange, is_measurement}
use btwattch2_rs.Agent.Handler.Acknowledged.{
  IsAcknowledged, notified-IsAcknowledged, IsAcknowledged-notified,
}
use btwattch2_rs.Agent.Loop.{step}
use btwattch2_rs.Agent.Process.Control.{
  IsRunning, at_work, Control, IsControlled, at_answer, at_signal, at_break, at_end, internally,
  in_select,
}
use btwattch2_rs.Agent.Process.{
  Work, answering, polling, hearing, event_of, handling, looping, Task, Process, Label, internal,
  signal_arrived, answered, passed_on, conclude, exchanged, relayed, break_off, acted, leave,
}
use btwattch2_rs.Agent.Process.Steps.{
  Step, signalled, accepted, take_signal, take_shutdown, actor_gone, joined, line_read,
  message_relayed, channel_closed, shut_down, requests_over, taken_up, handled, abandoned, let_go,
  Reach, begun, then_step,
}

module _ (fl : Float) (c : Chrono) (l : Link) (decode : Text → Option Request) where
  -- A signal, or a request to stop whose answer was written.
  abbrev pub IsTold : Label fl.F64 l.Error → Type 0
  IsTold internal = ⊥
  IsTold signal_arrived = Unit {0}
  IsTold (answered line x) = IsAcknowledged decode line x
  IsTold (passed_on tx written r) = ⊥

  -- There was one of them.
  abbrev pub Told : List (Label fl.F64 l.Error) → Type 0
  Told [] = ⊥
  Told (label ∷ labels) = IsTold label ⊎ Told labels

  exchanged-IsControlled :
      (told : Type 0) (before after : List Task) (x : Exchange fl.F64 l.Error) (line : Option Text)
      (o : Option Request) (s : Process fl c l)
      → x.passed_on ≡ o
      → IsAcknowledged decode line x ↔ (x.notified ≡ true)
      → IsControlled fl c l told s
      → IsControlled fl c l
          (IsAcknowledged decode line x ⊎ told)
          (conclude fl c l before after x o s)
  unfolding conclude
  exchanged-IsControlled told before after x line none s p e h =
      at_answer told (IsAcknowledged decode line x) x.notified s.phase s.signal s.shutdown
        s.actor_state s.actor_shutdown e h
  exchanged-IsControlled told before after x line (some r) s p e h =
      at_answer told (IsAcknowledged decode line x) false s.phase s.signal s.shutdown s.actor_state
        s.actor_shutdown ((λ w. absurd (passed line w)), λ w. absurd (cc)) h
    where
      passed : (line : Option Text) → IsAcknowledged decode line x → ⊥
      passed none w = w
      passed (some text) (a, b, q) = let e : none ≡ some r = sym q ∙ p in absurd (cc)

  relayed-IsControlled :
      (told : Type 0) (before after : List Task) (tx : ℕ) (written : Bool) (r : Reply fl c l)
      (rest : List (Reply fl c l)) (s : Process fl c l)
      → IsControlled fl c l told s
      → IsControlled fl c l told (relayed fl c l before after tx written r rest s)
  unfolding relayed
  relayed-IsControlled told before after tx written r rest s h =
      elim (Bool-cases (written && is_measurement r)) [ inl on ↦ rw on h | inr off ↦ rw off h ]

  handled-IsControlled :
      (told : Type 0) (s : Process fl c l) (now : ℕ) (w : Work)
      → s.actor_state ≡ handling w
      → IsControlled fl c l told s
      → IsControlled fl c l told (acted fl c l (step fl c l now (event_of w) s.actor) s)
  unfolding acted step
  handled-IsControlled told s now (answering r tx) p h =
      at_work told s.phase s.signal s.shutdown s.actor_state looping s.actor_shutdown
        (subst IsRunning (sym p) tt) tt h
  handled-IsControlled told s now polling p h =
      at_work told s.phase s.signal s.shutdown s.actor_state looping s.actor_shutdown
        (subst IsRunning (sym p) tt) tt h
  handled-IsControlled told s now hearing p h =
      at_work told s.phase s.signal s.shutdown s.actor_state looping s.actor_shutdown
        (subst IsRunning (sym p) tt) tt h

  Step-IsControlled :
      (told : Type 0) {s t : Process fl c l} {label : Label fl.F64 l.Error}
      → Step fl c l decode s label t
      → IsControlled fl c l told s
      → IsControlled fl c l (IsTold label ⊎ told) t
  unfolding leave exchanged break_off
  Step-IsControlled told (signalled s) h =
      at_signal told s.phase s.signal s.shutdown s.actor_state s.actor_shutdown h
  Step-IsControlled told (accepted s p) h = internally fl c l told s h
  Step-IsControlled told (take_signal s p q) h =
      (inr ((in_select fl c l told s p h).2.1 (inl q)), λ x. refl)
  Step-IsControlled told (take_shutdown s p q) h =
      (inr ((in_select fl c l told s p h).2.1 (inr q)), λ x. refl)
  Step-IsControlled told (actor_gone s p q) h =
      absurd (subst IsRunning q (in_select fl c l told s p h).0)
  Step-IsControlled told (joined s p q) h = (
    inr (subst (λ ph. Control told ph s.signal s.shutdown s.actor_state s.actor_shutdown) p h).0,
    refl,
    q,
  )
  Step-IsControlled told (line_read s before after line room gone info p q) h =
      exchanged-IsControlled told before after _ line _ s refl
        (
          IsAcknowledged-notified decode line room gone (not gone) info [],
          notified-IsAcknowledged decode line room gone (not gone) info [],
        )
        h
  Step-IsControlled told (message_relayed s before after tx written r rest p q) h =
      relayed-IsControlled (⊥ ⊎ told) before after tx written r rest s (internally fl c l told s h)
  Step-IsControlled told (channel_closed s before after tx p q m n) h = internally fl c l told s h
  Step-IsControlled told (shut_down s p q) h =
      at_break (⊥ ⊎ told) s.phase s.signal s.shutdown s.actor_state s.actor_shutdown false
        (subst IsRunning (sym p) tt) (inl q) (internally fl c l told s h)
  Step-IsControlled told (requests_over s p q tasks none_left) h =
      at_break (⊥ ⊎ told) s.phase s.signal s.shutdown s.actor_state s.actor_shutdown
        s.actor_shutdown (subst IsRunning (sym p) tt) (inr q) (internally fl c l told s h)
  Step-IsControlled told (taken_up s w rest p ready) h =
      at_work (⊥ ⊎ told) s.phase s.signal s.shutdown s.actor_state (handling w) s.actor_shutdown
        (subst IsRunning (sym p) tt) tt (internally fl c l told s h)
  Step-IsControlled told (handled s now w p) h =
      handled-IsControlled (⊥ ⊎ told) s now w p (internally fl c l told s h)
  Step-IsControlled told (abandoned s b w p q part) h =
      at_break (⊥ ⊎ told) s.phase s.signal s.shutdown s.actor_state s.actor_shutdown false
        (subst IsRunning (sym p) tt) (inl q) (internally fl c l told s h)
  Step-IsControlled told (let_go s p) h =
      at_end (⊥ ⊎ told) s.phase s.signal s.shutdown s.actor_state s.actor_shutdown p
        (internally fl c l told s h)

  pub Reach-IsControlled :
      {start s : Process fl c l} {labels : List (Label fl.F64 l.Error)}
      → Reach fl c l decode start labels s
      → IsControlled fl c l ⊥ start
      → IsControlled fl c l (Told labels) s
  Reach-IsControlled begun h = h
  Reach-IsControlled (then_step {labels = labels} r st) h =
      Step-IsControlled (Told labels) st (Reach-IsControlled r h)
