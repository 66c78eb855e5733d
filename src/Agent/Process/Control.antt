-- ===== src/Agent/Process/Control.antt =====
-- How the parts of an agent stand to one another: the phase of `run`, the signal and the two
-- permits, and the actor's task.
use btwattch2_rs.Prelude.{◌≡◌, ◌≢◌, ◌⊎◌, ◌↔◌, refl, subst, inl, inr, Bool, true, false, ◌||◌}
use btwattch2_rs.Chrono.{Chrono}
use btwattch2_rs.Float.{Float}
use btwattch2_rs.Agent.Link.{Link}
use btwattch2_rs.Agent.Process.{
  told_to, Phase, serving, joining, over, ActorState, looping, handling, disconnecting, ended,
  Process,
}

-- In its loop, at the select or within a handler.
abbrev pub IsRunning : ActorState → Type 0
IsRunning looping = Unit {0}
IsRunning (handling w) = Unit {0}
IsRunning disconnecting = ⊥
IsRunning ended = ⊥

-- How the flags stand in each phase of `run`, where `told` is whether the process has been told
-- to stop.
abbrev pub Control : Type 0 → Phase → Bool → Bool → ActorState → Bool → Type 0
Control told serving signal flag state permit =
    IsRunning state × (permit ≡ false) × (told ↔ ((signal ≡ true) ⊎ (flag ≡ true)))
Control told joining signal flag state permit = told × (IsRunning state → permit ≡ true)
Control told (over o) signal flag state permit = told × (o ≡ told_to) × (state ≡ ended)

-- A connection's line was answered, and told the agent to stop or did not.
pub at_answer :
    (told ack : Type 0) (n : Bool) (phase : Phase) (signal flag : Bool) (state : ActorState)
    (permit : Bool)
    → ack ↔ (n ≡ true)
    → Control told phase signal flag state permit
    → Control (ack ⊎ told) phase signal (n || flag) state permit
at_answer told ack true serving signal flag state permit e (a, b, h) =
    (a, b, ((λ w. inr refl), λ w. inl (e.1 refl)))
at_answer told ack false serving signal flag state permit e (a, b, h) =
    (a, b, (forth, λ w. inr (h.1 w)))
  where
    forth : ack ⊎ told → (signal ≡ true) ⊎ (flag ≡ true)
    forth (inl w) = absurd (let q : false ≡ true = e.0 w in cc)
    forth (inr w) = h.0 w
at_answer told ack n joining signal flag state permit e (t, h) = (inr t, h)
at_answer told ack n (over o) signal flag state permit e (t, h, k) = (inr t, h, k)

-- A step that shows nothing.
pub at_internal :
    (told : Type 0) (phase : Phase) (signal flag : Bool) (state : ActorState) (permit : Bool)
    → Control told phase signal flag state permit
    → Control (⊥ ⊎ told) phase signal flag state permit
at_internal told phase signal flag state permit h =
    at_answer told ⊥ false phase signal flag state permit ((λ w. absurd w), λ w. absurd (cc)) h

pub at_signal :
    (told : Type 0) (phase : Phase) (signal flag : Bool) (state : ActorState) (permit : Bool)
    → Control told phase signal flag state permit
    → Control (Unit {0} ⊎ told) phase true flag state permit
at_signal told serving signal flag state permit (a, b, h) = (a, b, ((λ w. inl refl), λ w. inl tt))
at_signal told joining signal flag state permit (t, h) = (inr t, h)
at_signal told (over o) signal flag state permit (t, h, k) = (inr t, h, k)

-- The actor's loop ends only by the permit or after `run` has left its select.
pub at_break :
    (told : Type 0) (phase : Phase) (signal flag : Bool) (state : ActorState) (permit after : Bool)
    → IsRunning state
    → (permit ≡ true) ⊎ (phase ≢ serving)
    → Control told phase signal flag state permit
    → Control told phase signal flag disconnecting after
at_break told serving signal flag state permit after q (inl e) (a, b, h) = absurd (cc)
at_break told serving signal flag state permit after q (inr e) (a, b, h) = absurd (e refl)
at_break told joining signal flag state permit after q e (t, h) = (t, λ x. absurd x)
at_break told (over o) signal flag state permit after q e (t, h, k) = absurd (subst IsRunning k q)

pub at_end :
    (told : Type 0) (phase : Phase) (signal flag : Bool) (state : ActorState) (permit : Bool)
    → state ≡ disconnecting
    → Control told phase signal flag state permit
    → Control told phase signal flag ended permit
at_end told serving signal flag state permit q (a, b, h) = absurd (subst IsRunning q a)
at_end told joining signal flag state permit q (t, h) = (t, λ x. absurd x)
at_end told (over o) signal flag state permit q (t, h, k) = absurd (cc)

-- The actor takes something up, or is done with it.
pub at_work :
    (told : Type 0) (phase : Phase) (signal flag : Bool) (state later : ActorState) (permit : Bool)
    → IsRunning state
    → IsRunning later
    → Control told phase signal flag state permit
    → Control told phase signal flag later permit
at_work told serving signal flag state later permit p q (a, b, h) = (q, b, h)
at_work told joining signal flag state later permit p q (t, h) = (t, λ x. h p)
at_work told (over o) signal flag state later permit p q (t, h, k) = absurd (subst IsRunning k p)

module _ (fl : Float) (c : Chrono) (l : Link) where
  abbrev pub IsControlled : Type 0 → Process fl c l → Type 0
  IsControlled told s = Control told s.phase s.signal s.shutdown s.actor_state s.actor_shutdown

  pub internally :
      (told : Type 0) (s : Process fl c l) → IsControlled told s → IsControlled (⊥ ⊎ told) s
  internally told s h =
      at_internal told s.phase s.signal s.shutdown s.actor_state s.actor_shutdown h

  -- What the flags say while `run` is in its select.
  pub in_select :
      (told : Type 0) (s : Process fl c l)
      → s.phase ≡ serving
      → IsControlled told s
      → Control told serving s.signal s.shutdown s.actor_state s.actor_shutdown
  in_select told s p h =
      subst (λ ph. Control told ph s.signal s.shutdown s.actor_state s.actor_shutdown) p h
