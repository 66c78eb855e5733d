-- ===== src/Agent/Process/Ends.antt =====
-- How an agent ends, over all interleavings of its tasks.
use btwattch2_rs.Prelude.{
  ℕ, suc, ◌≤◌, ◌≡◌, ◌⊎◌, refl, subst, sym, arith, inl, inr, Bool, true, false, List, Option,
}
use btwattch2_rs.Prelude.Text.{Text}
use btwattch2_rs.Chrono.{Chrono}
use btwattch2_rs.Float.{Float}
use btwattch2_rs.Agent.Protocol.{Request}
use btwattch2_rs.Agent.Link.{Link}
use btwattch2_rs.Agent.Loop.{new_actor}
use btwattch2_rs.Agent.Loop.Run.{Safe, Over}
use btwattch2_rs.Agent.Process.{start_tasks, Outcome, told_to, over, Process, Label, internal}
use btwattch2_rs.Agent.Process.Steps.{Step, handled, Reach}
use btwattch2_rs.Agent.Process.Consistent.{HasLeft, IsSteady, Reach-IsSteady}
use btwattch2_rs.Agent.Status.{new, set_connected}
use btwattch2_rs.Agent.Clients.{new_clients}
use btwattch2_rs.Agent.Process.Control.{Control, IsControlled}
use btwattch2_rs.Agent.Process.Told.{Told, Reach-IsControlled}

module _ (fl : Float) (c : Chrono) (l : Link) where
  start_tasks-Safe :
      (conn : l.Conn) (interval : ℕ) (metrics_listen : Option Text) (began now : ℕ)
      → Safe fl c l (start_tasks fl c l conn interval metrics_listen began now).actor
  unfolding start_tasks new_actor new_clients new set_connected
  start_tasks-Safe conn interval metrics_listen began now = record {
    counted = refl;
    bounded = λ k. omega arith;
  }

  module _ (decode : Text → Option Request) where
    -- A handler that comes to its end, which may have had to wait for the device.
    abbrev pub is_waited_for :
        {s t : Process fl c l} {label : Label fl.F64 l.Error} → Step fl c l decode s label t → Bool
    is_waited_for (handled s now w q) = true
    is_waited_for _ = false

    -- Steps that the agent takes by itself: they show nothing, no connection takes part, and none is
    -- the end of a handler.
    pub data Alone : ℕ → Process fl c l → Process fl c l → Type 0 where
      none_taken : (s : Process fl c l) → Alone 0 s s
      one_more :
          {n : ℕ} {s t u : Process fl c l}
          → (taken : Step fl c l decode s internal t) → is_waited_for taken ≡ false
          → t.tasks ≡ s.tasks
          → Alone n t u
          → Alone (suc n) s u

    -- At most `k` such steps end it, as it was told to.
    abbrev pub EndsWithin : ℕ → Process fl c l → Type 0
    EndsWithin k s =
        (n : ℕ) × (t : Process fl c l) × (n ≤ k) × Alone n s t × (t.phase ≡ over told_to)

    within : (j k : ℕ) (s : Process fl c l) → j ≤ k → EndsWithin j s → EndsWithin k s
    within j k s h (n, t, few, alone, ends) = (n, t, omega arith, alone, ends)

    module _ (conn : l.Conn) (interval : ℕ) (metrics_listen : Option Text) (began now : ℕ) where
      abbrev pub begun_process : Process fl c l
      begun_process = start_tasks fl c l conn interval metrics_listen began now

      begun-IsControlled : IsControlled fl c l ⊥ begun_process
      unfolding start_tasks
      begun-IsControlled = (tt, refl, ((λ w. absurd w), none_set))
        where
          none_set : (false ≡ true) ⊎ (false ≡ true) → ⊥
          none_set (inl e) = cc
          none_set (inr e) = cc

      pub begun-IsSteady : IsSteady fl c l begun_process
      unfolding start_tasks
      begun-IsSteady = record {
        safe = start_tasks-Safe conn interval metrics_listen began now;
        dismissed = λ out. absurd out;
      }

      -- However the tasks interleave, an agent that ends was told to: by a signal, or by a request to
      -- stop whose answer was written. It never ends because its actor stopped by itself; and when it
      -- ends, nobody is subscribed, the reported count is zero and every queue is within its bound.
      pub Reach-Over :
          (s : Process fl c l) (labels : List (Label fl.F64 l.Error)) (o : Outcome)
          → Reach fl c l decode begun_process labels s
          → s.phase ≡ over o
          → (o ≡ told_to) × Told fl c l decode labels × Over fl c l s.actor
      Reach-Over s labels o r p =
          let told = Reach-IsControlled fl c l decode r begun-IsControlled in
          let steady = Reach-IsSteady fl c l decode r begun-IsSteady in
          let at_end : Control (Told fl c l decode labels) (over o) s.signal s.shutdown
              s.actor_state s.actor_shutdown =
            subst
              (λ ph.
                Control (Told fl c l decode labels) ph s.signal s.shutdown s.actor_state
                  s.actor_shutdown)
              p told in
          (at_end.1, at_end.0, steady.dismissed (subst (HasLeft fl c l) (sym at_end.2) tt))
