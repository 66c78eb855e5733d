-- ===== src/Agent/Process/Order.antt =====
-- src/agent/server.rs: the measurements that the clients of an agent get, over all interleavings
-- of its tasks.
use btwattch2_rs.Prelude.{
  ℕ, ◌≡◌, refl, sym, ◌∙◌, ◌==◌, if◌then◌else◌, true, false, not, ◌&&◌, inl, inr, List, [], ◌∷◌,
  ◌++◌, append-nil, Option, All,
}
use btwattch2_rs.Prelude.Text.{Text}
use btwattch2_rs.Chrono.{Chrono}
use btwattch2_rs.Float.{Float}
use btwattch2_rs.Agent.Protocol.{Request}
use btwattch2_rs.Agent.Link.{Link}
use btwattch2_rs.Agent.Actor.{Reply, Subscribers}
use btwattch2_rs.Agent.Handler.{is_measurement, handle_client}
use btwattch2_rs.Agent.Process.{
  looping, handling, waiting, Process, Label, internal, signal_arrived, answered, passed_on, leave,
  start_tasks,
}
use btwattch2_rs.Agent.Process.Steps.{
  Step, signalled, accepted, take_signal, take_shutdown, actor_gone, joined, line_read,
  message_relayed, channel_closed, shut_down, requests_over, taken_up, handled, abandoned, let_go,
  Reach, begun, then_step,
}
use btwattch2_rs.Agent.Process.Names.{Fresh}
use btwattch2_rs.Agent.Process.Follows.{Subscribed, Views, View-emptied}
use btwattch2_rs.Agent.Process.Follows.Turns.{
  break_off-Views, Views-at, taken_up-Views, handled-Views, Abandoned-View,
}
use btwattch2_rs.Agent.Process.Follows.Passed.{exchanged-Views, relayed-Views}

module _ (fl : Float) (c : Chrono) (l : Link) where
  -- The messages that a connection wrote its peer from the channel `k`, in their order; the labels
  -- are the last first.
  pub written_to : ℕ → List (Label fl.F64 l.Error) → List (Reply fl c l)
  written_to k [] = []
  written_to k (passed_on tx written r ∷ labels) =
      let before = written_to k labels in if written && (k == tx) then before ++ r ∷ [] else before
  written_to k (internal ∷ labels) = written_to k labels
  written_to k (signal_arrived ∷ labels) = written_to k labels
  written_to k (answered line x ∷ labels) = written_to k labels

  -- No two channels of the agent are one.
  abbrev IsFresh : Process fl c l → Type 0
  IsFresh s = Fresh s.actor.clients.list (waiting s.actor_state s.pending) s.next

  module _ (start : Subscribers fl c l) where
    module _ (decode : Text → Option Request) where
      Step-Views :
          {s t : Process fl c l} {label : Label fl.F64 l.Error}
          (labels : List (Label fl.F64 l.Error))
          → Step fl c l decode s label t
          → Views fl c l start (λ k. written_to k labels) s
          → Views fl c l start (λ k. written_to k (label ∷ labels)) t
      unfolding leave written_to
      Step-Views labels (signalled s) h = h
      Step-Views labels (accepted s p) h = h
      Step-Views labels (take_signal s p q) h = h
      Step-Views labels (take_shutdown s p q) h = h
      Step-Views labels (actor_gone s p q) h = h
      Step-Views labels (joined s p q) h = h
      Step-Views labels (line_read s before after line room gone info p q) h =
          exchanged-Views fl c l start _ before after
            (handle_client decode line room gone (not gone) info []) s h
      Step-Views labels (message_relayed s before after tx written r rest p q) h =
          relayed-Views fl c l start _ _ before after tx written r rest s q (λ k. refl) h
      Step-Views labels (channel_closed s before after tx p q m n) h = h
      Step-Views labels (shut_down s p q) h =
          break_off-Views fl c l start _ s.actor (record s { actor_shutdown = false })
            (Views-at fl c l start _ looping s p h)
      Step-Views labels (requests_over s p q tasks none_left) h =
          break_off-Views fl c l start _ s.actor s (Views-at fl c l start _ looping s p h)
      Step-Views labels (taken_up s w rest p ready) h =
          taken_up-Views fl c l start _ s w rest p ready h
      Step-Views labels (handled s now w p) h = handled-Views fl c l start _ s now w p h
      Step-Views labels (abandoned s b w p q part) h =
          break_off-Views fl c l start _ b (record s { actor_shutdown = false })
            (Abandoned-View fl c l start _ s.next s.pending w part
              (Views-at fl c l start _ (handling w) s p h))
      Step-Views labels (let_go s p) h = View-emptied fl c l start _ _ s.next s.actor.clients h

      Reach-Views :
          {s t : Process fl c l} {labels : List (Label fl.F64 l.Error)}
          → Reach fl c l decode s labels t
          → Views fl c l start (λ k. []) s
          → Views fl c l start (λ k. written_to k labels) t
      unfolding written_to
      Reach-Views begun h = h
      Reach-Views (then_step {labels = labels} r st) h = Step-Views labels st (Reach-Views r h)

  -- What everyone gets who is subscribed in `s` and still in `t`, the steps between them being
  -- `labels`: after what waited for it in `s`, the same measurements, of which it was written some
  -- and the rest waits for it in `t`.
  abbrev pub SameMeasurements :
      Process fl c l → List (Label fl.F64 l.Error) → Process fl c l → Type 0
  SameMeasurements s labels t =
      (messages : List (Reply fl c l)) × All (λ r. is_measurement r ≡ true) messages
      × ((k : ℕ)
          → Subscribed fl c l k s.actor.clients
          → Subscribed fl c l k t.actor.clients
          → (s.actor.clients.channels k).queue ++ messages
            ≡ written_to k labels ++ (t.actor.clients.channels k).queue)

  View-start : (s : Process fl c l) → IsFresh s → Views fl c l s.actor.clients (λ k. []) s
  View-start s h = record {
    fresh = h;
    known = λ k e. (h.listed_before k e, h.apart k e);
    messages = [];
    measured = tt;
    follows = λ k m e. inr (m.1, append-nil _);
  }

  module _ (decode : Text → Option Request) where
    Reach-IsFresh :
        {s t : Process fl c l} {labels : List (Label fl.F64 l.Error)}
        → Reach fl c l decode s labels t
        → IsFresh s
        → IsFresh t
    Reach-IsFresh {s} r h = (Reach-Views s.actor.clients decode r (View-start s h)).fresh

    Reach-SameMeasurements :
        {s t : Process fl c l} {labels : List (Label fl.F64 l.Error)}
        → Reach fl c l decode s labels t
        → IsFresh s
        → SameMeasurements s labels t
    Reach-SameMeasurements {s} {t} r h =
        let view = Reach-Views s.actor.clients decode r (View-start s h) in
        (
          view.messages,
          view.measured,
          λ k m e. elim (view.follows k m e.0) [
            | inl hung_up ↦ absurd (let closed : true ≡ false = sym hung_up.0 ∙ e.1 in cc)
            | inr tracked ↦ tracked.1
          ],
        )

    -- The clients of an agent get the same measurements in the same order. For any state that a
    -- started agent reaches and any later one there is one list of measurements such that everyone
    -- who is subscribed in both, and has not hung up, was written in between a beginning of what
    -- waited for it in the first followed by that list; the rest waits for it in the second. So
    -- between the two no client misses a measurement, or gets one twice or out of its place.
    pub subscribers_agree :
        (conn : l.Conn) (interval : ℕ) (metrics_listen : Option Text) (began now : ℕ)
        (s t : Process fl c l) (earlier later : List (Label fl.F64 l.Error))
        → Reach fl c l decode (start_tasks fl c l conn interval metrics_listen began now) earlier s
        → Reach fl c l decode s later t
        → SameMeasurements s later t
    subscribers_agree conn interval metrics_listen began now s t earlier later r q =
        Reach-SameMeasurements q (Reach-IsFresh r start_fresh)
      where
        start_fresh : IsFresh (start_tasks fl c l conn interval metrics_listen began now)
        start_fresh =
            unfold start_tasks in
            record {
              listed = tt;
              waiting = tt;
              listed_before = λ k e. absurd (cc);
              waiting_before = λ k e. absurd (cc);
              apart = λ k e. refl;
            }
