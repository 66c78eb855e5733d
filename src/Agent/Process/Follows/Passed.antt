-- ===== src/Agent/Process/Follows/Passed.antt =====
-- src/agent/server.rs, `handle_client`: what a connection takes from its channel.
use btwattch2_rs.Prelude.{
  ◌<◌, ◌+◌, ℕ, ◌≡◌, refl, sym, ◌∙◌, ap, subst, arith, ◌==◌, ==_iff, if◌then◌else◌, Bool, false,
  ◌&&◌, Bool-cases, inl, inr, List, [], ◌∷◌, ◌++◌, append_assoc, Option, none, some,
}
use btwattch2_rs.Chrono.{Chrono}
use btwattch2_rs.Float.{Float}
use btwattch2_rs.Agent.Protocol.{Request}
use btwattch2_rs.Agent.Clients.{Channel}
use btwattch2_rs.Agent.Clients.Delivery.{mem}
use btwattch2_rs.Agent.Link.{Link}
use btwattch2_rs.Agent.Actor.{Reply, Subscribers}
use btwattch2_rs.Agent.Handler.{Exchange, is_measurement}
use btwattch2_rs.Agent.Process.{
  ActorState, answering, polling, hearing, looping, handling, disconnecting, ended, waiting, Task,
  Pending, Process, set_channel, conclude, exchanged, relayed,
}
use btwattch2_rs.Agent.Process.{is_pending}
use btwattch2_rs.Agent.Process.Names.{Fresh, Fresh-passed, is_pending-snoc}
use btwattch2_rs.Agent.Process.Follows.{Tracks, View, Views}

module _ (fl : Float) (c : Chrono) (l : Link) where
  abbrev Taking : Type 0
  Taking = ℕ → List (Reply fl c l)

  waiting-snoc :
      (state : ActorState) (p : Pending) (r : Request) (tx : ℕ)
      → waiting state (p ++ (r, tx) ∷ []) ≡ waiting state p ++ (r, tx) ∷ []
  waiting-snoc (handling (answering q k)) p r tx = refl
  waiting-snoc (handling polling) p r tx = refl
  waiting-snoc (handling hearing) p r tx = refl
  waiting-snoc looping p r tx = refl
  waiting-snoc disconnecting p r tx = refl
  waiting-snoc ended p r tx = refl

  module _ (start : Subscribers fl c l) where
    conclude-Views :
        (taken : Taking) (before after : List Task) (x : Exchange fl.F64 l.Error)
        (o : Option Request) (s : Process fl c l)
        → Views fl c l start taken s
        → Views fl c l start taken (conclude fl c l before after x o s)
    unfolding conclude set_channel
    conclude-Views taken before after x none s h = h
    conclude-Views taken before after x (some r) s h = record {
      fresh =
          subst (λ p. Fresh s.actor.clients.list p (s.next + 1))
            (sym (waiting-snoc s.actor_state s.pending r s.next))
            (Fresh-passed s.actor.clients.list r (waiting s.actor_state s.pending) s.next h.fresh);
      known = λ k e.
          subst (λ p. (k < s.next + 1) × (is_pending k p ≡ false))
            (sym (waiting-snoc s.actor_state s.pending r s.next))
            (ground (
              arith,
              h.known k e,
              is_pending-snoc k (waiting s.actor_state s.pending) r s.next,
              ==_iff k s.next,
            ));
      messages = h.messages;
      measured = h.measured;
      follows = λ k m e.
          let old : (k == s.next) ≡ false = ground (arith, (h.known k m.0).0, ==_iff k s.next) in
          rw old (h.follows k m e);
    }

    pub exchanged-Views :
        (taken : Taking) (before after : List Task) (x : Exchange fl.F64 l.Error)
        (s : Process fl c l)
        → Views fl c l start taken s
        → Views fl c l start taken (exchanged fl c l before after x s)
    unfolding exchanged
    exchanged-Views taken before after x s h = conclude-Views taken before after x x.passed_on s h

    -- What was taken from one channel changes, and that channel with it.
    retaken-View :
        (taken later : Taking) (p : Pending) (n : ℕ) (s t : Subscribers fl c l)
        → t.list ≡ s.list
        → ((messages : List (Reply fl c l)) (k : ℕ)
            → Tracks fl c l start taken messages k (s.channels k)
            → Tracks fl c l start later messages k (t.channels k))
        → View fl c l start taken p n s
        → View fl c l start later p n t
    retaken-View taken later p n s t list on h = record {
      fresh = rw list h.fresh;
      known = h.known;
      messages = h.messages;
      measured = h.measured;
      follows = λ k m e. on h.messages k (h.follows k m (sym (ap (mem k) list) ∙ e));
    }

    module _ (taken later : Taking) (messages : List (Reply fl c l)) (k : ℕ) where
      Tracks-same :
          (ch : Channel (Reply fl c l))
          → later k ≡ taken k
          → Tracks fl c l start taken messages k ch
          → Tracks fl c l start later messages k ch
      Tracks-same ch same h = rw same h

      Tracks-next :
          (ch : Channel (Reply fl c l)) (r : Reply fl c l) (rest : List (Reply fl c l))
          → ch.queue ≡ r ∷ rest
          → later k ≡ taken k ++ r ∷ []
          → Tracks fl c l start taken messages k ch
          → Tracks fl c l start later messages k (record { queue = rest; is_closed = false })
      Tracks-next ch r rest q one_more (inl (closed, e)) =
          absurd (let f : r ∷ rest ≡ [] = sym q ∙ e in cc)
      Tracks-next ch r rest q one_more (inr (unclosed, e)) = inr (
        refl,
        e
            ∙ ap (λ xs. taken k ++ xs) q
            ∙ sym (append_assoc (taken k) (r ∷ []) rest)
            ∙ ap (λ xs. xs ++ rest) (sym one_more),
      )

    -- The message that a connection takes from its channel, and may write its peer.
    pub relayed-Views :
        (taken later : Taking) (before after : List Task) (tx : ℕ) (written : Bool)
        (r : Reply fl c l) (rest : List (Reply fl c l)) (s : Process fl c l)
        → (s.actor.clients.channels tx).queue ≡ r ∷ rest
        → ((k : ℕ) → later k ≡ (if written && (k == tx) then taken k ++ r ∷ [] else taken k))
        → Views fl c l start taken s
        → Views fl c l start later (relayed fl c l before after tx written r rest s)
    unfolding relayed set_channel
    relayed-Views taken later before after tx written r rest s q one h =
        elim (Bool-cases (written && is_measurement r)) [
          | inl on ↦ rw on (
              retaken-View taken later (waiting s.actor_state s.pending) s.next s.actor.clients _
                refl
                (λ messages k w. elim (Bool-cases (k == tx)) [
                  | inl e ↦
                      let same : (s.actor.clients.channels k).queue ≡ r ∷ rest =
                        subst (λ t. (s.actor.clients.channels t).queue ≡ r ∷ rest)
                          (sym ((==_iff k tx).0 e)) q in
                      rw e
                        (Tracks-next taken later messages k _ r rest same (ground (arith, one k)) w)
                  | inr e ↦ rw e (Tracks-same taken later messages k _ (ground (arith, one k)) w)
                ])
                h)
          | inr off ↦ rw off (
              retaken-View taken later (waiting s.actor_state s.pending) s.next s.actor.clients _
                refl
                (λ messages k w. elim (Bool-cases (k == tx)) [
                  | inl e ↦ rw e (inl (refl, refl))
                  | inr e ↦ rw e (Tracks-same taken later messages k _ (ground (arith, one k)) w)
                ])
                h)
        ]
