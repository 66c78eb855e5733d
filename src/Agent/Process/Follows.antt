-- ===== src/Agent/Process/Follows.antt =====
-- src/agent/server.rs, `Clients`: what the subscribers get while a request, a poll or a
-- notification is dealt with.
pub mod Turns
pub mod Passed
use btwattch2_rs.Prelude.{
  ℕ, ◌<◌, ◌≡◌, ◌⊎◌, refl, sym, ◌∙◌, ap, subst, arith, ◌==◌, ==_iff, Bool, true, false, ◌||◌,
  Bool-cases, inl, inr, List, [], ◌∷◌, ◌++◌, append_assoc, All, All-append,
}
use btwattch2_rs.Chrono.{Chrono}
use btwattch2_rs.Float.{Float}
use btwattch2_rs.Agent.Protocol.{Request, from_measurement}
use btwattch2_rs.Agent.Clients.{Channel, push, try_send, add, broadcast, reap, abort}
use btwattch2_rs.Agent.Clients.Delivery.{mem, Distinct, try_send_lem}
use btwattch2_rs.Agent.Clients.Senders.{
  Narrows, same-Narrows, broadcast-Narrows, broadcast-reached, reap-Narrows, reap-channels,
  abort-list, mem-snoc,
}
use btwattch2_rs.Agent.Link.{Link}
use btwattch2_rs.Agent.Actor.{Reply, Subscribers}
use btwattch2_rs.Agent.Actor.Counted.{Keeps}
use btwattch2_rs.Agent.Actor.Invariant.{Serves}
use btwattch2_rs.Agent.Handler.{is_measurement}
use btwattch2_rs.Agent.Process.{Pending, is_pending, waiting, Process}
use btwattch2_rs.Agent.Process.Names.{
  Fresh, Fresh-narrowed, Fresh-taken, Fresh-added, Fresh-emptied,
}

module _ (fl : Float) (c : Chrono) (l : Link) where
  -- Subscribed, and not hung up.
  abbrev pub Subscribed : ℕ → Subscribers fl c l → Type 0
  Subscribed k s = (mem k s.list ≡ true) × ((s.channels k).is_closed ≡ false)

  module _ (start : Subscribers fl c l) (taken : ℕ → List (Reply fl c l)) where
    -- What was taken from a channel and what is left in it are what was there at the start and
    -- then `messages`; or its receiver has hung up.
    abbrev pub Tracks : List (Reply fl c l) → ℕ → Channel (Reply fl c l) → Type 0
    Tracks messages k ch =
        ((ch.is_closed ≡ true) × (ch.queue ≡ []))
        ⊎ ((ch.is_closed ≡ false) × ((start.channels k).queue ++ messages ≡ taken k ++ ch.queue))

    Tracks-push :
        (messages : List (Reply fl c l)) (k : ℕ) (r : Reply fl c l) (ch : Channel (Reply fl c l))
        → ch.is_closed ≡ false
        → Tracks messages k ch
        → Tracks (messages ++ r ∷ []) k (push r ch)
    Tracks-push messages k r ch unclosed (inl (closed, e)) = absurd (cc)
    Tracks-push messages k r ch unclosed (inr (o, e)) = inr (
      unclosed,
      sym (append_assoc (start.channels k).queue messages (r ∷ []))
          ∙ ap (λ xs. xs ++ r ∷ []) e
          ∙ append_assoc (taken k) ch.queue (r ∷ []),
    )

    -- The same measurements to all who were subscribed at the start and still are.
    pub record View (p : Pending) (n : ℕ) (s : Subscribers fl c l) : Type 0 where
      pub fresh : Fresh s.list p n
      pub known : (k : ℕ) → mem k start.list ≡ true → (k < n) × (is_pending k p ≡ false)
      pub messages : List (Reply fl c l)
      pub measured : All (λ r. is_measurement r ≡ true) messages
      pub follows :
          (k : ℕ) → Subscribed k start → mem k s.list ≡ true → Tracks messages k (s.channels k)

    module _ (p : Pending) (n : ℕ) where
      pub View-quiet :
          (s t : Subscribers fl c l)
          → Narrows s.list t.list
          → t.channels ≡ s.channels
          → View p n s
          → View p n t
      View-quiet s t w same h = record {
        fresh = Fresh-narrowed s.list t.list p n w h.fresh;
        known = h.known;
        messages = h.messages;
        measured = h.measured;
        follows = λ k m e.
            subst (λ f. Tracks h.messages k (f k)) (sym same) (h.follows k m (w.still k e));
      }

      -- Nobody is subscribed any more.
      pub View-dismissed : (s t : Subscribers fl c l) → t.list ≡ [] → View p n s → View p n t
      View-dismissed s t empty h = record {
        fresh =
            Fresh-narrowed s.list t.list p n
              (record {
                distinct = subst Distinct (sym empty) tt;
                still = λ k e. absurd (let gone : mem k t.list ≡ false = ap (mem k) empty in cc);
              })
              h.fresh;
        known = h.known;
        messages = h.messages;
        measured = h.measured;
        follows = λ k m e. absurd (let gone : mem k t.list ≡ false = ap (mem k) empty in cc);
      }

      -- The requests are gone.
      pub View-emptied : (s : Subscribers fl c l) → View p n s → View [] n s
      View-emptied s h = record {
        fresh = Fresh-emptied s.list p n h.fresh;
        known = λ k e. ((h.known k e).0, refl);
        messages = h.messages;
        measured = h.measured;
        follows = h.follows;
      }

      View-broadcast :
          (r : Reply fl c l) (s : Subscribers fl c l)
          → is_measurement r ≡ true
          → View p n s
          → View p n (broadcast r s)
      View-broadcast r s e h = record {
        fresh = Fresh-narrowed s.list _ p n narrows h.fresh;
        known = h.known;
        messages = h.messages ++ r ∷ [];
        measured = All-append _ h.messages (r ∷ []) h.measured (e, tt);
        follows = λ k m listed.
            let (unclosed, pushed) = broadcast-reached r s k h.fresh.listed listed in
            subst (Tracks (h.messages ++ r ∷ []) k) (sym pushed) (
              Tracks-push h.messages k r (s.channels k) unclosed
                (h.follows k m (narrows.still k listed)));
      }
        where
          narrows : Narrows s.list (broadcast r s).list
          narrows = broadcast-Narrows r s h.fresh.listed

      pub View-Keeps : Keeps fl c l (View p n)
      unfolding from_measurement
      View-Keeps = record {
        at_sample = λ now m s h.
            View-broadcast _ _ refl (View-quiet s _ (same-Narrows s.list h.fresh.listed) refl h);
        at_reap = λ s h. View-quiet s (reap s) (reap-Narrows s h.fresh.listed) (reap-channels s) h;
        at_abort = λ r s h. View-dismissed s (abort r s) (abort-list r s) h;
        at_connected = λ up s h. View-quiet s _ (same-Narrows s.list h.fresh.listed) refl h;
        at_reconnect = λ s h. View-quiet s _ (same-Narrows s.list h.fresh.listed) refl h;
      }

    pub View-Serves :
        (r : Request) (tx : ℕ) (p : Pending) (n : ℕ)
        → Serves fl c l tx (View ((r, tx) ∷ p) n) (View p n)
    unfolding add
    View-Serves r tx p n = record {
      keeps = View-Keeps ((r, tx) ∷ p) n;
      at_end = λ s h. ended s h;
      at_add = λ s h. record {
        fresh = Fresh-added s.list r tx p n h.fresh;
        known = λ k e. others k (h.known k e);
        messages = h.messages;
        measured = h.measured;
        follows = λ k m e. h.follows k m (ground (arith, mem-snoc k tx s.list, (h.known k m.0).1));
      };
      at_send = λ reply s h. record {
        fresh = Fresh-taken s.list r tx p n h.fresh;
        known = λ k e. others k (h.known k e);
        messages = h.messages;
        measured = h.measured;
        follows = λ k m e.
            subst (Tracks h.messages k)
              (sym (
                let other : (k == tx) ≡ false = ground (arith, (h.known k m.0).1) in
                try_send_lem tx k reply s.channels ∙ rw other refl))
              (h.follows k m e);
      };
    }
      where
        others :
            (k : ℕ)
            → (k < n) × (is_pending k ((r, tx) ∷ p) ≡ false)
            → (k < n) × (is_pending k p ≡ false)
        others k h = ground (arith, h)

        ended : (s : Subscribers fl c l) → View ((r, tx) ∷ p) n s → View p n s
        ended s h = record {
          fresh = Fresh-taken s.list r tx p n h.fresh;
          known = λ k e. others k (h.known k e);
          messages = h.messages;
          measured = h.measured;
          follows = h.follows;
        }

  module _ (start : Subscribers fl c l) where
    abbrev pub Views : (ℕ → List (Reply fl c l)) → Process fl c l → Type 0
    Views taken s = View start taken (waiting s.actor_state s.pending) s.next s.actor.clients
