-- ===== src/Agent/Clients/Senders.antt =====
-- src/agent/server.rs, `Clients`: who is still subscribed after a broadcast, a reap or an abort.
use btwattch2_rs.Prelude.{
  ℕ, ◌≡◌, refl, sym, ◌∙◌, ap, arith, ◌==◌, ==_iff, true, false, ◌||◌, Bool-cases, inl, inr, List,
  [], ◌∷◌, ◌++◌,
}
use btwattch2_rs.Agent.Clients.{
  Channel, Channels, Clients, push, publish_count, broadcast, any_closed, reap, retain_open,
  dismiss, abort,
}
use btwattch2_rs.Agent.Clients.Delivery.{
  mem, Distinct, accepts, accepting, accepting-Distinct, broadcast_lem,
}

-- Senders only leave, and none is there twice.
pub record Narrows (before after : List ℕ) : Type 0 where
  pub distinct : Distinct after
  pub still : (k : ℕ) → mem k after ≡ true → mem k before ≡ true

pub same-Narrows : (list : List ℕ) → Distinct list → Narrows list list
same-Narrows list d = record { distinct = d; still = λ k h. h }

pub mem-snoc : (k x : ℕ) (xs : List ℕ) → mem k (xs ++ x ∷ []) ≡ (mem k xs || (k == x))
mem-snoc k x [] = ground arith
mem-snoc k x (y ∷ ys) = ground (arith, mem-snoc k x ys)

pub snoc-Distinct : (x : ℕ) (xs : List ℕ) → mem x xs ≡ false → Distinct xs → Distinct (xs ++ x ∷ [])
snoc-Distinct x [] h d = (refl, tt)
snoc-Distinct x (y ∷ ys) h d =
    (ground (arith, mem-snoc y x ys, ==_iff x y, ==_iff y x), snoc-Distinct x ys (ground arith) d.1)

module _ {R : Type 0} where
  mem-accepting :
      (k : ℕ) (store : Channels R) (txs : List ℕ)
      → mem k (accepting store txs) ≡ true
      → (mem k txs ≡ true) × (accepts (store k) ≡ true)
  mem-accepting k store [] h = absurd (cc)
  mem-accepting k store (t ∷ txs) h = elim (Bool-cases (k == t)) [
    | inl e ↦ ground (arith, mem-accepting k store txs, ==_iff k t)
    | inr e ↦ ground (arith, mem-accepting k store txs)
  ]

  accepts-open : (ch : Channel R) → accepts ch ≡ true → ch.is_closed ≡ false
  accepts-open ch h = ground arith

  mem-retain_open :
      (k : ℕ) (store : Channels R) (txs : List ℕ)
      → mem k (retain_open txs store) ≡ true
      → mem k txs ≡ true
  unfolding retain_open
  mem-retain_open k store [] h = h
  mem-retain_open k store (t ∷ txs) h = ground (arith, mem-retain_open k store txs)

  retain_open-Distinct :
      (store : Channels R) (txs : List ℕ) → Distinct txs → Distinct (retain_open txs store)
  unfolding retain_open
  retain_open-Distinct store [] d = tt
  retain_open-Distinct store (t ∷ txs) d = elim (Bool-cases (store t).is_closed) [
    | inl e ↦ rw e (retain_open-Distinct store txs d.1)
    | inr e ↦ rw e (
      elim (Bool-cases (mem t (retain_open txs store))) [
        | inl f ↦ absurd (let g : mem t txs ≡ true = mem-retain_open t store txs f in cc)
        | inr f ↦ f
      ],
      retain_open-Distinct store txs d.1,
    )
  ]

module _ {M R : Type 0} where
  pub broadcast-Narrows :
      (r : R) (c : Clients M R) → Distinct c.list → Narrows c.list (broadcast r c).list
  broadcast-Narrows r c d = rw (broadcast_lem r c d).0 (record {
    distinct = accepting-Distinct c.channels c.list d;
    still = λ k h. (mem-accepting k c.channels c.list h).0;
  })

  -- Who is still subscribed after a broadcast has the message.
  pub broadcast-reached :
      (r : R) (c : Clients M R) (k : ℕ)
      → Distinct c.list
      → mem k (broadcast r c).list ≡ true
      → ((c.channels k).is_closed ≡ false) × ((broadcast r c).channels k ≡ push r (c.channels k))
  broadcast-reached r c k d h =
      let (list, channel) = broadcast_lem r c d in
      let (listed, room) = mem-accepting k c.channels c.list (sym (ap (mem k) list) ∙ h) in
      (accepts-open (c.channels k) room, channel k ∙ rw listed (rw room refl))

  pub reap-Narrows : (c : Clients M R) → Distinct c.list → Narrows c.list (reap c).list
  unfolding reap publish_count
  reap-Narrows c d = elim (Bool-cases (any_closed c.list c.channels)) [
    | inl e ↦ rw e (record {
      distinct = retain_open-Distinct c.channels c.list d;
      still = λ k h. mem-retain_open k c.channels c.list h;
    })
    | inr e ↦ rw e (same-Narrows c.list d)
  ]

  pub reap-channels : (c : Clients M R) → (reap c).channels ≡ c.channels
  unfolding reap publish_count
  reap-channels c = ground arith

  pub abort-list : (r : R) (c : Clients M R) → (abort r c).list ≡ []
  unfolding abort dismiss publish_count
  abort-list r c = refl
