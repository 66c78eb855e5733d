-- ===== src/Agent/Clients/Delivery.antt =====
-- Who gets a message, and who stays subscribed.
use btwattch2_rs.Prelude.{
  ℕ, ◌≡◌, refl, ap, ◌∙◌, arith, ◌==◌, ==_iff, if◌then◌else◌, Bool, true, false, ◌||◌, Bool-cases,
  inl, inr, List, [], ◌∷◌,
}
use btwattch2_rs.Agent.Status.{set_clients}
use btwattch2_rs.Agent.Clients.{
  Channel, Channels, Clients, Sent, sent, hung_up, full, outcome, try_send, push, sweep, keep_by,
  send_all, publish_count, broadcast, reap, retain_open, dismiss, abort, end,
}

abbrev pub mem : ℕ → List ℕ → Bool
mem k [] = false
mem k (x ∷ xs) = k == x || mem k xs

-- No sender twice.
abbrev pub Distinct : List ℕ → Type 0
Distinct [] = Unit {0}
Distinct (x ∷ xs) = (mem x xs ≡ false) × Distinct xs

abbrev accepted : Sent → Bool
accepted sent = true
accepted hung_up = false
accepted full = false

module _ {R : Type 0} where
  -- Connected, and with room in its queue.
  abbrev pub accepts : Channel R → Bool
  accepts ch = accepted (outcome ch)

  abbrev pub accepting : Channels R → List ℕ → List ℕ
  accepting store [] = []
  accepting store (tx ∷ txs) =
      if accepts (store tx) then tx ∷ accepting store txs else accepting store txs

  abbrev pub delivered : R → Channel R → Channel R
  delivered r ch = if accepts ch then push r ch else ch

  pub try_send_lem :
      (tx k : ℕ) (r : R) (store : Channels R)
      → try_send tx r store k ≡ (if k == tx then delivered r (store k) else store k)
  unfolding try_send
  try_send_lem tx k r store = ground (arith, ==_iff k tx)

  send_all_other :
      (k : ℕ) (r : R) (txs : List ℕ) (store : Channels R)
      → mem k txs ≡ false
      → send_all r txs store k ≡ store k
  unfolding send_all
  send_all_other k r [] store h = refl
  send_all_other k r (tx ∷ txs) store h =
      ground (arith, send_all_other k r txs (try_send tx r store), try_send_lem tx k r store)

  -- Each of the senders that accept a message has it at the end of its queue; no other channel
  -- changes.
  send_all_lem :
      (k : ℕ) (r : R) (txs : List ℕ) (store : Channels R)
      → Distinct txs
      → send_all r txs store k ≡ (if mem k txs then delivered r (store k) else store k)
  unfolding send_all
  send_all_lem k r [] store d = refl
  send_all_lem k r (tx ∷ txs) store d = elim (Bool-cases (k == tx)) [
    | inl e ↦
        let same = (==_iff k tx).0 e in
        ground (arith, send_all_other k r txs (try_send tx r store), try_send_lem tx k r store)
    | inr e ↦
        ground (arith, send_all_lem k r txs (try_send tx r store) d.1, try_send_lem tx k r store)
  ]

  sweep-store :
      (r : R) (txs : List ℕ) (store : Channels R) → (sweep r txs store).store ≡ send_all r txs store
  unfolding sweep send_all keep_by
  sweep-store r [] store = refl
  sweep-store r (tx ∷ txs) store = ground (arith, sweep-store r txs (try_send tx r store))

  accepting-try_send :
      (tx : ℕ) (r : R) (store : Channels R) (txs : List ℕ)
      → mem tx txs ≡ false
      → accepting (try_send tx r store) txs ≡ accepting store txs
  accepting-try_send tx r store [] h = refl
  accepting-try_send tx r store (t ∷ txs) h =
      let same : try_send tx r store t ≡ store t =
        ground (arith, try_send_lem tx t r store, ==_iff t tx, ==_iff tx t) in
      rw same (ground (arith, accepting-try_send tx r store txs))

  sweep-kept :
      (r : R) (txs : List ℕ) (store : Channels R)
      → Distinct txs
      → (sweep r txs store).kept ≡ accepting store txs
  unfolding sweep keep_by
  sweep-kept r [] store d = refl
  sweep-kept r (tx ∷ txs) store d =
      ground
        (arith, sweep-kept r txs (try_send tx r store) d.1, accepting-try_send tx r store txs d.0)

  mem-accepting :
      (k : ℕ) (store : Channels R) (txs : List ℕ)
      → mem k txs ≡ false
      → mem k (accepting store txs) ≡ false
  mem-accepting k store [] h = refl
  mem-accepting k store (t ∷ txs) h = ground (arith, mem-accepting k store txs)

  pub accepting-Distinct :
      (store : Channels R) (txs : List ℕ) → Distinct txs → Distinct (accepting store txs)
  accepting-Distinct store [] d = tt
  accepting-Distinct store (t ∷ txs) d =
      ground (arith, accepting-Distinct store txs d.1, mem-accepting t store txs d.0)

  mem-sweep :
      (k : ℕ) (r : R) (txs : List ℕ) (store : Channels R)
      → mem k txs ≡ false
      → mem k (sweep r txs store).kept ≡ false
  unfolding sweep keep_by
  mem-sweep k r [] store h = refl
  mem-sweep k r (tx ∷ txs) store h = ground (arith, mem-sweep k r txs (try_send tx r store))

  mem-retain_open :
      (k : ℕ) (txs : List ℕ) (store : Channels R)
      → mem k txs ≡ false
      → mem k (retain_open txs store) ≡ false
  unfolding retain_open
  mem-retain_open k [] store h = refl
  mem-retain_open k (tx ∷ txs) store h = ground (arith, mem-retain_open k txs store)

  -- A message to an open channel with room is put at its end.
  pub try_send_room :
      (tx : ℕ) (r : R) (store : Channels R)
      → accepts (store tx) ≡ true
      → try_send tx r store tx ≡ push r (store tx)
  unfolding try_send
  try_send_room tx r store h = ground (arith, ==_iff tx tx)

module _ {M R : Type 0} where
  -- A broadcast reaches every subscriber that is connected and has room, once and in its place
  -- in the queue; exactly those stay subscribed, in their order; no other channel changes. No
  -- sender may be subscribed twice.
  pub broadcast_lem :
      (r : R) (c : Clients M R)
      → Distinct c.list
      → ((broadcast r c).list ≡ accepting c.channels c.list)
        × ((k : ℕ)
            → (broadcast r c).channels k
              ≡ (if mem k c.list then delivered r (c.channels k) else c.channels k))
  unfolding broadcast publish_count
  broadcast_lem r c d = (
    ground (arith, sweep-kept r c.list c.channels d),
    λ k. ground (
      arith,
      ap (λ (s : Channels R). s k) (sweep-store r c.list c.channels),
      send_all_lem k r c.list c.channels d,
    ),
  )

  -- The clients `d` after the subscribers of `c` were sent away with `r`.
  abbrev pub Dismissed : R → Clients M R → Clients M R → Type 0
  Dismissed r c d =
      (d.list ≡ [])
      × (d.stats.clients ≡ 0)
      × ((k : ℕ)
          → d.channels k ≡ (if mem k c.list then delivered r (c.channels k) else c.channels k))

  -- After `abort` and `end` nobody is subscribed and the reported count is zero; each former
  -- subscriber that was connected and had room has the last message at the end of its queue, and
  -- no other channel changes. No sender may be subscribed twice.
  pub abort-end-Dismissed :
      (r : R) (c : Clients M R)
      → Distinct c.list
      → Dismissed r c (abort r c) × Dismissed r c (end r c)
  unfolding abort end dismiss publish_count set_clients
  abort-end-Dismissed r c d =
      let sends = λ (k : ℕ). send_all_lem k r c.list c.channels d in
      ((refl, refl, sends), (refl, refl, sends))

  -- A channel that is not subscribed is left alone.
  abbrev pub Apart : ℕ → Channel R → Clients M R → Type 0
  Apart k ch c = (mem k c.list ≡ false) × (c.channels k ≡ ch)

  pub broadcast-Apart :
      (k : ℕ) (ch : Channel R) (r : R) (c : Clients M R) → Apart k ch c → Apart k ch (broadcast r c)
  unfolding broadcast publish_count
  broadcast-Apart k ch r c h = (
    ground (arith, mem-sweep k r c.list c.channels h.0),
    ground (
      arith,
      ap (λ (s : Channels R). s k) (sweep-store r c.list c.channels),
      send_all_other k r c.list c.channels h.0,
    ),
  )

  pub reap-Apart : (k : ℕ) (ch : Channel R) (c : Clients M R) → Apart k ch c → Apart k ch (reap c)
  unfolding reap publish_count
  reap-Apart k ch c h = (ground (arith, mem-retain_open k c.list c.channels h.0), ground arith)

  pub abort-Apart :
      (k : ℕ) (ch : Channel R) (r : R) (c : Clients M R) → Apart k ch c → Apart k ch (abort r c)
  unfolding abort dismiss publish_count
  abort-Apart k ch r c h = (refl, send_all_other k r c.list c.channels h.0 ∙ h.1)
