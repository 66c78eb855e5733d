-- ===== src/Agent/Clients/Count.antt =====
-- The reported count of clients, and the bound on what a client may leave unread.
use btwattch2_rs.Prelude.{ℕ, ◌≤◌, ◌≡◌, refl, arith, List, [], ◌∷◌, ◌++◌, length, length-append}
use btwattch2_rs.Agent.Status.{set_clients}
use btwattch2_rs.Agent.Clients.{
  Channels, Clients, try_send, sweep, keep_by, send_all, publish_count, add, broadcast, reap,
  dismiss, abort, end, client_queue_len,
}

module _ {M R : Type 0} where
  -- The count that `agent status` reports is that of the list.
  abbrev pub IsCounted : Clients M R → Type 0
  IsCounted c = c.stats.clients ≡ length c.list

  publish_count-IsCounted : (c : Clients M R) → IsCounted (publish_count c)
  unfolding publish_count set_clients
  publish_count-IsCounted c = refl

  pub broadcast-IsCounted : (r : R) (c : Clients M R) → IsCounted c → IsCounted (broadcast r c)
  unfolding broadcast publish_count set_clients
  broadcast-IsCounted r c h = ground arith

  pub reap-IsCounted : (c : Clients M R) → IsCounted c → IsCounted (reap c)
  unfolding reap publish_count set_clients
  reap-IsCounted c h = ground arith

  pub add-IsCounted : (tx : ℕ) (c : Clients M R) → IsCounted (add tx c)
  unfolding add
  add-IsCounted tx c = publish_count-IsCounted (record c { list = c.list ++ tx ∷ [] })

  pub abort-IsCounted : (r : R) (c : Clients M R) → IsCounted (abort r c)
  unfolding abort dismiss publish_count set_clients
  abort-IsCounted r c = refl

  pub end-IsCounted : (r : R) (c : Clients M R) → IsCounted (end r c)
  unfolding end dismiss publish_count set_clients
  end-IsCounted r c = refl

module _ {R : Type 0} where
  -- No client has more than 64 messages unread.
  abbrev pub IsBounded : Channels R → Type 0
  IsBounded store = (k : ℕ) → length (store k).queue ≤ client_queue_len

  pub try_send-IsBounded :
      (tx : ℕ) (r : R) (store : Channels R) → IsBounded store → IsBounded (try_send tx r store)
  unfolding try_send
  try_send-IsBounded tx r store h k =
      ground (arith, h k, h tx, length-append (store tx).queue (r ∷ []))

  send_all-IsBounded :
      (r : R) (txs : List ℕ) (store : Channels R)
      → IsBounded store
      → IsBounded (send_all r txs store)
  unfolding send_all
  send_all-IsBounded r [] store h = h
  send_all-IsBounded r (tx ∷ txs) store h =
      send_all-IsBounded r txs (try_send tx r store) (try_send-IsBounded tx r store h)

  sweep-store :
      (r : R) (txs : List ℕ) (store : Channels R) → (sweep r txs store).store ≡ send_all r txs store
  unfolding sweep send_all keep_by
  sweep-store r [] store = refl
  sweep-store r (tx ∷ txs) store = ground (arith, sweep-store r txs (try_send tx r store))

module _ {M R : Type 0} where
  pub broadcast-IsBounded :
      (r : R) (c : Clients M R) → IsBounded c.channels → IsBounded (broadcast r c).channels
  unfolding broadcast publish_count
  broadcast-IsBounded r c h = rw stored (send_all-IsBounded r c.list c.channels h)
    where
      stored : (broadcast r c).channels ≡ send_all r c.list c.channels
      stored = ground (arith, sweep-store r c.list c.channels)

  pub reap-IsBounded : (c : Clients M R) → IsBounded c.channels → IsBounded (reap c).channels
  unfolding reap publish_count
  reap-IsBounded c h = rw same h
    where
      same : (reap c).channels ≡ c.channels
      same = ground arith

  pub abort-IsBounded :
      (r : R) (c : Clients M R) → IsBounded c.channels → IsBounded (abort r c).channels
  unfolding abort dismiss publish_count
  abort-IsBounded r c h = send_all-IsBounded r c.list c.channels h

  pub end-IsBounded :
      (r : R) (c : Clients M R) → IsBounded c.channels → IsBounded (end r c).channels
  unfolding end dismiss publish_count
  end-IsBounded r c h = send_all-IsBounded r c.list c.channels h

  pub add-IsBounded :
      (tx : ℕ) (c : Clients M R) → IsBounded c.channels → IsBounded (add tx c).channels
  unfolding add publish_count
  add-IsBounded tx c h = h

  pub end-list : (r : R) (c : Clients M R) → (end r c).list ≡ []
  unfolding end dismiss publish_count
  end-list r c = refl

  pub broadcast-reconnects :
      (r : R) (c : Clients M R) → (broadcast r c).stats.reconnects ≡ c.stats.reconnects
  unfolding broadcast publish_count set_clients
  broadcast-reconnects r c = ground arith

  pub abort_lem :
      (r : R) (c : Clients M R)
      → ((abort r c).list ≡ []) × ((abort r c).stats.connected ≡ c.stats.connected)
  unfolding abort dismiss publish_count set_clients
  abort_lem r c = (refl, refl)
