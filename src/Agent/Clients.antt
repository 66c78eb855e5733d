-- ===== src/Agent/Clients.antt =====
-- src/agent/server.rs, `Clients`: the subscribers, each behind a bounded channel. A channel is
-- named by a number, and the channels stand in a store that the senders share; the counters
-- (`stats`) are shared too. Both are fields of the model's `Clients`.
pub mod Count
pub mod Delivery
pub mod Senders
use btwattch2_rs.Prelude.{
  ℕ, zero, suc, ◌+◌, ltb, leb, ◌==◌, if◌then◌else◌, Bool, true, false, not, ◌&&◌, ◌||◌, List, [],
  ◌∷◌, ◌++◌, length,
}
use btwattch2_rs.Agent.Status.{AgentStats, set_clients}

abbrev pub client_queue_len : ℕ
client_queue_len = 64

-- The messages that the receiver has not taken, oldest first, and whether it hung up.
pub record Channel (R : Type 0) : Type 0 where
  pub queue : List R
  pub is_closed : Bool

abbrev pub Channels : Type 0 → Type 0
Channels R = ℕ → Channel R

pub data Sent : Type 0 where
  sent hung_up full : Sent

-- `retain` with its sends: the senders kept, in order, the store, and how many were full.
pub record Swept (R : Type 0) : Type 0 where
  pub kept : List ℕ
  pub store : Channels R
  pub lagging : ℕ

module _ {R : Type 0} where
  abbrev pub push : R → Channel R → Channel R
  push r ch = record ch { queue = ch.queue ++ r ∷ [] }

  abbrev pub update : ℕ → Channel R → Channels R → Channels R
  update tx ch store k = if k == tx then ch else store k

  -- What `try_send` would answer.
  abbrev pub outcome : Channel R → Sent
  outcome ch =
      if ch.is_closed
      then hung_up
      else if leb client_queue_len (length ch.queue)
      then full
      else sent

  abbrev deliver : Sent → ℕ → R → Channels R → Channels R
  deliver sent tx r store = update tx (push r (store tx)) store
  deliver hung_up tx r store = store
  deliver full tx r store = store

  unfoldable pub try_send : ℕ → R → Channels R → Channels R
  try_send tx r store = deliver (outcome (store tx)) tx r store

  keep_by : Sent → ℕ → Swept R → Swept R
  keep_by sent tx s = record s { kept = tx ∷ s.kept }
  keep_by hung_up tx s = s
  keep_by full tx s = record s { lagging = s.lagging + 1 }

  sweep : R → List ℕ → Channels R → Swept R
  unfolding keep_by try_send
  sweep r [] store = record { kept = []; store = store; lagging = 0 }
  sweep r (tx ∷ txs) store = keep_by (outcome (store tx)) tx (sweep r txs (try_send tx r store))

  -- One message to each of the senders, in order.
  unfoldable pub send_all : R → List ℕ → Channels R → Channels R
  unfolding try_send
  send_all r [] store = store
  send_all r (tx ∷ txs) store = send_all r txs (try_send tx r store)

  any_closed : List ℕ → Channels R → Bool
  any_closed [] store = false
  any_closed (tx ∷ txs) store = (store tx).is_closed || any_closed txs store

  retain_open : List ℕ → Channels R → List ℕ
  retain_open [] store = []
  retain_open (tx ∷ txs) store =
      if (store tx).is_closed then retain_open txs store else tx ∷ retain_open txs store

pub record Clients (M R : Type 0) : Type 0 where
  pub list : List ℕ
  pub stats : AgentStats M
  pub channels : Channels R

module _ {M R : Type 0} where
  -- With channels that nobody uses yet.
  unfoldable pub new_clients : AgentStats M → Clients M R
  new_clients stats = record {
    list = [];
    stats = stats;
    channels = λ k. record { queue = []; is_closed = false };
  }

  unfoldable pub publish_count : Clients M R → Clients M R
  publish_count c = record c { stats = set_clients (length c.list) c.stats }

  unfoldable pub is_empty : Clients M R → Bool
  is_empty c = length c.list == 0

  unfoldable pub add : ℕ → Clients M R → Clients M R
  unfolding publish_count
  add tx c = publish_count (record c { list = c.list ++ tx ∷ [] })

  unfoldable pub broadcast : R → Clients M R → Clients M R
  unfolding sweep publish_count
  broadcast response c =
      let s = sweep response c.list c.channels in
      let after = record c { list = s.kept; channels = s.store } in
      if not (length s.kept == length c.list) then publish_count after else after

  unfoldable pub reap : Clients M R → Clients M R
  unfolding any_closed retain_open publish_count
  reap c =
      if any_closed c.list c.channels
      then publish_count (record c { list = retain_open c.list c.channels })
      else c

  -- `take`: the senders are forgotten, and each is sent the last message.
  dismiss : R → Clients M R → Clients M R
  unfolding send_all publish_count
  dismiss last c = record (publish_count (record c { list = [] })) {
    channels = send_all last c.list c.channels;
  }

  -- `abort` with an error, and `end`.
  unfoldable pub abort : R → Clients M R → Clients M R
  unfolding dismiss
  abort error c = dismiss error c

  unfoldable pub end : R → Clients M R → Clients M R
  unfolding dismiss
  end stream_end c = dismiss stream_end c
