-- ===== src/Connection/Link/Attached.antt =====
-- A connection writes to the TX characteristic and listens to the RX one, whatever happened to
-- the link before.
use btwattch2_rs.Prelude.{
  ℕ, zero, suc, ◌≡◌, arith, Bool, false, Bytes, List, [], ◌∷◌, Result, ok, err, ◌==◌, ==_iff,
  Bool-cases, inl, inr,
}
use btwattch2_rs.Connection.Replies.{c_tx, c_rx}
use btwattch2_rs.Connection.Ble.{Ble}
use btwattch2_rs.Connection.Link.{
  LinkError, connect_loop, find_char, establish, Connection, connect, listen, reconnect_stream,
  try_write, retry_write, write_loop, write,
}

module _ (b : Ble) where
  abbrev Found : ℕ → Result (LinkError b.Error) b.Characteristic → Type 0
  Found u (ok c) = b.uuid c ≡ u
  Found u (err e) = Unit {0}

  find_char-Found : (u : ℕ) (cs : List b.Characteristic) → Found u (find_char b u cs)
  unfolding find_char
  find_char-Found u [] = tt
  find_char-Found u (c ∷ cs) = elim (Bool-cases (b.uuid c == u)) [
    | inl e ↦ rw e ((==_iff _ _).0 e)
    | inr e ↦ rw e (find_char-Found u cs)
  ]

  pub record IsAttached (c : Connection b) : Type 0 where
    pub tx_uuid : b.uuid c.tx ≡ c_tx
    pub rx_uuid : b.uuid c.rx ≡ c_rx

  connect-IsAttached : (c : Connection b) → IsAttached c → IsAttached (connect b c).1
  unfolding connect establish
  connect-IsAttached c a =
      let chars = b.characteristics (connect_loop b 4 1 c.device).1 in
      ground (arith, find_char-Found c_tx chars, find_char-Found c_rx chars)

  write_loop-IsAttached :
      (p : Bytes) (left : ℕ) (f : Bool) (c : Connection b)
      → IsAttached c
      → IsAttached (write_loop b p left f c).1
  unfolding write_loop retry_write try_write
  write_loop-IsAttached p zero f c a = ground arith
  write_loop-IsAttached p (suc left) f c a =
      more (try_write b p c) (record { tx_uuid = a.tx_uuid; rx_uuid = a.rx_uuid })
        (write_loop-IsAttached p left)
    where
      more :
          (x : Result b.Error (Unit {0}) × Connection b)
          → IsAttached x.1
          → ((f : Bool) (c : Connection b) → IsAttached c → IsAttached (write_loop b p left f c).1)
          → IsAttached (retry_write b (write_loop b p left) (suc left) f x).1
      more (ok u, d) e ih = e
      more (err x, d) e ih = ih _ _ (connect-IsAttached d e)

  listen-IsAttached : (c : Connection b) → IsAttached c → IsAttached (listen b c).1
  unfolding listen
  listen-IsAttached c a = record { tx_uuid = a.tx_uuid; rx_uuid = a.rx_uuid }

  write-IsAttached : (p : Bytes) (c : Connection b) → IsAttached c → IsAttached (write b p c).1
  unfolding write
  write-IsAttached p c a = write_loop-IsAttached p 4 false c a

  reconnect_stream-IsAttached :
      (c : Connection b) → IsAttached c → IsAttached (reconnect_stream b c).1
  unfolding reconnect_stream
  reconnect_stream-IsAttached c a =
      ground (arith, connect-IsAttached c a, listen-IsAttached (connect b c).1)

  -- Writing, listening and reconnecting on an attached connection keep a connection on the two characteristics of the
  -- device's serial service, whether they succeed or fail.
  pub operations-IsAttached :
      (p : Bytes) (c : Connection b)
      → IsAttached c
      → IsAttached (write b p c).1 × IsAttached (listen b c).1 × IsAttached (reconnect_stream b c).1
  operations-IsAttached p c a =
      (write-IsAttached p c a, listen-IsAttached c a, reconnect_stream-IsAttached c a)
