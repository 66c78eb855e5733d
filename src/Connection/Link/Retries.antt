-- ===== src/Connection/Link/Retries.antt =====
-- How often the link is tried: the bounds on the attempts of `write` and `establish`, against any
-- count that the peripheral keeps of its calls.
use btwattch2_rs.Prelude.{
  ℕ, zero, suc, ◌+◌, ◌≤◌, ◌<◌, ◌≡◌, ◌∙◌, arith, Bool, false, Bytes, Result, ok, err,
}
use btwattch2_rs.Connection.Ble.{Ble, WriteType}
use btwattch2_rs.Connection.Link.{
  LinkError, drop_connection, try_connect, retry_connect, connect_loop, establish, Connection,
  connect, try_write, retry_write, after_connect, write_loop, write,
}

-- A count that grows by one with each write and by none with any other call.
pub record CountsWrites (b : Ble) (writes : b.Peripheral → ℕ) : Type 0 where
  pub at_write :
      (c : b.Characteristic) (p : Bytes) (w : WriteType) (d : b.Peripheral)
      → writes (b.write c p w d).1 ≡ writes d + 1
  pub at_connect : (d : b.Peripheral) → writes (b.connect d).1 ≡ writes d
  pub at_discover : (d : b.Peripheral) → writes (b.discover_services d).1 ≡ writes d
  pub at_is_connected : (d : b.Peripheral) → writes (b.is_connected d).1 ≡ writes d
  pub at_disconnect : (d : b.Peripheral) → writes (b.disconnect d).1 ≡ writes d

-- Likewise for the attempts to connect.
pub record CountsConnects (b : Ble) (connects : b.Peripheral → ℕ) : Type 0 where
  pub at_connect : (d : b.Peripheral) → connects (b.connect d).1 ≡ connects d + 1
  pub at_discover : (d : b.Peripheral) → connects (b.discover_services d).1 ≡ connects d
  pub at_is_connected : (d : b.Peripheral) → connects (b.is_connected d).1 ≡ connects d
  pub at_disconnect : (d : b.Peripheral) → connects (b.disconnect d).1 ≡ connects d

-- With `left` retries allowed behind the first attempt: a success takes at most all of them, and
-- a failure takes all of them.
abbrev pub Tried {ℓ} : {E : Type 0} {A : Type ℓ} → ℕ → ℕ → Result E A → ℕ → Type 0
Tried left n (ok a) m = (n < m) × (m ≤ n + left + 1)
Tried left n (err e) m = m ≡ n + left + 1

module _ (b : Ble) (writes : b.Peripheral → ℕ) (counts : CountsWrites b writes) where
  open counts use {at_write, at_connect, at_discover, at_is_connected, at_disconnect}

  drop_connection-keeps : (d : b.Peripheral) → writes (drop_connection b d) ≡ writes d
  unfolding drop_connection
  drop_connection-keeps d = ground (arith, at_is_connected d, at_disconnect (b.is_connected d).1)

  try_connect-keeps : (d : b.Peripheral) → writes (try_connect b d).1 ≡ writes d
  unfolding try_connect
  try_connect-keeps d = ground (arith, at_connect d, at_discover (b.connect d).1)

  connect_loop-keeps :
      (left n : ℕ) (d : b.Peripheral) → writes (connect_loop b left n d).1 ≡ writes d
  unfolding connect_loop retry_connect
  connect_loop-keeps zero n d =
      ground (arith, try_connect-keeps d, drop_connection-keeps (try_connect b d).1)
  connect_loop-keeps (suc left) n d = ground (
    arith,
    try_connect-keeps d,
    drop_connection-keeps (try_connect b d).1,
    connect_loop-keeps left (n + 1) (drop_connection b (try_connect b d).1),
  )

  establish-keeps : (d : b.Peripheral) → writes (establish b d).1 ≡ writes d
  unfolding establish
  establish-keeps d = ground (arith, connect_loop-keeps 4 1 d)

  connect-keeps : (c : Connection b) → writes (connect b c).1.device ≡ writes c.device
  unfolding connect
  connect-keeps c = ground (arith, establish-keeps c.device)

  try_write_one :
      (p : Bytes) (c : Connection b) → writes (try_write b p c).1.device ≡ writes c.device + 1
  unfolding try_write
  try_write_one p c = at_write c.tx p _ c.device

  write_loop-Tried :
      (p : Bytes) (left : ℕ) (f : Bool) (c : Connection b)
      → Tried left
          (writes c.device)
          (write_loop b p left f c).0
          (writes (write_loop b p left f c).1.device)
  unfolding write_loop retry_write
  write_loop-Tried p zero f c = done (try_write b p c) (try_write_one p c)
    where
      done :
          (x : Result b.Error (Unit {0}) × Connection b)
          → writes x.1.device ≡ writes c.device + 1
          → let y = retry_write b (λ f c. (ok f, c)) zero f x in
            Tried zero (writes c.device) y.0 (writes y.1.device)
      done (ok u, d) e = omega arith
      done (err x, d) e = omega arith
  write_loop-Tried p (suc left) f c =
      more (try_write b p c) (try_write_one p c) (write_loop-Tried p left)
    where
      grow :
          (r : Result (LinkError b.Error) Bool) (m n k : ℕ)
          → k ≡ n + 1
          → Tried left k r m
          → Tried (suc left) n r m
      grow (ok a) m n k e t = omega arith
      grow (err x) m n k e t = omega arith

      more :
          (x : Result b.Error (Unit {0}) × Connection b)
          → writes x.1.device ≡ writes c.device + 1
          → ((f : Bool) (c : Connection b)
              → Tried left
                  (writes c.device)
                  (write_loop b p left f c).0
                  (writes (write_loop b p left f c).1.device))
          → let y = retry_write b (write_loop b p left) (suc left) f x in
            Tried (suc left) (writes c.device) y.0 (writes y.1.device)
      more (ok u, d) e ih = omega arith
      more (err x, d) e ih =
          grow _ _ _ _ (connect-keeps d ∙ e)
            (ih (after_connect b f (connect b d).0) (connect b d).1)

  -- By a count that each write to the peripheral raises by one and no other call changes: a
  -- successful write sends the payload at least once and at most five times; a failed one has
  -- tried five times.
  pub write_attempts :
      (payload : Bytes) (c : Connection b)
      → Tried 4 (writes c.device) (write b payload c).0 (writes (write b payload c).1.device)
  unfolding write
  write_attempts payload c = write_loop-Tried payload 4 false c

module _ (b : Ble) (connects : b.Peripheral → ℕ) (counts : CountsConnects b connects) where
  drop_connection-connects : (d : b.Peripheral) → connects (drop_connection b d) ≡ connects d
  unfolding drop_connection
  drop_connection-connects d =
      ground (arith, counts.at_is_connected d, counts.at_disconnect (b.is_connected d).1)

  try_connect_one : (d : b.Peripheral) → connects (try_connect b d).1 ≡ connects d + 1
  unfolding try_connect
  try_connect_one d = ground (arith, counts.at_connect d, counts.at_discover (b.connect d).1)

  connect_loop-Tried :
      (left n : ℕ) (d : b.Peripheral)
      → Tried left (connects d) (connect_loop b left n d).0 (connects (connect_loop b left n d).1)
  unfolding connect_loop retry_connect
  connect_loop-Tried zero n d =
      ground (arith, try_connect_one d, drop_connection-connects (try_connect b d).1)
  connect_loop-Tried (suc left) n d =
      let next = drop_connection b (try_connect b d).1 in
      ground (
        arith,
        try_connect_one d,
        drop_connection-connects (try_connect b d).1,
        connect_loop-Tried left (n + 1) next,
      )

  Tried-bounds {ℓ} :
      {E : Type 0} {A : Type ℓ} (r : Result E A) (n m : ℕ) → Tried 4 n r m → (n < m) × (m ≤ n + 5)
  Tried-bounds (ok a) n m t = (t.0, omega arith)
  Tried-bounds (err e) n m t = (omega arith, omega arith)

  -- By a count that each attempt to connect raises by one and no other call changes: establishing
  -- the link makes at least one and at most five attempts to connect, whether it
  -- succeeds, gives up, or does not find a characteristic.
  pub establish_attempts :
      (d : b.Peripheral)
      → (connects d < connects (establish b d).1) × (connects (establish b d).1 ≤ connects d + 5)
  unfolding establish
  establish_attempts d =
      let tried =
        Tried-bounds (connect_loop b 4 1 d).0 (connects d) (connects (connect_loop b 4 1 d).1)
          (connect_loop-Tried 4 1 d) in
      ground (arith, tried)
