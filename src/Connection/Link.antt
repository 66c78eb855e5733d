-- ===== src/Connection/Link.antt =====
-- src/connection.rs, the link of a `Connection`: establishing it, writing with retries, and the
-- notification stream. A call gives its result and the connection after it.
pub mod Retries
pub mod Attached
pub mod Post
pub mod LetGo
use btwattch2_rs.Prelude.{
  ℕ, zero, suc, ◌+◌, ◌-◌, ◌==◌, if◌then◌else◌, Bool, true, false, List, [], ◌∷◌, Option, none, some,
  Bytes, Result, ok, err,
}
use btwattch2_rs.Connection.Replies.{Stream, c_tx, c_rx}
use btwattch2_rs.Connection.Ble.{Ble, WriteType, with_response, without_response}

abbrev pub connect_retries : ℕ
connect_retries = 5

abbrev pub write_retries : ℕ
write_retries = 5

pub data LinkError (E : Type 0) : Type 0 where
  ble : E → LinkError E
  -- With the number of attempts.
  connect_failed : ℕ → E → LinkError E
  write_failed : E → LinkError E
  characteristic_not_found : ℕ → LinkError E

-- A call on a state: its result, and the state after it.
abbrev pub Op {ℓ} : Type 0 → Type 0 → Type ℓ → Type ℓ
Op S E A = S → Result E A × S

infixl 5 ◌>>=◌ ◌>>◌
abbrev pub ◌>>=◌ {ℓ κ} :
    {S E : Type 0} {A : Type ℓ} {B : Type κ} → Op S E A → (A → Op S E B) → Op S E B
◌>>=◌ m f s = let (r, t) = m s in elim r [ ok a ↦ f a t | err e ↦ (err e, t) ]

abbrev pub ◌>>◌ {ℓ} : {S E : Type 0} {B : Type ℓ} → Op S E (Unit {0}) → Op S E B → Op S E B
m >> k = m >>= λ _. k

-- The error in another type, as `?` converts it.
abbrev pub lift {ℓ} : {S E F : Type 0} {A : Type ℓ} → (E → F) → Op S E A → Op S F A
lift g m s = let (r, t) = m s in elim r [ ok a ↦ (ok a, t) | err e ↦ (err (g e), t) ]

module _ (b : Ble) where
  open b use {Peripheral, Characteristic, Error, uuid, has_write}

  -- Only if the link is known to be up; the outcome is dropped.
  unfoldable pub drop_connection : Peripheral → Peripheral
  drop_connection d =
      let (r, d') = b.is_connected d in
      elim r [ ok up ↦ if up then (b.disconnect d').1 else d' | err e ↦ d' ]

  -- One attempt.
  try_connect : Op Peripheral Error (Unit {0})
  try_connect = do b.connect; b.discover_services

  retry_connect :
      (ℕ → Peripheral → Result (LinkError Error) (Unit {0}) × Peripheral)
      → ℕ
      → ℕ
      → Result Error (Unit {0}) × Peripheral
      → Result (LinkError Error) (Unit {0}) × Peripheral
  retry_connect again left attempt (ok u, d) = (ok u, d)
  retry_connect again zero attempt (err e, d) = (err (connect_failed attempt e), drop_connection d)
  retry_connect again (suc left) attempt (err e, d) = again (attempt + 1) (drop_connection d)

  -- The loop from an attempt on, with `left` retries still allowed: `CONNECT_RETRIES - attempt`.
  connect_loop : ℕ → ℕ → Op Peripheral (LinkError Error) (Unit {0})
  unfolding try_connect retry_connect drop_connection
  connect_loop zero attempt d = retry_connect (λ n d. (ok tt, d)) zero attempt (try_connect d)
  connect_loop (suc left) attempt d =
      retry_connect (connect_loop left) (suc left) attempt (try_connect d)

  find_char : ℕ → List Characteristic → Result (LinkError Error) Characteristic
  find_char u [] = err (characteristic_not_found u)
  find_char u (c ∷ cs) = if uuid c == u then ok c else find_char u cs

  -- The TX and RX characteristics, on a link that is up.
  unfoldable pub establish : Op Peripheral (LinkError Error) (Characteristic × Characteristic)
  unfolding connect_loop find_char
  establish = do
    connect_loop (connect_retries - 1) 1
    tx ← λ d. (find_char c_tx (b.characteristics d), d)
    rx ← λ d. (find_char c_rx (b.characteristics d), d)
    λ d. (ok (tx, rx), d)

  pub record Connection : Type 0 where
    pub device : Peripheral
    pub tx : Characteristic
    pub rx : Characteristic

  -- `Connection::new`, on the device that was found.
  unfoldable pub attach : Op Peripheral (LinkError Error) Connection
  unfolding establish
  attach = do (tx, rx) ← establish; λ d. (ok (record { device = d; tx = tx; rx = rx }), d)

  -- A call of the peripheral, made on the connection.
  abbrev pub on_device {ℓ} :
      {A : Type ℓ} → Op Peripheral (LinkError Error) A → Op Connection (LinkError Error) A
  on_device m c = let (r, d) = m c.device in (r, record c { device = d })

  unfoldable pub connect : Op Connection (LinkError Error) (Unit {0})
  unfolding establish
  connect = do (tx, rx) ← on_device establish; λ c. (ok tt, record c { tx = tx; rx = rx })

  unfoldable pub listen : Op Connection (LinkError Error) Stream
  listen c = on_device (lift ble (do b.subscribe c.rx; b.notifications)) c

  unfoldable pub reconnect_stream : Op Connection (LinkError Error) Stream
  unfolding connect listen
  reconnect_stream = do connect; listen

  unfoldable pub disconnect : Connection → Connection
  unfolding drop_connection
  disconnect c = record c { device = drop_connection c.device }

  abbrev write_type : Characteristic → WriteType
  write_type tx = if has_write tx then with_response else without_response

  -- One write, on the `tx` of the moment.
  try_write : Bytes → Op Connection Error (Unit {0})
  try_write payload c =
      let (r, d) = b.write c.tx payload (write_type c.tx) c.device in (r, record c { device = d })

  -- A reconnect that worked is remembered; one that failed is only logged.
  after_connect : Bool → Result (LinkError Error) (Unit {0}) → Bool
  after_connect reconnected (ok u) = true
  after_connect reconnected (err e) = reconnected

  retry_write :
      (Bool → Op Connection (LinkError Error) Bool)
      → ℕ
      → Bool
      → Result Error (Unit {0}) × Connection
      → Result (LinkError Error) Bool × Connection
  unfolding after_connect
  retry_write again left reconnected (ok u, c) = (ok reconnected, c)
  retry_write again zero reconnected (err e, c) = (err (write_failed e), c)
  retry_write again (suc left) reconnected (err e, c) =
      let (r, c') = connect c in again (after_connect reconnected r) c'

  -- `left` is `WRITE_RETRIES - attempt`.
  write_loop : Bytes → ℕ → Bool → Op Connection (LinkError Error) Bool
  unfolding try_write retry_write connect
  write_loop payload zero reconnected c =
      retry_write (λ f c. (ok f, c)) zero reconnected (try_write payload c)
  write_loop payload (suc left) reconnected c =
      retry_write (write_loop payload left) (suc left) reconnected (try_write payload c)

  -- Whether the connection was re-established along the way.
  unfoldable pub write : Bytes → Op Connection (LinkError Error) Bool
  unfolding write_loop
  write payload = write_loop payload (write_retries - 1) false
