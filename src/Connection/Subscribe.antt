-- ===== src/Connection/Subscribe.antt =====
-- src/connection.rs, `subscribe` and `subscribe_measure`: polling the device and handing over what
-- it reports. What the `select!` finds ready is a list of turns, and a stream that is awaited
-- without a limit of time skips the marks of one.
pub mod Frames
use btwattch2_rs.Prelude.{
  ℕ, ◌==◌, if◌then◌else◌, Bool, true, false, List, [], ◌∷◌, Option, none, some, Bytes, Result, ok,
  err,
}
use btwattch2_rs.Chrono.{Chrono}
use btwattch2_rs.Float.{Float}
use btwattch2_rs.Payload.{monitoring}
use btwattch2_rs.Connection.Assembler.{feed}
use btwattch2_rs.Connection.Measure.{Measurement, try_measurement}
use btwattch2_rs.Connection.Replies.{Stream, closed, deadline, event, ValueNotification, c_rx}
use btwattch2_rs.Connection.Ble.{Ble}
use btwattch2_rs.Connection.Link.{LinkError, Op, ◌>>=◌, Connection, listen, write, reconnect_stream}

-- The branch that `select!` takes.
pub data Turn : Type 0 where
  ticked notified : Turn

-- The outcome is `none` where the schedule ends first: the caller dropped the call.
pub record Ended {ℓ} (b : Ble) (S : Type ℓ) : Type ℓ where
  pub outcome : Option (Result (LinkError b.Error) (Unit {0}))
  pub conn : Connection b
  pub state : S

-- The next notification, and the stream behind it.
unfoldable pub next_event : Stream → Option (ValueNotification × Stream)
next_event closed = none
next_event (deadline rest) = next_event rest
next_event (event n rest) = some (n, rest)

module _ {ℓ} {S : Type ℓ} (b : Ble) (on_frame : Bytes → S → Bool × S) where
  -- The frames in order, up to a break.
  unfoldable pub hand_frames : List Bytes → S → Bool × S
  hand_frames [] s = (false, s)
  hand_frames (frame ∷ frames) s =
      let (is_break, t) = on_frame frame s in
      let rest = hand_frames frames t in if is_break then (true, t) else rest

  -- The loop after a turn: its notifications, the buffer of the assembler, the state of the
  -- callback.
  abbrev Again : Type ℓ
  Again = Stream → Bytes → S → Connection b → Ended b S

  stopped : Result (LinkError b.Error) (Unit {0}) → S → Connection b → Ended b S
  stopped r s c = record { outcome = some r; conn = c; state = s }

  on_stream :
      (Stream → Connection b → Ended b S)
      → S
      → Result (LinkError b.Error) Stream × Connection b
      → Ended b S
  unfolding stopped
  on_stream again s (ok st, c) = again st c
  on_stream again s (err e, c) = stopped (err e) s c

  -- The poll, and a new subscription if the write re-established the link.
  on_tick : Again → Bytes → Stream → Bytes → S → Connection b → Ended b S
  unfolding on_stream stopped
  on_tick again payload st buf s c =
      let (r, c') = write b payload c in
      elim r [
        | ok true ↦ on_stream (λ st c. again st buf s c) s (listen b c')
        | ok false ↦ again st buf s c'
        | err e ↦ stopped (err e) s c'
      ]

  on_event : Again → ValueNotification → Stream → Bytes → S → Connection b → Ended b S
  unfolding hand_frames stopped
  on_event again n rest buf s c =
      let fed = feed buf n.value in
      let (is_break, t) = hand_frames (fed.0) s in
      let on = again rest (fed.1) t c in
      let skipped = again rest buf s c in
      if n.uuid == c_rx then (if is_break then stopped (ok tt) t c else on) else skipped

  on_notified : Again → Stream → Bytes → S → Connection b → Ended b S
  unfolding on_stream on_event
  on_notified again st buf s c = elim (next_event st) [
    | some (n, rest) ↦ on_event again n rest buf s c
    | none ↦ on_stream (λ st c. again st [] s c) s (reconnect_stream b c)
  ]

  unfoldable pub subscribe_loop : Bytes → List Turn → Again
  unfolding on_tick on_notified
  subscribe_loop payload [] st buf s c = record { outcome = none; conn = c; state = s }
  subscribe_loop payload (ticked ∷ turns) st buf s c =
      on_tick (subscribe_loop payload turns) payload st buf s c
  subscribe_loop payload (notified ∷ turns) st buf s c =
      on_notified (subscribe_loop payload turns) st buf s c

  unfoldable pub subscribe : Bytes → List Turn → S → Connection b → Ended b S
  unfolding subscribe_loop on_stream
  subscribe payload turns s c =
      on_stream (λ st c. subscribe_loop payload turns st [] s c) s (listen b c)

module _ {ℓ} {S : Type ℓ} (fl : Float) (c : Chrono) where
  -- A frame that is no measurement is passed over.
  unfoldable pub measure_frame : (Measurement fl c → S → Bool × S) → Bytes → S → Bool × S
  measure_frame on_measure frame s = elim (try_measurement fl c frame) [
    | some m ↦ on_measure m s
    | none ↦ (false, s)
  ]

  unfoldable pub subscribe_measure :
      (b : Ble) → (Measurement fl c → S → Bool × S) → List Turn → S → Connection b → Ended b S
  unfolding subscribe measure_frame
  subscribe_measure b on_measure = subscribe b (measure_frame on_measure) monitoring
