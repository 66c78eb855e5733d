-- ===== src/Connection/Direct.antt =====
-- src/connection.rs, the commands of a `Connection` that has no agent in between: `oneshot` and
-- what is built on it. The timeout of the wait is a mark in the stream, or `rounds`, the number of
-- times that the link may drop before it fires.
pub mod Kinds
use btwattch2_rs.Prelude.{
  ℕ, zero, suc, ◌==◌, if◌then◌else◌, Bool, true, false, [], Option, none, some, Bytes, Result, ok,
  err,
}
use btwattch2_rs.Chrono.{Chrono}
use btwattch2_rs.Float.{Float}
use btwattch2_rs.Payload.{rtc, on, off, blink_led, monitoring}
use btwattch2_rs.Connection.Assembler.{FrameKind, command, measurement}
use btwattch2_rs.Connection.Measure.{Measurement, MeasureError, read_measure, command_status}
use btwattch2_rs.Connection.Replies.{Stream, Wait, found, ended, timed_out, next_matching_frame}
use btwattch2_rs.Connection.Ble.{Ble}
use btwattch2_rs.Connection.Link.{
  LinkError, Op, ◌>>=◌, lift, Connection, listen, write, reconnect_stream,
}

pub data DirectError (E : Type 0) : Type 0 where
  link_failed : LinkError E → DirectError E
  command_timed_out frame_too_short year_out_of_range : DirectError E
  -- A status other than zero.
  status_failed : ℕ → DirectError E
  measure_failed : MeasureError → DirectError E

module _ (b : Ble) where
  abbrev pub Direct {ℓ} : Type ℓ → Type ℓ
  Direct A = Op (Connection b) (DirectError b.Error) A

  linked {ℓ} : {A : Type ℓ} → Op (Connection b) (LinkError b.Error) A → Direct A
  linked m = lift link_failed m

  abbrev ignore_frame : Bytes → Unit {0} → Unit {0}
  ignore_frame frame s = s

  -- The write, and a fresh subscription if it re-established the link.
  after_write : Stream → Bool → Direct Stream
  unfolding linked
  after_write st true c = linked (listen b) c
  after_write st false c = (ok st, c)

  send_on : Bytes → Stream → Direct Stream
  unfolding linked after_write
  send_on payload st = do reconnected ← linked (write b payload); after_write st reconnected

  -- How a wait ends; `again` sends the command again on a new stream.
  on_wait : Direct Bytes → Wait → Direct Bytes
  on_wait again (found frame) c = (ok frame, c)
  on_wait again timed_out c = (err command_timed_out, c)
  on_wait again ended c = again c

  wait_loop : FrameKind → Bytes → ℕ → Stream → Direct Bytes
  unfolding on_wait linked send_on
  wait_loop kind payload zero st c = (err command_timed_out, c)
  wait_loop kind payload (suc rounds) st c =
      let again = (do
        st ← linked (reconnect_stream b)
        st ← send_on payload st
        wait_loop kind payload rounds st) in
      on_wait again (next_matching_frame kind ignore_frame st [] tt).result c

  unfoldable pub oneshot : ℕ → Bytes → FrameKind → Direct Bytes
  unfolding wait_loop linked send_on
  oneshot rounds payload kind = do
    st ← linked (listen b)
    st ← send_on payload st
    wait_loop kind payload rounds st

  -- `report_command`.
  unfoldable pub report_command : ℕ → Result (DirectError b.Error) (Unit {0})
  report_command code = if code == 0x00 then ok tt else err (status_failed code)

  status_of : Bytes → Result (DirectError b.Error) (Unit {0})
  unfolding report_command
  status_of frame = elim (command_status frame) [
    | some code ↦ report_command code
    | none ↦ err frame_too_short
  ]

  run : ℕ → Bytes → Direct (Unit {0})
  unfolding oneshot status_of
  run rounds payload = do frame ← oneshot rounds payload command; λ c. (status_of frame, c)

  unfoldable pub power : ℕ → Bool → Direct (Unit {0})
  unfolding run
  power rounds up = run rounds (if up then on else off)

  unfoldable pub blink : ℕ → Direct (Unit {0})
  unfolding run
  blink rounds = run rounds blink_led

  module _ (fl : Float) (c : Chrono) where
    unfoldable pub set_clock : ℕ → c.DateTime → Direct (Unit {0})
    unfolding run
    set_clock rounds time = elim (rtc c time) [
      | some payload ↦ run rounds payload
      | none ↦ λ conn. (err year_out_of_range, conn)
    ]

    measured_from : Bytes → Result (DirectError b.Error) (Measurement fl c)
    measured_from frame = elim (read_measure fl c frame) [
      | ok m ↦ ok m
      | err e ↦ err (measure_failed e)
    ]

    unfoldable pub measure_once : ℕ → Direct (Measurement fl c)
    unfolding oneshot measured_from
    measure_once rounds = do
      frame ← oneshot rounds monitoring measurement
      λ conn. (measured_from frame, conn)
