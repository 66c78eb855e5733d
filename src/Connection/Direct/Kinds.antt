-- ===== src/Connection/Direct/Kinds.antt =====
-- The reply that a direct command takes is of the kind that it waits for.
use btwattch2_rs.Prelude.{
  ℕ, zero, suc, ◌≡◌, ◌≢◌, refl, arith, ltb, Bool, true, false, [], Option, none, some, Bytes,
  length, Result, ok, err, ok_or, ◌>>=◌,
}
use btwattch2_rs.Chrono.{Chrono}
use btwattch2_rs.Float.{Float}
use btwattch2_rs.Payload.{monitoring}
use btwattch2_rs.Connection.Assembler.{FrameKind, measurement, matches}
use btwattch2_rs.Connection.Measure.{
  Measurement, MeasureError, too_short, invalid_timestamp, read_measure,
}
use btwattch2_rs.Connection.Replies.{Stream, Wait, found, ended, timed_out}
use btwattch2_rs.Connection.Replies.Feeding.{Hits}
use btwattch2_rs.Connection.Replies.Order.{next_matching_frame_in_order, reply_of}
use btwattch2_rs.Connection.Ble.{Ble}
use btwattch2_rs.Connection.Link.{LinkError, write, Op, Connection, listen, reconnect_stream}
use btwattch2_rs.Connection.Link
use btwattch2_rs.Connection.Direct.{
  DirectError, measure_failed, link_failed, command_timed_out, frame_too_short, year_out_of_range,
  status_failed, Direct, linked, ignore_frame, after_write, send_on, on_wait, wait_loop, oneshot,
  measured_from, measure_once,
}

module _ (b : Ble) where
  abbrev NoMeasure : DirectError b.Error → Type 0
  NoMeasure (measure_failed e) = ⊥
  NoMeasure _ = Unit {0}

  -- A failure here is not one of reading a measurement.
  abbrev Clean {ℓ} : {A : Type ℓ} → Result (DirectError b.Error) A × Connection b → Type 0
  Clean (ok a, c) = Unit {0}
  Clean (err e, c) = NoMeasure e

  abbrev IsReply : FrameKind → Result (DirectError b.Error) Bytes × Connection b → Type 0
  IsReply kind (ok frame, c) = matches kind frame ≡ true
  IsReply kind (err e, c) = NoMeasure e

  linked-Clean {ℓ} :
      {A : Type ℓ} (m : Op (Connection b) (LinkError b.Error) A) (c : Connection b)
      → Clean (linked b m c)
  unfolding linked
  linked-Clean {A} m c = go (m c)
    where
      go :
          (x : Result (LinkError b.Error) A × Connection b)
          → Clean (
              let y : Result (DirectError b.Error) A × Connection b = elim x.0 [
                | ok a ↦ (ok a, x.1)
                | err e ↦ (err (link_failed e), x.1)
              ] in
              y)
      go (ok a, d) = tt
      go (err e, d) = tt

  after_write-Clean : (st : Stream) (f : Bool) (c : Connection b) → Clean (after_write b st f c)
  unfolding after_write
  after_write-Clean st true c = linked-Clean (listen b) c
  after_write-Clean st false c = tt

  send_on-Clean :
      (payload : Bytes) (st : Stream) (c : Connection b) → Clean (send_on b payload st c)
  unfolding send_on
  send_on-Clean payload st c = go (linked b (write b payload) c) (linked-Clean (write b payload) c)
    where
      go :
          (x : Result (DirectError b.Error) Bool × Connection b)
          → Clean x
          → Clean (
              let y : Result (DirectError b.Error) Stream × Connection b = elim x.0 [
                | ok f ↦ after_write b st f x.1
                | err e ↦ (err e, x.1)
              ] in
              y)
      go (ok f, d) h = after_write-Clean st f d
      go (err e, d) h = h

  bind-IsReply :
      {A : Type 0} (kind : FrameKind) (m : Direct b A) (k : A → Direct b Bytes) (c : Connection b)
      → Clean (m c)
      → ((a : A) (d : Connection b) → IsReply kind (k a d))
      → IsReply kind (Link.◌>>=◌ m k c)
  bind-IsReply {A} kind m k c clean h = go (m c) clean
    where
      go :
          (x : Result (DirectError b.Error) A × Connection b)
          → Clean x
          → IsReply kind (
              let y : Result (DirectError b.Error) Bytes × Connection b = elim x.0 [
                | ok a ↦ k a x.1
                | err e ↦ (err e, x.1)
              ] in
              y)
      go (ok a, d) g = h a d
      go (err e, d) g = g

  on_wait-IsReply :
      (kind : FrameKind) (again : Direct b Bytes) (w : Wait) (c : Connection b)
      → Hits kind (reply_of w)
      → IsReply kind (again c)
      → IsReply kind (on_wait b again w c)
  unfolding on_wait
  on_wait-IsReply kind again (found frame) c hit h = hit
  on_wait-IsReply kind again timed_out c hit h = tt
  on_wait-IsReply kind again ended c hit h = h

  wait_loop-IsReply :
      (kind : FrameKind) (payload : Bytes) (rounds : ℕ) (st : Stream) (c : Connection b)
      → IsReply kind (wait_loop b kind payload rounds st c)
  unfolding wait_loop
  wait_loop-IsReply kind payload zero st c = tt
  wait_loop-IsReply kind payload (suc rounds) st c =
      let (before, misses, hits, handled, order) =
        next_matching_frame_in_order kind (ignore_frame b) st [] tt in
      on_wait-IsReply kind _ _ c hits (
        bind-IsReply kind (linked b (reconnect_stream b)) _ c (linked-Clean (reconnect_stream b) c)
          λ st d.
            bind-IsReply kind (send_on b payload st) _ d (send_on-Clean payload st d)
              λ st e. wait_loop-IsReply kind payload rounds st e)

  oneshot-IsReply :
      (rounds : ℕ) (payload : Bytes) (kind : FrameKind) (c : Connection b)
      → IsReply kind (oneshot b rounds payload kind c)
  unfolding oneshot
  oneshot-IsReply rounds payload kind c =
      bind-IsReply kind (linked b (listen b)) _ c (linked-Clean (listen b) c) λ st d.
        bind-IsReply kind (send_on b payload st) _ d (send_on-Clean payload st d)
          λ st e. wait_loop-IsReply kind payload rounds st e

  module _ (fl : Float) (ch : Chrono) where
    matches-length :
        (frame : Bytes) → matches measurement frame ≡ true → ltb (length frame) 30 ≡ false
    unfolding matches
    matches-length frame h = ground arith

    timestamped :
        (o : Option ch.DateTime) (g : ch.DateTime → Measurement fl ch)
        → (ok_or o invalid_timestamp >>= λ t. ok (g t)) ≢ err too_short
    timestamped none g e = absurd (cc)
    timestamped (some t) g e = absurd (cc)

    read_measure-long :
        (frame : Bytes)
        → matches measurement frame ≡ true
        → read_measure fl ch frame ≢ err too_short
    unfolding read_measure
    read_measure-long frame h = rw (matches-length frame h) (timestamped _ _)

    measured_from-long :
        (frame : Bytes)
        → matches measurement frame ≡ true
        → measured_from b fl ch frame ≢ err (measure_failed too_short)
    unfolding measured_from
    measured_from-long frame h = go (read_measure fl ch frame) (read_measure-long frame h)
      where
        go :
            (r : Result MeasureError (Measurement fl ch))
            → r ≢ err too_short
            → (let y : Result (DirectError b.Error) (Measurement fl ch) = elim r [
              | ok m ↦ ok m
              | err e ↦ err (measure_failed e)
            ] in
                y)
              ≢ err (measure_failed too_short)
        go (ok m) ne e = absurd (cc)
        go (err too_short) ne e = ne refl
        go (err invalid_timestamp) ne e = absurd (cc)

    -- Reading the device once never takes the short reply of a command for the measurement: it
    -- does not end in a frame that is too short, whatever the link does and however often it drops.
    pub measure_once-long :
        (rounds : ℕ) (c : Connection b)
        → (measure_once b fl ch rounds c).0 ≢ err (measure_failed too_short)
    unfolding measure_once
    measure_once-long rounds c =
        go (oneshot b rounds monitoring measurement c)
          (oneshot-IsReply rounds monitoring measurement c)
      where
        go :
            (x : Result (DirectError b.Error) Bytes × Connection b)
            → IsReply measurement x
            → (let y : Result (DirectError b.Error) (Measurement fl ch) × Connection b = elim x.0 [
              | ok frame ↦ (measured_from b fl ch frame, x.1)
              | err e ↦ (err e, x.1)
            ] in
                y).0
              ≢ err (measure_failed too_short)
        go (ok frame, d) h = measured_from-long frame h
        go (err (measure_failed e), d) h = absurd h
        go (err (link_failed e), d) h = λ same. absurd (cc)
        go (err command_timed_out, d) h = λ same. absurd (cc)
        go (err frame_too_short, d) h = λ same. absurd (cc)
        go (err year_out_of_range, d) h = λ same. absurd (cc)
        go (err (status_failed n), d) h = λ same. absurd (cc)
