-- ===== src/Connection/Replies.antt =====
-- src/connection.rs, `next_matching_frame`: waiting for the reply to a command, among whatever
-- else arrives. The notifications to come are a value, `Stream`; what the callback does to its
-- captured state is a function on that state.
pub mod Feeding
pub mod Order
use btwattch2_rs.Prelude.{
  ℕ, zero, suc, ◌==◌, if◌then◌else◌, List, [], ◌∷◌, ◌++◌, Option, none, some, Bytes, length, Bool,
  true, false,
}
use btwattch2_rs.Connection.Assembler.{FrameKind, matches, next_frame}

-- The characteristics, by their UUIDs.
abbrev pub c_tx : ℕ
c_tx = 0x6e400002_b5a3_f393_e0a9_e50e24dcca9e

abbrev pub c_rx : ℕ
c_rx = 0x6e400003_b5a3_f393_e0a9_e50e24dcca9e

pub record ValueNotification : Type 0 where
  pub uuid : ℕ
  pub value : Bytes

-- What a subscription delivers, in order. `deadline` marks where the timeout of a bounded wait
-- fires; `closed` is the end of the stream.
pub data Stream : Type 0 where
  closed : Stream
  deadline : Stream → Stream
  event : ValueNotification → Stream → Stream

pub data Wait : Type 0 where
  found : Bytes → Wait
  ended timed_out : Wait

-- How far the inner loop came: the reply, the assembler's buffer and the callback's state.
pub record Fed {ℓ} (S : Type ℓ) : Type ℓ where
  pub reply : Option Bytes
  pub buf : Bytes
  pub state : S

pub record Waited {ℓ} (S : Type ℓ) : Type ℓ where
  pub result : Wait
  pub stream : Stream
  pub buf : Bytes
  pub state : S

module _ {ℓ} {S : Type ℓ} (kind : FrameKind) (on_other : Bytes → S → S) where
  -- The inner loop over `assembler.feed`: the iterator is dropped at the first match, and the
  -- rest of the buffer stays for the next call. `again` is the rest of the loop.
  pub take_tested : (Bytes → S → Fed S) → Bool → Bytes → Bytes → S → Fed S
  take_tested again true frame rest s = record { reply = some frame; buf = rest; state = s }
  take_tested again false frame rest s = again rest (on_other frame s)

  pub take_frame : (Bytes → S → Fed S) → Option Bytes × Bytes → S → Fed S
  unfolding take_tested
  take_frame again (none, rest) s = record { reply = none; buf = rest; state = s }
  take_frame again (some frame, rest) s = take_tested again (matches kind frame) frame rest s

  pub take_until : ℕ → Bytes → S → Fed S
  unfolding take_frame
  take_until zero buf s = record { reply = none; buf = buf; state = s }
  take_until (suc fuel) buf s = take_frame (take_until fuel) (next_frame buf) s

  pub feed_until : Bytes → Bytes → S → Fed S
  unfolding take_until
  feed_until buf input s = take_until (suc (length (buf ++ input))) (buf ++ input) s

  pub on_fed : (Bytes → S → Waited S) → Stream → Option Bytes → Bytes → S → Waited S
  on_fed again rest (some frame) buf s = record {
    result = found frame;
    stream = rest;
    buf = buf;
    state = s;
  }
  on_fed again rest none buf s = again buf s

  unfoldable pub next_matching_frame : Stream → Bytes → S → Waited S
  unfolding feed_until on_fed
  next_matching_frame closed buf s = record {
    result = ended;
    stream = closed;
    buf = buf;
    state = s;
  }
  next_matching_frame (deadline rest) buf s = record {
    result = timed_out;
    stream = rest;
    buf = buf;
    state = s;
  }
  next_matching_frame (event n rest) buf s =
      let fed = feed_until buf n.value s in
      let on = on_fed (next_matching_frame rest) rest fed.reply fed.buf fed.state in
      let skipped = next_matching_frame rest buf s in if n.uuid == c_rx then on else skipped
