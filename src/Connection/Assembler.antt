-- ===== src/Connection/Assembler.antt =====
-- src/connection.rs, `FrameKind` and `FrameAssembler`: frames out of a byte stream that the link
-- cuts where it likes. The state is the assembler's buffer.
pub mod Scan
pub mod Chunks
pub mod Frames
pub mod Sound
use btwattch2_rs.Prelude.{
  ℕ, zero, suc, ◌+◌, ◌-◌, ◌*◌, ltb, leb, ◌==◌, if◌then◌else◌, List, [], ◌∷◌, ◌++◌, Option, none,
  some, Bytes, length, take, drop, get_or, Bool, true, false, not,
}
use btwattch2_rs.Payload.{header, frame_overhead, crc8}
use mathlib.Core.Option

abbrev pub max_frame_len : ℕ
max_frame_len = 256

abbrev pub measurement_frame_min_len : ℕ
measurement_frame_min_len = 30

pub data FrameKind : Type 0 where
  command measurement : FrameKind

abbrev is_measurement : FrameKind → Bool
is_measurement measurement = true
is_measurement command = false

abbrev bool_eq : Bool → Bool → Bool
bool_eq true b = b
bool_eq false b = not b

unfoldable pub matches : FrameKind → Bytes → Bool
matches kind frame = bool_eq (leb measurement_frame_min_len (length frame)) (is_measurement kind)

-- `iter().position(|&byte| byte == HEADER)`.
unfoldable pub position : Bytes → Option ℕ
position [] = none
position (b ∷ bs) = if b == header then some 0 else Option.map suc (position bs)

-- How one round of the loop in `next_frame` ends: `return None`, `return Some(..)`, `continue`.
-- Each carries the buffer that it leaves.
pub data Round : Type 0 where
  wait : Bytes → Round
  yield : Bytes → Bytes → Round
  resync : Bytes → Round

-- The checksum test, on a buffer that holds the whole frame.
pub check_crc : ℕ → Bytes → Round
check_crc frame_len buf =
    let payload_end = frame_len - 1 in
    if crc8 (take (payload_end - 3) (drop 3 buf)) == get_or buf payload_end 0
    then yield (take frame_len buf) (drop frame_len buf)
    else resync (drop 1 buf)

pub check_len : ℕ → Bytes → Round
check_len frame_len buf =
    if ltb max_frame_len frame_len
    then resync (drop 1 buf)
    else if ltb (length buf) frame_len
    then wait buf
    else check_crc frame_len buf

-- `first_chunk::<3>` and the size field.
pub at_header : Bytes → Round
unfolding check_len check_crc
at_header (h ∷ hi ∷ lo ∷ body) = check_len (hi * 256 + lo + frame_overhead) (h ∷ hi ∷ lo ∷ body)
at_header (h ∷ hi ∷ []) = wait (h ∷ hi ∷ [])
at_header (h ∷ []) = wait (h ∷ [])
at_header [] = wait []

unfoldable pub round : Bytes → Round
unfolding position at_header
round buf = elim (position buf) [ none ↦ wait [] | some i ↦ at_header (drop i buf) ]

next_frame_loop : ℕ → Bytes → Option Bytes × Bytes
next_frame_loop zero buf = (none, buf)
next_frame_loop (suc fuel) buf = elim (round buf) [
  | wait rest ↦ (none, rest)
  | yield frame rest ↦ (some frame, rest)
  | resync rest ↦ next_frame_loop fuel rest
]

-- Each `continue` drops a byte, so the buffer's length bounds the rounds.
unfoldable pub next_frame : Bytes → Option Bytes × Bytes
unfolding next_frame_loop round
next_frame buf = next_frame_loop (suc (length buf)) buf

drain : ℕ → Bytes → List Bytes × Bytes
drain zero buf = ([], buf)
drain (suc fuel) buf =
    let (found, rest) = next_frame buf in
    elim found [
      | none ↦ ([], rest)
      | some frame ↦ let (frames, left) = drain fuel rest in (frame ∷ frames, left)
    ]

-- The iterator of `feed`, drained: the frames that `input` completes, and the buffer left.
unfoldable pub feed : Bytes → Bytes → List Bytes × Bytes
unfolding drain next_frame
feed buf input = drain (suc (length (buf ++ input))) (buf ++ input)
