-- ===== src/Connection/Measure.antt =====
-- src/connection.rs: a measurement read off a frame, and the status byte of a command's reply.
pub mod Clock
use btwattch2_rs.Prelude.{
  ℕ, zero, suc, ◌+◌, ◌*◌, ◌^◌, ltb, if◌then◌else◌, Bool, ◌&&◌, List, [], ◌∷◌, Option, none, some,
  Bytes, length, take, drop, get_or, get_elem?, Result, ok, err, and_then, or_else, ok_or, ◌>>=◌,
}
use btwattch2_rs.Prelude.Int.{ℤ}
use btwattch2_rs.Chrono.{Chrono}
use btwattch2_rs.Float.{Float}
use btwattch2_rs.Connection.Assembler.{measurement_frame_min_len}
use mathlib.Core.Option

-- The array is written over its first cells, as far as the slice goes.
abbrev overwrite : Bytes → Bytes → Bytes
overwrite [] src = []
overwrite (d ∷ dst) [] = d ∷ dst
overwrite (d ∷ dst) (s ∷ src) = s ∷ overwrite dst src

-- `u64::from_le_bytes`.
abbrev from_le_bytes : Bytes → ℕ
from_le_bytes [] = 0
from_le_bytes (b ∷ bs) = b + 256 * from_le_bytes bs

unfoldable pub u48_le : Bytes → ℕ
u48_le payload = from_le_bytes (overwrite (0 ∷ 0 ∷ 0 ∷ 0 ∷ 0 ∷ 0 ∷ 0 ∷ 0 ∷ []) (take 6 payload))

-- `frame.get(4).copied()`.
unfoldable pub command_status : Bytes → Option ℕ
command_status frame = get_elem? frame 4

abbrev pub slice : ℕ → ℕ → Bytes → Bytes
slice from count bytes = take count (drop from bytes)

pub data MeasureError : Type 0 where
  too_short invalid_timestamp : MeasureError

pub record Measurement (fl : Float) (c : Chrono) : Type 0 where
  pub voltage : fl.F64
  pub ampere : fl.F64
  pub wattage : fl.F64
  pub power_factor : fl.F64
  pub timestamp : c.DateTime

module _ (c : Chrono) where
  -- cli.rs: a time inside a gap is resolved by the offset in effect an hour later.
  unfoldable pub local_datetime : c.NaiveDateTime → Option c.DateTime
  local_datetime naive =
      or_else (c.earliest naive) (Option.map c.sub_hour (c.earliest (c.add_hour naive)))

  -- [sec, min, hour, day, mon, year - 1900]
  unfoldable pub read_timestamp : Bytes → Option c.DateTime
  read_timestamp date =
      and_then
        (and_then (c.from_ymd_opt (1900 + get_or date 5 0) (get_or date 4 0 + 1) (get_or date 3 0))
          (λ d. c.and_hms_opt d (get_or date 2 0) (get_or date 1 0) (get_or date 0 0)))
        (local_datetime)

module _ (fl : Float) (c : Chrono) where
  open fl use {F64, of_u64, div, mul, is_pos}

  power_factor_of : F64 → F64 → F64 → F64
  power_factor_of voltage ampere wattage =
      if is_pos voltage && is_pos ampere then div wattage (mul voltage ampere) else of_u64 0

  measured : Bytes → c.DateTime → Measurement fl c
  unfolding power_factor_of
  measured body timestamp =
      let voltage = div (of_u64 (u48_le (slice 5 6 body))) (of_u64 (2 ^ 24)) in
      let ampere = div (of_u64 (u48_le (slice 11 6 body))) (of_u64 (2 ^ 30)) in
      let wattage = div (of_u64 (u48_le (slice 17 6 body))) (of_u64 (2 ^ 24)) in
      record {
        voltage = voltage;
        ampere = ampere;
        wattage = wattage;
        power_factor = power_factor_of voltage ampere wattage;
        timestamp = timestamp;
      }

  unfoldable pub read_measure : Bytes → Result MeasureError (Measurement fl c)
  unfolding measured
  read_measure frame =
      let body = take measurement_frame_min_len frame in
      let reading = do
        timestamp ← ok_or (read_timestamp c (slice 23 6 body)) invalid_timestamp
        ok (measured body timestamp)
      in if ltb (length frame) measurement_frame_min_len then err too_short else reading

  -- A failure is logged, and the frame skipped.
  unfoldable pub try_measurement : Bytes → Option (Measurement fl c)
  try_measurement frame = elim (read_measure frame) [ ok m ↦ some m | err e ↦ none ]
