-- ===== src/Cli/Values.antt =====
-- src/cli.rs, `Interval` and `SocketMode`: values whose ranges are settled when they are parsed.
pub mod Ranges
use btwattch2_rs.Prelude.{
  ℕ, zero, suc, ◌+◌, ◌-◌, ◌*◌, ◌/◌, ◌%◌, ◌^◌, ltb, if◌then◌else◌, List, [], ◌∷◌, ◌++◌, Option, none,
  some, unwrap_or, length, Result, ok, err, ◌>>=◌, ok_or,
}
use btwattch2_rs.Prelude.Text.{Text, codes, trim, strip_suffix, parse_radix}
use btwattch2_rs.Cli.Foreign.{Foreign}

-- In nanoseconds.
abbrev pub min_interval : ℕ
min_interval = 10_000_000

abbrev pub max_interval : ℕ
max_interval = 24 * 60 * 60 * 1_000_000_000

abbrev pub default_interval : ℕ
default_interval = 1_000_000_000

pub data IntervalError : Type 0 where
  expected_duration out_of_range shorter_than_minimum longer_than_maximum : IntervalError

module _ (f : Foreign) where
  in_bounds : ℕ → Result IntervalError ℕ
  in_bounds duration =
      if ltb duration min_interval
      then err shorter_than_minimum
      else if ltb max_interval duration
      then err longer_than_maximum
      else ok duration

  -- The number and its unit: `ms` is looked for first, and `s` may be missing.
  number_and_scale : Text → Text × f.F64
  number_and_scale text = elim (strip_suffix (codes "ms") text) [
    | some number ↦ (number, f.milli)
    | none ↦ (unwrap_or (strip_suffix (codes "s") text) text, f.one)
  ]

  -- `Interval::from_str`.
  unfoldable pub parse_interval : Text → Result IntervalError ℕ
  unfolding in_bounds number_and_scale
  parse_interval s =
      let (number, scale) = number_and_scale (trim s) in
      do
        seconds ← ok_or (f.parse_f64 (trim number)) expected_duration
        duration ← ok_or (f.try_from_secs_f64 (f.mul seconds scale)) out_of_range
        in_bounds duration

abbrev pub default_socket_mode : ℕ
default_socket_mode = 384

-- 0o777.
abbrev pub permission_bits : ℕ
permission_bits = 511

pub data SocketModeError : Type 0 where
  expected_octal beyond_permission_bits : SocketModeError

within_permissions : ℕ → Result SocketModeError ℕ
within_permissions bits = if ltb permission_bits bits then err beyond_permission_bits else ok bits

-- `SocketMode::from_str`.
unfoldable pub parse_socket_mode : Text → Result SocketModeError ℕ
unfolding within_permissions
parse_socket_mode s = do
  bits ← ok_or (parse_radix 8 (2 ^ 32) (trim s)) expected_octal
  within_permissions bits

octal : ℕ → ℕ → Text
octal zero bits = []
octal (suc fuel) bits =
    let rest = octal fuel (bits / 8) in
    if ltb bits 8 then (48 + bits) ∷ [] else rest ++ (48 + bits % 8) ∷ []

zeros : ℕ → Text
zeros zero = []
zeros (suc n) = 48 ∷ zeros n

-- `SocketMode::fmt`: octal, four digits at least. Eleven digits are enough for 32 bits.
unfoldable pub display_socket_mode : ℕ → Text
unfolding octal zeros
display_socket_mode bits = let digits = octal 11 bits in zeros (4 - length digits) ++ digits
