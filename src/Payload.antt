-- ===== src/Payload.antt =====
-- src/payload.rs: the frames sent to the device, and their checksum.
pub mod Checksum
use btwattch2_rs.Prelude.{
  ℕ, zero, suc, ◌+◌, ◌-◌, ◌*◌, ◌/◌, ◌%◌, ◌^◌, bit_and, bit_xor, ltb, ◌==◌, if◌then◌else◌, List, [],
  ◌∷◌, ◌++◌, Option, none, some, Bytes, length, Bool, true, false,
}
use btwattch2_rs.Prelude.Int.{ℤ, pos, negsuc, ◌-ℕ◌}
use btwattch2_rs.Chrono.{Chrono}

abbrev pub header : ℕ
header = 0xAA

abbrev pub frame_overhead : ℕ
frame_overhead = 4

abbrev pub rtc_timer : ℕ
rtc_timer = 0x01

abbrev pub monitoring_command : ℕ
monitoring_command = 0x08

abbrev pub turn_off : Bytes
turn_off = 0xA7 ∷ 0x00 ∷ []

abbrev pub turn_on : Bytes
turn_on = 0xA7 ∷ 0x01 ∷ []

abbrev pub blink_led_command : Bytes
blink_led_command = 0x3E ∷ 0x01 ∷ 0x02 ∷ 0x02 ∷ 0x0F ∷ []

-- One round of the inner loop: shift left, and take the polynomial off when a bit falls out.
crc8_bit : ℕ → ℕ
crc8_bit crc = if bit_and crc 0x80 == 0x80 then bit_xor (crc * 2 % 2 ^ 8) 0x85 else crc * 2 % 2 ^ 8

crc8_bits : ℕ → ℕ → ℕ
unfolding crc8_bit
crc8_bits zero crc = crc
crc8_bits (suc n) crc = crc8_bits n (crc8_bit crc)

crc8_byte : ℕ → ℕ → ℕ
crc8_byte crc byte = crc8_bits 8 (bit_xor crc byte)

crc8_from : ℕ → Bytes → ℕ
unfolding crc8_bits crc8_byte
crc8_from crc [] = crc
crc8_from crc (byte ∷ payload) = crc8_from (crc8_byte crc byte) payload

unfoldable pub crc8 : Bytes → ℕ
unfolding crc8_from
crc8 payload = crc8_from 0x00 payload

-- `(payload.len() as u16).to_be_bytes()`.
abbrev pub size_field : ℕ → Bytes
size_field n = (n % 2 ^ 16 / 2 ^ 8) ∷ (n % 2 ^ 8) ∷ []

unfoldable pub generate : Bytes → Bytes
generate payload = header ∷ (size_field (length payload) ++ (payload ++ crc8 payload ∷ []))

unfoldable pub monitoring : Bytes
monitoring = generate (monitoring_command ∷ [])

unfoldable pub on : Bytes
on = generate turn_on

unfoldable pub off : Bytes
off = generate turn_off

unfoldable pub blink_led : Bytes
blink_led = generate blink_led_command

-- `u8::try_from`.
abbrev pub u8_try_from : ℤ → Option ℕ
u8_try_from (pos n) = if ltb n 256 then some n else none
u8_try_from (negsuc n) = none

-- `as u8`.
abbrev pub u8 : ℕ → ℕ
u8 n = n % 2 ^ 8

module _ (c : Chrono) where
  open c use {DateTime, year, month, day, hour, minute, second, num_days_from_sunday}

  abbrev pub rtc_payload : DateTime → ℕ → Bytes
  rtc_payload time year_byte =
      rtc_timer
      ∷ u8 (second time)
      ∷ u8 (minute time)
      ∷ u8 (hour time)
      ∷ u8 (day time)
      ∷ u8 (month time - 1)
      ∷ year_byte
      ∷ u8 (num_days_from_sunday time)
      ∷ []

  -- `none` is the error on a year that the wire format cannot carry.
  unfoldable pub rtc : DateTime → Option Bytes
  rtc time = elim (u8_try_from (year time -ℕ 1900)) [
    | none ↦ none
    | some year_byte ↦ some (generate (rtc_payload time year_byte))
  ]
