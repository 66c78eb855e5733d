-- ===== src/Connection/Ble.antt =====
-- What connection.rs takes from the `btleplug` crate, as an interface: each call takes the state
-- of the peripheral and gives the next one with its result. Sleeping between the attempts changes
-- nothing that the code sees, so it does not show.
use btwattch2_rs.Prelude.{ℕ, Bool, List, Bytes, Result}
use btwattch2_rs.Connection.Replies.{Stream}

pub data WriteType : Type 0 where
  with_response without_response : WriteType

pub record Ble : Type 1 where
  pub Peripheral : Type 0
  pub Characteristic : Type 0
  pub Error : Type 0
  pub uuid : Characteristic → ℕ
  -- `properties.contains(CharPropFlags::WRITE)`.
  pub has_write : Characteristic → Bool
  pub connect : Peripheral → Result Error (Unit {0}) × Peripheral
  pub discover_services : Peripheral → Result Error (Unit {0}) × Peripheral
  pub is_connected : Peripheral → Result Error Bool × Peripheral
  pub disconnect : Peripheral → Result Error (Unit {0}) × Peripheral
  pub characteristics : Peripheral → List Characteristic
  pub subscribe : Characteristic → Peripheral → Result Error (Unit {0}) × Peripheral
  pub notifications : Peripheral → Result Error Stream × Peripheral
  pub write : Characteristic → Bytes → WriteType → Peripheral → Result Error (Unit {0}) × Peripheral
