-- ===== src/Connection/Radio.antt =====
-- What connection.rs takes from the Bluetooth manager and its adapters, as an interface. A call
-- takes the state of the host and gives the next one with its result.
use btwattch2_rs.Prelude.{◌≡◌, ◌↔◌, Bool, true, List, Option, Result}
use btwattch2_rs.Prelude.Int.{ℤ}
use btwattch2_rs.Prelude.Text.{Text}

-- `PeripheralProperties`, the fields that are read.
pub record Properties : Type 0 where
  pub local_name : Option Text
  pub rssi : Option ℤ

pub record Radio : Type 1 where
  pub Host : Type 0
  pub Adapter : Type 0
  pub Device : Type 0
  pub BdAddr : Type 0
  pub Error : Type 0
  pub eq_addr : BdAddr → BdAddr → Bool
  pub adapters : Host → Result Error (List Adapter) × Host
  pub adapter_info : Adapter → Host → Result Error Text × Host
  pub peripherals : Adapter → Host → Result Error (List Device) × Host
  pub address : Device → BdAddr
  pub properties : Device → Host → Result Error (Option Properties) × Host
  pub start_scan : Adapter → Host → Result Error (Unit {0}) × Host
  pub stop_scan : Adapter → Host → Result Error (Unit {0}) × Host

-- The equality of addresses decides.
abbrev pub DecidesEq : Radio → Type 0
DecidesEq r = (a b : r.BdAddr) → (r.eq_addr a b ≡ true) ↔ (a ≡ b)
