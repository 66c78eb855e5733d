-- ===== src/Connection/Scan.antt =====
-- src/connection.rs: finding adapters and devices. A deadline is the number of rounds that begin
-- before it; sleeping between the rounds does not show.
pub mod Found
pub mod Unique
use btwattch2_rs.Prelude.{
  ℕ, zero, suc, ◌-◌, leb, if◌then◌else◌, Bool, true, false, not, ◌&&◌, ◌||◌, List, [], ◌∷◌, ◌++◌,
  Option, none, some, is_some, or_else, Result, ok, err, map,
}
use btwattch2_rs.Prelude.Int.{ℤ}
use btwattch2_rs.Prelude.Text.{Text, codes, eq_text, strip_prefix}
use btwattch2_rs.Prelude.Decimal.{decimal}
use btwattch2_rs.Connection.Link.{Op, ◌>>=◌, ◌>>◌, lift}
use btwattch2_rs.Connection.Radio.{Radio, Properties}

pub record ScannedDevice (BdAddr : Type 0) : Type 0 where
  pub addr : BdAddr
  pub name : Option Text
  pub rssi : ℤ

abbrev device_name : Text
device_name = codes "BTWATTCH2"

-- `to_ascii_uppercase`.
abbrev pub ascii_uppercase : Text → Text
ascii_uppercase s = map (λ c. if leb b'a' c && leb c b'z' then c - 32 else c) s

-- `contains`.
abbrev pub contains : Text → Text → Bool
contains [] part = is_some (strip_prefix part [])
contains (c ∷ cs) part = is_some (strip_prefix part (c ∷ cs)) || contains cs part

unfoldable pub is_watt_checker : {BdAddr : Type 0} → ScannedDevice BdAddr → Bool
is_watt_checker d = elim d.name [
  | some name ↦ contains (ascii_uppercase name) device_name
  | none ↦ false
]

pub data ScanError (E : Type 0) : Type 0 where
  radio start_scan_failed : E → ScanError E
  adapter_not_found : Text → ScanError E
  device_not_found : ScanError E

abbrev pub pure {ℓ} : {S E : Type 0} {A : Type ℓ} → A → Op S E A
pure a s = (ok a, s)

unfoldable pub adapter_name : ℕ → Text
adapter_name index = codes "hci" ++ decimal index

module _ (r : Radio) where
  open r use {Host, Adapter, Device, BdAddr, Error, eq_addr}

  abbrev pub OnHost : Type 0 → Type 0
  OnHost A = Op Host (ScanError Error) A

  -- On BlueZ the information is "hciN (modalias)".
  is_adapter : Text → Text → Bool
  is_adapter name info = eq_text info name || is_some (strip_prefix (name ++ codes " ") info)

  first_adapter : Text → List Adapter → OnHost Adapter
  unfolding is_adapter
  first_adapter name [] s = (err (adapter_not_found name), s)
  first_adapter name (a ∷ rest_of) s =
      let (info, t) = r.adapter_info a s in
      let rest = first_adapter name rest_of t in
      elim info [ ok text ↦ if is_adapter name text then (ok a, t) else rest | err e ↦ rest ]

  unfoldable pub find_adapter : Text → OnHost Adapter
  unfolding first_adapter
  find_adapter name = do all ← lift radio r.adapters; first_adapter name all

  -- The scan is stopped however the body ends.
  unfoldable pub while_scanning : {A : Type 0} → Adapter → OnHost A → OnHost A
  while_scanning adapter body = do
    lift start_scan_failed (r.start_scan adapter)
    λ s. let (result, t) = body s in (result, (r.stop_scan adapter t).1)

  -- What a window has shown of a device, by its address.
  abbrev pub Seen : Type 0
  Seen = List (BdAddr × (Option Text × Option ℤ))

  unfoldable pub found_at : Seen → BdAddr → Option (Option Text × Option ℤ)
  found_at [] addr = none
  found_at (e ∷ found) addr = if eq_addr (e.0) addr then some (e.1) else found_at found addr

  -- Merged rather than overwritten.
  unfoldable pub merge : Properties → Option Text × Option ℤ → Option Text × Option ℤ
  merge props entry = (or_else props.local_name (entry.0), or_else props.rssi (entry.1))

  unfoldable pub merge_at : BdAddr → Properties → Seen → Seen
  unfolding merge
  merge_at addr props [] = (addr, merge props (none, none)) ∷ []
  merge_at addr props (e ∷ found) =
      if eq_addr (e.0) addr then (e.0, merge props (e.1)) ∷ found else e ∷ merge_at addr props found

  unfoldable pub is_named : Option (Option Text × Option ℤ) → Bool
  is_named none = false
  is_named (some entry) = is_some (entry.0)

  unfoldable pub merge_seen : BdAddr → Seen → Option Properties → Seen
  unfolding merge_at
  merge_seen addr found none = found
  merge_seen addr found (some props) = merge_at addr props found

  -- A device that has a name is left alone.
  unfoldable pub visit : Device → Seen → OnHost Seen
  unfolding found_at merge_seen is_named
  visit dev found =
      if is_named (found_at found (r.address dev))
      then pure found
      else do props ← lift radio (r.properties dev); pure (merge_seen (r.address dev) found props)

  unfoldable pub visit_all : List Device → Seen → OnHost Seen
  unfolding visit
  visit_all [] found = pure found
  visit_all (dev ∷ devs) found = do found ← visit dev found; visit_all devs found

  unfoldable pub poll_round : Adapter → Seen → OnHost Seen
  unfolding visit_all
  poll_round adapter found = do devs ← lift radio (r.peripherals adapter); visit_all devs found

  -- `rounds` rounds begin before the deadline, after the first one.
  unfoldable pub poll_devices : Adapter → ℕ → Seen → OnHost Seen
  unfolding poll_round
  poll_devices adapter zero found = poll_round adapter found
  poll_devices adapter (suc rounds) found = do
    found ← poll_round adapter found
    poll_devices adapter rounds found

  -- `filter_map`: those that advertised an RSSI. The order is that of the map, which the code does
  -- not choose.
  unfoldable pub listed : Seen → List (ScannedDevice BdAddr)
  listed [] = []
  listed ((addr, (name, some rssi)) ∷ found) =
      record { addr = addr; name = name; rssi = rssi } ∷ listed found
  listed ((addr, (name, none)) ∷ found) = listed found

  unfoldable pub scan : ℕ → ℕ → OnHost (List (ScannedDevice BdAddr))
  unfolding find_adapter while_scanning poll_devices listed adapter_name
  scan index rounds = do
    adapter ← find_adapter (adapter_name index)
    found ← while_scanning adapter (poll_devices adapter rounds [])
    pure (listed found)

  unfoldable pub with_address : BdAddr → List Device → Option Device
  with_address addr [] = none
  with_address addr (d ∷ ds) = if eq_addr (r.address d) addr then some d else with_address addr ds

  unfoldable pub lookup_device : Adapter → BdAddr → OnHost (Option Device)
  unfolding with_address
  lookup_device adapter addr = do
    ds ← lift radio (r.peripherals adapter)
    pure (with_address addr ds)

  unfoldable pub await_device : Adapter → BdAddr → ℕ → OnHost Device
  unfolding lookup_device
  await_device adapter addr zero = do
    d ← lookup_device adapter addr
    λ s. (elim d [ some dev ↦ (ok dev, s) | none ↦ (err device_not_found, s) ])
  await_device adapter addr (suc rounds) = do
    d ← lookup_device adapter addr
    elim d [ some dev ↦ pure dev | none ↦ await_device adapter addr rounds ]

  -- `rounds` is the number of rounds that begin within `SCAN_TIMEOUT`, after the first.
  unfoldable pub find_device : Adapter → BdAddr → ℕ → OnHost Device
  unfolding lookup_device while_scanning await_device
  find_device adapter addr rounds = do
    d ← lookup_device adapter addr
    elim d [
      | some dev ↦ pure dev
      | none ↦ while_scanning adapter (await_device adapter addr rounds)
    ]

  -- `Connection::new` up to the device that is then connected to.
  unfoldable pub open_device : ℕ → BdAddr → ℕ → OnHost Device
  unfolding find_adapter find_device adapter_name
  open_device index addr rounds = do
    adapter ← find_adapter (adapter_name index)
    find_device adapter addr rounds
