-- ===== src/Main/Session/LetGo.antt =====
-- src/main.rs: how an invocation without an agent leaves the device.
use btwattch2_rs.Prelude.{ℕ, ◌≡◌, ◌⊎◌, Result, err}
use btwattch2_rs.Chrono.{Chrono}
use btwattch2_rs.Float.{Float}
use btwattch2_rs.Connection.Ble.{Ble}
use btwattch2_rs.Connection.Direct.{DirectError, link_failed}
use btwattch2_rs.Connection.Link.{characteristic_not_found, Connection}
use btwattch2_rs.Connection.Link.LetGo.{IsLetGo}
use btwattch2_rs.Output.Printer.{JsonEncoder}
use btwattch2_rs.Main.Session.{Session}

module _ (fl : Float) (c : Chrono) (to_json : JsonEncoder fl c) (clock : ℕ → ℕ) (b : Ble) where
  -- The device that is left, and what is told: the link was let go of, or the error is that of a
  -- device without a characteristic.
  abbrev pub LetGoOf : Result (DirectError b.Error) (Unit {0}) → b.Peripheral → Type 0
  LetGoOf r d = IsLetGo b d ⊎ ((u : ℕ) × (r ≡ err (link_failed (characteristic_not_found u))))
