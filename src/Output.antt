-- ===== src/Output.antt =====
-- src/output.rs: the channels of a measurement, and the exposition that the agent serves. A text is
-- a list of code points.
pub mod Printer
pub mod Stats
pub mod Stream
use btwattch2_rs.Prelude.{
  ℕ, if◌then◌else◌, Bool, true, false, List, [], ◌∷◌, ◌++◌, map, flatten, Option, none, some,
}
use btwattch2_rs.Prelude.Text.{Text, codes}
use btwattch2_rs.Prelude.Decimal.{decimal, signed_decimal}
use btwattch2_rs.Chrono.{Chrono}
use btwattch2_rs.Float.{Float}
use btwattch2_rs.Connection.Measure.{Measurement}

abbrev pub energy_name : Text
energy_name = codes "energy_wh"

abbrev pub energy_help : Text
energy_help = codes "Energy accumulated this session in watt-hours"

module _ (fl : Float) (c : Chrono) where
  -- (name, help text, accessor) of one measurement channel.
  abbrev pub ChannelSpec : Type 0
  ChannelSpec = Text × Text × (Measurement fl c → fl.F64)

  abbrev pub channels : List ChannelSpec
  channels =
      (codes "voltage", codes "Instantaneous voltage in volts", λ m. m.voltage)
      ∷ (codes "ampere", codes "Instantaneous current in amperes", λ m. m.ampere)
      ∷ (codes "wattage", codes "Instantaneous power in watts", λ m. m.wattage)
      ∷ (
        codes "power_factor",
        codes "Power factor (wattage / (voltage * ampere))",
        λ m. m.power_factor,
      )
      ∷ []

  unfoldable pub fields : Measurement fl c → fl.F64 → List (Text × fl.F64)
  fields m energy_wh =
      map (λ (spec : ChannelSpec). (spec.0, spec.2 m)) channels ++ (energy_name, energy_wh) ∷ []

  unfoldable pub field_specs : List (Text × Text)
  field_specs =
      map (λ (spec : ChannelSpec). (spec.0, spec.1)) channels ++ (energy_name, energy_help) ∷ []

  unfoldable pub field_names : List Text
  unfolding field_specs
  field_names = map (λ (spec : Text × Text). spec.0) field_specs

  unfoldable pub gauge : Text → Text → Text → Text → Text
  gauge prefix name help value =
      codes "# HELP "
      ++ prefix
      ++ codes "_"
      ++ name
      ++ codes " "
      ++ help
      ++ codes "\n# TYPE "
      ++ prefix
      ++ codes "_"
      ++ name
      ++ codes " gauge\n"
      ++ prefix
      ++ codes "_"
      ++ name
      ++ codes " "
      ++ value
      ++ codes "\n"

  unfoldable pub channel_gauges : Text → Measurement fl c → Text
  unfolding gauge
  channel_gauges prefix m = flatten (
      map (λ (spec : ChannelSpec). gauge prefix (spec.0) (spec.1) (fl.display (spec.2 m))) channels)

  unfoldable pub timestamp_gauge : Text → Measurement fl c → Text
  unfolding gauge
  timestamp_gauge prefix m =
      gauge prefix (codes "last_sample_timestamp_seconds")
        (codes "Device clock of the most recent measurement")
        (signed_decimal (c.timestamp m.timestamp))

  unfoldable pub up_gauge : Text → Bool → Text
  unfolding gauge
  up_gauge prefix up =
      gauge prefix (codes "up")
        (codes "Whether the agent currently has fresh measurements from the device")
        (decimal (if up then 1 else 0))

  -- The body of `/metrics`: the channels only of a sample that is fresh.
  unfoldable pub metrics_exposition : Text → Option (Measurement fl c) → Bool → Text
  unfolding channel_gauges timestamp_gauge up_gauge
  metrics_exposition prefix none up = up_gauge prefix up
  metrics_exposition prefix (some m) up =
      (if up then channel_gauges prefix m else []) ++ timestamp_gauge prefix m ++ up_gauge prefix up
