-- ===== src/Output/Printer.antt =====
-- src/output.rs, `Printer`: a measurement in each of the formats. The lines printed are the result;
-- the JSON encoder is an argument.
pub mod Header
use btwattch2_rs.Prelude.{
  ℕ, if◌then◌else◌, Bool, true, false, List, [], ◌∷◌, ◌++◌, map, flatten, Result, ok, err,
}
use btwattch2_rs.Prelude.Text.{Text, codes}
use btwattch2_rs.Prelude.Decimal.{signed_decimal}
use btwattch2_rs.Prelude.Int.{ℤ}
use btwattch2_rs.Chrono.{Chrono}
use btwattch2_rs.Float.{Float}
use btwattch2_rs.Connection.Measure.{Measurement}
use btwattch2_rs.Cli.Names.{OutputFormat, plain, json, csv, ltsv, prometheus, mackerel}
use btwattch2_rs.Output.{ChannelSpec, channels, fields, field_specs, field_names}

-- A line on the standard output, or on the standard error.
pub data Line : Type 0 where
  out diagnostic : Text → Line

-- `join`.
abbrev pub join : Text → List Text → Text
join sep [] = []
join sep (x ∷ []) = x
join sep (x ∷ y ∷ ys) = x ++ sep ++ join sep (y ∷ ys)

pub data JsonValue (fl : Float) : Type 0 where
  integer : ℤ → JsonValue fl
  float : fl.F64 → JsonValue fl

pub record Printer : Type 0 where
  pub format : OutputFormat
  pub prefix : Text
  pub header_printed : Bool

unfoldable pub new_printer : OutputFormat → Text → Printer
new_printer format prefix = record { format = format; prefix = prefix; header_printed = false }

module _ (fl : Float) (c : Chrono) where
  -- The encoder of a map with its entries in order, which may refuse.
  abbrev pub JsonEncoder : Type 0
  JsonEncoder = List (Text × JsonValue fl) → Result Text Text

  abbrev time_of : Measurement fl c → Text
  time_of m = signed_decimal (c.timestamp m.timestamp)

  -- `JsonLine::serialize`: the entries of the map.
  unfoldable pub json_line : Measurement fl c → fl.F64 → List (Text × JsonValue fl)
  unfolding fields
  json_line m energy_wh =
      (codes "time", integer (c.timestamp m.timestamp))
      ∷ map (λ (f : Text × fl.F64). (f.0, float (f.1))) (fields fl c m energy_wh)

  unfoldable pub plain_line : Measurement fl c → fl.F64 → Text
  plain_line m energy_wh =
      codes "V = "
      ++ fl.display m.voltage
      ++ codes ", A = "
      ++ fl.display m.ampere
      ++ codes ", W = "
      ++ fl.display m.wattage
      ++ codes ", PF = "
      ++ fl.fixed 4 m.power_factor
      ++ codes ", Wh = "
      ++ fl.fixed 3 energy_wh

  mackerel_line : Text → Measurement fl c → ChannelSpec fl c → Line
  mackerel_line name m spec = out (
      name
      ++ codes "."
      ++ (spec.0)
      ++ codes "\t"
      ++ fl.display (spec.2 m)
      ++ codes "\t"
      ++ time_of m)

  unfoldable pub csv_header : Text
  unfolding field_names
  csv_header = codes "time," ++ join (codes ",") (field_names fl c)

  unfoldable pub csv_row : Measurement fl c → fl.F64 → Text
  unfolding fields
  csv_row m energy_wh =
      time_of m
      ++ codes ","
      ++ join (codes ",") (map (λ (f : Text × fl.F64). fl.display (f.1)) (fields fl c m energy_wh))

  unfoldable pub ltsv_row : Measurement fl c → fl.F64 → Text
  unfolding fields
  ltsv_row m energy_wh =
      codes "time:"
      ++ time_of m
      ++ codes "\t"
      ++ join (codes "\t") (
          map (λ (f : Text × fl.F64). (f.0) ++ codes ":" ++ fl.display (f.1))
            (fields fl c m energy_wh))

  declaration : Text → Text × Text → List Line
  declaration prefix spec =
      out (codes "# HELP " ++ prefix ++ codes "_" ++ (spec.0) ++ codes " " ++ (spec.1))
      ∷ out (codes "# TYPE " ++ prefix ++ codes "_" ++ (spec.0) ++ codes " gauge")
      ∷ []

  unfoldable pub declarations : Text → List Line
  unfolding field_specs declaration
  declarations prefix = flatten (map (declaration prefix) (field_specs fl c))

  unfoldable pub prometheus_rows : Text → Measurement fl c → fl.F64 → List Line
  unfolding fields
  prometheus_rows prefix m energy_wh =
      map
        (λ (f : Text × fl.F64). out (
          prefix
          ++ codes "_"
          ++ (f.0)
          ++ codes " "
          ++ fl.display (f.1)
          ++ codes " "
          ++ signed_decimal (c.timestamp_millis m.timestamp)))
        (fields fl c m energy_wh)

  -- The printer marks its header as printed in the two formats that have one.
  unfoldable pub print : JsonEncoder → Measurement fl c → fl.F64 → Printer → List Line × Printer
  unfolding json_line plain_line mackerel_line csv_header csv_row ltsv_row declarations
      prometheus_rows
  print to_json m energy_wh p = elim p.format [
    | plain ↦ (out (plain_line m energy_wh) ∷ [], p)
    | mackerel ↦ (map (mackerel_line p.prefix m) (channels fl c), p)
    | csv ↦ (
      (if p.header_printed then [] else out csv_header ∷ []) ++ out (csv_row m energy_wh) ∷ [],
      record p { header_printed = true },
    )
    | ltsv ↦ (out (ltsv_row m energy_wh) ∷ [], p)
    | json ↦ (
      (elim (to_json (json_line m energy_wh)) [
        | ok text ↦ out text ∷ []
        | err e ↦ diagnostic (codes "[ERR] Failed to encode measurement: " ++ e) ∷ []
      ]),
      p,
    )
    | prometheus ↦ (
      (if p.header_printed then [] else declarations p.prefix)
          ++ prometheus_rows p.prefix m energy_wh,
      record p { header_printed = true },
    )
  ]
