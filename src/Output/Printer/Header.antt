-- ===== src/Output/Printer/Header.antt =====
-- What a run prints in the formats that have a header.
use btwattch2_rs.Prelude.{◌≡◌, refl, ap, ◌∙◌, true, List, [], ◌∷◌, ◌++◌, append_assoc}
use btwattch2_rs.Prelude.Text.{Text}
use btwattch2_rs.Chrono.{Chrono}
use btwattch2_rs.Float.{Float}
use btwattch2_rs.Connection.Measure.{Measurement}
use btwattch2_rs.Cli.Names.{csv, prometheus}
use btwattch2_rs.Output.Printer.{
  Line, out, Printer, new_printer, JsonEncoder, print, csv_header, csv_row, declarations,
  prometheus_rows,
}

module _ (fl : Float) (c : Chrono) (to_json : JsonEncoder fl c) where
  -- Measurements with the session energy so far.
  abbrev Rows : Type 0
  Rows = List (Measurement fl c × fl.F64)

  print_all : Rows → Printer → List Line
  print_all [] p = []
  print_all (x ∷ xs) p =
      let (lines, q) = print fl c to_json (x.0) (x.1) p in lines ++ print_all xs q

  abbrev csv_rows : Rows → List Line
  csv_rows [] = []
  csv_rows (x ∷ xs) = out (csv_row fl c (x.0) (x.1)) ∷ csv_rows xs

  abbrev all_prometheus_rows : Text → Rows → List Line
  all_prometheus_rows prefix [] = []
  all_prometheus_rows prefix (x ∷ xs) =
      prometheus_rows fl c prefix (x.0) (x.1) ++ all_prometheus_rows prefix xs

  csv-after :
      (prefix : Text) (xs : Rows)
      → print_all xs (record { format = csv; prefix = prefix; header_printed = true }) ≡ csv_rows xs
  unfolding print_all print
  csv-after prefix [] = refl
  csv-after prefix (x ∷ xs) = ap (◌∷◌ (out (csv_row fl c (x.0) (x.1)))) (csv-after prefix xs)

  prometheus-after :
      (prefix : Text) (xs : Rows)
      → print_all xs (record { format = prometheus; prefix = prefix; header_printed = true })
        ≡ all_prometheus_rows prefix xs
  unfolding print_all print
  prometheus-after prefix [] = refl
  prometheus-after prefix (x ∷ xs) =
      ap (◌++◌ (prometheus_rows fl c prefix (x.0) (x.1))) (prometheus-after prefix xs)

  -- A run that prints a measurement at all prints the header of CSV, or the declarations of
  -- Prometheus, once, before everything else, and after it the rows of each measurement in order.
  print_all-header :
      (prefix : Text) (m : Measurement fl c) (energy_wh : fl.F64) (xs : Rows)
      → (print_all ((m, energy_wh) ∷ xs) (new_printer csv prefix)
          ≡ out (csv_header fl c) ∷ csv_rows ((m, energy_wh) ∷ xs))
        × (print_all ((m, energy_wh) ∷ xs) (new_printer prometheus prefix)
            ≡ declarations fl c prefix ++ all_prometheus_rows prefix ((m, energy_wh) ∷ xs))
  unfolding print_all print new_printer
  print_all-header prefix m energy_wh xs = (
    ap (λ ls. out (csv_header fl c) ∷ out (csv_row fl c m energy_wh) ∷ ls) (csv-after prefix xs),
    ap (◌++◌ (declarations fl c prefix ++ prometheus_rows fl c prefix m energy_wh))
          (prometheus-after prefix xs)
        ∙ append_assoc (declarations fl c prefix) (prometheus_rows fl c prefix m energy_wh)
            (all_prometheus_rows prefix xs),
  )
