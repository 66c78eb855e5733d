-- ===== src/Cli/Options/Times.antt =====
-- The times that can be set.
use btwattch2_rs.Prelude.{
  ℕ, ◌≤◌, ◌≡◌, ◌≢◌, ap, ◌∙◌, arith, Option, none, some, Option-cases, inl, inr, Result, ok, err,
  ok_or, bind-ok,
}
use btwattch2_rs.Prelude.Int.{pos}
use btwattch2_rs.Prelude.Text.{Text}
use btwattch2_rs.Chrono.{Chrono}
use btwattch2_rs.Payload.{rtc}
use btwattch2_rs.Connection.Measure.Clock.{rtc_years}
use btwattch2_rs.Cli.Options.{
  TimeError, unrecognized_format, year_out_of_range, recognize, parse_time,
}

module _ (c : Chrono) (parse_from_str : Text → Text → Option c.NaiveDateTime) where
  frame-ok :
      (time t : c.DateTime)
      → (let r : Result TimeError c.DateTime = elim (rtc c time) [
        | some frame ↦ ok time
        | none ↦ err year_out_of_range
      ] in
          r ≡ ok t)
      → (time ≡ t) × (rtc c time ≢ none)
  frame-ok time t h = elim (Option-cases (rtc c time)) [
    | inl e ↦ absurd (ground (arith, e))
    | inr (p, e) ↦ ground (arith, e)
  ]

  -- A time that the command line accepts lies in a year from 1900 to 2155, and its frame can be
  -- built: setting the clock does not fail on it after the connection was made.
  pub parse_time-rtc :
      (s : Text) (t : c.DateTime)
      → parse_time c parse_from_str s ≡ ok t
      → (rtc c t ≢ none) × (y : ℕ) × (c.year t ≡ pos y) × (1900 ≤ y) × (y ≤ 2155)
  unfolding parse_time
  parse_time-rtc s t h =
      let (time, found, built) =
        bind-ok (ok_or (recognize c parse_from_str s) unrecognized_format) _ t h in
      let (same, fits) = frame-ok time t built in
      let frame : rtc c t ≢ none = λ e. fits (ap (rtc c) same ∙ e) in
      let (y, year, low, high) = (rtc_years c t).0 frame in (frame, y, year, low, high)
