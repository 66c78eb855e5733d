-- ===== src/Agent/Metrics/Scrape.antt =====
-- What a scraper learns of the device.
use btwattch2_rs.Prelude.{
  ℕ, ◌-◌, ◌*◌, ◌≤◌, ◌≡◌, ◌↔◌, ◌⊎◌, refl, sym, ap, ◌∙◌, arith, if◌then◌else◌, Bool, true, false, [],
  ◌++◌, Option, none, some, length, drop, length-append, drop-length-append, append_assoc,
}
use btwattch2_rs.Prelude.Text.{Text, codes, eq_text_iff}
use btwattch2_rs.Chrono.{Chrono}
use btwattch2_rs.Float.{Float}
use btwattch2_rs.Connection.Measure.{Measurement}
use btwattch2_rs.Agent.Status.{Sample, reading, second}
use btwattch2_rs.Agent.Status.Fresh.{fresh_iff}
use btwattch2_rs.Agent.Metrics.{AgentReadings, exposition, metric_prefix}
use btwattch2_rs.Output.{metrics_exposition, up_gauge, channel_gauges, timestamp_gauge, gauge}

-- The last characters of a text.
abbrev pub last_part : ℕ → Text → Text
last_part n s = drop (length s - n) s

last_part-append : (s t : Text) → last_part (length t) (s ++ t) ≡ t
last_part-append s t =
    ap (λ n. drop n (s ++ t)) (omega (arith, length-append s t)) ∙ drop-length-append s t

abbrev pub up_line : Text
up_line = codes "btwattch2_up 1\n"

abbrev down_line : Text
down_line = codes "btwattch2_up 0\n"

abbrev up_declaration : Text
up_declaration =
    codes "# HELP btwattch2_up Whether the agent currently has fresh measurements from the device\n"
    ++ codes "# TYPE btwattch2_up gauge\n"

module _ (fl : Float) (c : Chrono) where
  -- The exposition is something, and then the line of the gauge.
  up_last :
      (o : Option (Measurement fl c)) (up : Bool)
      → (s : Text) × (metrics_exposition fl c metric_prefix o up
          ≡ s ++ up_gauge fl c metric_prefix up)
  unfolding metrics_exposition
  up_last none up = ([], refl)
  up_last (some m) up = (
    (if up then channel_gauges fl c metric_prefix m else [])
        ++ timestamp_gauge fl c metric_prefix m,
    refl,
  )

  up_gauge-last :
      (s : Text) (up : Bool)
      → (last_part 15 (s ++ up_gauge fl c metric_prefix up) ≡ up_line) ↔ (up ≡ true)
  unfolding up_gauge gauge
  up_gauge-last s true = (
    (λ h. refl),
    λ h.
        ap (last_part 15) (sym (append_assoc s up_declaration up_line))
        ∙ last_part-append (s ++ up_declaration) up_line,
  )
  up_gauge-last s false = (
    (λ h. absurd (
        impossible (
          sym (
            ap (last_part 15) (sym (append_assoc s up_declaration down_line))
            ∙ last_part-append (s ++ up_declaration) down_line)
          ∙ h))),
    λ h. absurd (cc),
  )
    where
      impossible : down_line ≡ up_line → ⊥
      impossible e = let h : false ≡ true = (eq_text_iff down_line up_line).1 e in absurd (cc)

  -- A scrape says that the device is up, in the last line of its body, exactly when the link is up
  -- and the last sample, at the time when the request was read to its end, is no older than three
  -- intervals, or than five seconds.
  pub exposition_up :
      (now : ℕ) (stats : AgentReadings fl c)
      → (last_part 15 (exposition fl c now stats) ≡ up_line) ↔ (
          (stats.connected ≡ true)
          × (x : Sample (Measurement fl c)) × (stats.latest ≡ some x)
          × ((now - x.at ≤ 3 * stats.interval) ⊎ (now - x.at ≤ 5 * second)))
  unfolding exposition
  exposition_up now stats =
      let r = reading now stats in
      let (s, e) = up_last r.measurement r.fresh in
      let up = up_gauge-last s r.fresh in
      let fresh = fresh_iff stats now in
      (
        (λ h. fresh.0 (up.0 (ap (last_part 15) (sym e) ∙ h))),
        λ h. ap (last_part 15) e ∙ up.1 (fresh.1 h),
      )
