-- ===== src/Agent/Metrics/Endpoint.antt =====
-- A scrape from end to end.
use btwattch2_rs.Prelude.{
  ℕ, ◌+◌, ◌-◌, ◌*◌, ◌≤◌, ◌<◌, ◌^◌, ◌≡◌, ◌↔◌, ◌⊎◌, ap, ◌∙◌, true, false, List, ◌∷◌, Option, none,
  some, if◌then◌else◌,
}
use btwattch2_rs.Prelude.Text.{Text, is_empty_text}
use btwattch2_rs.Chrono.{Chrono}
use btwattch2_rs.Float.{Float}
use btwattch2_rs.Connection.Measure.{Measurement}
use btwattch2_rs.Agent.Status.{Sample, second}
use btwattch2_rs.Agent.Metrics.{
  metrics, route, drain_head, handle_scrape, answer, exposition, utf8_len, AgentReadings,
}
use btwattch2_rs.Agent.Metrics.Framing.{read_reply, read-answer}
use btwattch2_rs.Agent.Metrics.Scrape.{last_part, up_line, exposition_up}

module _ (fl : Float) (c : Chrono) where
  handle_scrape-answer :
      (after : ℕ → ℕ × AgentReadings fl c) (line : Text) (lines : List (Option Text))
      → is_empty_text line ≡ false
      → handle_scrape fl c after (some line ∷ lines)
        ≡ some (
            answer fl c
              (route line)
              (after (1 + drain_head lines)).0
              (after (1 + drain_head lines)).1)
  unfolding handle_scrape
  handle_scrape-answer after line lines some_line =
      ap
        (λ b.
          if b
          then none
          else some (
              answer fl c (route line) (after (1 + drain_head lines)).0
                (after (1 + drain_head lines)).1))
        some_line

  -- A request for the metrics, however long its head, is answered with a reply from which a client
  -- reads, by its Content-Length, a body. The body's last line says that the device is up exactly
  -- when, once the head had been read, the link was up and the last sample no older than three
  -- intervals or five seconds; this holds if the body is shorter than 2^64 bytes.
  pub scrape_up :
      (after : ℕ → ℕ × AgentReadings fl c) (line : Text) (lines : List (Option Text)) (now : ℕ)
      (stats : AgentReadings fl c)
      → is_empty_text line ≡ false
      → route line ≡ some metrics
      → after (1 + drain_head lines) ≡ (now, stats)
      → utf8_len (exposition fl c now stats) < 2 ^ 64
      → (reply : Text) × (body : Text) × (handle_scrape fl c after (some line ∷ lines) ≡ some reply)
        × (read_reply reply ≡ some body)
        × ((last_part 15 body ≡ up_line) ↔ (
            (stats.connected ≡ true)
            × (x : Sample (Measurement fl c)) × (stats.latest ≡ some x)
            × ((now - x.at ≤ 3 * stats.interval) ⊎ (now - x.at ≤ 5 * second))))
  scrape_up after line lines now stats some_line asks state small = (
    answer fl c (some metrics) now stats,
    exposition fl c now stats,
    handle_scrape-answer after line lines some_line
        ∙ ap
            (λ r.
              some
                (answer fl c r (after (1 + drain_head lines)).0 (after (1 + drain_head lines)).1))
            asks
        ∙ ap (λ (p : ℕ × AgentReadings fl c). some (answer fl c (some metrics) (p.0) (p.1))) state,
    read-answer fl c (some metrics) now stats small,
    exposition_up fl c now stats,
  )
