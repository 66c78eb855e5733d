-- ===== src/Agent/Metrics/Limit.antt =====
-- A scrape from end to end, from the bytes of its connection on.
use btwattch2_rs.Prelude.{
  ℕ, zero, suc, ◌+◌, ◌-◌, ◌*◌, ◌≤◌, ◌<◌, ◌^◌, ◌≡◌, ◌↔◌, ◌⊎◌, refl, ap, ◌∙◌, arith, true, false,
  List, [], ◌∷◌, ◌++◌, map, Option, some, length, take, Bytes,
}
use btwattch2_rs.Prelude.Text.{Text, is_empty_text}
use btwattch2_rs.Prelude.Reading.{HasNoFeed, read_lines, read_lines-line, from_utf8}
use btwattch2_rs.Chrono.{Chrono}
use btwattch2_rs.Float.{Float}
use btwattch2_rs.Connection.Measure.{Measurement}
use btwattch2_rs.Agent.Status.{Sample, second}
use btwattch2_rs.Agent.Metrics.{
  metrics, route, drain_head, handle_scrape, handle_bytes, exposition, utf8_len, AgentReadings,
  max_request_bytes,
}
use btwattch2_rs.Agent.Metrics.Framing.{read_reply}
use btwattch2_rs.Agent.Metrics.Scrape.{last_part, up_line}
use btwattch2_rs.Agent.Metrics.Endpoint.{scrape_up}

-- The lines that are read behind the request line: of what is left of the limit.
abbrev pub lines_behind : Bytes → Bytes → List (Option Text)
lines_behind line rest =
    map from_utf8 (read_lines (take (max_request_bytes - (length line + 1)) rest))

take-line :
    (n : ℕ) (line rest : Bytes) (c : ℕ)
    → length line + 1 ≤ n
    → take n (line ++ (c ∷ rest)) ≡ line ++ (c ∷ take (n - (length line + 1)) rest)
take-line (suc n) [] rest c h = ap (λ k. c ∷ take k rest) (omega arith)
take-line (suc n) (b ∷ line) rest c h =
    ap (◌∷◌ b) (take-line n line rest c (omega arith))
    ∙ ap (λ k. b ∷ (line ++ (c ∷ take k rest))) (omega arith)
take-line zero line rest c h = absurd (omega arith)

route-some_line : (text : Text) → route text ≡ some metrics → is_empty_text text ≡ false
unfolding route
route-some_line [] h = cc
route-some_line (c ∷ cs) h = refl

module _ (fl : Float) (c : Chrono) where
  -- A connection whose first line, of at most 8 KiB with its line feed, asks for the metrics is
  -- answered, whatever bytes follow that line, and however many: with a reply from which a client
  -- reads, by its Content-Length, a body. The body's last line says that the device is up exactly
  -- when, once the head or 8 KiB had been read, the link was up and the last sample no older than
  -- three intervals or five seconds; this holds if the body is shorter than 2^64 bytes.
  pub scrape_bytes :
      (after : ℕ → ℕ × AgentReadings fl c) (line rest : Bytes) (text : Text) (now : ℕ)
      (stats : AgentReadings fl c)
      → HasNoFeed line
      → length line + 1 ≤ max_request_bytes
      → from_utf8 (line ++ (b'\n' ∷ [])) ≡ some text
      → route text ≡ some metrics
      → after (1 + drain_head (lines_behind line rest)) ≡ (now, stats)
      → utf8_len (exposition fl c now stats) < 2 ^ 64
      → (reply : Text) × (body : Text) × (handle_bytes fl c after (line ++ (b'\n' ∷ rest))
          ≡ some reply)
        × (read_reply reply ≡ some body)
        × ((last_part 15 body ≡ up_line) ↔ (
            (stats.connected ≡ true)
            × (x : Sample (Measurement fl c)) × (stats.latest ≡ some x)
            × ((now - x.at ≤ 3 * stats.interval) ⊎ (now - x.at ≤ 5 * second))))
  unfolding handle_bytes
  scrape_bytes after line rest text now stats no_feed fits is_text asks state small =
      let (reply, body, replied, read, up) =
        scrape_up fl c after text (lines_behind line rest) now stats (route-some_line text asks)
          asks state small in
      let lines =
        ap (λ b. map from_utf8 (read_lines b)) (take-line max_request_bytes line rest b'\n' fits)
        ∙ ap (map from_utf8)
            (read_lines-line line (take (max_request_bytes - (length line + 1)) rest) no_feed)
        ∙ ap (λ o. o ∷ lines_behind line rest) is_text in
      (reply, body, ap (handle_scrape fl c after) lines ∙ replied, read, up)
