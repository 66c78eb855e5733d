-- ===== src/Agent/Metrics.antt =====
-- src/agent/metrics.rs: the answer to one request of the metrics endpoint. A line that was read is
-- `none` where reading it failed; the end of the list is the end of the request.
pub mod Scrape
pub mod Framing
pub mod Endpoint
pub mod Limit
use btwattch2_rs.Prelude.{
  ℕ, ◌+◌, ltb, ◌==◌, if◌then◌else◌, Bool, true, false, not, ◌||◌, List, [], ◌∷◌, ◌++◌, map, take,
  Bytes, Option, none, some, and_then,
}
use btwattch2_rs.Prelude.Text.{Text, codes, eq_text, is_empty_text, is_whitespace, trim_end}
use btwattch2_rs.Prelude.Reading.{read_lines, from_utf8}
use btwattch2_rs.Prelude.Decimal.{decimal}
use btwattch2_rs.Chrono.{Chrono}
use btwattch2_rs.Float.{Float}
use btwattch2_rs.Connection.Measure.{Measurement}
use btwattch2_rs.Agent.Status.{AgentStats, reading}
use btwattch2_rs.Output.{metrics_exposition}

abbrev pub metric_prefix : Text
metric_prefix = codes "btwattch2"

abbrev pub max_request_bytes : ℕ
max_request_bytes = 8192

abbrev pub exposition_type : Text
exposition_type = codes "text/plain; version=0.0.4; charset=utf-8"

abbrev pub text_type : Text
text_type = codes "text/plain; charset=utf-8"

pub data Route : Type 0 where
  metrics index not_found method_not_allowed : Route

-- The first word, and what follows it.
word : Text → Text × Text
word [] = ([], [])
word (c ∷ cs) = let rest = word cs in if is_whitespace c then ([], cs) else (c ∷ rest.0, rest.1)

abbrev skip_space : Text → Text
skip_space [] = []
skip_space (c ∷ cs) = if is_whitespace c then skip_space cs else c ∷ cs

-- `split_whitespace().next()`, with the rest of the text.
unfoldable pub next_word : Text → Option (Text × Text)
unfolding word
next_word s =
    let (w, rest) = word (skip_space s) in if is_empty_text w then none else some (w, rest)

-- `split(['?', '#']).next()`.
unfoldable pub path_of : Text → Text
path_of [] = []
path_of (c ∷ cs) = let rest = path_of cs in if c == b'?' || c == b'#' then [] else c ∷ rest

unfoldable pub route_of_path : Text → Route
route_of_path path =
    if eq_text path (codes "/metrics")
    then metrics
    else if eq_text path (codes "/")
    then index
    else not_found

-- `none` for a line that has no two words.
unfoldable pub route : Text → Option Route
unfolding next_word path_of route_of_path
route line = and_then (next_word line) (λ w. and_then (next_word (w.1)) (λ v.
    some
      (if eq_text (w.0) (codes "GET") then route_of_path (path_of (v.0)) else method_not_allowed)))

-- The bytes of a code point, and `str::len`.
abbrev pub utf8_size : ℕ → ℕ
utf8_size c = if ltb c 0x80 then 1 else if ltb c 0x800 then 2 else if ltb c 0x10000 then 3 else 4

abbrev pub utf8_len : Text → ℕ
utf8_len [] = 0
utf8_len (c ∷ cs) = utf8_size c + utf8_len cs

unfoldable pub response : Text → Text → Text → Text → Text
response status content_type extra_headers body =
    codes "HTTP/1.1 "
    ++ status
    ++ codes "\r\nContent-Type: "
    ++ content_type
    ++ codes "\r\nContent-Length: "
    ++ decimal (utf8_len body)
    ++ codes "\r\nConnection: close\r\n"
    ++ extra_headers
    ++ codes "\r\n"
    ++ body

-- The lines read of the rest of the head: up to a failure, the end, or a line that is blank.
unfoldable pub drain_head : List (Option Text) → ℕ
drain_head [] = 1
drain_head (none ∷ lines) = 1
drain_head (some line ∷ lines) =
    let rest = drain_head lines in if is_empty_text (trim_end line) then 1 else 1 + rest

module _ (fl : Float) (c : Chrono) where
  abbrev pub AgentReadings : Type 0
  AgentReadings = AgentStats (Measurement fl c)

  unfoldable pub exposition : ℕ → AgentReadings → Text
  exposition now stats =
      let reading = reading now stats in
      metrics_exposition fl c metric_prefix reading.measurement reading.fresh

  unfoldable pub answer : Option Route → ℕ → AgentReadings → Text
  unfolding response exposition
  answer (some metrics) now stats =
      response (codes "200 OK") exposition_type [] (exposition now stats)
  answer (some index) now stats =
      response (codes "200 OK") text_type [] (codes "btwattch2 agent\nmetrics: /metrics\n")
  answer (some method_not_allowed) now stats =
      response (codes "405 Method Not Allowed") text_type (codes "Allow: GET\r\n") []
  answer (some not_found) now stats = response (codes "404 Not Found") text_type [] []
  answer none now stats = response (codes "404 Not Found") text_type [] []

  -- `after n` is the clock and the agent's status once `n` lines have been read.
  unfoldable pub handle_scrape : (ℕ → ℕ × AgentReadings) → List (Option Text) → Option Text
  unfolding answer route drain_head
  handle_scrape after [] = none
  handle_scrape after (none ∷ lines) = none
  handle_scrape after (some line ∷ lines) =
      let (now, stats) = after (1 + drain_head lines) in
      let text = answer (route line) now stats in if is_empty_text line then none else some text

  -- The connection's bytes, of which at most 8 KiB are read.
  unfoldable pub handle_bytes : (ℕ → ℕ × AgentReadings) → Bytes → Option Text
  unfolding handle_scrape
  handle_bytes after bytes =
      handle_scrape after (map from_utf8 (read_lines (take max_request_bytes bytes)))
