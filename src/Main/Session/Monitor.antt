-- ===== src/Main/Session/Monitor.antt =====
-- A run of a given number of samples.
use btwattch2_rs.Prelude.{
  ℕ, suc, ◌+◌, ◌%◌, ◌^◌, ◌<◌, leb, ◌≡◌, refl, sym, ap, ◌∙◌, subst, arith, if◌then◌else◌, Bool, ◌||◌,
  true, false, List, [], ◌∷◌, ◌++◌, length, Option, some, Result, ok, All,
}
use btwattch2_rs.Chrono.{Chrono}
use btwattch2_rs.Float.{Float}
use btwattch2_rs.Connection.Measure.{Measurement}
use btwattch2_rs.Agent.Protocol.{Response, from_measurement, to-from_measurement}
use btwattch2_rs.Agent.Client.{ClientError, execute}
use btwattch2_rs.Output.Printer.{JsonEncoder}
use btwattch2_rs.Output.Stats.{new_stats}
use btwattch2_rs.Output.Stats.Summary.{Samples, record_all}
use btwattch2_rs.Output.Stream.{record_sample, enough, new_renderer}
use btwattch2_rs.Cli.Foreign.{Foreign}
use btwattch2_rs.Cli.Options.{Cli, Mode, LogLevel, sample_count}
use btwattch2_rs.Main.Session.{
  Session, start_session, on_measurement, on_response, stream_via_daemon, until_deadline,
}

module _ (fl : Float) (c : Chrono) (to_json : JsonEncoder fl c) (clock : ℕ → ℕ) (E : Type 0) where
  -- Its message gives its time back.
  abbrev pub IsWhole : Measurement fl c → Type 0
  IsWhole m = c.timestamp_opt (c.timestamp m.timestamp) ≡ some m.timestamp

  -- The measurements with the instants that they are recorded at, from the n-th on.
  abbrev pub stamped : ℕ → List (Measurement fl c) → Samples fl c
  stamped n [] = []
  stamped n (m ∷ ms) = (clock n, m) ∷ stamped (n + 1) ms

  abbrev pub messages : List (Measurement fl c) → List (Option (Response fl.F64 E))
  messages [] = []
  messages (m ∷ ms) = some (from_measurement fl c E m) ∷ messages ms

  abbrev after : Measurement fl c → Session fl → Session fl
  after m s = (on_measurement fl c to_json clock m s).1

  on_response-from_measurement :
      (m : Measurement fl c) (s : Session fl)
      → IsWhole m
      → on_response fl c to_json clock E (from_measurement fl c E m) s
        ≡ on_measurement fl c to_json clock m s
  unfolding on_response
  on_response-from_measurement m s whole = rw (on_response, to-from_measurement fl c E m whole) refl

  abbrev pub go_on :
      List (Option (Response fl.F64 E))
      → Bool × Session fl
      → Result (ClientError E) (Unit {0}) × Session fl
  go_on lines (true, s) = (ok tt, s)
  go_on lines (false, s) = execute (on_response fl c to_json clock E) lines s

  execute-go_on :
      (m : Measurement fl c) (lines : List (Option (Response fl.F64 E))) (s : Session fl)
      → execute (on_response fl c to_json clock E) (some (from_measurement fl c E m) ∷ lines) s
        ≡ go_on lines (on_response fl c to_json clock E (from_measurement fl c E m) s)
  unfolding execute from_measurement
  execute-go_on m lines s = go (on_response fl c to_json clock E (from_measurement fl c E m) s)
    where
      go :
          (x : Bool × Session fl)
          → (if (x.0) || false
              then (ok tt, x.1)
              else execute (on_response fl c to_json clock E) lines (x.1))
            ≡ go_on lines x
      go (true, s) = refl
      go (false, s) = refl

  -- What the client does with a measurement.
  pub execute-measurement :
      (m : Measurement fl c) (lines : List (Option (Response fl.F64 E))) (s : Session fl)
      → IsWhole m
      → execute (on_response fl c to_json clock E) (some (from_measurement fl c E m) ∷ lines) s
        ≡ go_on lines (on_measurement fl c to_json clock m s)
  execute-measurement m lines s whole =
      execute-go_on m lines s ∙ ap (go_on lines) (on_response-from_measurement m s whole)

  on_measurement-break :
      (m : Measurement fl c) (s : Session fl) (n : ℕ)
      → s.renderer.count ≡ some n
      → s.renderer.samples + 1 < 2 ^ 64
      → (on_measurement fl c to_json clock m s).0 ≡ leb n (s.renderer.samples + 1)
  unfolding on_measurement record_sample enough
  on_measurement-break m s n h small =
      ap (λ o. enough fl o ((s.renderer.samples + 1) % 2 ^ 64)) h ∙ ap (leb n) (omega arith)

  go_on-break :
      (b : Bool) (lines : List (Option (Response fl.F64 E))) (x : Bool × Session fl)
      → x.0 ≡ b
      → go_on lines x ≡ go_on lines (b, x.1)
  go_on-break b lines x h = ap (λ d. go_on lines (d, x.1)) h

  -- All that is left to render has been rendered.
  abbrev pub RenderedAll :
      ℕ
      → List (Measurement fl c)
      → Session fl
      → Result (ClientError E) (Unit {0}) × Session fl
      → Type 0
  RenderedAll n ms s x =
      (x.0 ≡ ok tt)
      × ((x.1).renderer.samples ≡ n)
      × ((x.1).renderer.stats ≡ record_all fl c (stamped s.ticks ms) s.renderer.stats)

  pub execute-messages :
      (m : Measurement fl c) (ms : List (Measurement fl c))
      (rest : List (Option (Response fl.F64 E))) (s : Session fl) (n : ℕ)
      → s.renderer.count ≡ some n
      → s.renderer.samples + suc (length ms) ≡ n
      → n < 2 ^ 64
      → All IsWhole (m ∷ ms)
      → RenderedAll n
          (m ∷ ms)
          s
          (execute (on_response fl c to_json clock E) (messages (m ∷ ms) ++ rest) s)
  unfolding on_measurement record_sample record_all
  execute-messages m [] rest s n count left small whole =
      let last : leb n (s.renderer.samples + 1) ≡ true = ground arith in
      subst (RenderedAll n (m ∷ []) s)
        (sym (
          execute-measurement m rest s whole.0
          ∙ go_on-break true rest (on_measurement fl c to_json clock m s)
              (on_measurement-break m s n count (omega arith) ∙ last)))
        (refl, omega arith, refl)
  execute-messages m (m' ∷ ms) rest s n count left small whole =
      let more : leb n (s.renderer.samples + 1) ≡ false = ground arith in
      subst (RenderedAll n (m ∷ m' ∷ ms) s)
        (sym (
          execute-measurement m (messages (m' ∷ ms) ++ rest) s whole.0
          ∙ go_on-break false (messages (m' ∷ ms) ++ rest) (on_measurement fl c to_json clock m s)
              (on_measurement-break m s n count (omega arith) ∙ more)))
        (execute-messages m' ms rest (after m s) n count (omega arith) small whole.1)

  -- A run of n samples through an agent ends, without an error, at the n-th measurement: it has
  -- rendered n samples, whatever arrives after them has not been looked at, and its statistics are
  -- those of these samples, each at the instant that it was rendered.
  pub stream_exactly :
      (f : Foreign) (cli : Cli f c) (mode : Mode c) (level : LogLevel) (n : ℕ)
      (ms : List (Measurement fl c)) (rest : List (Option (Response fl.F64 E))) (expires : Bool)
      → sample_count f c mode cli ≡ some n
      → length ms ≡ n
      → 0 < n
      → n < 2 ^ 64
      → All IsWhole ms
      → let s = start_session fl c to_json clock f cli mode level in
        let x = stream_via_daemon fl c to_json clock E (messages ms ++ rest) expires s in
        (x.0 ≡ ok tt)
        × ((x.1).renderer.samples ≡ n)
        × ((x.1).renderer.stats ≡ record_all fl c (stamped 0 ms) (new_stats fl))
  unfolding stream_via_daemon until_deadline start_session new_renderer
  stream_exactly f cli mode level n [] rest expires count same pos small whole =
      absurd (omega arith)
  stream_exactly f cli mode level n (m ∷ ms) rest expires count same pos small whole =
      let s = start_session fl c to_json clock f cli mode level in
      let (done, samples, stats) = execute-messages m ms rest s n count (omega arith) small whole in
      (ap (until_deadline fl c to_json clock E expires) done, samples, stats)
