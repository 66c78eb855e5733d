-- ===== src/Main/Session/Cut.antt =====
-- A run through an agent whose connection breaks.
use btwattch2_rs.Prelude.{
  ℕ, suc, ◌+◌, ◌%◌, ◌^◌, ◌<◌, ◌≡◌, ◌⊎◌, refl, sym, ap, ◌∙◌, subst, arith, false, List, [], ◌∷◌,
  ◌++◌, map, length, length-append, Option, none, some, Result, err, inl, inr, All,
}
use btwattch2_rs.Prelude.Text.{Text}
use btwattch2_rs.Chrono.{Chrono}
use btwattch2_rs.Float.{Float}
use btwattch2_rs.Connection.Measure.{Measurement}
use btwattch2_rs.Agent.Protocol.{Response, from_measurement}
use btwattch2_rs.Agent.Client.{closed_early, unparsable, execute}
use btwattch2_rs.Agent.Wire.{written, received}
use btwattch2_rs.Agent.Wire.Framing.{IsReadAs, received-reread}
use btwattch2_rs.Output.Printer.{JsonEncoder}
use btwattch2_rs.Output.Stats.{new_stats}
use btwattch2_rs.Output.Stats.Summary.{record_all}
use btwattch2_rs.Output.Stream.{record_sample, enough, new_renderer}
use btwattch2_rs.Cli.Foreign.{Foreign}
use btwattch2_rs.Cli.Options.{Cli, Mode, LogLevel, sample_count}
use btwattch2_rs.Main.Session.{
  Session, SessionError, client_failed, start_session, on_measurement, on_response,
  stream_via_daemon, until_deadline,
}
use btwattch2_rs.Main.Session.Monitor.{IsWhole, stamped, messages, execute-measurement, go_on}

module _ (fl : Float) (c : Chrono) (to_json : JsonEncoder fl c) (clock : ℕ → ℕ) (E : Type 0) where
  messages-read :
      (read : Measurement fl c → Measurement fl c) (ms : List (Measurement fl c))
      → map (λ m. some (from_measurement fl c E (read m))) ms
        ≡ messages fl c to_json clock E (map read ms)
  messages-read read [] = refl
  messages-read read (m ∷ ms) =
      ap (◌∷◌ (some (from_measurement fl c E (read m)))) (messages-read read ms)

  -- The session after all of the measurements, without a limit on their number.
  abbrev after_all : List (Measurement fl c) → Session fl → Session fl
  after_all [] s = s
  after_all (m ∷ ms) s = after_all ms (on_measurement fl c to_json clock m s).1

  unlimited :
      (m : Measurement fl c) (s : Session fl)
      → s.renderer.count ≡ none
      → (on_measurement fl c to_json clock m s).0 ≡ false
  unfolding on_measurement record_sample enough
  unlimited m s h = ap (λ o. enough fl o ((s.renderer.samples + 1) % 2 ^ 64)) h

  same_count :
      (m : Measurement fl c) (s : Session fl)
      → (on_measurement fl c to_json clock m s).1.renderer.count ≡ s.renderer.count
  unfolding on_measurement record_sample
  same_count m s = refl

  execute-messages :
      (ms : List (Measurement fl c)) (tail : List (Option (Response fl.F64 E))) (s : Session fl)
      → s.renderer.count ≡ none
      → All (IsWhole fl c to_json clock E) ms
      → execute (on_response fl c to_json clock E) (messages fl c to_json clock E ms ++ tail) s
        ≡ execute (on_response fl c to_json clock E) tail (after_all ms s)
  execute-messages [] tail s h whole = refl
  execute-messages (m ∷ ms) tail s h whole =
      let x = on_measurement fl c to_json clock m s in
      execute-measurement fl c to_json clock E m (messages fl c to_json clock E ms ++ tail) s
        (whole.0)
      ∙ ap (λ b. go_on fl c to_json clock E (messages fl c to_json clock E ms ++ tail) (b, x.1))
          (unlimited m s h)
      ∙ execute-messages ms tail (x.1) (same_count m s ∙ h) (whole.1)

  -- What was rendered.
  rendered :
      (ms : List (Measurement fl c)) (s : Session fl)
      → s.renderer.samples + length ms < 2 ^ 64
      → ((after_all ms s).renderer.samples ≡ s.renderer.samples + length ms)
        × ((after_all ms s).renderer.stats
            ≡ record_all fl c (stamped fl c to_json clock E s.ticks ms) s.renderer.stats)
  unfolding on_measurement record_sample record_all
  rendered [] s small = (omega arith, refl)
  rendered (m ∷ ms) s small =
      let (samples, stats) = rendered ms (on_measurement fl c to_json clock m s).1 (omega arith) in
      (omega (arith, samples), stats)

  abbrev pub Ended : Result (SessionError E) (Unit {0}) → Type 0
  Ended r = (r ≡ err (client_failed closed_early)) ⊎ (r ≡ err (client_failed unparsable))

  IsWhole-front :
      (read : Measurement fl c → Measurement fl c) (first others : List (Measurement fl c))
      → All (IsWhole fl c to_json clock E) (map read (first ++ others))
      → All (IsWhole fl c to_json clock E) (map read first)
  IsWhole-front read [] others h = tt
  IsWhole-front read (m ∷ first) others h = (h.0, IsWhole-front read first others (h.1))

  length-read :
      (read : Measurement fl c → Measurement fl c) (ms : List (Measurement fl c))
      → length (map read ms) ≡ length ms
  length-read read [] = refl
  length-read read (m ∷ ms) = ap suc (length-read read ms)

  -- The text of the message of a measurement, and what it is read back as.
  abbrev pub text_of : (Response fl.F64 E → Text) → Measurement fl c → Text
  text_of encode m = encode (from_measurement fl c E m)

  abbrev pub reread : (Measurement fl c → Measurement fl c) → Measurement fl c → Response fl.F64 E
  reread read m = from_measurement fl c E (read m)

  -- What the end of a broken connection does to a run that waits for more.
  execute-broken :
      (tail : List (Option (Response fl.F64 E))) (s : Session fl)
      → (tail ≡ []) ⊎ (tail ≡ none ∷ [])
      → (let x = execute (on_response fl c to_json clock E) tail s in
          Ended (until_deadline fl c to_json clock E false x.0) × (x.1 ≡ s))
  unfolding execute until_deadline
  execute-broken tail s (inl e) = rw e (inl refl, refl)
  execute-broken tail s (inr e) = rw e (inr refl, refl)

  -- A run without a limit, through an agent whose connection breaks anywhere, even within a
  -- message, fails; before that it has rendered exactly the first measurements, those that arrived
  -- whole, with their statistics; and all of them, if the connection was closed after the last.
  -- Each is rendered as `read` gives it, which may round its floats and cut its time to the second:
  -- the text of its message is to be one line that is read as the message of that measurement, whose
  -- time is a whole second, and no part of the text is to parse. They are fewer than 2 ^ 64.
  pub stream_cut :
      (encode : Response fl.F64 E → Text) (decode : Text → Option (Response fl.F64 E)) (f : Foreign)
      (cli : Cli f c) (mode : Mode c) (level : LogLevel)
      (read : Measurement fl c → Measurement fl c) (ms : List (Measurement fl c))
      (bytes lost : Text)
      → sample_count f c mode cli ≡ none
      → length ms < 2 ^ 64
      → All (IsWhole fl c to_json clock E) (map read ms)
      → All (IsReadAs (text_of encode) decode (reread read)) ms
      → bytes ++ lost ≡ written (text_of encode) ms
      → let s = start_session fl c to_json clock f cli mode level in
        let x = stream_via_daemon fl c to_json clock E (received decode bytes) false s in
        (seen : List (Measurement fl c)) × (unseen : List (Measurement fl c)) × (ms
          ≡ seen ++ unseen)
        × Ended (x.0)
        × ((x.1).renderer.samples ≡ length seen)
        × ((x.1).renderer.stats
            ≡ record_all fl c (stamped fl c to_json clock E 0 (map read seen)) (new_stats fl))
        × (lost ≡ [] → unseen ≡ [])
  unfolding stream_via_daemon start_session new_renderer
  stream_cut encode decode f cli mode level read ms bytes lost count small whole encoded arrived =
      let s = start_session fl c to_json clock f cli mode level in
      let (seen, unseen, tail, cut, lines, end, all) =
        received-reread (text_of encode) decode (reread read) ms bytes lost encoded arrived in
      let got : received decode bytes ≡ messages fl c to_json clock E (map read seen) ++ tail =
        lines ∙ ap (λ r. r ++ tail) (messages-read read seen) in
      let ran =
        ap (λ o. execute (on_response fl c to_json clock E) o s) got
        ∙ execute-messages (map read seen) tail s count (
            IsWhole-front read seen unseen
              (subst (λ l. All (IsWhole fl c to_json clock E) (map read l)) cut whole)) in
      let (ended, final) = execute-broken tail (after_all (map read seen) s) end in
      let (samples, stats) =
        rendered (map read seen) s
          (omega (arith, ap length cut, length-append seen unseen, length-read read seen)) in
      (
        seen,
        unseen,
        cut,
        subst (λ x. Ended (until_deadline fl c to_json clock E false (x.0))) (sym ran) ended,
        ap (λ x. (x.1).renderer.samples) ran
            ∙ ap (λ t. t.renderer.samples) final
            ∙ samples
            ∙ omega (arith, length-read read seen),
        ap (λ x. (x.1).renderer.stats) ran ∙ ap (λ t. t.renderer.stats) final ∙ stats,
        λ e. (all e).0,
      )
