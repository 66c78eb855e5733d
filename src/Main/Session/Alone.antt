-- ===== src/Main/Session/Alone.antt =====
-- A run of a given number of samples without an agent.
use btwattch2_rs.Prelude.{
  ℕ, ◌^◌, ◌<◌, ◌≡◌, refl, sym, ap, ◌∙◌, subst, arith, Bool, true, false, List, [], ◌∷◌, ◌++◌,
  length, some, ok, All, flatten,
}
use btwattch2_rs.Chrono.{Chrono}
use btwattch2_rs.Float.{Float}
use btwattch2_rs.Cli.Foreign.{Foreign}
use btwattch2_rs.Cli.Options.{Cli, Mode, LogLevel, sample_count}
use btwattch2_rs.Connection.Assembler.{feed}
use btwattch2_rs.Connection.Ble.{Ble}
use btwattch2_rs.Connection.Link.{Connection}
use btwattch2_rs.Connection.Measure.{Measurement}
use btwattch2_rs.Connection.Replies.{Stream}
use btwattch2_rs.Connection.Subscribe.{Turn, hand_frames, measure_frame, subscribe_loop}
use btwattch2_rs.Connection.Subscribe.Frames.{arrived, Lasts, Polls, outcome_of, subscribe_frames}
use btwattch2_rs.Agent.Client.{execute}
use btwattch2_rs.Main.Session.Monitor.{IsWhole, messages, stamped, execute-messages}
use btwattch2_rs.Main.Session.Same.{measurements, client_result, same_session}
use btwattch2_rs.Main.Session.{on_measurement, on_response, start_session}
use btwattch2_rs.Output.Printer.{JsonEncoder}
use btwattch2_rs.Output.Stream.{new_renderer}
use btwattch2_rs.Output.Stats.{new_stats}
use btwattch2_rs.Output.Stats.Summary.{record_all}
use btwattch2_rs.Payload.{monitoring}

module _ (fl : Float) (c : Chrono) (to_json : JsonEncoder fl c) (clock : ℕ → ℕ) where
  messages-append :
      (ms ns : List (Measurement fl c))
      → messages fl c to_json clock ℕ (ms ++ ns)
        ≡ messages fl c to_json clock ℕ ms ++ messages fl c to_json clock ℕ ns
  messages-append [] ns = refl
  messages-append (m ∷ ms) ns = rw (messages-append ms ns) refl

  client_result-ok : (b : Bool) → client_result fl c to_json clock ℕ b ≡ ok tt → b ≡ true
  client_result-ok true h = refl
  client_result-ok false h = absurd (cc)

  -- A run of n samples without an agent, whose polls find the link up and whose stream lasts, ends
  -- without an error at the n-th measurement of what arrives, cut and polled in between as it may
  -- be: n samples have been rendered, and the statistics are those of these samples.
  pub direct_exactly {κ} :
      (f : Foreign) (cli : Cli f c) (mode : Mode c) (level : LogLevel) (b : Ble)
      (Up : Connection b → Type κ) (turns : List Turn) (st : Stream) (conn : Connection b) (n : ℕ)
      (ms rest : List (Measurement fl c))
      → Polls b monitoring Up
      → Up conn
      → Lasts turns st
      → measurements fl c to_json clock ℕ (feed [] (flatten (arrived turns st))).0 ≡ ms ++ rest
      → All (IsWhole fl c to_json clock ℕ) (ms ++ rest)
      → sample_count f c mode cli ≡ some n
      → length ms ≡ n
      → 0 < n
      → n < 2 ^ 64
      → let s = start_session fl c to_json clock f cli mode level in
        let e =
          subscribe_loop b
            (measure_frame fl c (on_measurement fl c to_json clock))
            monitoring
            turns
            st
            []
            s
            conn in
        (e.outcome ≡ some (ok tt))
        × (e.state.renderer.samples ≡ n)
        × (e.state.renderer.stats
            ≡ record_all fl c (stamped fl c to_json clock ℕ 0 ms) (new_stats fl))
  unfolding start_session new_renderer
  direct_exactly f cli mode level b Up turns st conn n [] rest polls up lasts split whole count same
        pos small =
      absurd (omega arith)
  direct_exactly f cli mode level b Up turns st conn n (m ∷ ms) rest polls up lasts split whole
        count same pos small =
      let s = start_session fl c to_json clock f cli mode level in
      let frames = (feed [] (flatten (arrived turns st))).0 in
      let taken = measure_frame fl c (on_measurement fl c to_json clock) in
      let (outcome, state) =
        subscribe_frames b taken monitoring Up polls turns st s conn up lasts in
      let (result, session) =
        same_session fl c to_json clock ℕ b frames s
          (subst (All (IsWhole fl c to_json clock ℕ)) (sym split) whole) in
      let relayed =
        ap (λ x. execute (on_response fl c to_json clock ℕ) (messages fl c to_json clock ℕ x) s)
          split
        ∙ ap (λ x. execute (on_response fl c to_json clock ℕ) x s)
            (messages-append (m ∷ ms) rest) in
      let (done, samples, stats) =
        execute-messages fl c to_json clock ℕ m ms (messages fl c to_json clock ℕ rest) s n count
          (omega arith) small (All-left (m ∷ ms) whole) in
      let broke =
        client_result-ok (hand_frames b taken frames s).0
          (sym result ∙ ap (λ x. x.0) relayed ∙ done) in
      let ended = state ∙ sym session ∙ ap (λ x. x.1) relayed in
      (
        outcome ∙ ap (outcome_of b) broke,
        ap (λ x. x.renderer.samples) ended ∙ samples,
        ap (λ x. x.renderer.stats) ended ∙ stats,
      )
    where
      All-left :
          (xs : List (Measurement fl c))
          → All (IsWhole fl c to_json clock ℕ) (xs ++ rest)
          → All (IsWhole fl c to_json clock ℕ) xs
      All-left [] h = tt
      All-left (x ∷ xs) h = (h.0, All-left xs h.1)
