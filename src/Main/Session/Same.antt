-- ===== src/Main/Session/Same.antt =====
-- The agent between the device and a run changes nothing that the run shows.
use btwattch2_rs.Prelude.{
  ℕ, ◌≡◌, refl, sym, ap, ◌∙◌, if◌then◌else◌, Bool, true, false, inl, inr, List, [], ◌∷◌,
  Option-cases, none, some, Bytes, Result, ok, err, All,
}
use btwattch2_rs.Chrono.{Chrono}
use btwattch2_rs.Float.{Float}
use btwattch2_rs.Connection.Ble.{Ble}
use btwattch2_rs.Connection.Measure.{Measurement, try_measurement}
use btwattch2_rs.Connection.Subscribe.{hand_frames, measure_frame}
use btwattch2_rs.Agent.Client.{ClientError, closed_early, execute}
use btwattch2_rs.Main.Session.Monitor.{IsWhole, messages, execute-measurement, go_on}
use btwattch2_rs.Main.Session.{Session, on_measurement, on_response}
use btwattch2_rs.Output.Printer.{JsonEncoder}

module _ (fl : Float) (c : Chrono) (to_json : JsonEncoder fl c) (clock : ℕ → ℕ) (E : Type 0) where
  -- The measurements that the frames hold.
  abbrev pub measurements : List Bytes → List (Measurement fl c)
  measurements [] = []
  measurements (f ∷ fs) =
      let rest = measurements fs in
      elim (try_measurement fl c f) [ some m ↦ m ∷ rest | none ↦ rest ]

  abbrev run_of : List (Measurement fl c) → Session fl → Bool × Session fl
  run_of [] s = (false, s)
  run_of (m ∷ ms) s =
      let (is_break, t) = on_measurement fl c to_json clock m s in
      let rest = run_of ms t in if is_break then (true, t) else rest

  hand_frames-run_of :
      (b : Ble) (fs : List Bytes) (s : Session fl)
      → hand_frames b (measure_frame fl c (on_measurement fl c to_json clock)) fs s
        ≡ run_of (measurements fs) s
  unfolding hand_frames measure_frame
  hand_frames-run_of b [] s = refl
  hand_frames-run_of b (f ∷ fs) s = elim (Option-cases (try_measurement fl c f)) [
    | inl h ↦ rw (hand_frames, measure_frame, measurements, h) (hand_frames-run_of b fs s)
    | inr (m, h) ↦
        rw (hand_frames, measure_frame, measurements, h)
          (ap
            (λ (r : Bool × Session fl).
              if (on_measurement fl c to_json clock m s).0
              then (true, (on_measurement fl c to_json clock m s).1)
              else r)
            (hand_frames-run_of b fs (on_measurement fl c to_json clock m s).1))
  ]

  -- A break ends the client's loop, and otherwise it comes to the end of the connection.
  abbrev pub client_result : Bool → Result (ClientError E) (Unit {0})
  client_result true = ok tt
  client_result false = err closed_early

  execute-run_of :
      (ms : List (Measurement fl c)) (s : Session fl)
      → All (IsWhole fl c to_json clock E) ms
      → execute (on_response fl c to_json clock E) (messages fl c to_json clock E ms) s
        ≡ (client_result (run_of ms s).0, (run_of ms s).1)
  unfolding execute
  execute-run_of [] s whole = refl
  execute-run_of (m ∷ ms) s whole =
      execute-measurement fl c to_json clock E m (messages fl c to_json clock E ms) s whole.0
      ∙ go (on_measurement fl c to_json clock m s) (λ t. execute-run_of ms t whole.1)
    where
      go :
          (x : Bool × Session fl)
          → ((t : Session fl)
              → execute (on_response fl c to_json clock E) (messages fl c to_json clock E ms) t
                ≡ (client_result (run_of ms t).0, (run_of ms t).1))
          → go_on fl c to_json clock E (messages fl c to_json clock E ms) x ≡ (
            client_result (if x.0 then (true, x.1) else run_of ms (x.1)).0,
            (if x.0 then (true, x.1) else run_of ms (x.1)).1,
          )
      go (true, t) ih = refl
      go (false, t) ih = ih t

  -- The same frames give a run the same session, with the same lines printed and the same
  -- statistics, whether it reads them off the device itself or gets their measurements as messages
  -- of an agent, if the times are whole seconds; and the one ends at a break exactly when the
  -- other does.
  pub same_session :
      (b : Ble) (fs : List Bytes) (s : Session fl)
      → All (IsWhole fl c to_json clock E) (measurements fs)
      → let direct = hand_frames b (measure_frame fl c (on_measurement fl c to_json clock)) fs s in
        let relayed =
          execute
            (on_response fl c to_json clock E)
            (messages fl c to_json clock E (measurements fs))
            s in
        (relayed.0 ≡ client_result (direct.0)) × (relayed.1 ≡ direct.1)
  same_session b fs s whole =
      let same = hand_frames-run_of b fs s in
      let relayed = execute-run_of (measurements fs) s whole in
      (
        ap (λ x. x.0) relayed ∙ sym (ap (λ x. client_result (x.0)) same),
        ap (λ x. x.1) relayed ∙ sym (ap (λ x. x.1) same),
      )
