-- ===== src/Main/Session/Commands.antt =====
-- A command from end to end: the invocation, the bytes of its connection, the agent's handler and
-- its actor.
use btwattch2_rs.Prelude.{
  ◌≢◌, ◌⊎◌, ◌==◌, ==_iff, if◌then◌else◌, Bool-cases, inl, inr, ℕ, suc, ◌≡◌, ◌↔◌, refl, sym, ap, ◌∙◌,
  subst, arith, Bool, true, false, All, List, [], ◌∷◌, ◌++◌, append-nil, Option, none, some, Result,
  ok, err,
}
use btwattch2_rs.Prelude.Text.{Text, codes}
use btwattch2_rs.Prelude.Reading.{IsLine}
use btwattch2_rs.Chrono.{Chrono}
use btwattch2_rs.Float.{Float}
use btwattch2_rs.Cli.Options.{Mode, get_rtc, set_rtc, power, test_led, metric, monitor}
use btwattch2_rs.Agent.Protocol.{
  Request, Response, done, stream_end, pong, measurement, command_result,
}
use btwattch2_rs.Agent.Protocol
use btwattch2_rs.Agent.Clients.Delivery.{mem}
use btwattch2_rs.Agent.Link.{Link}
use btwattch2_rs.Agent.Actor.{Actor, Reply}
use btwattch2_rs.Agent.Actor.Requests.{handle}
use btwattch2_rs.Agent.Actor.Replies.{IsOneshot}
use btwattch2_rs.Agent.Handler.{AgentInfo, handle_client}
use btwattch2_rs.Agent.Client.{ClientError, request}
use btwattch2_rs.Agent.Client.Answer.{outcome_of}
use btwattch2_rs.Agent.Wire.{write_message, written, received, next_line}
use btwattch2_rs.Agent.Wire.Framing.{IsEncoded}
use btwattch2_rs.Agent.Wire.Exchange.{request_over_connection}
use btwattch2_rs.Main.Session.{
  Session, SessionError, client_failed, command_failed, succeeded, send_daemon_command,
  command_code, run_via_daemon,
}
use btwattch2_rs.Output.Printer.{Line, diagnostic, JsonEncoder}

module _ (fl : Float) (c : Chrono) (to_json : JsonEncoder fl c) (clock : ℕ → ℕ) (E : Type 0) where
  abbrev Ran : Type 0
  Ran = Result (SessionError E) (Unit {0}) × List Line

  -- The request of a mode that only sends a command.
  abbrev pub command_of : Mode c → Option Request
  command_of (set_rtc time) = some (Protocol.set_rtc (c.to_rfc3339 time))
  command_of (power on) = some (Protocol.power on)
  command_of test_led = some Protocol.test_led
  command_of get_rtc = none
  command_of (metric name) = none
  command_of monitor = none

  abbrev pub action_of : Mode c → Text
  action_of (set_rtc time) = codes "RTC set"
  action_of (power on) = if on then codes "Power on" else codes "Power off"
  action_of test_led = codes "Blink"
  action_of get_rtc = []
  action_of (metric name) = []
  action_of monitor = []

  command_of-IsOneshot : (m : Mode c) (r : Request) → command_of m ≡ some r → IsOneshot r
  command_of-IsOneshot (set_rtc time) r e =
      let f : Protocol.set_rtc (c.to_rfc3339 time) ≡ r = cc in subst IsOneshot f tt
  command_of-IsOneshot (power on) r e = let f : Protocol.power on ≡ r = cc in subst IsOneshot f tt
  command_of-IsOneshot test_led r e = let f : Protocol.test_led ≡ r = cc in subst IsOneshot f tt
  command_of-IsOneshot get_rtc r e = absurd (cc)
  command_of-IsOneshot (metric name) r e = absurd (cc)
  command_of-IsOneshot monitor r e = absurd (cc)

  abbrev sent_as : Bool → Text → List (Option (Response fl.F64 E)) → Ran
  sent_as is_info action lines = send_daemon_command fl c to_json clock E is_info action lines

  module _ (agent : Request → List (Option (Response fl.F64 E))) (now : c.DateTime)
      (expires is_info : Bool) (s : Session fl) where
    sends :
        (m : Mode c) (r : Request)
        → command_of m ≡ some r
        → run_via_daemon fl c to_json clock E agent now expires is_info s m
          ≡ sent_as is_info (action_of m) (agent r)
    unfolding run_via_daemon
    sends (set_rtc time) r e =
        let f : Protocol.set_rtc (c.to_rfc3339 time) ≡ r = cc in
        ap (λ q. sent_as is_info (codes "RTC set") (agent q)) f
    sends (power on) r e =
        let f : Protocol.power on ≡ r = cc in
        ap (λ q. sent_as is_info (action_of (power on)) (agent q)) f
    sends test_led r e =
        let f : Protocol.test_led ≡ r = cc in ap (λ q. sent_as is_info (codes "Blink") (agent q)) f
    sends get_rtc r e = absurd (cc)
    sends (metric name) r e = absurd (cc)
    sends monitor r e = absurd (cc)

  module _ (is_info : Bool) (action : Text) where
    abbrev of_outcome : Result (ClientError E) (Response fl.F64 E) → Ran
    of_outcome (ok r) = command_code fl c to_json clock E is_info action r
    of_outcome (err e) = (err (client_failed e), [])

    send-of_outcome :
        (lines : List (Option (Response fl.F64 E)))
        → sent_as is_info action lines ≡ of_outcome (request lines)
    unfolding send_daemon_command
    send-of_outcome lines = go (request lines)
      where
        go :
            (o : Result (ClientError E) (Response fl.F64 E))
            → (elim o [
              | ok r ↦ command_code fl c to_json clock E is_info action r
              | err e ↦ (err (client_failed e), [])
            ])
              ≡ of_outcome o
        go (ok r) = refl
        go (err e) = refl

    abbrev pub IsOther : Response fl.F64 E → Type 0
    IsOther reply = reply ≢ command_result 0

    -- Only a status of zero is a success, and only a success is told.
    abbrev pub TellsOutcome : Response fl.F64 E → Ran → Type 0
    TellsOutcome reply x =
        ((x.0 ≡ ok tt) ↔ (reply ≡ command_result 0))
        × (reply ≡ command_result 0
            → is_info ≡ true
            → x.1 ≡ diagnostic (codes "[INFO] " ++ (action ++ codes " succeeded")) ∷ [])
        × (IsOther reply ⊎ (is_info ≡ false) → x.1 ≡ [])

    failed-TellsOutcome :
        (reply : Response fl.F64 E) (e : SessionError E)
        → IsOther reply
        → TellsOutcome reply (err e, [])
    failed-TellsOutcome reply e other =
        (((λ h. absurd (cc)), λ h. absurd (other h)), (λ h i. absurd (other h)), λ h. refl)

    quiet :
        {n : ℕ}
        → n ≡ 0
        → IsOther (command_result n) ⊎ (is_info ≡ false)
        → succeeded fl c to_json clock E is_info action ≡ []
    quiet zero (inl h) = absurd (h (ap command_result zero))
    quiet zero (inr h) = rw h refl

    code_of : Response fl.F64 E → ℕ
    code_of (command_result n) = n
    code_of _ = 0

    other : {n : ℕ} → (n == 0) ≡ false → IsOther (command_result n)
    unfolding code_of
    other {n} e h = let z : n ≡ 0 = ap code_of h in ground arith

    of_outcome-TellsOutcome :
        (reply : Response fl.F64 E) → TellsOutcome reply (of_outcome (outcome_of reply))
    unfolding command_code
    of_outcome-TellsOutcome (command_result n) = elim (Bool-cases (n == 0)) [
      | inl e ↦
          let zero : n ≡ 0 = (==_iff n 0).0 e in
          rw e (((λ h. ap command_result zero), λ h. refl), (λ h i. rw i refl), quiet zero)
      | inr e ↦ rw e (failed-TellsOutcome (command_result n) (command_failed n) (other e))
    ]
    of_outcome-TellsOutcome done = failed-TellsOutcome done _ (λ h. cc)
    of_outcome-TellsOutcome stream_end = failed-TellsOutcome stream_end _ (λ h. cc)
    of_outcome-TellsOutcome (pong a s) = failed-TellsOutcome (pong a s) _ (λ h. cc)
    of_outcome-TellsOutcome (Protocol.error m) = failed-TellsOutcome (Protocol.error m) _ (λ h. cc)
    of_outcome-TellsOutcome (measurement v a w p t) =
        failed-TellsOutcome (measurement v a w p t) _ (λ h. cc)

module _ (fl : Float) (c : Chrono) (to_json : JsonEncoder fl c) (clock : ℕ → ℕ) (l : Link)
    (encode_request : Request → Text) (decode_request : Text → Option Request)
    (encode : Reply fl c l → Text) (decode : Text → Option (Reply fl c l)) where
  -- What the agent writes for a request that arrives on a channel.
  abbrev pub answers : AgentInfo fl.F64 → ℕ → ℕ → ℕ → Actor fl c l → Request → List (Reply fl c l)
  answers info room at tx a q =
      (handle_client decode_request (next_line (write_message encode_request q ++ [])) (suc room)
        false true info ((handle fl c l at q tx a).clients.channels tx).queue).written

  -- An invocation of a command, sent over a connection to a running agent that takes the request
  -- and whose answer is written and arrives whole, ends without an error exactly when the actor's
  -- one answer is the device's status zero: whatever the link does meanwhile, and whatever else the
  -- agent serves. It prints the line that names the command as succeeded in that case, if the level
  -- lets informational lines through, and nothing else. The request is a line that reads back, its
  -- channel new and no subscriber's, and the answer's text one line that reads back from the whole
  -- and from no part of it.
  pub command_reported :
      (m : Mode c) (r : Request) (info : AgentInfo fl.F64) (room at tx : ℕ) (a : Actor fl c l)
      (now : c.DateTime) (expires is_info : Bool) (s : Session fl)
      → command_of fl c to_json clock l.Error m ≡ some r
      → IsLine (encode_request r)
      → decode_request (encode_request r) ≡ some r
      → mem tx a.clients.list ≡ false
      → a.clients.channels tx ≡ record { queue = []; is_closed = false }
      → All (IsEncoded encode decode) (answers info room at tx a r)
      → let agent =
          λ (q : Request). received decode (written encode (answers info room at tx a q)) in
        let x = run_via_daemon fl c to_json clock l.Error agent now expires is_info s m in
        (reply : Reply fl c l) × (answers info room at tx a r ≡ reply ∷ [])
        × TellsOutcome fl c to_json clock l.Error is_info
            (action_of fl c to_json clock l.Error m)
            reply
            x
  command_reported m r info room at tx a now expires is_info s asks is_line reads_back apart fresh
        encoded =
      let agent : Request → List (Option (Reply fl c l)) =
        λ q. received decode (written encode (answers info room at tx a q)) in
      let action = action_of fl c to_json clock l.Error m in
      let (reply, one, ends, all) =
        request_over_connection fl c l encode_request decode_request encode decode r [] info room at
          tx a (written encode (answers info room at tx a r)) [] is_line reads_back
          (command_of-IsOneshot fl c to_json clock l.Error m r asks) apart fresh encoded
          (append-nil (written encode (answers info room at tx a r))) in
      let same =
        sends fl c to_json clock l.Error agent now expires is_info s m r asks
        ∙ send-of_outcome fl c to_json clock l.Error is_info action (agent r)
        ∙ ap (of_outcome fl c to_json clock l.Error is_info action) (all refl) in
      (
        reply,
        one,
        subst (TellsOutcome fl c to_json clock l.Error is_info action reply) (sym same)
            (of_outcome-TellsOutcome fl c to_json clock l.Error is_info action reply),
      )
