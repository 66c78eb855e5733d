-- ===== src/Agent/Handler/Acknowledged.antt =====
-- When a connection tells the agent to stop.
use btwattch2_rs.Prelude.{
  ℕ, zero, suc, ◌≡◌, refl, ◌∙◌, sym, ap, Bool, true, false, List, [], ◌∷◌, Option, none, some,
}
use btwattch2_rs.Prelude.Text.{Text}
use btwattch2_rs.Agent.Protocol.{
  Request, set_rtc, power, get_rtc, test_led, subscribe, shutdown, ping, Response, done,
}
use btwattch2_rs.Agent.Handler.{
  AgentInfo, Exchange, control_response, pass_on, answer, decoded, handle_client,
}

module _ {F E : Type 0} where
  -- The answer of a request to stop was written.
  abbrev pub IsAcknowledged : (Text → Option Request) → Option Text → Exchange F E → Type 0
  IsAcknowledged decode none x = ⊥
  IsAcknowledged decode (some text) x =
      (decode text ≡ some shutdown) × (x.written ≡ done ∷ []) × (x.passed_on ≡ none)

  abbrev Asked : Option Request → Exchange F E → Type 0
  Asked o x = (o ≡ some shutdown) × (x.written ≡ done ∷ []) × (x.passed_on ≡ none)

  pass_on-Asked :
      (room : ℕ) (accepted : Bool) (r : Request) (replies : List (Response F E))
      (o : Option Request)
      → (pass_on room accepted r replies).notified ≡ true
      → Asked o (pass_on room accepted r replies)
  unfolding pass_on
  pass_on-Asked room true r replies o h = absurd (cc)
  pass_on-Asked room false r replies o h = absurd (cc)

  decoded-Asked :
      (room : ℕ) (gone accepted : Bool) (info : AgentInfo F) (replies : List (Response F E))
      (o : Option Request)
      → (decoded room gone accepted info replies o).notified ≡ true
      → Asked o (decoded room gone accepted info replies o)
  unfolding decoded answer control_response
  decoded-Asked room gone accepted info replies none h = absurd (cc)
  decoded-Asked zero gone accepted info replies (some shutdown) h = absurd (cc)
  decoded-Asked (suc room) gone accepted info replies (some shutdown) h = (refl, refl, refl)
  decoded-Asked zero true accepted info replies (some ping) h = absurd (cc)
  decoded-Asked (suc room) true accepted info replies (some ping) h = absurd (cc)
  decoded-Asked zero false accepted info replies (some ping) h = absurd (cc)
  decoded-Asked (suc room) false accepted info replies (some ping) h = absurd (cc)
  decoded-Asked room gone accepted info replies (some (set_rtc t)) h =
      pass_on-Asked room accepted (set_rtc t) replies _ h
  decoded-Asked room gone accepted info replies (some (power up)) h =
      pass_on-Asked room accepted (power up) replies _ h
  decoded-Asked room gone accepted info replies (some get_rtc) h =
      pass_on-Asked room accepted get_rtc replies _ h
  decoded-Asked room gone accepted info replies (some test_led) h =
      pass_on-Asked room accepted test_led replies _ h
  decoded-Asked room gone accepted info replies (some subscribe) h =
      pass_on-Asked room accepted subscribe replies _ h

  decoded-notified :
      (room : ℕ) (gone accepted : Bool) (info : AgentInfo F) (replies : List (Response F E))
      → (decoded room gone accepted info replies (some shutdown)).written ≡ done ∷ []
      → (decoded room gone accepted info replies (some shutdown)).notified ≡ true
  unfolding decoded answer control_response
  decoded-notified zero gone accepted info replies h = absurd (cc)
  decoded-notified (suc room) gone accepted info replies h = refl

  -- A connection that tells the agent to stop was asked to, and wrote its answer.
  pub notified-IsAcknowledged :
      (decode : Text → Option Request) (line : Option Text) (room : ℕ) (gone accepted : Bool)
      (info : AgentInfo F) (replies : List (Response F E))
      → (handle_client decode line room gone accepted info replies).notified ≡ true
      → IsAcknowledged decode line (handle_client decode line room gone accepted info replies)
  unfolding handle_client
  notified-IsAcknowledged decode none room gone accepted info replies h = absurd (cc)
  notified-IsAcknowledged decode (some text) room gone accepted info replies h =
      decoded-Asked room gone accepted info replies (decode text) h

  -- And one that wrote the answer of such a request tells the agent to stop.
  pub IsAcknowledged-notified :
      (decode : Text → Option Request) (line : Option Text) (room : ℕ) (gone accepted : Bool)
      (info : AgentInfo F) (replies : List (Response F E))
      → IsAcknowledged decode line (handle_client decode line room gone accepted info replies)
      → (handle_client decode line room gone accepted info replies).notified ≡ true
  unfolding handle_client
  IsAcknowledged-notified decode none room gone accepted info replies h = absurd h
  IsAcknowledged-notified decode (some text) room gone accepted info replies (asked, wrote, p) =
      ap (λ o. (decoded room gone accepted info replies o).notified) asked
      ∙ decoded-notified room gone accepted info replies
          (sym (ap (λ o. (decoded room gone accepted info replies o).written) asked) ∙ wrote)
