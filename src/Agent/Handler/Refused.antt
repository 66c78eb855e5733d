-- ===== src/Agent/Handler/Refused.antt =====
-- A connection whose agent takes no more requests.
use btwattch2_rs.Prelude.{ℕ, ◌≡◌, refl, Bool, false, Bool-cases, inl, inr, List, Option, none, some}
use btwattch2_rs.Prelude.Text.{Text}
use btwattch2_rs.Agent.Protocol.{
  Request, set_rtc, power, get_rtc, test_led, subscribe, shutdown, ping, Response,
}
use btwattch2_rs.Agent.Handler.{
  AgentInfo, control_response, pass_on, answer, decoded, handle_client,
}

module _ {F E : Type 0} (room : ℕ) (gone : Bool) (info : AgentInfo F)
    (replies : List (Response F E)) where
  decoded-refused : (o : Option Request) → (decoded room gone false info replies o).passed_on ≡ none
  unfolding decoded answer control_response pass_on
  decoded-refused none = refl
  decoded-refused (some shutdown) = refl
  decoded-refused (some ping) = elim (Bool-cases gone) [ inl e ↦ rw e refl | inr e ↦ rw e refl ]
  decoded-refused (some (set_rtc t)) = refl
  decoded-refused (some (power up)) = refl
  decoded-refused (some get_rtc) = refl
  decoded-refused (some test_led) = refl
  decoded-refused (some subscribe) = refl

  pub handle_client-refused :
      (decode : Text → Option Request) (line : Option Text)
      → (handle_client decode line room gone false info replies).passed_on ≡ none
  unfolding handle_client
  handle_client-refused decode none = refl
  handle_client-refused decode (some line) = decoded-refused (decode line)
