-- ===== src/Agent/Handler/Relay.antt =====
-- What a connection writes.
use btwattch2_rs.Prelude.{
  ◌⊎◌, ℕ, zero, suc, ◌≡◌, refl, Bool, true, false, Bool-cases, inl, inr, List, [], ◌∷◌, Option,
  none, some,
}
use btwattch2_rs.Prelude.Text.{Text}
use btwattch2_rs.Agent.Protocol.{
  Request, set_rtc, power, get_rtc, test_led, subscribe, shutdown, ping, Response, done,
}
use btwattch2_rs.Agent.Handler.{
  AgentInfo, Exchange, is_measurement, control_response, write_one, relay, pass_on, answer, decoded,
  handle_client,
}

module _ {F E : Type 0} where
  -- Every message but the last is a measurement.
  abbrev pub IsFeed : List (Response F E) → Type 0
  IsFeed [] = Unit {0}
  IsFeed (r ∷ []) = Unit {0}
  IsFeed (r ∷ s ∷ rs) = (is_measurement r ≡ true) × IsFeed (s ∷ rs)

  before-IsFeed :
      (r : Response F E) (rs : List (Response F E))
      → is_measurement r ≡ true
      → IsFeed rs
      → IsFeed (r ∷ rs)
  before-IsFeed r [] m h = tt
  before-IsFeed r (s ∷ rs) m h = (m, h)

  relay-IsFeed : (room : ℕ) (rs : List (Response F E)) → IsFeed (relay room rs)
  unfolding relay
  relay-IsFeed zero rs = tt
  relay-IsFeed (suc room) [] = tt
  relay-IsFeed (suc room) (r ∷ rs) = elim (Bool-cases (is_measurement r)) [
    | inl m ↦ rw m (before-IsFeed r (relay room rs) m (relay-IsFeed room rs))
    | inr m ↦ rw m tt
  ]

  write_one-IsFeed : (room : ℕ) (r : Response F E) → IsFeed (write_one room r)
  write_one-IsFeed zero r = tt
  write_one-IsFeed (suc room) r = tt

  -- An exchange that ends as it should: a feed was written, and the agent is told to stop only
  -- after the answer went out, by a request that the actor did not get.
  abbrev pub IsOrderly : Exchange F E → Type 0
  IsOrderly x =
      IsFeed x.written × ((x.notified ≡ false) ⊎ ((x.written ≡ done ∷ []) × (x.passed_on ≡ none)))

  pass_on-IsOrderly :
      (room : ℕ) (accepted : Bool) (request : Request) (replies : List (Response F E))
      → IsOrderly (pass_on room accepted request replies)
  unfolding pass_on
  pass_on-IsOrderly room false request replies = (write_one-IsFeed room _, inl refl)
  pass_on-IsOrderly room true request replies = (relay-IsFeed room replies, inl refl)

  answer-IsOrderly :
      (room : ℕ) (gone accepted : Bool) (request : Request) (info : AgentInfo F)
      (replies : List (Response F E))
      → IsOrderly (answer room accepted request replies (control_response request gone info))
  unfolding answer control_response
  answer-IsOrderly zero true accepted ping info replies = (tt, inl refl)
  answer-IsOrderly zero false accepted ping info replies = (tt, inl refl)
  answer-IsOrderly (suc room) true accepted ping info replies = (tt, inl refl)
  answer-IsOrderly (suc room) false accepted ping info replies = (tt, inl refl)
  answer-IsOrderly zero gone accepted shutdown info replies = (tt, inl refl)
  answer-IsOrderly (suc room) gone accepted shutdown info replies = (tt, inr (refl, refl))
  answer-IsOrderly room gone accepted (set_rtc t) info replies =
      pass_on-IsOrderly room accepted (set_rtc t) replies
  answer-IsOrderly room gone accepted (power up) info replies =
      pass_on-IsOrderly room accepted (power up) replies
  answer-IsOrderly room gone accepted get_rtc info replies =
      pass_on-IsOrderly room accepted get_rtc replies
  answer-IsOrderly room gone accepted test_led info replies =
      pass_on-IsOrderly room accepted test_led replies
  answer-IsOrderly room gone accepted subscribe info replies =
      pass_on-IsOrderly room accepted subscribe replies

  decoded-IsOrderly :
      (room : ℕ) (gone accepted : Bool) (info : AgentInfo F) (replies : List (Response F E))
      (o : Option Request)
      → IsOrderly (decoded room gone accepted info replies o)
  unfolding decoded
  decoded-IsOrderly room gone accepted info replies none = (write_one-IsFeed room _, inl refl)
  decoded-IsOrderly room gone accepted info replies (some request) =
      answer-IsOrderly room gone accepted request info replies

  -- On every connection, whatever the client sends and the actor answers, all messages but the last
  -- are measurements; and the agent is told to stop only when the answer to the request was written.
  pub handle_client-IsOrderly :
      (decode : Text → Option Request) (line : Option Text) (room : ℕ) (gone accepted : Bool)
      (info : AgentInfo F) (replies : List (Response F E))
      → IsOrderly (handle_client decode line room gone accepted info replies)
  unfolding handle_client
  handle_client-IsOrderly decode none room gone accepted info replies = (tt, inl refl)
  handle_client-IsOrderly decode (some line) room gone accepted info replies =
      decoded-IsOrderly room gone accepted info replies (decode line)
