-- ===== src/Agent/Client/Answer.antt =====
-- A one-shot request from end to end: the client, its connection, and the actor.
use btwattch2_rs.Prelude.{
  ℕ, zero, suc, ◌≡◌, refl, ap, ◌∙◌, arith, true, false, List, [], ◌∷◌, map, Option, some, Result,
  ok, err,
}
use btwattch2_rs.Prelude.Text.{Text}
use btwattch2_rs.Chrono.{Chrono}
use btwattch2_rs.Float.{Float}
use btwattch2_rs.Agent.Protocol.{
  Request, set_rtc, power, get_rtc, test_led, subscribe, ping, shutdown, Response, done, stream_end,
  pong, measurement, command_result, Message,
}
use btwattch2_rs.Agent.Protocol
use btwattch2_rs.Agent.Clients.{Channel}
use btwattch2_rs.Agent.Clients.Delivery.{mem}
use btwattch2_rs.Agent.Link.{Link}
use btwattch2_rs.Agent.Actor.{Actor, Reply}
use btwattch2_rs.Agent.Actor.Requests.{handle}
use btwattch2_rs.Agent.Actor.Replies.{IsOneshot, handle_answers_once}
use btwattch2_rs.Agent.Handler.{AgentInfo, handle_client, relay}
use btwattch2_rs.Agent.Client.{ClientError, refused, request}

module _ {F E : Type 0} where
  -- What the client makes of a reply.
  abbrev pub outcome_of : Response F E → Result (ClientError E) (Response F E)
  outcome_of (Protocol.error message) = err (refused message)
  outcome_of r = ok r

  request-single : (r : Response F E) → request (some r ∷ []) ≡ outcome_of r
  unfolding request
  request-single done = refl
  request-single stream_end = refl
  request-single (pong a s) = refl
  request-single (Protocol.error m) = refl
  request-single (measurement v a w p t) = refl
  request-single (command_result n) = refl

  relay-nil : (room : ℕ) → relay {F = F} {E = E} room [] ≡ []
  unfolding relay
  relay-nil zero = refl
  relay-nil (suc room) = refl

  relay-single : (room : ℕ) (r : Response F E) → relay (suc room) (r ∷ []) ≡ r ∷ []
  unfolding relay
  relay-single room r = ground (arith, relay-nil room)

  oneshot-written :
      (decode : Text → Option Request) (line : Text) (r : Request) (room : ℕ) (info : AgentInfo F)
      (replies : List (Response F E))
      → decode line ≡ some r
      → IsOneshot r
      → (handle_client decode (some line) room false true info replies).written ≡ relay room replies
  unfolding handle_client
  oneshot-written decode line (set_rtc time) room info replies e o = rw e refl
  oneshot-written decode line (power up) room info replies e o = rw e refl
  oneshot-written decode line get_rtc room info replies e o = rw e refl
  oneshot-written decode line test_led room info replies e o = rw e refl
  oneshot-written decode line subscribe room info replies e o = absurd o
  oneshot-written decode line ping room info replies e o = absurd o
  oneshot-written decode line shutdown room info replies e o = absurd o

module _ (fl : Float) (c : Chrono) (l : Link) where
  -- A client whose one-shot request reaches a running agent, on an open and empty channel that is no
  -- subscriber's, and which takes at least one message, gets exactly
  -- one reply, and `request` ends with it: with the reply itself, or, where it is an error, with its
  -- message. It never sees the connection close early, whatever the link does.
  pub request_is_answered :
      (decode : Text → Option Request) (line : Text) (r : Request) (info : AgentInfo fl.F64)
      (room now tx : ℕ) (a : Actor fl c l)
      → decode line ≡ some r
      → IsOneshot r
      → mem tx a.clients.list ≡ false
      → a.clients.channels tx ≡ record { queue = []; is_closed = false }
      → let replies = ((handle fl c l now r tx a).clients.channels tx).queue in
        let written =
          (handle_client decode (some line) (suc room) false true info replies).written in
        (reply : Reply fl c l) × (written ≡ reply ∷ [])
        × (request (map some written) ≡ outcome_of reply)
  request_is_answered decode line r info room now tx a e o apart fresh =
      let (reply, pushed, alone) =
        handle_answers_once fl c l tx (record { queue = []; is_closed = false }) refl now r a o
          apart fresh in
      let queue = ((handle fl c l now r tx a).clients.channels tx).queue in
      let written : (handle_client decode (some line) (suc room) false true info queue).written
          ≡ reply ∷ [] =
        oneshot-written decode line r (suc room) info queue e o
        ∙ ap (λ (ch : Channel (Reply fl c l)). relay (suc room) ch.queue) pushed
        ∙ relay-single room reply in
      (reply, written, rw written (request-single reply))
