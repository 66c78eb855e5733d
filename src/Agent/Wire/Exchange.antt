-- ===== src/Agent/Wire/Exchange.antt =====
-- A one-shot request from end to end, over the bytes of the connection.
use btwattch2_rs.Prelude.{
  ℕ, suc, ◌≡◌, ◌⊎◌, refl, ap, ◌∙◌, subst, inl, inr, All, true, false, List, [], ◌∷◌, ◌++◌, map,
  Option, none, some, Result, err,
}
use btwattch2_rs.Prelude.Text.{Text}
use btwattch2_rs.Chrono.{Chrono}
use btwattch2_rs.Float.{Float}
use btwattch2_rs.Agent.Protocol.{
  Request, Response, done, stream_end, pong, measurement, command_result,
}
use btwattch2_rs.Agent.Protocol
use btwattch2_rs.Agent.Clients.Delivery.{mem}
use btwattch2_rs.Agent.Link.{Link}
use btwattch2_rs.Agent.Actor.{Actor, Reply}
use btwattch2_rs.Agent.Actor.Requests.{handle}
use btwattch2_rs.Agent.Actor.Replies.{IsOneshot}
use btwattch2_rs.Agent.Handler.{AgentInfo, handle_client}
use btwattch2_rs.Agent.Client.{ClientError, closed_early, unparsable, request}
use btwattch2_rs.Agent.Client.Answer.{outcome_of, request_is_answered}
use btwattch2_rs.Agent.Wire.{write_message, written, received, next_line}
use btwattch2_rs.Prelude.Reading.{IsLine}
use btwattch2_rs.Agent.Wire.Framing.{IsEncoded, Reads, received-written, next_line-written}

module _ {F E : Type 0} where
  -- Only the first message is looked at.
  request-first :
      (r : Response F E) (rest : List (Option (Response F E)))
      → request (some r ∷ rest) ≡ outcome_of r
  unfolding request
  request-first done rest = refl
  request-first stream_end rest = refl
  request-first (pong a s) rest = refl
  request-first (Protocol.error m) rest = refl
  request-first (measurement v a w p t) rest = refl
  request-first (command_result n) rest = refl

  request-nil : request {F = F} {E = E} [] ≡ err closed_early
  unfolding request
  request-nil = refl

  request-none : request {F = F} {E = E} (none ∷ []) ≡ err unparsable
  unfolding request
  request-none = refl

  -- The client ends with the outcome, or finds the connection closed, before or within the answer.
  abbrev pub EndsWith : Response F E → Result (ClientError E) (Response F E) → Type 0
  EndsWith reply r = (r ≡ outcome_of reply) ⊎ ((r ≡ err closed_early) ⊎ (r ≡ err unparsable))

  EndsWith-Reads :
      (encode : Response F E → Text) (decode : Text → Option (Response F E)) (reply : Response F E)
      (bytes lost : Text)
      → Reads encode decode (reply ∷ []) bytes lost
      → EndsWith reply (request (received decode bytes))
        × (lost ≡ [] → request (received decode bytes) ≡ outcome_of reply)
  EndsWith-Reads encode decode reply bytes lost ([], unseen, tail, parts, got, inl e, all) = (
    inr (inl (ap request (got ∙ e) ∙ request-nil)),
    λ gone. absurd (let h : reply ∷ [] ≡ [] = parts ∙ (all gone).0 in cc),
  )
  EndsWith-Reads encode decode reply bytes lost ([], unseen, tail, parts, got, inr e, all) = (
    inr (inr (ap request (got ∙ e) ∙ request-none)),
    λ gone. absurd (let h : reply ∷ [] ≡ [] = parts ∙ (all gone).0 in cc),
  )
  EndsWith-Reads encode decode reply bytes lost (s ∷ seen, unseen, tail, parts, got, e, all) =
      let same : s ≡ reply = cc in
      let ends : request (received decode bytes) ≡ outcome_of reply =
        ap request got ∙ request-first s (map some seen ++ tail) ∙ ap outcome_of same in
      (inl ends, λ gone. ends)

module _ (fl : Float) (c : Chrono) (l : Link) (encode_request : Request → Text)
    (decode_request : Text → Option Request) (encode : Reply fl c l → Text)
    (decode : Text → Option (Reply fl c l)) where
  -- A client that writes a one-shot request to a running agent, as a line that reads back, and
  -- whose channel is new and no subscriber's, is sent exactly one message, if it takes one. However
  -- much of that message's text arrives, the client ends with the reply, or with its message where
  -- it is an error, or finds the connection closed or the answer unparsable: never with another
  -- answer; and if the text arrives whole, with the reply. The reply's text is to be one line, read
  -- back from the whole and from no part of it.
  pub request_over_connection :
      (r : Request) (behind : Text) (info : AgentInfo fl.F64) (room now tx : ℕ) (a : Actor fl c l)
      (bytes lost : Text)
      → IsLine (encode_request r)
      → decode_request (encode_request r) ≡ some r
      → IsOneshot r
      → mem tx a.clients.list ≡ false
      → a.clients.channels tx ≡ record { queue = []; is_closed = false }
      → let replies = ((handle fl c l now r tx a).clients.channels tx).queue in
        let line = next_line (write_message encode_request r ++ behind) in
        let sent = (handle_client decode_request line (suc room) false true info replies).written in
        All (IsEncoded encode decode) sent
        → bytes ++ lost ≡ written encode sent
        → (reply : Reply fl c l) × (sent ≡ reply ∷ [])
          × EndsWith reply (request (received decode bytes))
          × (lost ≡ [] → request (received decode bytes) ≡ outcome_of reply)
  request_over_connection r behind info room now tx a bytes lost is_line reads_back o apart fresh
        encoded arrived =
      let text = encode_request r in
      let (reply, one, outcome) =
        request_is_answered fl c l decode_request text r info room now tx a reads_back o apart
          fresh in
      let line = next_line-written encode_request r behind is_line in
      let replies = ((handle fl c l now r tx a).clients.channels tx).queue in
      let sent =
        ap (λ x. (handle_client decode_request x (suc room) false true info replies).written) line
        ∙ one in
      let ends = EndsWith-Reads encode decode reply bytes lost (
        received-written encode decode (reply ∷ []) bytes lost
          (subst (All (IsEncoded encode decode)) sent encoded)
          (arrived ∙ ap (written encode) sent)) in
      (reply, sent, ends.0, ends.1)
