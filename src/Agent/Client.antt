-- ===== src/Agent/Client.antt =====
-- src/agent/client.rs: the client's end of a connection. A response that was read is `none` where
-- it does not parse; the end of the list is the end of the connection.
pub mod Answer
use btwattch2_rs.Prelude.{
  ℕ, if◌then◌else◌, Bool, true, false, ◌||◌, List, [], ◌∷◌, Option, none, some, Result, ok, err,
  ◌>>=◌, ok_or,
}
use btwattch2_rs.Prelude.Text.{Text}
use btwattch2_rs.Agent.Protocol.{Response, done, stream_end, pong, AgentStatus, Message}
use btwattch2_rs.Agent.Protocol

pub data ClientError (E : Type 0) : Type 0 where
  closed_early unparsable no_response unparsable_address unexpected_ping unexpected_shutdown :
      ClientError E
  refused : Message E → ClientError E

-- agent/mod.rs.
pub record DaemonInfo (F Addr : Type 0) : Type 0 where
  pub addr : Option Addr
  pub status : Option (AgentStatus F)

attached :
    {E Addr : Type 0} → (Text → Option Addr) → Option Text → Result (ClientError E) (Option Addr)
attached parse_addr none = ok none
attached parse_addr (some addr) = do a ← ok_or (parse_addr addr) unparsable_address; ok (some a)

module _ {F E : Type 0} where
  abbrev is_stream_end : Response F E → Bool
  is_stream_end stream_end = true
  is_stream_end _ = false

  module _ {ℓ} {S : Type ℓ} (on_response : Response F E → S → Bool × S) where
    -- A response that is not an error: `again` is the rest of the loop.
    hand_over :
        (S → Result (ClientError E) (Unit {0}) × S)
        → Response F E
        → S
        → Result (ClientError E) (Unit {0}) × S
    hand_over again (Protocol.error message) s = (err (refused message), s)
    hand_over again r s =
        let (is_break, t) = on_response r s in
        let rest = again t in if is_break || is_stream_end r then (ok tt, t) else rest

    unfoldable pub execute :
        List (Option (Response F E)) → S → Result (ClientError E) (Unit {0}) × S
    unfolding hand_over
    execute [] s = (err closed_early, s)
    execute (none ∷ lines) s = (err unparsable, s)
    execute (some r ∷ lines) s = hand_over (execute lines) r s

  abbrev keep_first : Response F E → Option (Response F E) → Bool × Option (Response F E)
  keep_first r s = (true, some r)

  unfoldable pub request : List (Option (Response F E)) → Result (ClientError E) (Response F E)
  unfolding execute
  request lines =
      let (result, response) = execute keep_first lines none in
      do finished ← result; ok_or response no_response

  module _ {Addr : Type 0} (parse_addr : Text → Option Addr) where
    read_pong : Response F E → Result (ClientError E) (DaemonInfo F Addr)
    unfolding attached
    read_pong (pong addr status) = do
      a ← attached parse_addr addr
      ok (record { addr = a; status = status })
    read_pong _ = err unexpected_ping

    -- Within the time limit.
    unfoldable pub ping : List (Option (Response F E)) → Result (ClientError E) (DaemonInfo F Addr)
    unfolding request read_pong
    ping lines = do r ← request lines; read_pong r

  read_done : Response F E → Result (ClientError E) (Unit {0})
  read_done done = ok tt
  read_done _ = err unexpected_shutdown

  unfoldable pub send_shutdown : List (Option (Response F E)) → Result (ClientError E) (Unit {0})
  unfolding request read_done
  send_shutdown lines = do r ← request lines; read_done r
