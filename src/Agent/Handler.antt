-- ===== src/Agent/Handler.antt =====
-- src/agent/server.rs, `handle_client` and `control_response`: one connection of a client. What
-- the connection sees is an argument: the line that was read, whether the actor is gone, and the
-- messages that its channel delivers. The peer takes `room` more messages before writes fail.
pub mod Relay
pub mod Acknowledged
pub mod Refused
use btwattch2_rs.Prelude.{
  ℕ, zero, suc, if◌then◌else◌, Bool, true, false, ◌&&◌, List, [], ◌∷◌, Option, none, some,
}
use btwattch2_rs.Prelude.Text.{Text}
use btwattch2_rs.Agent.Protocol.{
  Request, ping, shutdown, Response, done, pong, measurement, AgentStatus, Message,
  actor_not_running, shutting_down, invalid_request,
}
use btwattch2_rs.Agent.Protocol

-- `AgentInfo`: the device's address, and the counters as `snapshot` gives them.
pub record AgentInfo (F : Type 0) : Type 0 where
  pub addr : Text
  pub status : AgentStatus F

-- What became of a connection: the messages written, the request passed to the actor, and whether
-- the agent was told to stop.
pub record Exchange (F E : Type 0) : Type 0 where
  pub written : List (Response F E)
  pub passed_on : Option Request
  pub notified : Bool

abbrev is_shutdown : Request → Bool
is_shutdown shutdown = true
is_shutdown _ = false

abbrev can_write : ℕ → Bool
can_write zero = false
can_write (suc room) = true

module _ {F E : Type 0} where
  abbrev pub is_measurement : Response F E → Bool
  is_measurement (measurement v a w p t) = true
  is_measurement _ = false

  unfoldable pub control_response : Request → Bool → AgentInfo F → Option (Response F E)
  control_response ping true info = some (Protocol.error actor_not_running)
  control_response ping false info = some (pong (some info.addr) (some info.status))
  control_response shutdown gone info = some done
  control_response _ gone info = none

  -- `write_message`.
  abbrev write_one : ℕ → Response F E → List (Response F E)
  write_one zero r = []
  write_one (suc room) r = r ∷ []

  -- The last loop: everything the channel delivers, up to the first message that is no measurement.
  unfoldable pub relay : ℕ → List (Response F E) → List (Response F E)
  relay zero rs = []
  relay (suc room) [] = []
  relay (suc room) (r ∷ rs) =
      let rest = relay room rs in if is_measurement r then r ∷ rest else r ∷ []

  -- The request goes to the actor, unless the actor is no longer there to take it.
  pass_on : ℕ → Bool → Request → List (Response F E) → Exchange F E
  unfolding relay
  pass_on room false request replies = record {
    written = write_one room (Protocol.error shutting_down);
    passed_on = none;
    notified = false;
  }
  pass_on room true request replies = record {
    written = relay room replies;
    passed_on = some request;
    notified = false;
  }

  answer : ℕ → Bool → Request → List (Response F E) → Option (Response F E) → Exchange F E
  unfolding pass_on
  answer room accepted request replies (some r) = record {
    written = write_one room r;
    passed_on = none;
    notified = can_write room && is_shutdown request;
  }
  answer room accepted request replies none = pass_on room accepted request replies

  decoded : ℕ → Bool → Bool → AgentInfo F → List (Response F E) → Option Request → Exchange F E
  unfolding answer control_response
  decoded room gone accepted info replies none = record {
    written = write_one room (Protocol.error invalid_request);
    passed_on = none;
    notified = false;
  }
  decoded room gone accepted info replies (some request) =
      answer room accepted request replies (control_response request gone info)

  -- `decode` is the parser of the JSON; `gone` is `is_closed` and `accepted` whether the send to
  -- the actor goes through.
  unfoldable pub handle_client :
      (Text → Option Request)
      → Option Text
      → ℕ
      → Bool
      → Bool
      → AgentInfo F
      → List (Response F E)
      → Exchange F E
  unfolding decoded
  handle_client decode none room gone accepted info replies = record {
    written = [];
    passed_on = none;
    notified = false;
  }
  handle_client decode (some line) room gone accepted info replies =
      decoded room gone accepted info replies (decode line)
