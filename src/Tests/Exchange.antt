-- ===== src/Tests/Exchange.antt =====
-- Tests of a connection to the agent, and of both its ends with the actor.
use btwattch2_rs.Prelude.{ℕ, true, false, [], none, some, Option}
use btwattch2_rs.Agent.Protocol.{
  Request, subscribe, power, Response, done, stream_end, listen_failed, from_measurement,
  to_measurement, to-from_measurement,
}
use btwattch2_rs.Agent.Protocol
use btwattch2_rs.Agent.Handler.{AgentInfo, handle_client}
use btwattch2_rs.Agent.Handler.Relay.{IsOrderly, handle_client-IsOrderly}
use btwattch2_rs.Prelude.Text.{Text, codes}

abbrev info : AgentInfo ℕ
info = record {
  addr = codes "CB:DF:6B:12:34:56";
  status = record {
    uptime_seconds = 5;
    interval_seconds = 1;
    connected = true;
    samples = 1;
    last_sample_age_seconds = none;
    reconnects = 0;
    clients = 0;
    metrics_listen = none;
  };
}

abbrev decode_shutdown : Text → Option Request
decode_shutdown s = some Protocol.shutdown

handle_client-IsOrderly_example :
    IsOrderly {E = ℕ} (handle_client decode_shutdown (some []) 1 false true info [])
handle_client-IsOrderly_example =
    handle_client-IsOrderly decode_shutdown (some []) 1 false true info []

abbrev decode_power : Text → Option Request
decode_power s = some (power true)
