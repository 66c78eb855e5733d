-- ===== src/Tests/Actors.antt =====
-- Actors and subscribers for the tests of the agent.
use btwattch2_rs.Prelude.{ℕ, true, false, [], ◌∷◌, none, some}
use btwattch2_rs.Connection.Measure.{Measurement}
use btwattch2_rs.Agent.Status.{AgentStats, second}
use btwattch2_rs.Agent.Clients.{Channel, Clients}
use btwattch2_rs.Agent.Actor.{Actor}
use btwattch2_rs.Tests.World.{whole_numbers, calendar, new_year, replies, good_link, deaf_link}

abbrev pub Good : Type 0
Good = Actor whole_numbers calendar good_link

abbrev pub Deaf : Type 0
Deaf = Actor whole_numbers calendar deaf_link

abbrev pub Watts : Type 0
Watts = Measurement whole_numbers calendar

abbrev pub watts : Watts
watts = record { voltage = 100; ampere = 1; wattage = 90; power_factor = 0; timestamp = new_year }

abbrev pub counters : ℕ → AgentStats Watts
counters clients = record {
  started = 0;
  interval = second;
  metrics_listen = none;
  connected = true;
  samples = 7;
  reconnects = 2;
  clients = clients;
  latest = some (record { reading = watts; at = 1000 });
}

abbrev pub quiet : {R : Type 0} → ℕ → Channel R
quiet k = record { queue = []; is_closed = false }

abbrev pub subscribers : (R : Type 0) → Clients Watts R
subscribers R = record { list = 1 ∷ 2 ∷ []; stats = counters 2; channels = quiet }

abbrev pub streaming : Good
streaming = record {
  conn = 0;
  notifications = some replies;
  assembler = [];
  ticker = 0;
  clients = subscribers _;
  poll_always = false;
}

abbrev pub idle : Good
idle = record streaming {
  notifications = none;
  clients = record { list = []; stats = counters 0; channels = quiet };
}

abbrev pub deaf_streaming : Deaf
deaf_streaming = record {
  conn = 0;
  notifications = some replies;
  assembler = [];
  ticker = 0;
  clients = subscribers _;
  poll_always = false;
}

abbrev pub deaf_idle : Deaf
deaf_idle = record deaf_streaming { notifications = none }
