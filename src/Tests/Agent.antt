-- ===== src/Tests/Agent.antt =====
-- Tests of the agent: its actor, its subscribers and its counters.
use btwattch2_rs.Prelude.{ℕ, ◌≡◌, refl, if◌then◌else◌, true, false, List, [], ◌∷◌, none, err}
use btwattch2_rs.Connection.Assembler.{command}
use btwattch2_rs.Payload.{on}
use btwattch2_rs.Agent.Protocol.{subscribe, power, listen_failed}
use btwattch2_rs.Agent.Clients.{Clients, broadcast, reap, is_empty}
use btwattch2_rs.Agent.Clients.Delivery.{mem, accepting, delivered, broadcast_lem}
use btwattch2_rs.Agent.Actor.{Actor, oneshot, poll_device, wants_poll}
use btwattch2_rs.Agent.Actor.Stranded.{LosesStream, oneshot_strands}
use btwattch2_rs.Agent.Actor.Subscription.{oneshot_counts_no_reconnect, poll_device_gives_up}
use btwattch2_rs.Agent.Loop.{Event, request, tick, notification, shutdown}
use btwattch2_rs.Agent.Link.{of_ble}
use btwattch2_rs.Connection.Replies.{c_tx, c_rx}
use btwattch2_rs.Tests.World.{shaky, whole_numbers, calendar, replies, deaf_link}
use btwattch2_rs.Tests.Actors.{Watts, counters, quiet, subscribers, deaf_streaming, deaf_idle}

abbrev five : ℕ
five = 5

abbrev two : Clients Watts ℕ
two = subscribers ℕ

broadcast_lem_example :
    ((broadcast five two).list ≡ accepting {R = ℕ} quiet (1 ∷ 2 ∷ []))
    × ((k : ℕ)
        → (broadcast five two).channels k
          ≡ (if mem k (1 ∷ 2 ∷ []) then delivered five (quiet k) else quiet k))
broadcast_lem_example = broadcast_lem five two (refl, (refl, tt))

abbrev schedule : List (ℕ × Event)
schedule =
    (1, request subscribe 1)
    ∷ (2, tick)
    ∷ (3, notification)
    ∷ (4, request (power true) 2)
    ∷ (5, shutdown)
    ∷ []

-- An actor on the connection of connection.rs.
abbrev on_ble : Actor whole_numbers calendar (of_ble shaky)
on_ble = record {
  conn = record { device = record { writes = 0; connects = 0 }; tx = c_tx; rx = c_rx };
  notifications = none;
  assembler = [];
  ticker = 0;
  clients = record { list = []; stats = counters 0; channels = quiet };
  poll_always = false;
}

oneshot_strands_example :
    LosesStream whole_numbers calendar deaf_link on deaf_streaming
      (oneshot whole_numbers calendar deaf_link 50 on command deaf_streaming)
oneshot_strands_example =
    oneshot_strands whole_numbers calendar deaf_link 50 on command deaf_streaming replies refl

test_oneshot_strands :
    oneshot whole_numbers calendar deaf_link 50 on command deaf_streaming
    ≡ (err (listen_failed 3), record deaf_streaming { conn = 11; notifications = none })
unfolding oneshot
test_oneshot_strands = refl

oneshot_counts_no_reconnect_example :
    (oneshot whole_numbers calendar deaf_link 50 on command
      deaf_streaming).1.clients.stats.reconnects
    ≡ 2
oneshot_counts_no_reconnect_example =
    oneshot_counts_no_reconnect whole_numbers calendar deaf_link 50 on command deaf_streaming

poll_device_gives_up_example :
    ((poll_device whole_numbers calendar deaf_link deaf_idle).clients.list ≡ [])
    × ((poll_device whole_numbers calendar deaf_link deaf_idle).clients.stats.connected ≡ false)
unfolding poll_device wants_poll is_empty reap
poll_device_gives_up_example =
    poll_device_gives_up whole_numbers calendar deaf_link deaf_idle refl refl
