-- ===== src/Tests/LetGo.antt =====
-- How the device is left, on a peripheral that is only its link.
use btwattch2_rs.Prelude.{ℕ, ◌≡◌, refl, Bool, true, false, [], ◌∷◌, none, some, ok, err}
use btwattch2_rs.Cli.Options.{power, info}
use btwattch2_rs.Connection.Ble.{Ble}
use btwattch2_rs.Connection.Direct
use btwattch2_rs.Connection.Direct.{link_failed}
use btwattch2_rs.Connection.Link.{characteristic_not_found, attach, disconnect, write}
use btwattch2_rs.Connection.Replies.{c_tx, c_rx}
use btwattch2_rs.Main.Session.{start_session}
use btwattch2_rs.Main.Session.Direct.{survives, killed, direct_session}
use btwattch2_rs.Tests.Output.{no_json}
use btwattch2_rs.Tests.Output.{two_times}
use btwattch2_rs.Tests.World.{calendar, new_year, replies, texts, whole_numbers}

abbrev switching : Ble
switching = record {
  Peripheral = Bool;
  Characteristic = ℕ;
  Error = ℕ;
  uuid = λ c. c;
  has_write = λ c. true;
  connect = λ d. (ok tt, true);
  discover_services = λ d. (ok tt, d);
  is_connected = λ d. (ok d, d);
  disconnect = λ d. (ok tt, false);
  characteristics = λ d. c_tx ∷ c_rx ∷ [];
  subscribe = λ c d. (ok tt, d);
  notifications = λ d. (ok replies, d);
  write = λ c p w d. (ok tt, d);
}

-- Without the characteristic that is notified.
abbrev halved : Ble
halved = record switching { characteristics = λ d. c_tx ∷ [] }

test_halved :
    direct_session whole_numbers calendar no_json
      (λ n. n)
      halved
      2
      []
      new_year
      (survives none)
      (start_session whole_numbers calendar no_json (λ n. n) texts two_times (power true) info)
      (power true)
      false
    ≡ ((some (err (link_failed (characteristic_not_found c_rx))), []), true)
unfolding direct_session attach
test_halved = refl

-- Killed before the `select`, the process leaves the link up.
test_killed :
    direct_session whole_numbers calendar no_json
      (λ n. n)
      switching
      2
      []
      new_year
      (killed [] true)
      (start_session whole_numbers calendar no_json (λ n. n) texts two_times (power true) info)
      (power true)
      false
    ≡ ((none, []), true)
unfolding direct_session
test_killed = refl
