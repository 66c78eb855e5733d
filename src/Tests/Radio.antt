-- ===== src/Tests/Radio.antt =====
-- Tests of scanning, and of a subscription without an agent.
use btwattch2_rs.Prelude.{
  ℕ, ◌+◌, ◌≡◌, ==_iff, ◌==◌, if◌then◌else◌, refl, Bool, true, false, List, [], ◌∷◌, ◌++◌, none,
  some, ok, Bytes, flatten,
}
use btwattch2_rs.Prelude.Int.{pos}
use btwattch2_rs.Prelude.Text.{codes}
use btwattch2_rs.Payload.{crc8, monitoring}
use btwattch2_rs.Connection.Assembler.{feed}
use btwattch2_rs.Connection.Ble.{Ble}
use btwattch2_rs.Connection.Link.{Connection, write}
use btwattch2_rs.Connection.Radio.{Radio, DecidesEq}
use btwattch2_rs.Connection.Replies.{Stream, closed, deadline, event, c_tx, c_rx}
use btwattch2_rs.Connection.Scan.{ScannedDevice, found_at, is_watt_checker, poll_devices}
use btwattch2_rs.Connection.Scan.Found.{Kept, poll_devices-Kept}
use btwattch2_rs.Connection.Subscribe.{
  Turn, ticked, notified, hand_frames, subscribe_loop, next_event,
}
use btwattch2_rs.Connection.Subscribe.Frames.{arrived, Polls, outcome_of, subscribe_frames}

-- Three devices, of which the first is reported twice and has its name only later.
abbrev pub radio : Radio
radio = record {
  Host = ℕ;
  Adapter = ℕ;
  Device = ℕ;
  BdAddr = ℕ;
  Error = ℕ;
  eq_addr = λ a b. a == b;
  adapters = λ s. (ok (4 ∷ 0 ∷ []), s);
  adapter_info = λ a s. (ok (if a == 0 then codes "hci0 (usb)" else codes "hci00"), s);
  peripherals = λ a s. (ok (1 ∷ 2 ∷ 1 ∷ 3 ∷ []), s + 1);
  address = λ d. d;
  properties = λ d s. (
    ok (
        if d == 1
        then some (record {
          local_name = if s == 1 then none else some (codes "btwattch2_1");
          rssi = if s == 1 then some (pos 5) else none;
        })
        else if d == 2
        then some (record { local_name = some (codes "tv"); rssi = some (pos 7) })
        else none),
    s,
  );
  start_scan = λ a s. (ok tt, s);
  stop_scan = λ a s. (ok tt, s);
}

radio-DecidesEq : DecidesEq radio
radio-DecidesEq = ==_iff

abbrev meter : ScannedDevice ℕ
meter = record { addr = 1; name = some (codes "btwattch2_1"); rssi = pos 5 }

abbrev tv : ScannedDevice ℕ
tv = record { addr = 2; name = some (codes "tv"); rssi = pos 7 }

test_is_watt_checker : is_watt_checker meter ≡ true
unfolding is_watt_checker
test_is_watt_checker = refl

poll_devices-Kept_example :
    Kept radio radio-DecidesEq
      (some (none, some (pos 9)))
      (some (some (codes "btwattch2_1"), some (pos 9)))
unfolding poll_devices found_at
poll_devices-Kept_example =
    poll_devices-Kept radio radio-DecidesEq 1 0 0 ((1, (none, some (pos 9))) ∷ [])
      ((1, (some (codes "btwattch2_1"), some (pos 9)))
        ∷ (2, (some (codes "tv"), some (pos 7)))
        ∷ [])
      7 8 refl

-- A peripheral that takes every write.
abbrev pub steady : Ble
steady = record {
  Peripheral = ℕ;
  Characteristic = ℕ;
  Error = ℕ;
  uuid = λ c. c;
  has_write = λ c. true;
  connect = λ d. (ok tt, d);
  discover_services = λ d. (ok tt, d);
  is_connected = λ d. (ok true, d);
  disconnect = λ d. (ok tt, d);
  characteristics = λ d. c_tx ∷ c_rx ∷ [];
  subscribe = λ c d. (ok tt, d);
  notifications = λ d. (ok closed, d);
  write = λ c p w d. (ok tt, d);
}

pub steady-Polls : Polls steady monitoring (λ c. Unit {0})
unfolding write
steady-Polls = record { next = λ c. c; writes = λ c u. refl; stays = λ c u. u }

abbrev collect : Bytes → List Bytes → Bool × List Bytes
collect frame frames = (false, frames ++ frame ∷ [])

-- A frame in two parts, with a notification of another characteristic between them.
abbrev cut_frame : Stream
cut_frame =
    event (record { uuid = c_rx; value = 0xAA ∷ 0x00 ∷ 0x02 ∷ [] })
      (event (record { uuid = c_tx; value = 1 ∷ [] })
        (deadline (event (record { uuid = c_rx; value = 0xA7 ∷ 0x00 ∷ 0xDC ∷ [] }) closed)))

abbrev turns : List Turn
turns = ticked ∷ notified ∷ notified ∷ ticked ∷ notified ∷ []

abbrev pub link : Connection steady
link = record { device = 0; tx = 1; rx = 2 }

subscribe_frames_example :
    let e = subscribe_loop steady collect monitoring turns cut_frame [] [] link in
    let whole = hand_frames steady collect (feed [] (flatten (arrived turns cut_frame))).0 [] in
    (e.outcome ≡ outcome_of steady (whole.0)) × (e.state ≡ whole.1)
unfolding next_event
subscribe_frames_example =
    subscribe_frames steady collect monitoring (λ c. Unit {0}) steady-Polls turns cut_frame [] link
      tt tt

test_handed :
    (hand_frames steady collect (feed [] (flatten (arrived turns cut_frame))).0 []).1
    ≡ (0xAA ∷ 0x00 ∷ 0x02 ∷ 0xA7 ∷ 0x00 ∷ 0xDC ∷ []) ∷ []
unfolding hand_frames feed next_event crc8
test_handed = refl
