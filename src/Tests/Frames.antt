-- ===== src/Tests/Frames.antt =====
-- Tests of the frames, the assembler, the measurements and the link.
use btwattch2_rs.Prelude.{
  ℕ, ◌+◌, ◌+◌, ◌≤◌, ◌<◌, ◌≡◌, refl, arith, List, [], ◌∷◌, ◌++◌, map, some, Bytes, All, flatten,
}
use btwattch2_rs.Payload.{crc8, generate, monitoring, rtc, size_field, header}
use btwattch2_rs.Connection.Assembler.{feed, command}
use btwattch2_rs.Connection.Assembler.Frames.{feed_all-generate, feed_corrupt}
use btwattch2_rs.Connection.Assembler.Chunks.{feed_all}
use btwattch2_rs.Connection.Assembler.Sound.{feed-IsFrame, IsFrame}
use btwattch2_rs.Connection.Measure.{read_timestamp, slice}
use btwattch2_rs.Connection.Measure.Clock.{read-rtc}
use btwattch2_rs.Connection.Replies.{next_matching_frame}
use btwattch2_rs.Connection.Replies.Feeding.{Misses, Hits, option_list, apply_all}
use btwattch2_rs.Connection.Replies.Order.{next_matching_frame_in_order, reply_of, rx_values}
use btwattch2_rs.Connection.Link.{establish, Connection, write, listen, reconnect_stream}
use btwattch2_rs.Connection.Link.Retries.{
  CountsWrites, CountsConnects, establish_attempts, Tried, write_attempts,
}
use btwattch2_rs.Connection.Link.Attached.{IsAttached, operations-IsAttached}
use btwattch2_rs.Tests.World.{Calls, calendar, calendar-InRange, new_year, shaky, replies}

test_monitoring : monitoring ≡ 0xAA ∷ 0x00 ∷ 0x01 ∷ 0x08 ∷ 0xB3 ∷ []
unfolding monitoring generate crc8
test_monitoring = refl

abbrev query : Bytes
query = 0xAA ∷ 0x00 ∷ 0x01 ∷ 0x08 ∷ 0xB3 ∷ []

test_feed_two :
    feed (0x00 ∷ 0x01 ∷ 0xAA ∷ 0x00 ∷ []) (0x01 ∷ 0x08 ∷ 0xB3 ∷ query) ≡ (query ∷ query ∷ [], [])
unfolding feed crc8
test_feed_two = refl

test_feed_oversized : feed [] (0xAA ∷ 0xFF ∷ 0xFF ∷ []) ≡ ([], [])
unfolding feed crc8
test_feed_oversized = refl

test_status : generate (0xA7 ∷ 0x00 ∷ []) ≡ 0xAA ∷ 0x00 ∷ 0x02 ∷ 0xA7 ∷ 0x00 ∷ 0xDC ∷ []
unfolding generate crc8
test_status = refl

abbrev cut_stream : List Bytes
cut_stream =
    (0x00 ∷ 0x01 ∷ 0xAA ∷ [])
    ∷ (0x00 ∷ 0x01 ∷ 0x08 ∷ 0xB3 ∷ 0xAA ∷ 0x00 ∷ 0x02 ∷ [])
    ∷ (0xA7 ∷ 0x00 ∷ 0xDC ∷ [])
    ∷ []

abbrev two_payloads : List Bytes
two_payloads = (0x08 ∷ []) ∷ (0xA7 ∷ 0x00 ∷ []) ∷ []

feed_all-generate_example :
    ((feed_all [] cut_stream).0 ≡ map generate two_payloads) × ((feed_all [] cut_stream).1 ≡ [])
unfolding generate crc8
feed_all-generate_example =
    feed_all-generate (0x00 ∷ 0x01 ∷ []) two_payloads cut_stream (omega arith, (omega arith, tt))
      (omega arith, (omega arith, tt)) refl

feed-IsFrame_example : All IsFrame (feed (0x01 ∷ []) query).0
feed-IsFrame_example =
    feed-IsFrame (0x01 ∷ []) query
      (omega arith, (omega arith, (omega arith, (omega arith, (omega arith, (omega arith, tt))))))

abbrev damaged : Bytes
damaged = size_field 2 ++ (0xA7 ∷ 0x01 ∷ crc8 (0xA7 ∷ 0x00 ∷ []) ∷ query)

feed_corrupt_example :
    ((feed [] (header ∷ damaged)).0 ≡ (feed [] damaged).0)
    × ((feed [] (header ∷ damaged)).1 ≡ (feed [] damaged).1)
feed_corrupt_example =
    feed_corrupt (0xA7 ∷ []) [] query 0x00 0x01 (omega arith, tt) tt (omega arith) (omega arith)
      (omega arith) (omega arith)

abbrev count_others : Bytes → ℕ → ℕ
count_others f n = n + 1

next_matching_frame_in_order_example :
    let out = next_matching_frame command count_others replies query 0 in
    (before : List Bytes) × All (Misses command) before
    × Hits command (reply_of out.result)
    × (out.state ≡ apply_all count_others before 0)
    × ((feed query (flatten (rx_values replies))).0
        ≡ before
          ++ (option_list (reply_of out.result)
              ++ (feed out.buf (flatten (rx_values out.stream))).0))
next_matching_frame_in_order_example =
    next_matching_frame_in_order command count_others replies query 0

read-rtc_example :
    (p : Bytes) × (rtc calendar new_year ≡ some (generate p))
    × (read_timestamp calendar (slice 1 6 p) ≡ some new_year)
read-rtc_example =
    read-rtc calendar calendar-InRange new_year 2021
      (record { year = 2021; month = 0; day = 1; hour = 0; minute = 0; second = 0 }) new_year refl
      (omega arith) (omega arith) refl refl refl

abbrev five : Bytes
five = 1 ∷ 2 ∷ 3 ∷ 4 ∷ 5 ∷ []

abbrev thirty : Bytes
thirty = flatten (five ∷ five ∷ five ∷ five ∷ five ∷ five ∷ [])

abbrev shaky_connection : Connection shaky
shaky_connection = record {
  device = record { writes = 0; connects = 0 };
  tx = 0x6e400002_b5a3_f393_e0a9_e50e24dcca9e;
  rx = 0x6e400003_b5a3_f393_e0a9_e50e24dcca9e;
}

shaky-CountsWrites : CountsWrites shaky (λ d. d.writes)
shaky-CountsWrites = record {
  at_write = λ c p w d. refl;
  at_connect = λ d. refl;
  at_discover = λ d. refl;
  at_is_connected = λ d. refl;
  at_disconnect = λ d. refl;
}

shaky-CountsConnects : CountsConnects shaky (λ d. d.connects)
shaky-CountsConnects = record {
  at_connect = λ d. refl;
  at_discover = λ d. refl;
  at_is_connected = λ d. refl;
  at_disconnect = λ d. refl;
}

abbrev unused : Calls
unused = record { writes = 0; connects = 0 }

establish_attempts_example :
    (unused.connects < (establish shaky unused).1.connects)
    × ((establish shaky unused).1.connects ≤ unused.connects + 5)
establish_attempts_example = establish_attempts shaky (λ d. d.connects) shaky-CountsConnects unused

write_attempts_example :
    Tried 4 0
      (write shaky query shaky_connection).0
      (write shaky query shaky_connection).1.device.writes
write_attempts_example =
    write_attempts shaky (λ d. d.writes) shaky-CountsWrites query shaky_connection

operations-IsAttached_example :
    IsAttached shaky (write shaky query shaky_connection).1
    × IsAttached shaky (listen shaky shaky_connection).1
    × IsAttached shaky (reconnect_stream shaky shaky_connection).1
operations-IsAttached_example =
    operations-IsAttached shaky query shaky_connection (record { tx_uuid = refl; rx_uuid = refl })
