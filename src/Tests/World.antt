-- ===== src/Tests/World.antt =====
-- Concrete values of the interfaces: a calendar, numbers for floats, a peripheral, two links,
-- addresses.
use btwattch2_rs.Prelude.{
  ℕ, min, max, ◌+◌, ◌-◌, ◌*◌, ◌/◌, ◌%◌, arith, ltb, leb, if◌then◌else◌, ◌&&◌, true, false, [], ◌∷◌,
  Option, none, some, ok, err,
}
use btwattch2_rs.Prelude.Decimal.{decimal}
use btwattch2_rs.Prelude.Int.{ℤ, pos, negsuc, sub_ℕ}
use btwattch2_rs.Prelude.Text.{Text, parse_radix}
use btwattch2_rs.Cli.Foreign.{Foreign}
use btwattch2_rs.Chrono.{Chrono, InRange}
use btwattch2_rs.Float.{Float}
use btwattch2_rs.Connection.Replies.{Stream, closed, event, c_tx, c_rx}
use btwattch2_rs.Connection.Ble.{Ble}
use btwattch2_rs.Agent.Link.{Link}

abbrev pub whole_numbers : Float
whole_numbers = record {
  F64 = ℕ;
  of_u64 = λ n. n;
  div = λ a b. a / b;
  mul = λ a b. a * b;
  is_pos = λ a. ltb 0 a;
  add = λ a b. a + b;
  minimum = min;
  maximum = max;
  infinity = 1_000_000;
  neg_infinity = 0;
  display = decimal;
  fixed = λ n a. decimal a;
  round = λ a. a;
  to_u64 = λ a. a;
}

-- Month and day from zero.
pub record Stamp : Type 0 where
  pub year : ℕ
  pub month : ℕ
  pub day : ℕ
  pub hour : ℕ
  pub minute : ℕ
  pub second : ℕ

abbrev pub mixed_radix : Stamp → ℕ
mixed_radix t =
    t.second + 60 * (t.minute + 60 * (t.hour + 24 * (t.day + 31 * (t.month + 12 * t.year))))

abbrev pub of_radix : ℤ → Option Stamp
of_radix (negsuc n) = none
of_radix (pos n) = some (record {
  second = n % 60;
  minute = n / 60 % 60;
  hour = n / 3600 % 24;
  day = n / 86400 % 31;
  month = n / 2678400 % 12;
  year = n / 32140800;
})

-- Months of 31 days.
abbrev pub calendar : Chrono
calendar = record {
  DateTime = Stamp;
  NaiveDate = Stamp;
  NaiveDateTime = Stamp;
  year = λ t. pos t.year;
  month = λ t. t.month % 12 + 1;
  day = λ t. t.day % 31 + 1;
  hour = λ t. t.hour % 24;
  minute = λ t. t.minute % 60;
  second = λ t. t.second % 60;
  num_days_from_sunday = λ t. t.day % 7;
  timestamp = λ t. pos (mixed_radix t);
  timestamp_millis = λ t. pos (mixed_radix t * 1000);
  timestamp_opt = of_radix;
  from_ymd_opt = λ y m d.
      if leb 1 m && leb m 12 && leb 1 d && leb d 31
      then some (record { year = y; month = m - 1; day = d - 1; hour = 0; minute = 0; second = 0 })
      else none;
  and_hms_opt = λ t h m s.
      if ltb h 24 && ltb m 60 && ltb s 60
      then some (record t { hour = h; minute = m; second = s })
      else none;
  earliest = some;
  add_hour = λ t. t;
  sub_hour = λ t. t;
  to_rfc3339 = λ t. decimal (mixed_radix t);
  seconds_since = λ t u. sub_ℕ (mixed_radix t) (mixed_radix u);
  parse_from_rfc3339 = λ s. none;
}

pub calendar-InRange : InRange calendar
calendar-InRange = record {
  month_pos = λ t. omega arith;
  month_le = λ t. omega arith;
  day_le = λ t. omega arith;
  hour_lt = λ t. omega arith;
  minute_lt = λ t. omega arith;
  second_lt = λ t. omega arith;
  weekday_lt = λ t. omega arith;
}

abbrev pub new_year : Stamp
new_year = record { year = 2021; month = 0; day = 1; hour = 3; minute = 4; second = 5 }

pub record Calls : Type 0 where
  pub writes : ℕ
  pub connects : ℕ

-- A peripheral that counts its calls and refuses its first two writes.
abbrev pub shaky : Ble
shaky = record {
  Peripheral = Calls;
  Characteristic = ℕ;
  Error = ℕ;
  uuid = λ c. c;
  has_write = λ c. true;
  connect = λ d. (ok tt, record d { connects = d.connects + 1 });
  discover_services = λ d. (ok tt, d);
  is_connected = λ d. (ok true, d);
  disconnect = λ d. (ok tt, d);
  characteristics = λ d. c_tx ∷ c_rx ∷ [];
  subscribe = λ c d. (ok tt, d);
  notifications = λ d. (ok closed, d);
  write = λ c p w d. (if ltb d.writes 2 then err 5 else ok tt, record d { writes = d.writes + 1 });
}

-- A reply to a command, with the status zero.
abbrev pub replies : Stream
replies =
    event (record { uuid = c_rx; value = 0xAA ∷ 0x00 ∷ 0x02 ∷ 0xA7 ∷ 0x00 ∷ 0xDC ∷ [] }) closed

-- A link on which all goes well.
abbrev pub good_link : Link
good_link = record {
  Conn = ℕ;
  Error = ℕ;
  listen = λ c. (ok replies, c);
  write = λ p c. (ok false, c + 1);
  reconnect_stream = λ c. (ok replies, c);
  disconnect = λ c. c;
}

-- A link that a write re-establishes, and that cannot be listened to.
abbrev pub deaf_link : Link
deaf_link = record {
  Conn = ℕ;
  Error = ℕ;
  listen = λ c. (err 3, c + 10);
  write = λ p c. (ok true, c + 1);
  reconnect_stream = λ c. (err 4, c);
  disconnect = λ c. c;
}

-- Addresses are their texts, and seconds whole numbers of milliseconds.
abbrev pub texts : Foreign
texts = record {
  BdAddr = Text;
  parse_bd_addr = some;
  SocketAddr = Text;
  parse_socket_addr = some;
  F64 = ℕ;
  parse_f64 = parse_radix 10 1000000;
  mul = λ a b. a * b;
  milli = 1;
  one = 1000;
  try_from_secs_f64 = λ n. some (n * 1000000);
}
