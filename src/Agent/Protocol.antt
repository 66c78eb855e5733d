-- ===== src/Agent/Protocol.antt =====
-- src/agent/protocol.rs: the messages between a client and the agent. A text that the code puts
-- together for an error is a value of `Message`, which keeps what the text is made from.
use btwattch2_rs.Prelude.{ℕ, ◌≡◌, Bool, Option, none, some, Bytes}
use btwattch2_rs.Prelude.Int.{ℤ}
use btwattch2_rs.Chrono.{Chrono}
use btwattch2_rs.Float.{Float}
use btwattch2_rs.Connection.Measure.{Measurement, MeasureError}
use mathlib.Core.Option

pub data Request : Type 0 where
  -- The time as RFC 3339 text.
  set_rtc : Bytes → Request
  power : Bool → Request
  get_rtc test_led subscribe ping shutdown : Request

pub record AgentStatus (F : Type 0) : Type 0 where
  pub uptime_seconds : ℕ
  pub interval_seconds : F
  pub connected : Bool
  pub samples : ℕ
  pub last_sample_age_seconds : Option F
  pub reconnects : ℕ
  pub clients : ℕ
  pub metrics_listen : Option Bytes

-- `E` is an error of the link.
pub data Message (E : Type 0) : Type 0 where
  invalid_request actor_not_running shutting_down : Message E
  listen_failed measurement_write_failed reconnect_failed write_failed : E → Message E
  no_notification_stream stream_closed command_timed_out reply_too_short : Message E
  get_rtc_failed : MeasureError → Message E
  invalid_time year_out_of_range : Message E

pub data Response (F E : Type 0) : Type 0 where
  done stream_end : Response F E
  pong : Option Bytes → Option (AgentStatus F) → Response F E
  error : Message E → Response F E
  -- Voltage, ampere, wattage, power factor and timestamp.
  measurement : F → F → F → F → ℤ → Response F E
  -- The device's status byte.
  command_result : ℕ → Response F E

module _ (fl : Float) (c : Chrono) (E : Type 0) where
  unfoldable pub from_measurement : Measurement fl c → Response fl.F64 E
  from_measurement m =
      measurement m.voltage m.ampere m.wattage m.power_factor (c.timestamp m.timestamp)

  unfoldable pub to_measurement : Response fl.F64 E → Option (Measurement fl c)
  to_measurement (measurement v a w p t) =
      Option.map
        (λ dt. record { voltage = v; ampere = a; wattage = w; power_factor = p; timestamp = dt })
        (c.timestamp_opt t)
  to_measurement _ = none

  -- A measurement whose time is a whole second, so that its timestamp determines it, comes back
  -- unchanged from its message.
  pub to-from_measurement :
      (m : Measurement fl c)
      → c.timestamp_opt (c.timestamp m.timestamp) ≡ some m.timestamp
      → to_measurement (from_measurement m) ≡ some m
  unfolding to_measurement from_measurement
  to-from_measurement m h = rw h
