-- ===== src/Chrono.antt =====
-- What the code takes from the `chrono` crate, as an interface: calendar fields of a local time,
-- construction from a date and a time of day, and the parser of RFC 3339 texts.
use btwattch2_rs.Prelude.{ℕ, ◌≤◌, ◌<◌, Option, Bytes}
use btwattch2_rs.Prelude.Int.{ℤ}

pub record Chrono : Type 1 where
  pub DateTime : Type 0
  pub NaiveDate : Type 0
  pub NaiveDateTime : Type 0
  -- `Datelike` and `Timelike`.
  pub year : DateTime → ℤ
  pub month : DateTime → ℕ
  pub day : DateTime → ℕ
  pub hour : DateTime → ℕ
  pub minute : DateTime → ℕ
  pub second : DateTime → ℕ
  pub num_days_from_sunday : DateTime → ℕ
  -- Seconds since the epoch.
  pub timestamp : DateTime → ℤ
  pub timestamp_millis : DateTime → ℤ
  -- `Local.timestamp_opt(.., 0).single()`.
  pub timestamp_opt : ℤ → Option DateTime
  pub from_ymd_opt : ℕ → ℕ → ℕ → Option NaiveDate
  pub and_hms_opt : NaiveDate → ℕ → ℕ → ℕ → Option NaiveDateTime
  -- `Local.from_local_datetime(..).earliest()`, and a shift by an hour.
  pub earliest : NaiveDateTime → Option DateTime
  pub add_hour : NaiveDateTime → NaiveDateTime
  pub sub_hour : DateTime → DateTime
  pub to_rfc3339 : DateTime → Bytes
  -- `signed_duration_since(..).num_seconds()`.
  pub seconds_since : DateTime → DateTime → ℤ
  -- `DateTime::parse_from_rfc3339`, moved to the local zone.
  pub parse_from_rfc3339 : Bytes → Option DateTime

-- The documented ranges of the accessors that the RTC frame casts to bytes.
pub record InRange (c : Chrono) : Type 0 where
  pub month_pos : (t : c.DateTime) → 1 ≤ c.month t
  pub month_le : (t : c.DateTime) → c.month t ≤ 12
  pub day_le : (t : c.DateTime) → c.day t ≤ 31
  pub hour_lt : (t : c.DateTime) → c.hour t < 24
  pub minute_lt : (t : c.DateTime) → c.minute t < 60
  pub second_lt : (t : c.DateTime) → c.second t < 60
  pub weekday_lt : (t : c.DateTime) → c.num_days_from_sunday t < 7
