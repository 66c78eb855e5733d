-- ===== src/Connection/Measure/Clock.antt =====
-- The clock as it is set (payload.rs) and as it is read back (connection.rs), and the fields of a
-- measurement.
use btwattch2_rs.Prelude.{
  ℕ, zero, suc, ◌+◌, ◌-◌, ◌/◌, ◌%◌, ◌^◌, ◌≤◌, ◌<◌, ◌≡◌, ◌≢◌, ◌↔◌, refl, arith, ltb, false, [], ◌∷◌,
  ◌++◌, none, some, Bytes, length, length-append, take-append,
}
use btwattch2_rs.Prelude.Int.{ℤ, pos, negsuc, ◌-ℕ◌}
use btwattch2_rs.Chrono.{Chrono, InRange}
use btwattch2_rs.Float.{Float}
use btwattch2_rs.Payload.{rtc, rtc_payload, generate, u8_try_from}
use btwattch2_rs.Connection.Measure.{local_datetime, read_timestamp, read_measure, slice, u48_le}

year_byte_iff :
    (z : ℤ) → (u8_try_from (z -ℕ 1900) ≢ none) ↔ ((y : ℕ) × (z ≡ pos y) × (1900 ≤ y) × (y ≤ 2155))
year_byte_iff (pos y) = ((λ h. (y, refl, ground (arith, h), ground (arith, h))), λ h. ground arith)
year_byte_iff (negsuc y) = ((λ h. absurd (h refl)), λ h. ground arith)

module _ (c : Chrono) where
  rtc-some : (t : c.DateTime) → (rtc c t ≢ none) ↔ (u8_try_from (c.year t -ℕ 1900) ≢ none)
  unfolding rtc
  rtc-some t = (λ h e. h (rw (e, rtc)), λ h. ground (arith, h))

  -- The RTC frame is built exactly when the year lies from 1900 to 2155.
  pub rtc_years :
      (t : c.DateTime) → (rtc c t ≢ none) ↔ ((y : ℕ) × (c.year t ≡ pos y) × (1900 ≤ y) × (y ≤ 2155))
  rtc_years t = (
    (λ h. (year_byte_iff (c.year t)).0 ((rtc-some t).0 h)),
    λ h. (rtc-some t).1 ((year_byte_iff (c.year t)).1 h),
  )

  module _ (r : InRange c) (t : c.DateTime) (y : ℕ) (d : c.NaiveDate) (n : c.NaiveDateTime) where
    -- The date bytes that set the clock to a time are read back as that time, for a year that the
    -- wire carries and a local time that its own calendar fields determine.
    pub read-rtc :
        c.year t ≡ pos y
        → 1900 ≤ y
        → y ≤ 2155
        → c.from_ymd_opt y (c.month t) (c.day t) ≡ some d
        → c.and_hms_opt d (c.hour t) (c.minute t) (c.second t) ≡ some n
        → c.earliest n ≡ some t
        → (p : Bytes) × (rtc c t ≡ some (generate p)) × (read_timestamp c (slice 1 6 p) ≡ some t)
    unfolding rtc read_timestamp local_datetime
    read-rtc ey lo hi ed en et =
        let year : 1900 + (y - 1900) ≡ y = omega arith in
        let month : (c.month t - 1) % 2 ^ 8 + 1 ≡ c.month t =
          omega (arith, r.month_pos t, r.month_le t) in
        let day : c.day t % 2 ^ 8 ≡ c.day t = omega (arith, r.day_le t) in
        let hour : c.hour t % 2 ^ 8 ≡ c.hour t = omega (arith, r.hour_lt t) in
        let minute : c.minute t % 2 ^ 8 ≡ c.minute t = omega (arith, r.minute_lt t) in
        let second : c.second t % 2 ^ 8 ≡ c.second t = omega (arith, r.second_lt t) in
        (
          rtc_payload c t (y - 1900),
          ground arith,
          rw (year, month, day, hour, minute, second) (rw ed (rw en (rw et))),
        )

-- The first six bytes of a number, lowest first.
abbrev pub le_bytes : ℕ → ℕ → Bytes
le_bytes zero x = []
le_bytes (suc n) x = (x % 256) ∷ le_bytes n (x / 256)

-- Every 48-bit number is read back from its six bytes, whatever follows them.
u48_le-le_bytes : (x : ℕ) (rest : Bytes) → x < 2 ^ 48 → u48_le (le_bytes 6 x ++ rest) ≡ x
unfolding u48_le
u48_le-le_bytes x rest h = omega arith

module _ (fl : Float) (c : Chrono) where
  -- In a frame of at least thirty bytes, what follows the first thirty does not matter to the
  -- measurement.
  read_measure-append :
      (f rest : Bytes) → 30 ≤ length f → read_measure fl c (f ++ rest) ≡ read_measure fl c f
  unfolding read_measure
  read_measure-append f rest h =
      let whole : ltb (length f) 30 ≡ false = ground arith in
      let more : ltb (length (f ++ rest)) 30 ≡ false = ground (arith, length-append f rest) in
      rw (whole, more, take-append 30 f rest h)
