-- ===== src/Cli/Values/Ranges.antt =====
-- The ranges of an interval and of a socket mode.
use btwattch2_rs.Prelude.{
  ℕ, ◌*◌, ◌≤◌, ◌<◌, ◌≡◌, refl, arith, ◌==◌, ==_iff, Bool, true, false, Result, ok, err, ◌>>=◌,
  ok_or, all_below, all_below_sound, bind-ok,
}
use btwattch2_rs.Prelude.Text.{Text, trim}
use btwattch2_rs.Agent.Status.{AgentStats, stale_after, second}
use btwattch2_rs.Cli.Foreign.{Foreign}
use btwattch2_rs.Cli.Values.{
  expected_duration, out_of_range, min_interval, max_interval, in_bounds, number_and_scale,
  parse_interval, SocketModeError, parse_socket_mode, display_socket_mode,
}

abbrev same_mode : Result SocketModeError ℕ → ℕ → Bool
same_mode (ok m) n = m == n
same_mode (err e) n = false

same_mode_sound : (r : Result SocketModeError ℕ) (n : ℕ) → same_mode r n ≡ true → r ≡ ok n
same_mode_sound (ok m) n h = rw ((==_iff m n).0 h) refl
same_mode_sound (err e) n h = absurd (cc)

mode_table : all_below 512 (λ x. same_mode (parse_socket_mode (display_socket_mode x)) x) ≡ true
unfolding all_below parse_socket_mode display_socket_mode
mode_table = refl

-- A mode of permission bits is read back from the text that it is shown as.
parse-display_socket_mode :
    (bits : ℕ) → bits ≤ 511 → parse_socket_mode (display_socket_mode bits) ≡ ok bits
parse-display_socket_mode bits h =
    same_mode_sound _ bits (all_below_sound 512 _ bits (omega arith) mode_table)

module _ (f : Foreign) where
  in_bounds-ok : (d i : ℕ) → in_bounds f d ≡ ok i → (min_interval ≤ i) × (i ≤ max_interval)
  unfolding in_bounds
  in_bounds-ok d i h = ground arith

  parse_interval-ok :
      (s : Text) (i : ℕ) → parse_interval f s ≡ ok i → (min_interval ≤ i) × (i ≤ max_interval)
  unfolding parse_interval
  parse_interval-ok s i h =
      let (number, scale) = number_and_scale f (trim s) in
      let in_nanoseconds =
        λ (seconds : f.F64). ok_or (f.try_from_secs_f64 (f.mul seconds scale)) out_of_range in
      let (seconds, parsed, rest) =
        bind-ok (ok_or (f.parse_f64 (trim number)) expected_duration)
          (λ seconds. in_nanoseconds seconds >>= in_bounds f) i h in
      let (duration, converted, bounded) = bind-ok (in_nanoseconds seconds) (in_bounds f) i rest in
      in_bounds-ok duration i bounded

  -- The polling period and the freshness window that come from an accepted interval: the period is
  -- not zero, and the window is from five seconds to three days, which a `Duration` holds.
  pub parse_interval-stale_after :
      {M : Type 0} (s : Text) (i : ℕ) (stats : AgentStats M)
      → parse_interval f s ≡ ok i
      → stats.interval ≡ i
      → (0 < stats.interval)
        × (5 * second ≤ stale_after stats)
        × (stale_after stats ≤ 3 * 86400 * second)
  unfolding stale_after
  parse_interval-stale_after s i stats h e = let b = parse_interval-ok s i h in ground (arith, b)
