-- ===== src/Agent/Status/Fresh.antt =====
-- When a reading counts as fresh.
use btwattch2_rs.Prelude.{
  ℕ, ◌-◌, ◌*◌, ◌≤◌, ◌≡◌, ◌↔◌, ◌⊎◌, refl, arith, max, leb, true, Option, none, some,
}
use btwattch2_rs.Agent.Status.{AgentStats, Sample, reading, within, stale_after, second}

module _ {M : Type 0} where
  within_iff :
      (s : AgentStats M) (now : ℕ) (o : Option (Sample M))
      → (within s now o ≡ true) ↔ (
          (x : Sample M) × (o ≡ some x)
          × ((now - x.at ≤ 3 * s.interval) ⊎ (now - x.at ≤ 5 * second)))
  unfolding within stale_after
  within_iff s now none = ((λ h. absurd (cc)), λ h. ground arith)
  within_iff s now (some x) = ((λ h. (x, refl, side (ground arith))), λ h. fits h.1 h.2)
    where
      side :
          now - x.at ≤ max (s.interval * 3) (5 * second)
          → (now - x.at ≤ 3 * s.interval) ⊎ (now - x.at ≤ 5 * second)
      side h = grind arith

      fits :
          {y : Sample M}
          → some x ≡ some y
          → (now - y.at ≤ 3 * s.interval) ⊎ (now - y.at ≤ 5 * second)
          → leb (now - x.at) (max (s.interval * 3) (5 * second)) ≡ true
      fits e h = ground arith

  -- A reading is fresh exactly when the link is up and the last sample is no older than three
  -- intervals, or than five seconds.
  pub fresh_iff :
      (s : AgentStats M) (now : ℕ)
      → ((reading now s).fresh ≡ true) ↔ (
          (s.connected ≡ true)
          × (x : Sample M) × (s.latest ≡ some x)
          × ((now - x.at ≤ 3 * s.interval) ⊎ (now - x.at ≤ 5 * second)))
  unfolding reading
  fresh_iff s now = (
    (λ h. let (x, e, d) = (within_iff s now s.latest).0 (ground arith) in (ground arith, x, e, d)),
    λ h. let w = (within_iff s now s.latest).1 (h.1, h.2, h.3) in rw (h.0, w),
  )
