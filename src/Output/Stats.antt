-- ===== src/Output/Stats.antt =====
-- src/output.rs, `Stats`: running statistics of a stream. An instant is a number of nanoseconds.
pub mod Summary
use btwattch2_rs.Prelude.{
  ℕ, ◌+◌, ◌-◌, ◌/◌, ◌%◌, ◌^◌, ◌==◌, if◌then◌else◌, List, [], ◌∷◌, ◌++◌, map, flatten, Option, none,
  some,
}
use btwattch2_rs.Prelude.Text.{Text, codes}
use btwattch2_rs.Prelude.Decimal.{decimal}
use btwattch2_rs.Chrono.{Chrono}
use btwattch2_rs.Float.{Float}
use btwattch2_rs.Connection.Measure.{Measurement}
use btwattch2_rs.Output.{ChannelSpec, channels}
use btwattch2_rs.Output.Printer.{Line, diagnostic}

abbrev nanos : ℕ
nanos = 1_000_000_000

module _ (fl : Float) where
  pub record Channel : Type 0 where
    pub min : fl.F64
    pub max : fl.F64
    pub sum : fl.F64

  unfoldable pub default_channel : Channel
  default_channel = record { min = fl.infinity; max = fl.neg_infinity; sum = fl.of_u64 0 }

  unfoldable pub record_value : fl.F64 → Channel → Channel
  record_value value s = record {
    min = fl.minimum s.min value;
    max = fl.maximum s.max value;
    sum = fl.add s.sum value;
  }

  -- `Duration::as_secs_f64`.
  unfoldable pub as_secs_f64 : ℕ → fl.F64
  as_secs_f64 d = fl.add (fl.of_u64 (d / nanos)) (fl.div (fl.of_u64 (d % nanos)) (fl.of_u64 nanos))

  pub record Stats : Type 0 where
    pub count : ℕ
    pub channels : List Channel
    pub last_sample : Option ℕ
    pub energy_wh : fl.F64

  unfoldable pub new_stats : Stats
  unfolding default_channel
  new_stats = record {
    count = 0;
    channels = default_channel ∷ default_channel ∷ default_channel ∷ default_channel ∷ [];
    last_sample = none;
    energy_wh = fl.of_u64 0;
  }

module _ (fl : Float) (c : Chrono) where
  -- The energy of a gap at the wattage of the sample that ends it.
  unfoldable pub gap_energy : Measurement fl c → ℕ → ℕ → fl.F64
  unfolding as_secs_f64
  gap_energy m last now = fl.div (fl.mul m.wattage (as_secs_f64 fl (now - last))) (fl.of_u64 3600)

  unfoldable pub record_channels :
      Measurement fl c → List (ChannelSpec fl c) → List (Channel fl) → List (Channel fl)
  unfolding record_value
  record_channels m [] ss = ss
  record_channels m (spec ∷ specs) [] = []
  record_channels m (spec ∷ specs) (s ∷ ss) =
      record_value fl (spec.2 m) s ∷ record_channels m specs ss

  -- The session energy so far is the new state's `energy_wh`.
  unfoldable pub record_stats : ℕ → Measurement fl c → Stats fl → Stats fl
  unfolding gap_energy record_channels
  record_stats now m s = record {
    count = (s.count + 1) % 2 ^ 64;
    channels = record_channels m (btwattch2_rs.Output.channels fl c) s.channels;
    last_sample = some now;
    energy_wh = elim s.last_sample [
      | some last ↦ fl.add s.energy_wh (gap_energy m last now)
      | none ↦ s.energy_wh
    ];
  }

  summary_lines : fl.F64 → List (ChannelSpec fl c) → List (Channel fl) → List Line
  summary_lines n [] ss = []
  summary_lines n (spec ∷ specs) [] = []
  summary_lines n (spec ∷ specs) (s ∷ ss) =
      diagnostic (
        (spec.0)
        ++ codes ": min="
        ++ fl.fixed 3 s.min
        ++ codes "  max="
        ++ fl.fixed 3 s.max
        ++ codes "  avg="
        ++ fl.fixed 3 (fl.div s.sum n))
      ∷ summary_lines n specs ss

  unfoldable pub print_summary : Stats fl → List Line
  unfolding summary_lines
  print_summary s =
      if s.count == 0
      then []
      else diagnostic (codes "--- summary (" ++ decimal s.count ++ codes "-sample run) ---")
          ∷ summary_lines (fl.of_u64 s.count) (btwattch2_rs.Output.channels fl c) s.channels
        ++ diagnostic (codes "energy: " ++ fl.fixed 3 s.energy_wh ++ codes " Wh") ∷ []
