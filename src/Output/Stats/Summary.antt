-- ===== src/Output/Stats/Summary.antt =====
-- What a run's statistics are of the list of its samples.
use btwattch2_rs.Prelude.{
  ℕ, ◌+◌, ◌%◌, ◌^◌, ◌<◌, ◌≡◌, refl, ap, ◌∙◌, arith, List, [], ◌∷◌, map, length, some,
}
use mathlib.Core.Path.{fun_ext}
use btwattch2_rs.Chrono.{Chrono}
use btwattch2_rs.Float.{Float}
use btwattch2_rs.Connection.Measure.{Measurement}
use btwattch2_rs.Output.{ChannelSpec, channels}
use btwattch2_rs.Output.Stats.{
  Channel, Stats, new_stats, default_channel, record_value, record_channels, record_stats,
  gap_energy,
}

abbrev pub fold_left {ℓ κ} : {A : Type ℓ} {B : Type κ} → (B → A → B) → B → List A → B
fold_left f b [] = b
fold_left f b (x ∷ xs) = fold_left f (f b x) xs

module _ (fl : Float) where
  -- The extremes and the sum of the values a channel took.
  unfoldable pub channel_summary : List fl.F64 → Channel fl
  channel_summary values = record {
    min = fold_left fl.minimum fl.infinity values;
    max = fold_left fl.maximum fl.neg_infinity values;
    sum = fold_left fl.add (fl.of_u64 0) values;
  }

  abbrev record_values : List fl.F64 → Channel fl → Channel fl
  record_values values s = fold_left (λ s v. record_value fl v s) s values

  record_values_lem :
      (values : List fl.F64) (s : Channel fl)
      → record_values values s ≡ record {
        min = fold_left fl.minimum s.min values;
        max = fold_left fl.maximum s.max values;
        sum = fold_left fl.add s.sum values;
      }
  unfolding record_value
  record_values_lem [] s = refl
  record_values_lem (v ∷ values) s = record_values_lem values (record_value fl v s)

module _ (fl : Float) (c : Chrono) where
  -- A sample is a measurement and the instant it came at.
  abbrev pub Samples : Type 0
  Samples = List (ℕ × Measurement fl c)

  -- The state after each sample has been recorded.
  unfoldable pub record_all : Samples → Stats fl → Stats fl
  record_all [] s = s
  record_all (x ∷ xs) s = record_all xs (record_stats fl c (x.0) (x.1) s)

  -- One energy for each pair of neighbours.
  gap_energies : ℕ → Samples → List fl.F64
  gap_energies last [] = []
  gap_energies last (x ∷ xs) = gap_energy fl c (x.1) last (x.0) ∷ gap_energies (x.0) xs

  unfoldable pub energies : Samples → List fl.F64
  unfolding gap_energies
  energies [] = []
  energies (x ∷ xs) = gap_energies (x.0) xs

  unfoldable pub values_of : ChannelSpec fl c → Samples → List fl.F64
  values_of spec xs = map (λ (x : ℕ × Measurement fl c). spec.2 (x.1)) xs

  record_all-count :
      (xs : Samples) (s : Stats fl)
      → s.count < 2 ^ 64
      → (record_all xs s).count ≡ (s.count + length xs) % 2 ^ 64
  unfolding record_all record_stats
  record_all-count [] s h = omega arith
  record_all-count (x ∷ xs) s h =
      omega (arith, record_all-count xs (record_stats fl c (x.0) (x.1) s) (omega arith))

  record_channels-map :
      (m : Measurement fl c) (f : ChannelSpec fl c → Channel fl) (specs : List (ChannelSpec fl c))
      → record_channels fl c m specs (map f specs)
        ≡ map (λ (spec : ChannelSpec fl c). record_value fl (spec.2 m) (f spec)) specs
  unfolding record_channels
  record_channels-map m f [] = refl
  record_channels-map m f (spec ∷ specs) = rw (record_channels-map m f specs)

  record_all-channels :
      (xs : Samples) (s : Stats fl) (f : ChannelSpec fl c → Channel fl)
      → s.channels ≡ map f (channels fl c)
      → (record_all xs s).channels
        ≡ map
            (λ (spec : ChannelSpec fl c). record_values fl (values_of spec xs) (f spec))
            (channels fl c)
  unfolding record_all record_stats values_of
  record_all-channels [] s f h = h
  record_all-channels (x ∷ xs) s f h =
      record_all-channels xs (record_stats fl c (x.0) (x.1) s)
        (λ spec. record_value fl (spec.2 (x.1)) (f spec))
        (ap (record_channels fl c (x.1) (channels fl c)) h
          ∙ record_channels-map (x.1) f (channels fl c))

  record_all-energy :
      (xs : Samples) (s : Stats fl) (last : ℕ)
      → s.last_sample ≡ some last
      → (record_all xs s).energy_wh ≡ fold_left fl.add s.energy_wh (gap_energies last xs)
  unfolding record_all record_stats gap_energies
  record_all-energy [] s last h = refl
  record_all-energy (x ∷ xs) s last h =
      record_all-energy xs (record_stats fl c (x.0) (x.1) s) (x.0) refl ∙ rw h

  record_all-energies :
      (xs : Samples)
      → (record_all xs (new_stats fl)).energy_wh ≡ fold_left fl.add (fl.of_u64 0) (energies xs)
  unfolding record_all record_stats energies new_stats
  record_all-energies [] = refl
  record_all-energies (x ∷ xs) =
      record_all-energy xs (record_stats fl c (x.0) (x.1) (new_stats fl)) (x.0) refl

  -- The running statistics of a stream are those of the list of its samples: their number modulo
  -- 2^64, the least, the greatest and the sum of each channel's values, and the sum of the energies
  -- of the gaps between neighbours, each at the wattage of the later sample.
  pub record_all-summary :
      (xs : Samples)
      → ((record_all xs (new_stats fl)).count ≡ length xs % 2 ^ 64)
        × ((record_all xs (new_stats fl)).channels
            ≡ map (λ spec. channel_summary fl (values_of spec xs)) (channels fl c))
        × ((record_all xs (new_stats fl)).energy_wh ≡ fold_left fl.add (fl.of_u64 0) (energies xs))
  unfolding new_stats channel_summary default_channel
  record_all-summary xs = (
    omega (arith, record_all-count xs (new_stats fl) (omega arith)),
    record_all-channels xs (new_stats fl) (λ spec. default_channel fl) refl
        ∙ ap (λ g. map g (channels fl c))
            (fun_ext (λ spec. record_values_lem fl (values_of spec xs) (default_channel fl))),
    record_all-energies xs,
  )
