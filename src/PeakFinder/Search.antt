-- ===== src/PeakFinder/Search.antt =====
-- Peak_finder::find_peak_bin and find_peaks of cpp_17/navigation/peak_finder.cpp. An index outside the
-- data is undefined, which is none.
use navtechradar.Base.{
  ℕ, zero, suc, ◌+◌, ◌-◌, ◌%◌, ◌^◌, Bool, true, false, ◌||◌, List, [], ◌∷◌, ◌++◌, Option, none,
  some, ◌>>=◌,
}
use navtechradar.Base.{ltb, leb, ◌==◌, length, get_elem?, if◌then◌else◌}
use navtechradar.PeakFinder.Arithmetic.{Doubles}
use navtechradar.PeakFinder.Resolve.{peak_resolve}

module _ (d : Doubles) where
  -- data[bin] > data[bin + 1]
  abbrev pub falls_at : List ℕ → ℕ → Option Bool
  falls_at bins bin = do a ← get_elem? bins bin; b ← get_elem? bins (suc bin); some (d.less b a)

  -- data[bin] > threshold && data[bin + 1] < data[bin]
  abbrev pub peaks_at : ℕ → List ℕ → ℕ → Option Bool
  peaks_at threshold bins bin = do
    a ← get_elem? bins bin
    if d.less threshold a then falls_at bins bin else some false

  -- The for loop with `n` rounds to go, and what it leaves in awaiting_rise.
  unfoldable pub scan_bins : ℕ → List ℕ → ℕ → ℕ → ℕ → Bool → Option (ℕ × Bool)
  scan_bins threshold bins end_bin zero peak_bin awaiting_rise = some (end_bin, awaiting_rise)
  scan_bins threshold bins end_bin (suc n) peak_bin awaiting_rise = do
    still_falls ← if awaiting_rise then falls_at bins peak_bin else some false
    found ← if still_falls then some false else peaks_at threshold bins peak_bin
    let rest = scan_bins threshold bins end_bin n (suc peak_bin) still_falls
    if found then some (peak_bin, true) else rest

  -- The loop ends at end_bin - bins_to_operate_upon. Its counter has 16 bits, as end_bin has, and so
  -- does not wrap.
  unfoldable pub find_peak_bin : ℕ → List ℕ → ℕ → ℕ → ℕ → Bool → Option (ℕ × Bool)
  find_peak_bin threshold bins start_bin end_bin bins_to_operate_upon awaiting_rise =
      if ltb end_bin (start_bin + bins_to_operate_upon)
      then some (end_bin, awaiting_rise)
      else scan_bins threshold bins end_bin (suc (end_bin - bins_to_operate_upon - start_bin))
          start_bin awaiting_rise

-- Target
pub record Target : Type 0 where
  pub range : ℕ
  pub power : ℕ

-- What find_peaks() reads of the finder and of its configuration. The range_gain, the range_offset and
-- the resolution are floats, which become doubles where they meet one.
pub record Settings : Type 0 where
  pub threshold : ℕ
  pub bins_to_operate_on : ℕ
  pub min_bin_to_operate_on : ℕ
  pub max_peaks_per_azimuth : ℕ
  pub range_in_bins : ℕ
  pub range_gain : ℕ
  pub range_offset : ℕ
  pub resolution : ℕ

module _ (d : Doubles) (s : Settings) where
  abbrev pub minimum_range : ℕ
  minimum_range = d.of_float (d.times_float s.bins_to_operate_on s.resolution)

  abbrev pub maximum_range : ℕ
  maximum_range = d.of_float (d.times_float s.range_in_bins s.resolution)

  abbrev pub range_of : ℕ → ℕ
  range_of resolved_bin =
      d.plus (d.times (d.times resolved_bin (d.of_float s.range_gain)) (d.of_float s.resolution))
        (d.of_float s.range_offset)

  abbrev pub is_outside : ℕ → Bool
  is_outside range = d.is_inf range || d.less range minimum_range || d.less maximum_range range

  -- A peak below range_in_bins: the targets with it, or `none` in the pair where the range is outside.
  unfoldable pub target_at : List ℕ → ℕ → Option (Option Target)
  target_at bins peak_bin = do
    resolved_bin ← peak_resolve d bins peak_bin s.bins_to_operate_on
    power ← get_elem? bins peak_bin
    let range = range_of resolved_bin
    some (if is_outside range then none else some (record { range = range; power = power }))

  -- The targets after a round that found a peak, and whether the loop breaks.
  unfoldable pub after_target : List Target → Option Target → List Target × Bool
  after_target targets none = (targets, false)
  after_target targets (some target) =
      (targets ++ (target ∷ []), leb s.max_peaks_per_azimuth (suc (length targets)))

  -- The while loop, with the targets that were found. `none` is undefined, or too few rounds.
  unfoldable pub peaks_loop : ℕ → List ℕ → ℕ → Bool → List Target → Option (List Target × Bool)
  peaks_loop zero bins start_bin awaiting_rise targets = none
  peaks_loop (suc fuel) bins start_bin awaiting_rise targets = do
    (peak_bin, awaiting) ←
        find_peak_bin d s.threshold bins start_bin s.range_in_bins s.bins_to_operate_on
          awaiting_rise
    let next = (peak_bin + s.bins_to_operate_on) % 2 ^ 16
    let found = target_at bins peak_bin >>= λ o. elim (after_target targets o).1 [
      | true ↦ some ((after_target targets o).0, awaiting)
      | false ↦ peaks_loop fuel bins next awaiting (after_target targets o).0
    ]
    if ltb peak_bin s.range_in_bins then found else some (targets, awaiting)

  -- Each round moves the start on by at least a bin, so one more than the bins is enough.
  unfoldable pub targets_of : List ℕ → Option (List Target × Bool)
  targets_of bins =
      if s.range_in_bins == 0
      then some ([], false)
      else peaks_loop (suc s.range_in_bins) bins s.min_bin_to_operate_on false []
