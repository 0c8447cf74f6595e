-- ===== src/Ros2/BScan/Runs.antt =====
-- Runs of B_scan_colossus_publisher: after one configuration, and after a second.
use navtechradar.Base.{
  ℕ, ◌+◌, ◌*◌, ◌<◌, ◌≡◌, refl, ap, ◌∙◌, arith, List, [], ◌∷◌, Option, some, ◌>>=◌,
}
use navtechradar.Base.{length, replicate, All, >>=-some, length-append, length-replicate}
use navtechradar.RadarClient.{FftReport, ConfigurationReport}
use navtechradar.RadarClient.Requests.{start_fft_data-wire}
use navtechradar.Ros2.BScan.{Publisher, run_fft, configuration_data_handler}
use navtechradar.Ros2.BScan.Images.{
  IsFitting, IsReady, IsGrown, turn_count, fft_data_handler-IsReady, fft_data_handler-IsGrown,
}

configuration_data_handler-IsGrown :
    (answer : Option ℕ) (c : ConfigurationReport) (s : Publisher)
    → IsReady s
    → c.azimuth_samples ≡ s.azimuth_samples
    → c.range_in_bins ≡ s.range_in_bins
    → 0 < s.azimuth_samples * s.range_in_bins
    → (t : Publisher) × (configuration_data_handler answer c s ≡ some t)
      × IsGrown t
      × (t.azimuth_samples ≡ s.azimuth_samples)
      × (t.range_in_bins ≡ s.range_in_bins)
      × (t.images ≡ s.images)
unfolding configuration_data_handler
configuration_data_handler-IsGrown answer c s h en er some_bins =
    let area : c.azimuth_samples * c.range_in_bins ≡ s.azimuth_samples * s.range_in_bins =
      rw (en, er) refl in
    let zeros = replicate {A = ℕ} (c.azimuth_samples * c.range_in_bins) 0 in
    let longer = length-append s.intensity_values zeros in
    let count : length zeros ≡ c.azimuth_samples * c.range_in_bins =
      length-replicate (c.azimuth_samples * c.range_in_bins) 0 in
    (
      _,
      >>=-some _ (start_fft_data-wire answer s.radar_client),
      record {
        sized = record {
          small = rw en h.sized.small;
          settled = rw en h.sized.settled;
          filled = omega (arith, longer, count);
        };
        more = omega (arith, longer, count, area, h.exact);
      },
      en,
      er,
      refl,
    )

module _ (azimuth_index : ℕ → ℕ → ℕ) where
  refit :
      (n n' r r' : ℕ) (ffts : List FftReport)
      → n' ≡ n
      → r' ≡ r
      → All (IsFitting azimuth_index n r) ffts
      → All (IsFitting azimuth_index n' r') ffts
  refit n n' r r' ffts en er h = rw (en, er) h

  -- From a state with one value for each bin of the scan, and an offset that is its parameter and at most
  -- a turn, messages of any azimuths of the scan, none with more bins than it, are all handled without a
  -- write outside the vector. One image is published for each that ends a rotation, no other, and the
  -- state is again of that kind.
  pub run_fft-IsReady :
      (ffts : List FftReport) (s : Publisher)
      → IsReady s
      → All (IsFitting azimuth_index s.azimuth_samples s.range_in_bins) ffts
      → (t : Publisher) × (run_fft azimuth_index ffts s ≡ some t)
        × IsReady t
        × (length t.images ≡ length s.images + turn_count s.rotation.last_azimuth ffts)
  unfolding run_fft
  run_fft-IsReady [] s h fits = (s, refl, h, omega arith)
  run_fft-IsReady (fft ∷ ffts) s h fits =
      let (next, e, ready, moves, count) = fft_data_handler-IsReady azimuth_index fft s fits.0 h in
      let (t, et, rt, total) =
        run_fft-IsReady ffts next ready (refit _ _ _ _ ffts moves.0 moves.1 fits.1) in
      let from : turn_count next.rotation.last_azimuth ffts ≡ turn_count fft.azimuth ffts =
        ap (λ (k : ℕ). turn_count k ffts) moves.2 in
      (t, >>=-some _ e ∙ et, rt, omega (arith, count, total, from))

  run_fft-IsGrown :
      (ffts : List FftReport) (s : Publisher)
      → IsGrown s
      → All (IsFitting azimuth_index s.azimuth_samples s.range_in_bins) ffts
      → (t : Publisher) × (run_fft azimuth_index ffts s ≡ some t)
        × IsGrown t
        × (t.images ≡ s.images)
  unfolding run_fft
  run_fft-IsGrown [] s h fits = (s, refl, h, refl)
  run_fft-IsGrown (fft ∷ ffts) s h fits =
      let (next, e, grown, moves, same) = fft_data_handler-IsGrown azimuth_index fft s fits.0 h in
      let (t, et, gt, same') =
        run_fft-IsGrown ffts next grown (refit _ _ _ _ ffts moves.0 moves.1 fits.1) in
      (t, >>=-some _ e ∙ et, gt, same' ∙ same)

  -- A second configuration with the same scan stops the images: from a state with fewer than 2^16
  -- azimuths, one value for each bin of the scan, and an offset that is its parameter, read as an int, and
  -- at most a turn, the handler of a configuration
  -- that gives the numbers of azimuths and bins that are already set, neither of them 0, and then the
  -- handlers of messages of any azimuths of the scan, none with more bins than it, return, and no image
  -- is published, however often the radar turns round.
  pub run_fft-reconfigured :
      (answer : Option ℕ) (c : ConfigurationReport) (ffts : List FftReport) (s : Publisher)
      → IsReady s
      → c.azimuth_samples ≡ s.azimuth_samples
      → c.range_in_bins ≡ s.range_in_bins
      → 0 < s.azimuth_samples * s.range_in_bins
      → All (IsFitting azimuth_index s.azimuth_samples s.range_in_bins) ffts
      → (t : Publisher) × ((configuration_data_handler answer c s >>= run_fft azimuth_index ffts)
          ≡ some t)
        × (t.images ≡ s.images)
  run_fft-reconfigured answer c ffts s h en er some_bins fits =
      let (next, e, grown, en', er', same) =
        configuration_data_handler-IsGrown answer c s h en er some_bins in
      let (t, et, gt, same') = run_fft-IsGrown ffts next grown (refit _ _ _ _ ffts en' er' fits) in
      (t, >>=-some _ e ∙ et, same' ∙ same)
