-- ===== src/Ros2/Tuning.antt =====
-- The members of Navigation_mode_point_cloud_publisher that say how peaks are found, the parameters they
-- are set from, and the second half of check_config_publish of
-- ros2/src/nav_ros/src/navigation_mode_point_cloud_publisher.cpp, which checks these parameters.
use navtechradar.Base.{ℕ, ◌/◌, Bool, true, false, ◌||◌}
use navtechradar.Base.{if◌then◌else◌}
use navtechradar.Ros2.Int.{ℤ, pos, wrap, to_int, to_uint16, is_outside, differs}
pub mod Settles

-- Doubles are bit patterns. 63.0 is what the source makes of 255 / 4.
pub record Thresholds : Type 0 where
  -- a != b
  pub differ : ℕ → ℕ → Bool
  -- a < 0 || a > 255
  pub is_refused : ℕ → Bool

abbrev pub quarter : ℕ
quarter = 0x404F800000000000

pub record TuningParameters : Type 0 where
  pub bins_to_operate_on : ℤ
  pub min_bin : ℤ
  pub power_threshold : ℕ
  pub max_peaks_per_azimuth : ℤ

pub record Tuning : Type 0 where
  pub bins_to_operate_on : ℕ
  pub min_bin : ℕ
  pub power_threshold : ℕ
  pub max_peaks_per_azimuth : ℕ

-- The assignments of the constructor.
unfoldable pub of_parameters : TuningParameters → Tuning
of_parameters p = record {
  bins_to_operate_on = to_uint16 p.bins_to_operate_on;
  min_bin = to_uint16 p.min_bin;
  power_threshold = p.power_threshold;
  max_peaks_per_azimuth = wrap 32 p.max_peaks_per_azimuth;
}

-- A parameter, its member of `width` bits, and whether a new configuration has to be sent. Nothing is
-- done if they are the same.
unfoldable pub retuned : ℕ → ℕ → ℕ → ℤ × ℕ → (ℤ × ℕ) × Bool
retuned width bound fallback (parameter, member) =
    if differs parameter member
    then (let temp = to_int parameter in
        if is_outside temp bound
        then ((pos fallback, member), true)
        else ((parameter, wrap width temp), true))
    else ((parameter, member), false)

module _ (th : Thresholds) where
  unfoldable pub retuned_threshold : ℕ × ℕ → (ℕ × ℕ) × Bool
  retuned_threshold (parameter, member) =
      if th.differ parameter member
      then if th.is_refused parameter
        then ((quarter, member), true)
        else ((parameter, parameter), true)
      else ((parameter, member), false)

  -- The four checks, in the order of the source. The flag is update_radar_navigation_config.
  unfoldable pub check_tuning : ℕ → TuningParameters × Tuning → (TuningParameters × Tuning) × Bool
  check_tuning range_in_bins (p, m) =
      let ((bins, bins'), update_bins) =
        retuned 16 10 m.bins_to_operate_on (p.bins_to_operate_on, m.bins_to_operate_on) in
      let ((first, first'), update_first) =
        retuned 16 range_in_bins m.min_bin (p.min_bin, m.min_bin) in
      let ((threshold, threshold'), update_threshold) =
        retuned_threshold (p.power_threshold, m.power_threshold) in
      let ((peaks, peaks'), update_peaks) =
        retuned 32 5 5 (p.max_peaks_per_azimuth, m.max_peaks_per_azimuth) in
      (
        (
          record {
            bins_to_operate_on = bins;
            min_bin = first;
            power_threshold = threshold;
            max_peaks_per_azimuth = peaks;
          },
          record {
            bins_to_operate_on = bins';
            min_bin = first';
            power_threshold = threshold';
            max_peaks_per_azimuth = peaks';
          },
        ),
        ((update_bins || update_first) || update_threshold) || update_peaks,
      )
