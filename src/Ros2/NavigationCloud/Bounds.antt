-- ===== src/Ros2/NavigationCloud/Bounds.antt =====
-- What the assignment of end_bin from temp_end_azimuth does to the window.
use navtechradar.Base.{ℕ, ◌^◌, ◌≤◌, ◌<◌, ◌≡◌, refl, arith, true, false}
use navtechradar.Base.{ltb, leb}
use navtechradar.Ros2.Int.{pos, to_int, to_uint16, is_outside-pos}
use navtechradar.Ros2.Window.{Parameters, Window, check_window, has_bin}
use navtechradar.Ros2.Window.Checks.{checked-within}
use navtechradar.Ros2.NavigationCloud.{check_bounds}

module _ (azimuth_samples range_in_bins : ℕ) (p : Parameters) (w : Window) where
  -- With the same parameters, where start_bin = c and end_bin = b are within the scan and end_azimuth = a
  -- is a number of 16 bits, a bin from c and from a on but below b is in the window that the checks of
  -- Point_cloud_publisher leave, and is not in the one that those of
  -- Navigation_mode_point_cloud_publisher leave.
  pub check_bounds-has_bin :
      (a b c bin : ℕ)
      → range_in_bins < 2 ^ 16
      → to_int p.end_azimuth ≡ pos a
      → a < 2 ^ 16
      → to_int p.end_bin ≡ pos b
      → b ≤ range_in_bins
      → to_int p.start_bin ≡ pos c
      → c ≤ bin
      → bin < b
      → a ≤ bin
      → (has_bin (check_window azimuth_samples range_in_bins (p, w)).1 bin ≡ true)
        × (has_bin (check_bounds azimuth_samples range_in_bins (p, w)).1 bin ≡ false)
  unfolding check_bounds check_window
  check_bounds-has_bin a b c bin small ea la eb lb ec lc ls above =
      let first =
        checked-within range_in_bins 0 small (omega arith) p.start_bin w.start_bin c ec
          (omega arith) in
      let last =
        checked-within range_in_bins range_in_bins small (omega arith) p.end_bin w.end_bin b eb
          lb in
      let low : leb c bin ≡ true = ground arith in
      let high : ltb bin b ≡ true = ground arith in
      let out : ltb bin a ≡ false = ground arith in
      let word : to_uint16 (pos a) ≡ a = omega arith in
      (
        rw (first, last, low, high) refl,
        rw (first, eb, is_outside-pos b range_in_bins lb, ea, word, low, out) refl,
      )
