-- ===== src/Ros2/Window.antt =====
-- The part of a scan that a node publishes: the members start_azimuth, end_azimuth, start_bin, end_bin
-- and azimuth_offset of the publishers, and the parameters of the node that they are set from. The
-- value that get_parameter gives is a field, which set_parameter replaces.
use navtechradar.Base.{ℕ, ◌+◌, ◌-◌, Bool, ◌&&◌}
use navtechradar.Base.{ltb, leb, if◌then◌else◌}
use navtechradar.Ros2.Int.{ℤ, pos, to_int, to_uint16, exceeds, is_outside}
pub mod Checks

pub record Parameters : Type 0 where
  pub start_azimuth : ℤ
  pub end_azimuth : ℤ
  pub start_bin : ℤ
  pub end_bin : ℤ
  pub azimuth_offset : ℤ

pub record Window : Type 0 where
  pub start_azimuth : ℕ
  pub end_azimuth : ℕ
  pub start_bin : ℕ
  pub end_bin : ℕ
  pub azimuth_offset : ℕ

-- The assignments of the constructors.
unfoldable pub of_parameters : Parameters → Window
of_parameters p = record {
  start_azimuth = to_uint16 p.start_azimuth;
  end_azimuth = to_uint16 p.end_azimuth;
  start_bin = to_uint16 p.start_bin;
  end_bin = to_uint16 p.end_bin;
  azimuth_offset = to_uint16 p.azimuth_offset;
}

-- A parameter and the member that is set from it. One outside 0 to `bound` is set to `fallback`, and
-- then the member stays as it was.
unfoldable pub checked : ℕ → ℕ → ℤ × ℕ → ℤ × ℕ
checked bound fallback (parameter, member) =
    let temp = to_int parameter in
    if is_outside temp bound then (pos fallback, member) else (parameter, to_uint16 temp)

-- The same of the offset, which is not tested to be negative.
unfoldable pub checked_offset : ℕ → ℤ × ℕ → ℤ × ℕ
checked_offset azimuth_samples (parameter, member) =
    let temp = to_int parameter in
    if exceeds temp azimuth_samples
    then (pos azimuth_samples, member)
    else (parameter, to_uint16 temp)

-- The checks in the order of the source.
unfoldable pub check_window : ℕ → ℕ → Parameters × Window → Parameters × Window
check_window azimuth_samples range_in_bins (p, w) =
    let offset = checked_offset azimuth_samples (p.azimuth_offset, w.azimuth_offset) in
    let first_azimuth = checked azimuth_samples 0 (p.start_azimuth, w.start_azimuth) in
    let last_azimuth = checked azimuth_samples azimuth_samples (p.end_azimuth, w.end_azimuth) in
    let first_bin = checked range_in_bins 0 (p.start_bin, w.start_bin) in
    let last_bin = checked range_in_bins range_in_bins (p.end_bin, w.end_bin) in
    (
      record {
        start_azimuth = first_azimuth.0;
        end_azimuth = last_azimuth.0;
        start_bin = first_bin.0;
        end_bin = last_bin.0;
        azimuth_offset = offset.0;
      },
      record {
        start_azimuth = first_azimuth.1;
        end_azimuth = last_azimuth.1;
        start_bin = first_bin.1;
        end_bin = last_bin.1;
        azimuth_offset = offset.1;
      },
    )

unfoldable pub adjusted_azimuth_index : Window → ℕ → ℕ → ℕ
adjusted_azimuth_index w azimuth_samples azimuth_index =
    let adjusted = azimuth_index + w.azimuth_offset in
    if leb azimuth_samples adjusted then adjusted - azimuth_samples else adjusted

abbrev pub has_azimuth : Window → ℕ → Bool
has_azimuth w azimuth_index = leb w.start_azimuth azimuth_index && ltb azimuth_index w.end_azimuth

abbrev pub has_bin : Window → ℕ → Bool
has_bin w bin_index = leb w.start_bin bin_index && ltb bin_index w.end_bin
