-- ===== src/Ros2/BScan.antt =====
-- ros2/src/nav_ros/src/b_scan_publisher.h and .cpp: the class B_scan_colossus_publisher, which publishes
-- an image of a rotation, with a row of bins for each azimuth. What is published on a topic is a list. A
-- write outside the vector is none. The product azimuth_samples * range_in_bins is taken to fit an int.
-- The vector that std::move takes the values from is left empty. The constants frame_id and encoding
-- are left out.
use navtechradar.Base.{ℕ, suc, ◌+◌, ◌*◌, Bool, false, not, List, [], ◌∷◌, ◌++◌, Option, some, ◌>>=◌}
use navtechradar.Base.{◌==◌, length, replicate, set_elem?, if◌then◌else◌}
use navtechradar.RadarClient.{
  Radar, FftReport, ConfigurationReport, Report, fft_report, configuration_report, start_fft_data,
}
use navtechradar.Ros2.Window.{
  Parameters, Window, of_parameters, check_window, adjusted_azimuth_index, has_azimuth, has_bin,
}
use navtechradar.Ros2.Rotation.{Rotation, at_rest, turns, seen, is_config_due}
pub mod Rows
pub mod Images
pub mod Runs

-- sensor_msgs::msg::Image, with the stamp of its header. `sec` is the word of an int32_t.
pub record Image : Type 0 where
  pub sec : ℕ
  pub nanosec : ℕ
  pub height : ℕ
  pub width : ℕ
  pub is_bigendian : Bool
  pub step : ℕ
  pub image_data : List ℕ

pub record Publisher : Type 0 where
  pub parameters : Parameters
  pub window : Window
  pub intensity_values : List ℕ
  pub azimuth_samples : ℕ
  pub range_in_bins : ℕ
  pub buffer_length : ℕ
  pub rotation : Rotation
  pub images : List Image
  pub radar_client : Radar

-- The constructor, with the values of the parameters, and set_radar_client.
unfoldable pub new : Parameters → Radar → Publisher
new parameters radar = record {
  parameters = parameters;
  window = of_parameters parameters;
  intensity_values = [];
  azimuth_samples = 0;
  range_in_bins = 0;
  buffer_length = 0;
  rotation = at_rest;
  images = [];
  radar_client = radar;
}

-- The block that is run when the configuration is due. Nothing is published.
unfoldable pub check_config : Publisher → Publisher
check_config s =
    if is_config_due s.rotation
    then (let checked = check_window s.azimuth_samples s.range_in_bins (s.parameters, s.window) in
        record s {
          parameters = checked.0;
          window = checked.1;
          rotation = record s.rotation { rotation_count = 0 };
        })
    else s

unfoldable pub image_data_handler : FftReport → Publisher → Publisher
image_data_handler fft s =
    if not (length s.intensity_values == s.azimuth_samples * s.range_in_bins) then s else record s {
      images =
          s.images
          ++ (record {
            sec = fft.ntp_seconds;
            nanosec = fft.ntp_split_seconds;
            height = s.azimuth_samples;
            width = s.range_in_bins;
            is_bigendian = false;
            step = s.range_in_bins;
            image_data = s.intensity_values;
          }
              ∷ []);
      intensity_values = [];
    }

-- The two loops that push back a 0 for each bin of each azimuth.
abbrev pub push_zeros : Publisher → Publisher
push_zeros s = record s {
  intensity_values = s.intensity_values ++ replicate (s.azimuth_samples * s.range_in_bins) 0;
}

-- A loop that writes one value after the other, from a place on.
unfoldable pub write_row : ℕ → List ℕ → List ℕ → Option (List ℕ)
write_row place [] values = some values
write_row place (v ∷ row) values = do
  next ← set_elem? values place v
  write_row (suc place) row next

-- What the first loop writes of the data, from the bin y on: 0 for a bin outside the window.
abbrev pub windowed : Window → ℕ → List ℕ → List ℕ
windowed w y [] = []
windowed w y (byte ∷ bytes) = (if has_bin w y then byte else 0) ∷ windowed w (suc y) bytes

-- The test of the rotation.
unfoldable pub end_rotation : FftReport → Publisher → Publisher
end_rotation fft s =
    let published =
      if turns s.rotation fft.azimuth then push_zeros (image_data_handler fft s) else s in
    record published { rotation = seen fft.azimuth s.rotation }

-- The argument is static_cast<int>(angle / (360.0 / azimuth_samples)), of an angle that is not negative.
module _ (azimuth_index : ℕ → ℕ → ℕ) where
  -- What is written of a message: its data, or a 0 for each bin if its azimuth is not in the window.
  abbrev pub row_of : FftReport → Publisher → List ℕ
  row_of fft s =
      if has_azimuth s.window (azimuth_index fft.angle s.azimuth_samples)
      then windowed s.window 0 fft.fft_bytes
      else replicate s.range_in_bins 0

  -- The part of the handler up to the test of the rotation.
  unfoldable pub collect : FftReport → Publisher → Option Publisher
  collect fft s = do
    let i = azimuth_index fft.angle s.azimuth_samples
    let adjusted = adjusted_azimuth_index s.window s.azimuth_samples i
    values ← write_row (adjusted * s.range_in_bins) (row_of fft s) s.intensity_values
    some (record s { intensity_values = values })

  unfoldable pub fft_data_handler : FftReport → Publisher → Option Publisher
  fft_data_handler fft s = do
    collected ← collect fft s
    some (check_config (end_rotation fft collected))

  -- The handlers of the FFT messages, in order.
  unfoldable pub run_fft : List FftReport → Publisher → Option Publisher
  run_fft [] s = some s
  run_fft (fft ∷ ffts) s = do next ← fft_data_handler fft s; run_fft ffts next

-- The first argument is the errno of the system's send, if it failed.
unfoldable pub configuration_data_handler :
    Option ℕ → ConfigurationReport → Publisher → Option Publisher
configuration_data_handler answer c s = do
  let sized : Publisher = record s {
    azimuth_samples = c.azimuth_samples;
    range_in_bins = c.range_in_bins;
    buffer_length = c.azimuth_samples * c.range_in_bins;
  }
  radar ← start_fft_data answer s.radar_client
  some (record (push_zeros sized) { radar_client = radar })
