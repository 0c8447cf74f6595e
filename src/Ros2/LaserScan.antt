-- ===== src/Ros2/LaserScan.antt =====
-- ros2/src/nav_ros/src/laser_scan_publisher.h and .cpp: the class Laser_scan_publisher, which publishes
-- the first peak of every azimuth. What is published on a topic is a list. A read or a write outside a
-- vector is none. The constant frame_id of the header is left out.
use navtechradar.Base.{ℕ, zero, suc, ◌+◌, ◌-◌, min, Bool, List, [], ◌∷◌, ◌++◌, Option, some, ◌>>=◌}
use navtechradar.Base.{ltb, length, take, replicate, get_elem?, set_elem?, if◌then◌else◌}
use navtechradar.RadarClient.{
  Radar, FftReport, ConfigurationReport, Report, fft_report, configuration_report, start_fft_data,
}
use navtechradar.Ros2.Int.{ℤ, to_uint16}
use navtechradar.Ros2.Window.{
  Parameters, Window, of_parameters, check_window, adjusted_azimuth_index, has_azimuth,
}
use navtechradar.Ros2.Rotation.{Rotation, at_rest, turns, seen, is_config_due}
use navtechradar.Ros2.Configuration.{ConfigMessage, blank, config_message_of}
use navtechradar.Ros2.PointCloud.{check_threshold}
pub mod FirstPeak

-- Floating point as the node uses it. A float is its bit pattern; that of 0 is 0.
pub record Floats : Type 0 where
  -- static_cast<int>(angle / (360.0 / azimuth_samples)), of an angle that is not negative
  pub azimuth_index : ℕ → ℕ → ℕ
  -- (float)n, and (float)value of a double
  pub of_number : ℕ → ℕ
  pub narrowed : ℕ → ℕ
  -- value * n
  pub times_number : ℕ → ℕ → ℕ
  -- M_PI / 180 * 360 / azimuth_samples, and that * index
  pub increment : ℕ → ℕ
  pub angle_at : ℕ → ℕ → ℕ
  -- 1.0 / expected_rotation_rate / azimuth_samples, and 1.0 / expected_rotation_rate
  pub time_increment : ℕ → ℕ → ℕ
  pub scan_time : ℕ → ℕ

-- sensor_msgs::msg::LaserScan, with the stamp of its header. `sec` is the word of an int32_t.
pub record LaserScan : Type 0 where
  pub sec : ℕ
  pub nanosec : ℕ
  pub angle_min : ℕ
  pub angle_max : ℕ
  pub angle_increment : ℕ
  pub time_increment : ℕ
  pub scan_time : ℕ
  pub range_min : ℕ
  pub range_max : ℕ
  pub ranges : List ℕ
  pub intensities : List ℕ

pub record Publisher : Type 0 where
  pub parameters : Parameters
  pub threshold_parameter : ℤ
  pub window : Window
  pub power_threshold : ℕ
  pub range_values : List ℕ
  pub intensity_values : List ℕ
  pub azimuth_samples : ℕ
  pub bin_size : ℕ
  pub range_in_bins : ℕ
  pub expected_rotation_rate : ℕ
  pub rotation : Rotation
  pub config_message : ConfigMessage
  pub configurations : List ConfigMessage
  pub scans : List LaserScan
  pub radar_client : Radar

-- The constructor, with the values of the parameters, and set_radar_client.
unfoldable pub new : Parameters → ℤ → Radar → Publisher
new parameters threshold radar = record {
  parameters = parameters;
  threshold_parameter = threshold;
  window = of_parameters parameters;
  power_threshold = to_uint16 threshold;
  range_values = [];
  intensity_values = [];
  azimuth_samples = 0;
  bin_size = 0;
  range_in_bins = 0;
  expected_rotation_rate = 0;
  rotation = at_rest;
  config_message = blank;
  configurations = [];
  scans = [];
  radar_client = radar;
}

-- The block that is run when the configuration is due.
unfoldable pub check_config_publish : Publisher → Publisher
check_config_publish s =
    if is_config_due s.rotation
    then (let checked_window =
          check_window s.azimuth_samples s.range_in_bins (s.parameters, s.window) in
        let checked_threshold = check_threshold (s.threshold_parameter, s.power_threshold) in
        record s {
          parameters = checked_window.0;
          window = checked_window.1;
          threshold_parameter = checked_threshold.0;
          power_threshold = checked_threshold.1;
          configurations = s.configurations ++ (s.config_message ∷ []);
          rotation = record s.rotation { rotation_count = 0 };
        })
    else s

-- The for loop, with `n` rounds to go: the first bin from `bin` on whose power is above the threshold,
-- or else the bin after the last round.
unfoldable pub first_peak : ℕ → List ℕ → ℕ → ℕ → Option ℕ
first_peak threshold bytes bin zero = some bin
first_peak threshold bytes bin (suc n) = do
  power ← get_elem? bytes bin
  let rest = first_peak threshold bytes (suc bin) n
  if ltb threshold power then some bin else rest

-- vector::resize
abbrev pub resize : ℕ → List ℕ → List ℕ
resize n values = take n values ++ replicate (n - length values) 0

module _ (fl : Floats) where
  abbrev pub scan_of : FftReport → Publisher → LaserScan
  scan_of fft s = record {
    sec = fft.ntp_seconds;
    nanosec = fft.ntp_split_seconds;
    angle_min = fl.angle_at s.azimuth_samples s.window.start_azimuth;
    angle_max = fl.angle_at s.azimuth_samples s.window.end_azimuth;
    angle_increment = fl.increment s.azimuth_samples;
    time_increment = fl.time_increment s.expected_rotation_rate s.azimuth_samples;
    scan_time = fl.scan_time s.expected_rotation_rate;
    range_min = fl.times_number s.bin_size 1;
    range_max = fl.times_number s.bin_size s.range_in_bins;
    ranges = s.range_values;
    intensities = s.intensity_values;
  }

  unfoldable pub publish_laser_scan : FftReport → Publisher → Publisher
  publish_laser_scan fft s = record s { scans = s.scans ++ (scan_of fft s ∷ []) }

  -- The part of the handler up to the test of the rotation. The power of the bin is read whether or not
  -- the loop has found a peak.
  unfoldable pub collect : FftReport → Publisher → Option Publisher
  collect fft s = do
    let start = s.window.start_bin
    let rounds = min (length fft.fft_bytes) s.window.end_bin - start
    bin ← first_peak s.power_threshold fft.fft_bytes start rounds
    power ← get_elem? fft.fft_bytes bin
    let azimuth_index = fl.azimuth_index fft.angle s.azimuth_samples
    let adjusted = adjusted_azimuth_index s.window s.azimuth_samples azimuth_index
    let taken = has_azimuth s.window azimuth_index
    ranges ← set_elem? s.range_values adjusted (if taken then fl.times_number s.bin_size bin else 0)
    intensities ← set_elem? s.intensity_values adjusted (if taken then fl.of_number power else 0)
    some (record s { range_values = ranges; intensity_values = intensities })

  -- The test of the rotation.
  unfoldable pub end_rotation : FftReport → Publisher → Publisher
  end_rotation fft s =
      let published = if turns s.rotation fft.azimuth then publish_laser_scan fft s else s in
      record published { rotation = seen fft.azimuth s.rotation }

  unfoldable pub fft_data_handler : FftReport → Publisher → Option Publisher
  fft_data_handler fft s = do
    collected ← collect fft s
    some (check_config_publish (end_rotation fft collected))

  -- The first argument is the errno of the system's send, if it failed.
  unfoldable pub configuration_data_handler :
      Option ℕ → ConfigurationReport → Publisher → Option Publisher
  configuration_data_handler answer c s = do
    radar ← start_fft_data answer s.radar_client
    some (record s {
      azimuth_samples = c.azimuth_samples;
      bin_size = fl.narrowed c.bin_size;
      window = record s.window { end_bin = c.range_in_bins };
      range_in_bins = c.range_in_bins;
      expected_rotation_rate = c.expected_rotation_rate;
      config_message = config_message_of c;
      configurations = s.configurations ++ (config_message_of c ∷ []);
      range_values = resize c.azimuth_samples s.range_values;
      intensity_values = resize c.azimuth_samples s.intensity_values;
      radar_client = radar;
    })

  -- The callbacks that main binds: the two handlers.
  unfoldable pub on_report : Option ℕ → Report → Publisher → Option Publisher
  on_report answer (fft_report fft) s = fft_data_handler fft s
  on_report answer (configuration_report c body) s = configuration_data_handler answer c s
  on_report answer report s = some s
