-- ===== src/Ros2/PointCloud.antt =====
-- ros2/src/nav_ros/src/point_cloud_publisher.h and .cpp: the class Point_cloud_publisher. What is
-- published on a topic is a list. A read outside a vector is none.
use navtechradar.Base.{ℕ, suc, ◌&&◌, List, [], ◌∷◌, ◌++◌, Option, some, ◌>>=◌}
use navtechradar.Base.{ltb, drop, if◌then◌else◌}
use navtechradar.RadarClient.{
  Radar, Report, FftReport, ConfigurationReport, fft_report, configuration_report, start_fft_data,
}
use navtechradar.Ros2.Int.{ℤ, to_int, to_uint16, is_outside}
use navtechradar.Ros2.Int
use navtechradar.Ros2.Window.{
  Parameters, Window, of_parameters, check_window, adjusted_azimuth_index, has_azimuth, has_bin,
}
use navtechradar.Ros2.Rotation.{Rotation, at_rest, turns, seen, is_config_due}
use navtechradar.Ros2.Configuration.{ConfigMessage, blank, config_message_of}
use navtechradar.Ros2.Cloud.{Floats, Points, PointCloud2, cleared, push_back, cloud_message}
pub mod Revolution
pub mod Safety

pub record Publisher : Type 0 where
  pub parameters : Parameters
  pub threshold_parameter : ℤ
  pub window : Window
  pub power_threshold : ℕ
  pub points : Points
  pub azimuth_samples : ℕ
  pub bin_size : ℕ
  pub range_in_bins : ℕ
  pub expected_rotation_rate : ℕ
  pub rotation : Rotation
  pub config_message : ConfigMessage
  pub configurations : List ConfigMessage
  pub clouds : List PointCloud2
  pub radar_client : Radar

-- The constructor, with the values of the parameters, and set_radar_client.
unfoldable pub new : Parameters → ℤ → Radar → Publisher
new parameters threshold radar = record {
  parameters = parameters;
  threshold_parameter = threshold;
  window = of_parameters parameters;
  power_threshold = to_uint16 threshold;
  points = cleared;
  azimuth_samples = 0;
  bin_size = 0;
  range_in_bins = 0;
  expected_rotation_rate = 0;
  rotation = at_rest;
  config_message = blank;
  configurations = [];
  clouds = [];
  radar_client = radar;
}

-- The check of the threshold, against the largest uint8_t. A parameter that is refused is set to the
-- member.
unfoldable pub check_threshold : ℤ × ℕ → ℤ × ℕ
check_threshold (parameter, member) =
    let temp = to_int parameter in
    if is_outside temp 255 then (Int.pos member, member) else (parameter, to_uint16 temp)

-- The block that is run when the configuration is due.
unfoldable pub check_config_publish : Publisher → Publisher
check_config_publish s =
    if is_config_due s.rotation
    then (let checked_window =
          check_window s.azimuth_samples s.range_in_bins (s.parameters, s.window) in
        let checked_threshold = check_threshold (s.threshold_parameter, s.power_threshold) in
        record s {
          parameters = checked_window.0;
          window = checked_window.1;
          threshold_parameter = checked_threshold.0;
          power_threshold = checked_threshold.1;
          configurations = s.configurations ++ (s.config_message ∷ []);
          rotation = record s.rotation { rotation_count = 0 };
        })
    else s

module _ (fl : Floats) where
  unfoldable pub publish_point_cloud : FftReport → Publisher → Option Publisher
  publish_point_cloud fft s = do
    message ← cloud_message fl fft.ntp_seconds fft.ntp_split_seconds s.points
    some (record s { clouds = s.clouds ++ (message ∷ []) })

  -- The loop over the bins, with `bytes` the data from `bin_index` on.
  unfoldable pub collect_bins : Window → ℕ → ℕ → ℕ → List ℕ → Points → Points
  collect_bins w threshold azimuth bin_index [] ps = ps
  collect_bins w threshold azimuth bin_index (power ∷ bytes) ps =
      let taken =
        if has_bin w bin_index && ltb threshold power
        then push_back (fl.of_number azimuth) (fl.of_number bin_index) (fl.of_number power) ps
        else ps in
      collect_bins w threshold azimuth (suc bin_index) bytes taken

  -- The part of the handler up to the test of the rotation.
  unfoldable pub collect : FftReport → Publisher → Publisher
  collect fft s =
      let azimuth_index = fl.azimuth_index fft.angle s.azimuth_samples in
      let adjusted = adjusted_azimuth_index s.window s.azimuth_samples azimuth_index in
      if has_azimuth s.window azimuth_index
      then record s {
        points =
            collect_bins s.window s.power_threshold adjusted s.window.start_bin
              (drop s.window.start_bin fft.fft_bytes) s.points;
      }
      else s

  -- The test of the rotation.
  unfoldable pub end_rotation : FftReport → Publisher → Option Publisher
  end_rotation fft s =
      if turns s.rotation fft.azimuth
      then (do
        published ← publish_point_cloud fft s
        some (record published { points = cleared; rotation = seen fft.azimuth s.rotation }))
      else some (record s { rotation = seen fft.azimuth s.rotation })

  unfoldable pub fft_data_handler : FftReport → Publisher → Option Publisher
  fft_data_handler fft s = do
    turned ← end_rotation fft (collect fft s)
    some (check_config_publish turned)

  -- The first argument is the errno of the system's send, if it failed.
  unfoldable pub configuration_data_handler :
      Option ℕ → ConfigurationReport → Publisher → Option Publisher
  configuration_data_handler answer c s = do
    radar ← start_fft_data answer s.radar_client
    some (record s {
      azimuth_samples = c.azimuth_samples;
      bin_size = fl.narrowed c.bin_size;
      window = record s.window { end_bin = c.range_in_bins };
      range_in_bins = c.range_in_bins;
      expected_rotation_rate = c.expected_rotation_rate;
      config_message = config_message_of c;
      configurations = s.configurations ++ (config_message_of c ∷ []);
      radar_client = radar;
    })

  -- The callbacks that main binds: the two handlers.
  unfoldable pub on_report : Option ℕ → Report → Publisher → Option Publisher
  on_report answer (fft_report fft) s = fft_data_handler fft s
  on_report answer (configuration_report c body) s = configuration_data_handler answer c s
  on_report answer report s = some s

  unfoldable pub run : Option ℕ → List Report → Publisher → Option Publisher
  run answer [] s = some s
  run answer (report ∷ reports) s = do next ← on_report answer report s; run answer reports next
