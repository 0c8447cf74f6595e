-- ===== src/Ros2/NavigationCloud.antt =====
-- ros2/src/nav_ros/src/navigation_mode_point_cloud_publisher.h and .cpp: the class
-- Navigation_mode_point_cloud_publisher, which publishes the peaks that the radar finds, or those that
-- its peak finder finds in the FFT data. What is published on a topic is a list. A read outside a vector
-- or through a null pointer is none.
use navtechradar.Base.{ℕ, ◌%◌, ◌^◌, Bool, List, [], ◌∷◌, ◌++◌, Option, none, some, ◌>>=◌}
use navtechradar.Base.{length, drop, if◌then◌else◌}
use navtechradar.RadarClient.{
  Radar, Outside, Report, FftReport, NavigationReport, ConfigurationReport, NavigationSettings,
  fft_report, navigation_report, configuration_report, set_navigation_configuration,
  request_navigation_configuration, start_navigation_data, start_non_contour_fft_data,
}
use navtechradar.PeakFinder.{PeakFinder, AzimuthTarget, BufferMode}
use navtechradar.PeakFinder
use navtechradar.PeakFinder.Search.{Target}
use navtechradar.PeakFinder.Arithmetic.{Doubles}
use navtechradar.Ros2.Int.{to_int, to_uint16, is_outside}
use navtechradar.Ros2.Window.{
  Parameters, Window, check_window, adjusted_azimuth_index, has_azimuth, has_bin,
}
use navtechradar.Ros2.Window
use navtechradar.Ros2.Rotation.{Rotation, at_rest, turns, seen, is_config_due}
use navtechradar.Ros2.Configuration.{ConfigMessage, blank, config_message_of}
use navtechradar.Ros2.Cloud.{Floats, Points, PointCloud2, cleared, push_back, cloud_message}
use navtechradar.Ros2.Tuning.{Thresholds, TuningParameters, Tuning, check_tuning}
use navtechradar.Ros2.Tuning
pub mod Peaks
pub mod Bounds
pub mod Safety
pub mod FromStream

-- What is not in the source: the floating point, the protocol buffers and the wire's floats.
pub record Environment : Type 0 where
  pub floats : Floats
  pub doubles : Doubles
  pub outside : Outside
  pub thresholds : Thresholds
  -- static_cast<int>(range / bin_size), of a range that is not negative
  pub bin_index : ℕ → ℕ → ℕ
  -- power / 10.0, and (std::uint16_t)(power * 10.0)
  pub tenth : ℕ → ℕ
  pub tenfold : ℕ → ℕ

-- The errnos of the system's sends of a call, where they fail.
pub record Answers : Type 0 where
  pub first : Option ℕ
  pub second : Option ℕ

-- `config_data` has the configuration and the protocol buffer, which are set together; none is a null
-- pointer.
pub record Publisher : Type 0 where
  pub parameters : Parameters
  pub tuning_parameters : TuningParameters
  pub window : Window
  pub tuning : Tuning
  pub process_locally : Bool
  pub points : Points
  pub config_data : Option (ConfigurationReport × List ℕ)
  pub azimuth_samples : ℕ
  pub bin_size : ℕ
  pub range_in_bins : ℕ
  pub expected_rotation_rate : ℕ
  pub rotation : Rotation
  pub config_message : ConfigMessage
  pub configurations : List ConfigMessage
  pub clouds : List PointCloud2
  pub radar_client : Radar
  pub peak_finder : PeakFinder

-- The constructor, with the values of the parameters, and the setters that main calls.
unfoldable pub new : Parameters → TuningParameters → Bool → Radar → PeakFinder → Publisher
new parameters tuning_parameters local radar finder = record {
  parameters = parameters;
  tuning_parameters = tuning_parameters;
  window = Window.of_parameters parameters;
  tuning = Tuning.of_parameters tuning_parameters;
  process_locally = local;
  points = cleared;
  config_data = none;
  azimuth_samples = 0;
  bin_size = 0;
  range_in_bins = 0;
  expected_rotation_rate = 0;
  rotation = at_rest;
  config_message = blank;
  configurations = [];
  clouds = [];
  radar_client = radar;
  peak_finder = finder;
}

-- The checks of the window. For end_bin the range of temp_end_bin is tested, and the member is set from
-- temp_end_azimuth.
unfoldable pub check_bounds : ℕ → ℕ → Parameters × Window → Parameters × Window
check_bounds azimuth_samples range_in_bins (p, w) =
    let checked = check_window azimuth_samples range_in_bins (p, w) in
    (
      checked.0,
      record checked.1 {
        end_bin =
            if is_outside (to_int p.end_bin) range_in_bins
            then w.end_bin
            else to_uint16 (to_int p.end_azimuth);
      },
    )

module _ (env : Environment) where
  unfoldable pub publish_point_cloud : NavigationReport → Publisher → Option Publisher
  publish_point_cloud nav s = do
    message ← cloud_message env.floats nav.ntp_seconds nav.ntp_split_seconds s.points
    some (record s { clouds = s.clouds ++ (message ∷ []) })

  unfoldable pub update_navigation_config : Option ℕ → Publisher → Option Publisher
  update_navigation_config answer s = do
    radar ←
        set_navigation_configuration env.outside answer
          (record {
            bins_to_operate_on = s.tuning.bins_to_operate_on;
            min_bin = s.tuning.min_bin;
            navigation_threshold = env.floats.narrowed s.tuning.power_threshold;
            max_peaks_per_azimuth = s.tuning.max_peaks_per_azimuth;
          })
          s.radar_client
    some (record s { radar_client = radar })

  -- The peak finder takes the bins as 8 bits. Null pointers leave it without a configuration.
  unfoldable pub update_local_navigation_config : Publisher → Publisher
  update_local_navigation_config s =
      let t = s.tuning in
      let set = λ (c : ConfigurationReport) (resolution : ℕ).
        PeakFinder.configure c resolution t.power_threshold (t.bins_to_operate_on % 2 ^ 8) t.min_bin
          BufferMode.off 10 t.max_peaks_per_azimuth s.peak_finder in
      elim s.config_data [
        | none ↦ record s { peak_finder = record (set no_configuration 0) { configuration = none } }
        | some (c, protobuf) ↦ record s { peak_finder = set c (env.outside.resolution protobuf) }
      ]
    where
      no_configuration : ConfigurationReport
      no_configuration = record {
        azimuth_samples = 0;
        encoder_size = 0;
        bin_size = 0;
        range_in_bins = 0;
        expected_rotation_rate = 0;
        range_gain = 0;
        range_offset = 0;
      }

  -- The block at the end of check_config_publish.
  unfoldable pub update_config : Answers → Publisher → Option Publisher
  update_config answers s =
      if s.process_locally then some (update_local_navigation_config s) else (do
        updated ← update_navigation_config answers.first s
        radar ← request_navigation_configuration answers.second updated.radar_client
        some (record updated { radar_client = radar }))

  unfoldable pub check_config_publish : Answers → Publisher → Option Publisher
  check_config_publish answers s =
      let bounds = check_bounds s.azimuth_samples s.range_in_bins (s.parameters, s.window) in
      let tuned = check_tuning env.thresholds s.range_in_bins (s.tuning_parameters, s.tuning) in
      let checked : Publisher = record s {
        parameters = bounds.0;
        window = bounds.1;
        tuning_parameters = tuned.0.0;
        tuning = tuned.0.1;
        configurations = s.configurations ++ (s.config_message ∷ []);
        rotation = record s.rotation { rotation_count = 0 };
      } in
      if is_config_due s.rotation
      then if tuned.1 then update_config answers checked else some checked
      else some s

  -- The loop over the peaks, each a range and ten times its power.
  unfoldable pub collect_peaks : Window → ℕ → ℕ → List (ℕ × ℕ) → Points → Points
  collect_peaks w size azimuth [] ps = ps
  collect_peaks w size azimuth ((range, power) ∷ peaks) ps =
      let bin = env.bin_index range size in
      let taken =
        if has_bin w bin
        then push_back (env.floats.of_number azimuth) (env.floats.of_number bin) (env.tenth power)
            ps
        else ps in
      collect_peaks w size azimuth peaks taken

  -- The part of the handler up to the test of the rotation.
  unfoldable pub collect : NavigationReport → Publisher → Publisher
  collect nav s =
      let azimuth_index = env.floats.azimuth_index nav.angle s.azimuth_samples in
      let adjusted = adjusted_azimuth_index s.window s.azimuth_samples azimuth_index in
      if has_azimuth s.window azimuth_index
      then record s { points = collect_peaks s.window s.bin_size adjusted nav.peaks s.points }
      else s

  -- The test of the rotation.
  unfoldable pub end_rotation : NavigationReport → Publisher → Option Publisher
  end_rotation nav s =
      if turns s.rotation nav.azimuth
      then (do
        published ← publish_point_cloud nav s
        some (record published { points = cleared; rotation = seen nav.azimuth s.rotation }))
      else some (record s { rotation = seen nav.azimuth s.rotation })

  unfoldable pub navigation_data_handler : Answers → NavigationReport → Publisher → Option Publisher
  navigation_data_handler answers nav s = do
    turned ← end_rotation nav (collect nav s)
    check_config_publish answers turned

  -- The loop over the targets.
  unfoldable pub peaks_of_targets : List Target → List (ℕ × ℕ)
  peaks_of_targets [] = []
  peaks_of_targets (t ∷ ts) =
      (env.floats.narrowed t.range, env.tenfold t.power) ∷ peaks_of_targets ts

  unfoldable pub target_data_handler : Answers → AzimuthTarget → Publisher → Option Publisher
  target_data_handler answers target s =
      navigation_data_handler answers
        (record {
          angle = target.angle;
          azimuth = target.azimuth;
          ntp_seconds = target.ntp_seconds;
          ntp_split_seconds = target.ntp_split_seconds;
          peaks = peaks_of_targets target.targets;
        })
        s

  -- The calls of the target callback, in order.
  unfoldable pub handle_targets : Answers → List AzimuthTarget → Publisher → Option Publisher
  handle_targets answers [] s = some s
  handle_targets answers (target ∷ targets) s = do
    next ← target_data_handler answers target s
    handle_targets answers targets next

  -- The peak finder calls back, as the last thing it does, with what it appends to its reports.
  unfoldable pub fft_data_handler : Answers → FftReport → Publisher → Option Publisher
  fft_data_handler answers fft s = do
    finder ← PeakFinder.fft_data_handler env.doubles fft s.peak_finder
    handle_targets answers (drop (length s.peak_finder.reports) finder.reports)
        (record s { peak_finder = finder })

  -- The end of configuration_data_handler.
  unfoldable pub start_data : Answers → Publisher → Option Publisher
  start_data answers s =
      if s.process_locally
      then (do
        let updated = update_local_navigation_config s
        radar ← start_non_contour_fft_data answers.first updated.radar_client
        some (record updated { radar_client = radar }))
      else (do
        updated ← update_navigation_config answers.first s
        radar ← start_navigation_data answers.second updated.radar_client
        some (record updated { radar_client = radar }))

  unfoldable pub configuration_data_handler :
      Answers → ConfigurationReport → List ℕ → Publisher → Option Publisher
  configuration_data_handler answers c protobuf s = start_data answers (record s {
    azimuth_samples = c.azimuth_samples;
    bin_size = env.floats.narrowed c.bin_size;
    range_in_bins = c.range_in_bins;
    expected_rotation_rate = c.expected_rotation_rate;
    config_message = config_message_of c;
    configurations = s.configurations ++ (config_message_of c ∷ []);
    config_data = some (c, protobuf);
  })

  -- The callbacks that main binds. The one for a navigation configuration only logs it.
  unfoldable pub on_report : Answers → Report → Publisher → Option Publisher
  on_report answers (fft_report fft) s = fft_data_handler answers fft s
  on_report answers (navigation_report nav) s = navigation_data_handler answers nav s
  on_report answers (configuration_report c protobuf) s =
      configuration_data_handler answers c protobuf s
  on_report answers report s = some s

  unfoldable pub run : Answers → List Report → Publisher → Option Publisher
  run answers [] s = some s
  run answers (report ∷ reports) s = do next ← on_report answers report s; run answers reports next
