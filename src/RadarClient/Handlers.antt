-- ===== src/RadarClient/Handlers.antt =====
-- Radar_client::handle_data and the handlers of cpp_17/network/radar_client.cpp.
use navtechradar.Base.{ℕ, zero, suc, ◌/◌, Bool, not, List, [], ◌∷◌, ◌++◌, Option, some, ◌>>=◌}
use navtechradar.Base.{◌==◌, length, take, drop, if◌then◌else◌}
use navtechradar.Base.Bytes.{of_le}
use navtechradar.NetConversion.{htons, htonl}
use navtechradar.Colossus.Kind.{Kind, code}
use navtechradar.Colossus.Message.{Message}
use navtechradar.Colossus.Message
use navtechradar.Colossus.Overlay.{protobuf}
use navtechradar.Colossus.Messages.Configuration
use navtechradar.Colossus.Messages.FftData
use navtechradar.Colossus.Messages.NavigationData
use navtechradar.Colossus.Messages.NavigationConfig
use navtechradar.TcpClient.Reader.{no_address}
use navtechradar.RadarClient.{
  Outside, Radar, Report, FftReport, NavigationReport, ConfigurationReport, NavigationSettings,
  fft_report, raw_fft_report, navigation_report, configuration_report, raw_configuration_report,
  health_report, navigation_config_report, send_simple_network_message,
}

-- A callback is called.
abbrev pub report : Report → Radar → Radar
report call r = record r { reports = r.reports ++ (call ∷ []) }

-- The callbacks that take the raw bytes of the message, if they are set.
abbrev pub report_raw : Bool → (List ℕ → Report) → Message → Radar → Option Radar
report_raw has_callback call msg r =
    if not has_callback
    then some r
    else do (bytes, rest) ← Message.relinquish msg; some (report (call bytes) r)

abbrev pub nav_data_record_length : ℕ
nav_data_record_length = 6

module _ (os : Outside) where
  abbrev pub configuration_of : Configuration.Configuration → ℕ → ConfigurationReport
  configuration_of config bin_size = record {
    azimuth_samples = Configuration.azimuth_samples config;
    encoder_size = Configuration.encoder_size config;
    bin_size = bin_size;
    range_in_bins = Configuration.range_in_bins config;
    expected_rotation_rate = Configuration.rotation_speed config / 1000;
    range_gain = Configuration.range_gain config;
    range_offset = Configuration.range_offset config;
  }

  -- Under a configuration callback: the request for data is sent again, and the sizes are kept.
  unfoldable pub take_configuration : Option ℕ → Message → Radar → Option Radar
  take_configuration answer msg r = do
    config ← Configuration.view msg.bytes
    body ← protobuf Configuration.size msg.bytes
    asked ←
        if r.send_radar_data
        then send_simple_network_message answer Kind.start_fft_data r
        else some r
    let sized : Radar = record asked {
      encoder_size = Configuration.encoder_size config;
      bin_size = os.resolution body;
    }
    some (report (configuration_report (configuration_of config sized.bin_size) body) sized)

  unfoldable pub handle_configuration_message : Option ℕ → Message → Radar → Option Radar
  handle_configuration_message answer msg r = do
    taken ← if r.callbacks.configuration_data then take_configuration answer msg r else some r
    report_raw r.callbacks.raw_configuration_data raw_configuration_report msg taken

  unfoldable pub handle_health_message : Message → Radar → Option Radar
  handle_health_message msg r =
      if not r.callbacks.health_data
      then some r
      else do body ← protobuf 0 msg.bytes; some (report (health_report body) r)

  abbrev pub fft_of : FftData.FftData → List ℕ → ℕ → FftReport
  fft_of fft_data body encoder_size = record {
    angle = os.angle (FftData.azimuth fft_data) encoder_size;
    azimuth = FftData.azimuth fft_data;
    sweep_counter = FftData.sweep_counter fft_data;
    ntp_seconds = FftData.ntp_seconds fft_data;
    ntp_split_seconds = FftData.ntp_split_seconds fft_data;
    fft_bytes = body;
  }

  unfoldable pub take_fft_data : Message → Radar → Option Radar
  take_fft_data msg r = do
    fft_data ← FftData.view msg.bytes
    body ← protobuf FftData.size msg.bytes
    some (report (fft_report (fft_of fft_data body r.encoder_size)) r)

  unfoldable pub handle_fft_data_message : Message → Radar → Option Radar
  handle_fft_data_message msg r = do
    taken ← if r.callbacks.fft_data then take_fft_data msg r else some r
    report_raw r.callbacks.raw_fft_data raw_fft_report msg taken

  -- The loop over `n` records of the targets.
  unfoldable pub peaks_of : ℕ → List ℕ → List (ℕ × ℕ)
  peaks_of zero targets = []
  peaks_of (suc n) targets =
      (os.divided (htonl (of_le (take 4 targets))), htons (of_le (take 2 (drop 4 targets))))
      ∷ peaks_of n (drop nav_data_record_length targets)

  abbrev pub navigation_of : NavigationData.NavigationData → List ℕ → ℕ → NavigationReport
  navigation_of nav_data targets encoder_size = record {
    angle = os.angle (NavigationData.azimuth nav_data) encoder_size;
    azimuth = NavigationData.azimuth nav_data;
    ntp_seconds = NavigationData.ntp_seconds nav_data;
    ntp_split_seconds = NavigationData.ntp_split_seconds nav_data;
    peaks = peaks_of (length targets / nav_data_record_length) targets;
  }

  unfoldable pub handle_navigation_data_message : Message → Radar → Option Radar
  handle_navigation_data_message msg r = if not r.callbacks.navigation_data then some r else (do
    nav_data ← NavigationData.view msg.bytes
    targets ← protobuf NavigationData.size msg.bytes
    some (report (navigation_report (navigation_of nav_data targets r.encoder_size)) r))

  abbrev pub settings_of : NavigationConfig.NavigationConfig → NavigationSettings
  settings_of view = record {
    bins_to_operate_on = NavigationConfig.bins_to_operate_on view;
    min_bin = NavigationConfig.min_bin_to_operate_on view;
    navigation_threshold = NavigationConfig.navigation_threshold os.ops view;
    max_peaks_per_azimuth = NavigationConfig.max_peaks_per_azimuth view;
  }

  unfoldable pub handle_navigation_config_message : Message → Radar → Option Radar
  handle_navigation_config_message msg r = if not r.callbacks.navigation_config then some r else (do
    view ← NavigationConfig.view msg.bytes
    some (report (navigation_config_report (settings_of view)) r))

  -- The switch over the type. A navigation alarm is ignored, as is every type without a case.
  unfoldable pub handle_kind : Option ℕ → ℕ → Message → Radar → Option Radar
  handle_kind answer kind msg r =
      if kind == code Kind.configuration
      then handle_configuration_message answer msg r
      else if kind == code Kind.fft_data
      then handle_fft_data_message msg r
      else if kind == code Kind.navigation_data
      then handle_navigation_data_message msg r
      else if kind == code Kind.navigation_alarm_data
      then some r
      else if kind == code Kind.health
      then handle_health_message msg r
      else if kind == code Kind.navigation_configuration
      then handle_navigation_config_message msg r
      else some r

  unfoldable pub handle_data : Option ℕ → List ℕ → Radar → Option Radar
  handle_data answer data_bytes r = do
    let msg : Message = Message.from_bytes no_address 0 data_bytes
    kind ← Message.kind msg
    handle_kind answer kind msg r
