-- ===== src/RadarClient.antt =====
-- cpp_17/network/radar_client.h and .cpp: the class Radar_client, its callbacks and its requests. The
-- callbacks that are set are Booleans, and their calls are the list `reports`. The handlers of
-- received messages are in RadarClient/Handlers.antt.
use navtechradar.Base.{
  ℕ, suc, ◌+◌, ◌*◌, ◌/◌, ◌%◌, ◌^◌, ◌≡◌, Bool, true, false, not, List, [], ◌∷◌, ◌++◌, Option, none,
  some, ◌>>=◌,
}
use navtechradar.Base.{◌==◌, length, if◌then◌else◌}
use navtechradar.Base.Bytes.{le_bytes}
use navtechradar.NetConversion.{htons, htonl}
use navtechradar.IpAddress.{IpAddress}
use navtechradar.SectorBlanking.{Sector}
use navtechradar.SectorBlanking
use navtechradar.Colossus.Kind.{Kind}
use navtechradar.Colossus.Kind
use navtechradar.Colossus.Message.{Message}
use navtechradar.Colossus.Message
use navtechradar.Colossus.Messages.NavigationConfig.{NavigationConfig, FloatOps}
use navtechradar.Colossus.Messages.NavigationConfig
use navtechradar.TcpClient.{Client, is_connected, get_connection_state}
use navtechradar.TcpClient
use navtechradar.TcpClient.Reader.{no_address}
pub mod Handlers
pub mod Requests
pub mod Reports
pub mod Delivery

-- Fft_data, with `angle` as the bit pattern of a double.
pub record FftReport : Type 0 where
  pub angle : ℕ
  pub azimuth : ℕ
  pub sweep_counter : ℕ
  pub ntp_seconds : ℕ
  pub ntp_split_seconds : ℕ
  pub fft_bytes : List ℕ

-- Navigation_data
pub record NavigationReport : Type 0 where
  pub angle : ℕ
  pub azimuth : ℕ
  pub ntp_seconds : ℕ
  pub ntp_split_seconds : ℕ
  pub peaks : List (ℕ × ℕ)

-- Configuration_data
pub record ConfigurationReport : Type 0 where
  pub azimuth_samples : ℕ
  pub encoder_size : ℕ
  pub bin_size : ℕ
  pub range_in_bins : ℕ
  pub expected_rotation_rate : ℕ
  pub range_gain : ℕ
  pub range_offset : ℕ

-- Navigation_config
pub record NavigationSettings : Type 0 where
  pub bins_to_operate_on : ℕ
  pub min_bin : ℕ
  pub navigation_threshold : ℕ
  pub max_peaks_per_azimuth : ℕ

-- A call of a callback. A protocol buffer is given as the bytes that were parsed.
pub data Report : Type 0 where
  fft_report : FftReport → Report
  raw_fft_report : List ℕ → Report
  navigation_report : NavigationReport → Report
  configuration_report : ConfigurationReport → List ℕ → Report
  raw_configuration_report : List ℕ → Report
  health_report : List ℕ → Report
  navigation_config_report : NavigationSettings → Report

-- The callbacks that are not null.
pub record Callbacks : Type 0 where
  pub raw_fft_data : Bool
  pub fft_data : Bool
  pub navigation_data : Bool
  pub configuration_data : Bool
  pub raw_configuration_data : Bool
  pub health_data : Bool
  pub navigation_config : Bool

pub record Radar : Type 0 where
  pub radar_client : Client
  pub running : Bool
  pub send_radar_data : Bool
  pub callbacks : Callbacks
  pub encoder_size : ℕ
  pub bin_size : ℕ
  pub reports : List Report

-- Floating point on bit patterns, and the protocol buffers.
pub record Outside : Type 0 where
  pub ops : FloatOps
  -- (azimuth * 360.0f) / encoder_size
  pub angle : ℕ → ℕ → ℕ
  -- static_cast<std::uint32_t>(value * range_multiplier)
  pub multiplied : ℕ → ℕ
  -- word / range_multiplier_float
  pub divided : ℕ → ℕ
  -- (std::uint16_t)std::ceil(result / bin_size)
  pub bins : ℕ → ℕ → ℕ
  -- rangeresolutionmetres() of a parsed configuration
  pub resolution : List ℕ → ℕ

abbrev no_callbacks : Callbacks
no_callbacks = record {
  raw_fft_data = false;
  fft_data = false;
  navigation_data = false;
  configuration_data = false;
  raw_configuration_data = false;
  health_data = false;
  navigation_config = false;
}

unfoldable pub new : IpAddress → ℕ → Radar
new radar_address port = record {
  radar_client = TcpClient.new radar_address port;
  running = false;
  send_radar_data = false;
  callbacks = no_callbacks;
  encoder_size = 0;
  bin_size = 0;
  reports = [];
}

-- The setters of the callbacks. The argument is whether the callback is not null.
unfoldable pub set_fft_data_callback : Bool → Radar → Radar
set_fft_data_callback fn r = record r { callbacks = record r.callbacks { fft_data = fn } }

unfoldable pub set_raw_fft_data_callback : Bool → Radar → Radar
set_raw_fft_data_callback fn r = record r { callbacks = record r.callbacks { raw_fft_data = fn } }

unfoldable pub set_navigation_data_callback : Bool → Radar → Radar
set_navigation_data_callback fn r = record r {
  callbacks = record r.callbacks { navigation_data = fn };
}

unfoldable pub set_configuration_data_callback : Bool → Radar → Radar
set_configuration_data_callback fn r = record r {
  callbacks = record r.callbacks { configuration_data = fn };
}

unfoldable pub set_raw_configuration_data_callback : Bool → Radar → Radar
set_raw_configuration_data_callback fn r = record r {
  callbacks = record r.callbacks { raw_configuration_data = fn };
}

unfoldable pub set_health_data_callback : Bool → Radar → Radar
set_health_data_callback fn r = record r { callbacks = record r.callbacks { health_data = fn } }

unfoldable pub set_navigation_config_callback : Bool → Radar → Radar
set_navigation_config_callback fn r = record r {
  callbacks = record r.callbacks { navigation_config = fn };
}

unfoldable pub start : Radar → Radar
start r = if r.running then r else record r {
  radar_client = TcpClient.start (TcpClient.set_receive_data_callback true r.radar_client);
  running = true;
}

-- The argument is the answer of the system's close.
unfoldable pub stop : Bool → Radar → Option Radar
stop closed r = if not r.running then some r else (do
  stopped ← TcpClient.stop closed r.radar_client
  some (record r { radar_client = stopped; running = false }))

abbrev pub is_online : Radar → Bool
is_online r = is_connected (get_connection_state r.radar_client)

-- radar_client.send(msg.relinquish()). The first argument is the errno of the system's send, if it
-- failed.
abbrev pub post : Option ℕ → Message → Radar → Option Radar
post answer msg r = do
  (bytes, rest) ← Message.relinquish msg
  some (record r { radar_client = TcpClient.send answer bytes r.radar_client })

-- A new message of a type with a protocol buffer appended, and its sending.
abbrev pub post_with : Option ℕ → Kind → List ℕ → Radar → Option Radar
post_with answer kind buffer r = do
  msg ← Message.new no_address 0
  typed ← Message.set_kind kind msg
  whole ← Message.append buffer typed
  post answer whole r

unfoldable pub send_simple_network_message : Option ℕ → Kind → Radar → Option Radar
send_simple_network_message answer kind r =
    if not (is_online r)
    then some r
    else (do msg ← Message.new no_address 0; typed ← Message.set_kind kind msg; post answer typed r)

abbrev set_send_radar_data : Bool → Radar → Option Radar
set_send_radar_data b r = some (record r { send_radar_data = b })

unfoldable pub start_fft_data : Option ℕ → Radar → Option Radar
start_fft_data answer r = do
  sent ← send_simple_network_message answer Kind.start_fft_data r
  set_send_radar_data true sent

unfoldable pub start_non_contour_fft_data : Option ℕ → Radar → Option Radar
start_non_contour_fft_data answer r = do
  sent ← send_simple_network_message answer Kind.start_non_contour_fft_data r
  set_send_radar_data true sent

unfoldable pub stop_fft_data : Option ℕ → Radar → Option Radar
stop_fft_data answer r = do
  sent ← send_simple_network_message answer Kind.stop_fft_data r
  set_send_radar_data false sent

unfoldable pub start_health_data : Option ℕ → Radar → Option Radar
start_health_data answer r = send_simple_network_message answer Kind.start_health_msgs r

unfoldable pub stop_health_data : Option ℕ → Radar → Option Radar
stop_health_data answer r = send_simple_network_message answer Kind.stop_health_msgs r

unfoldable pub start_navigation_data : Option ℕ → Radar → Option Radar
start_navigation_data answer r = send_simple_network_message answer Kind.start_nav_data r

unfoldable pub stop_navigation_data : Option ℕ → Radar → Option Radar
stop_navigation_data answer r = send_simple_network_message answer Kind.stop_nav_data r

unfoldable pub request_navigation_configuration : Option ℕ → Radar → Option Radar
request_navigation_configuration answer r =
    send_simple_network_message answer Kind.navigation_config_request r

unfoldable pub set_navigation_threshold : Option ℕ → ℕ → Radar → Option Radar
set_navigation_threshold answer threshold r =
    if not (is_online r)
    then some r
    else post_with answer Kind.set_nav_threshold (le_bytes 2 (htons threshold)) r

unfoldable pub set_blanking_sectors : Option ℕ → List Sector → Radar → Option Radar
set_blanking_sectors answer sector_list r =
    post_with answer Kind.sector_blanking_update (SectorBlanking.to_vector sector_list) r

module _ (os : Outside) where
  unfoldable pub set_navigation_gain_and_offset : Option ℕ → ℕ → ℕ → Radar → Option Radar
  set_navigation_gain_and_offset answer gain offset r =
      if not (is_online r)
      then some r
      else post_with answer Kind.set_nav_range_offset_and_gain
          (le_bytes 4 (htonl (os.multiplied gain)) ++ le_bytes 4 (htonl (os.multiplied offset))) r

  -- The Colossus message that is filled from the settings.
  unfoldable pub nav_config : NavigationSettings → NavigationConfig
  nav_config cfg =
      let blank : NavigationConfig = record {
        operating_bins = 0;
        min_bin = 0;
        threshold = 0;
        max_peaks = 0;
      } in
      NavigationConfig.set_max_peaks_per_azimuth cfg.max_peaks_per_azimuth (
        NavigationConfig.set_navigation_threshold os.ops cfg.navigation_threshold (
          NavigationConfig.set_min_bin_to_operate_on cfg.min_bin
            (NavigationConfig.set_bins_to_operate_on cfg.bins_to_operate_on blank)))

  unfoldable pub set_navigation_configuration : Option ℕ → NavigationSettings → Radar → Option Radar
  set_navigation_configuration answer cfg r = do
    msg ← Message.new no_address 0
    typed ← Message.set_kind Kind.set_navigation_configuration msg
    whole ← Message.append_header (NavigationConfig.fields (nav_config cfg)) typed
    post answer whole r

  -- The loop over the pairs of bytes.
  unfoldable pub contour_in_bins : ℕ → List ℕ → List ℕ
  contour_in_bins size (high ∷ low ∷ rest) =
      let result = os.bins (high * 256 + low) size in
      ((result / 256) % 256) ∷ (result % 256) ∷ contour_in_bins size rest
  contour_in_bins size rest = []

  unfoldable pub update_contour_map : Option ℕ → List ℕ → Radar → Option Radar
  update_contour_map answer contour_data r =
      if not (is_online r)
      then some r
      else post_with answer Kind.contour_update
          (if length contour_data == 720 then contour_in_bins r.bin_size contour_data else []) r
