-- ===== src/Ros2/Colossus.antt =====
-- ros2/src/nav_ros/src/colossus_publisher.h and .cpp and colossus_subscriber.cpp: the classes
-- Colossus_publisher and Colossus_subscriber, which hand the FFT data on as they are and log them. What is
-- published on a topic is a list.
use navtechradar.Base.{ℕ, ◌%◌, ◌^◌, List, [], ◌∷◌, ◌++◌, Option, some, ◌>>=◌}
use navtechradar.Base.{length, if◌then◌else◌}
use navtechradar.NetConversion.{
  to_uint32_network, to_uint32_host, to_uint64_host, to_vector, from_vector_to,
}
use navtechradar.RadarClient.{Radar, FftReport, ConfigurationReport, start_fft_data}
use navtechradar.Ros2.Int.{ℤ, pos, to_int}
use navtechradar.Ros2.Rotation.{Rotation, at_rest, seen, is_config_due}
use navtechradar.Ros2.Configuration.{
  ConfigMessage, blank, config_message_of, network_vector, logged_uint16, logged_double,
}
pub mod Logs

-- RadarFftDataMessage
pub record FftMessage : Type 0 where
  pub angle : List ℕ
  pub azimuth : List ℕ
  pub sweep_counter : List ℕ
  pub ntp_seconds : List ℕ
  pub ntp_split_seconds : List ℕ
  pub fft_bytes : List ℕ
  pub data_length : List ℕ

pub record Publisher : Type 0 where
  pub azimuth_samples : ℕ
  pub rotation : Rotation
  pub config_message : ConfigMessage
  pub configurations : List ConfigMessage
  pub messages : List FftMessage
  pub radar_client : Radar

-- The constructor and set_radar_client.
unfoldable pub new : Radar → Publisher
new radar = record {
  azimuth_samples = 0;
  rotation = at_rest;
  config_message = blank;
  configurations = [];
  messages = [];
  radar_client = radar;
}

-- The size of the data is converted to 16 bits.
unfoldable pub message_of : FftReport → FftMessage
message_of fft = record {
  angle = to_vector 8 (to_uint64_host fft.angle);
  azimuth = network_vector fft.azimuth;
  sweep_counter = network_vector fft.sweep_counter;
  ntp_seconds = to_vector 4 (to_uint32_network fft.ntp_seconds);
  ntp_split_seconds = to_vector 4 (to_uint32_network fft.ntp_split_seconds);
  fft_bytes = fft.fft_bytes;
  data_length = network_vector (length fft.fft_bytes % 2 ^ 16);
}

-- The block that is run when the configuration is due.
unfoldable pub check_config_publish : Publisher → Publisher
check_config_publish s =
    if is_config_due s.rotation
    then record s {
      configurations = s.configurations ++ (s.config_message ∷ []);
      rotation = record s.rotation { rotation_count = 0 };
    }
    else s

unfoldable pub fft_data_handler : FftReport → Publisher → Publisher
fft_data_handler fft s =
    let turned = check_config_publish (record s { rotation = seen fft.azimuth s.rotation }) in
    if turned.rotation.rotated_once
    then record turned { messages = turned.messages ++ (message_of fft ∷ []) }
    else turned

-- The first argument is the errno of the system's send, if it failed.
unfoldable pub configuration_data_handler :
    Option ℕ → ConfigurationReport → Publisher → Option Publisher
configuration_data_handler answer c s = do
  radar ← start_fft_data answer s.radar_client
  some (record s {
    azimuth_samples = c.azimuth_samples;
    config_message = config_message_of c;
    configurations = s.configurations ++ (config_message_of c ∷ []);
    radar_client = radar;
  })

-- The handlers of the FFT messages, in order.
unfoldable pub run_fft : List FftReport → Publisher → Publisher
run_fft [] s = s
run_fft (fft ∷ ffts) s = run_fft ffts (fft_data_handler fft s)

-- What a log shows: an integer that is read as an int, as %i does, or a double, which is its bit pattern.
pub data Logged : Type 0 where
  int : ℤ → Logged
  double : ℕ → Logged

abbrev pub logged : (ℕ → Logged) → Option ℕ → Option Logged
logged shown value = do v ← value; some (shown v)

-- A uint16_t becomes an int of the same value.
abbrev pub logged_short : List ℕ → Option Logged
logged_short field = logged (λ v. int (pos v)) (logged_uint16 field)

-- The 32 bits of a uint32_t are read as an int.
abbrev pub logged_uint32 : List ℕ → Option Logged
logged_uint32 field = do
  value ← from_vector_to 4 field
  some (int (to_int (pos (to_uint32_host value))))

-- The values that the subscriber logs, in the order of the source; none is `Failed to get value`.
unfoldable pub fft_data_callback : FftMessage → List (Option Logged)
fft_data_callback msg =
    logged (λ v. double v) (logged_double msg.angle)
    ∷ logged_short msg.azimuth
    ∷ logged_short msg.sweep_counter
    ∷ logged_uint32 msg.ntp_seconds
    ∷ logged_uint32 msg.ntp_split_seconds
    ∷ logged_short msg.data_length
    ∷ []
