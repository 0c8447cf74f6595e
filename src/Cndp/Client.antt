-- ===== src/Cndp/Client.antt =====
-- cpp/radarclient.h and .cpp: the class RadarClient of the older edition. Of its TCP client it uses the
-- test whether it is connected, and Send, whose calls are a list. A call of a callback is an entry of
-- `reports`. A read outside a message is none.
use navtechradar.Base.{
  ℕ, ◌+◌, ◌-◌, ◌*◌, ◌/◌, ◌%◌, ◌^◌, Bool, true, false, not, List, [], ◌∷◌, ◌++◌, Option, none, some,
  ◌>>=◌,
}
use navtechradar.Base.{◌==◌, length, if◌then◌else◌}
use navtechradar.Base.Bytes.{le_bytes, of_le, read_bytes}
use navtechradar.NetConversion.{htons, htonl}
use navtechradar.RadarClient.{Outside, FftReport, NavigationReport}
use navtechradar.Cndp.{
  NetworkDataHeader, NetworkDataMessage, init, set_message_id, set_payload_length, message_id,
  message_data, payload_length,
}
use navtechradar.Cndp.Navigation.{navigation_data_of}
pub mod Requests
pub mod FftData

-- CNDPNetworkDataMessageType, as far as the client names it.
abbrev pub start_fft_data_id : ℕ
start_fft_data_id = 21

abbrev pub stop_fft_data_id : ℕ
stop_fft_data_id = 22

abbrev pub start_nav_data_id : ℕ
start_nav_data_id = 120

abbrev pub stop_nav_data_id : ℕ
stop_nav_data_id = 121

abbrev pub set_nav_threshold_id : ℕ
set_nav_threshold_id = 122

abbrev pub set_nav_range_offset_and_gain_id : ℕ
set_nav_range_offset_and_gain_id = 124

abbrev pub contour_update_id : ℕ
contour_update_id = 50

abbrev pub configuration_id : ℕ
configuration_id = 10

abbrev pub fft_data_id : ℕ
fft_data_id = 30

abbrev pub navigation_data_id : ℕ
navigation_data_id = 123

-- ConfigurationData
pub record ConfigurationData : Type 0 where
  pub azimuth_samples : ℕ
  pub encoder_size : ℕ
  pub bin_size : ℕ
  pub range_in_bins : ℕ
  pub expected_rotation_rate : ℕ

pub data Report : Type 0 where
  fft_report : FftReport → Report
  navigation_report : NavigationReport → Report
  configuration_report : ConfigurationData → Report

-- The TCP client: whether it was started with a callback, whether it is connected, and what was sent.
pub record Tcp : Type 0 where
  pub running : Bool
  pub has_callback : Bool
  pub connected : Bool
  pub sent : List (List ℕ)

pub record Client : Type 0 where
  pub radar_client : Tcp
  pub running : Bool
  pub send_radar_data : Bool
  pub fft_data_callback : Bool
  pub navigation_data_callback : Bool
  pub configuration_data_callback : Bool
  pub configuration : ConfigurationData
  pub reports : List Report

unfoldable pub start : Client → Client
start c = if c.running then c else record c {
  radar_client = record c.radar_client { has_callback = true; running = true };
  running = true;
}

-- Stop of the TCP client leaves its connection state.
unfoldable pub stop : Client → Client
stop c =
    if not c.running
    then c
    else record c { running = false; radar_client = record c.radar_client { running = false } }

-- GetConnectionState() == Connected
abbrev pub is_connected : Client → Bool
is_connected c = if c.radar_client.running then c.radar_client.connected else false

unfoldable pub set_fft_data_callback : Bool → Client → Client
set_fft_data_callback callback c = record c { fft_data_callback = callback }

unfoldable pub set_navigation_data_callback : Bool → Client → Client
set_navigation_data_callback callback c = record c { navigation_data_callback = callback }

unfoldable pub set_configuration_data_callback : Bool → Client → Client
set_configuration_data_callback callback c = record c { configuration_data_callback = callback }

-- A header as it stands in memory before Init.
abbrev pub uninitialised : NetworkDataHeader
uninitialised = record { signature = []; version = 0; messageid = 0; payloadsize = 0 }

abbrev pub send : List ℕ → Client → Client
send bytes c = record c {
  radar_client = record c.radar_client { sent = c.radar_client.sent ++ (bytes ∷ []) };
}

unfoldable pub send_simple_network_message : ℕ → Client → Client
send_simple_network_message id c =
    if not (is_connected c)
    then c
    else send
        (message_data (record { header = set_message_id id (init uninitialised); payload = [] })) c

-- A message with a payload, and its length in the header.
abbrev pub send_with : ℕ → List ℕ → Client → Client
send_with id buffer c =
    send
      (message_data (record {
        header = set_payload_length (length buffer) (set_message_id id (init uninitialised));
        payload = buffer;
      }))
      c

unfoldable pub start_fft_data : Client → Client
start_fft_data c = record (send_simple_network_message start_fft_data_id c) {
  send_radar_data = true;
}

unfoldable pub stop_fft_data : Client → Client
stop_fft_data c = record (send_simple_network_message stop_fft_data_id c) {
  send_radar_data = false;
}

unfoldable pub start_navigation_data : Client → Client
start_navigation_data c = send_simple_network_message start_nav_data_id c

unfoldable pub stop_navigation_data : Client → Client
stop_navigation_data c = send_simple_network_message stop_nav_data_id c

unfoldable pub set_navigation_threshold : ℕ → Client → Client
set_navigation_threshold threshold c =
    if not (is_connected c)
    then c
    else send_with set_nav_threshold_id (le_bytes 2 (htons threshold)) c

-- The members of a configuration message: after the network header of 22 bytes.
unfoldable pub configuration_of : List ℕ → Option ConfigurationData
configuration_of bytes = do
  whole ← read_bytes 0 (22 + 20) bytes
  azimuth_samples ← read_bytes 22 2 whole
  bin_size ← read_bytes 24 2 whole
  range_in_bins ← read_bytes 26 2 whole
  encoder_size ← read_bytes 28 2 whole
  rotation_speed ← read_bytes 30 2 whole
  some (record {
    azimuth_samples = htons (of_le azimuth_samples);
    encoder_size = htons (of_le encoder_size);
    bin_size = htons (of_le bin_size);
    range_in_bins = htons (of_le range_in_bins);
    expected_rotation_rate = htons (of_le rotation_speed) / 1000;
  })

unfoldable pub handle_configuration_message : NetworkDataMessage → Client → Option Client
handle_configuration_message m c = do
  data_of ← configuration_of (message_data m)
  let known : Client = record c { configuration = data_of }
  let asked =
      if known.send_radar_data then send_simple_network_message start_fft_data_id known else known
  some (
      if asked.configuration_data_callback
      then record asked { reports = asked.reports ++ (configuration_report data_of ∷ []) }
      else asked)

module _ (os : Outside) where
  unfoldable pub set_navigation_gain_and_offset : ℕ → ℕ → Client → Client
  set_navigation_gain_and_offset gain offset c =
      if not (is_connected c)
      then c
      else send_with set_nav_range_offset_and_gain_id
          (le_bytes 4 (htonl (os.multiplied gain)) ++ le_bytes 4 (htonl (os.multiplied offset))) c

  -- The fields of an FFT message are after the network header of 22 bytes, and its data after 14 bytes
  -- more. The seconds stay in network order.
  unfoldable pub fft_data_of : ℕ → NetworkDataMessage → Option FftReport
  fft_data_of encoder_size m = do
    sweep_counter ← read_bytes 24 2 (message_data m)
    azimuth ← read_bytes 26 2 (message_data m)
    seconds ← read_bytes 28 4 (message_data m)
    split_seconds ← read_bytes 32 4 (message_data m)
    bytes ← read_bytes 36 ((2 ^ 32 + payload_length m.header - 14) % 2 ^ 32) (message_data m)
    some (record {
      angle = os.angle (htons (of_le azimuth)) encoder_size;
      azimuth = htons (of_le azimuth);
      sweep_counter = htons (of_le sweep_counter);
      ntp_seconds = of_le seconds;
      ntp_split_seconds = of_le split_seconds;
      fft_bytes = bytes;
    })

  unfoldable pub handle_fft_data_message : NetworkDataMessage → Client → Option Client
  handle_fft_data_message m c = if not c.fft_data_callback then some c else (do
    fft ← fft_data_of c.configuration.encoder_size m
    some (record c { reports = c.reports ++ (fft_report fft ∷ []) }))

  unfoldable pub handle_navigation_data_message : NetworkDataMessage → Client → Option Client
  handle_navigation_data_message m c = if not c.navigation_data_callback then some c else (do
    nav ← navigation_data_of os c.configuration.encoder_size m
    some (record c { reports = c.reports ++ (navigation_report nav ∷ []) }))

  unfoldable pub handle_data : NetworkDataMessage → Client → Option Client
  handle_data m c =
      let id = message_id m in
      if id == configuration_id
      then handle_configuration_message m c
      else if id == fft_data_id
      then handle_fft_data_message m c
      else if id == navigation_data_id
      then handle_navigation_data_message m c
      else some c

-- The parameter is (uint16_t)std::ceil(result / (binSize / 10000.0)).
module _ (bins : ℕ → ℕ → ℕ) where
  -- The loop over the pairs of bytes.
  unfoldable pub contour_in_bins : ℕ → List ℕ → List ℕ
  contour_in_bins size (high ∷ low ∷ rest) =
      let result = bins (high * 256 + low) size in
      ((result / 256) % 256) ∷ (result % 256) ∷ contour_in_bins size rest
  contour_in_bins size rest = []

  unfoldable pub update_contour_map : List ℕ → Client → Client
  update_contour_map contour_data c =
      if not (is_connected c)
      then c
      else send_with contour_update_id
          (if length contour_data == 720
            then contour_in_bins c.configuration.bin_size contour_data
            else [])
          c
