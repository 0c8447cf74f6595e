-- ===== src/Witnesses/Clients.antt =====
-- Runs of the theorems on the client of the older edition, and from the stream to the point cloud.
use navtechradar.Base.{
  ℕ, ◌+◌, ◌*◌, ◌<◌, ◌≡◌, refl, arith, true, false, List, [], ◌∷◌, ◌++◌, none, some,
}
use navtechradar.Base.{length, drop, replicate}
use navtechradar.Base.Bytes.{be_bytes, byte_swap}
use navtechradar.NetConversion.{to_uint16_host, htons}
use navtechradar.Colossus.Kind.{code}
use navtechradar.Colossus.Kind
use navtechradar.Colossus.Message.Wire.{wire}
use navtechradar.Colossus.Messages.FftData
use navtechradar.Colossus.Messages.NavigationData
use navtechradar.TcpClient
use navtechradar.TcpClient.Reader.{read_thread}
use navtechradar.TcpClient.Frames.{at}
use navtechradar.TcpClient.Stream.{wires, all_answers}
use navtechradar.ThreadedQueue.{Queue}
use navtechradar.ThreadedQueue.History.{works}
use navtechradar.ThreadedQueue.History
use navtechradar.RadarClient.{Radar, FftReport, is_online}
use navtechradar.RadarClient
use navtechradar.RadarClient.Handlers
use navtechradar.RadarClient.Delivery.{Frame, IsFrame, messages, handle_all}
use navtechradar.RadarClient.Requests.{posted}
use navtechradar.Cndp.{message_data}
use navtechradar.Cndp.Editions.{built}
use navtechradar.Cndp.Client.{Client, uninitialised, fft_report, handle_fft_data_message}
use navtechradar.Cndp.Client
use navtechradar.Cndp.Client.Requests.{BothSend, requests-BothSend}
use navtechradar.Cndp.Client.FftData.{handle_fft_data_message-handle_data}
use navtechradar.Ros2.NavigationCloud
use navtechradar.Ros2.NavigationCloud.Peaks
use navtechradar.Ros2.NavigationCloud.FromStream.{given_of, all_given, stream-revolution}
use navtechradar.Witnesses.Network.{reader, empty_queue}
use navtechradar.Witnesses.Radar.{
  on_numbers, radar, two_peaks, line_of_sight, line_of_sight-IsFftData,
}
use navtechradar.Witnesses.Scans.{environment, no_answers, peak_node}

abbrev older : Client
older = record {
  radar_client = record { running = true; has_callback = true; connected = true; sent = [] };
  running = true;
  send_radar_data = false;
  fft_data_callback = true;
  navigation_data_callback = true;
  configuration_data_callback = true;
  configuration = record {
    azimuth_samples = 400;
    encoder_size = 5600;
    bin_size = 1752;
    range_in_bins = 2856;
    expected_rotation_rate = 4;
  };
  reports = [];
}

radar-is_online : is_online radar ≡ true
unfolding TcpClient.get_connection_state
radar-is_online = refl

requests-BothSend_example :
    BothSend none
      (wire (code Kind.start_nav_data) [])
      older
      (Client.start_navigation_data older)
      (RadarClient.start_navigation_data none radar)
      radar
    × BothSend none
        (wire (code Kind.stop_nav_data) [])
        older
        (Client.stop_navigation_data older)
        (RadarClient.stop_navigation_data none radar)
        radar
    × BothSend none
        (wire (code Kind.set_nav_threshold) (be_bytes 2 300))
        older
        (Client.set_navigation_threshold 300 older)
        (RadarClient.set_navigation_threshold none 300 radar)
        radar
    × BothSend none
        (wire
          (code Kind.set_nav_range_offset_and_gain)
          (be_bytes 4 (on_numbers.multiplied 2) ++ be_bytes 4 (on_numbers.multiplied 3)))
        older
        (Client.set_navigation_gain_and_offset on_numbers 2 3 older)
        (RadarClient.set_navigation_gain_and_offset on_numbers none 2 3 radar)
        radar
    × ((Client.start_fft_data older).radar_client.sent
        ≡ older.radar_client.sent ++ (wire (code Kind.start_fft_data) [] ∷ []))
    × (RadarClient.start_fft_data none radar
        ≡ some (record (posted none (wire (code Kind.start_fft_data) []) radar) {
          send_radar_data = true;
        }))
    × ((Client.stop_fft_data older).radar_client.sent
        ≡ older.radar_client.sent ++ (wire (code Kind.stop_fft_data) [] ∷ []))
    × (RadarClient.stop_fft_data none radar
        ≡ some (record (posted none (wire (code Kind.stop_fft_data) []) radar) {
          send_radar_data = false;
        }))
requests-BothSend_example =
    requests-BothSend on_numbers none 300 2 3 older radar refl radar-is_online

abbrev without_raw : Radar
without_raw = record radar {
  callbacks = record radar.callbacks { fft_data = true; raw_fft_data = false };
}

abbrev sight_bytes : List ℕ
sight_bytes = FftData.fields line_of_sight ++ (1 ∷ 2 ∷ [])

handle_fft_data_message-handle_data_example :
    (given : FftReport) × (given.azimuth ≡ htons line_of_sight.azi)
    × (given.sweep_counter ≡ htons line_of_sight.sweep)
    × (given.ntp_seconds ≡ line_of_sight.seconds)
    × (given.ntp_split_seconds ≡ line_of_sight.split_seconds)
    × (given.fft_bytes ≡ 1 ∷ 2 ∷ [])
    × (handle_fft_data_message on_numbers
          (built uninitialised (code Kind.fft_data) (length sight_bytes) sight_bytes)
          older
        ≡ some (record older { reports = older.reports ++ (fft_report given ∷ []) }))
    × (Handlers.handle_data on_numbers none
          (message_data (built uninitialised (code Kind.fft_data) (length sight_bytes) sight_bytes))
          without_raw
        ≡ some (Handlers.report (RadarClient.fft_report given) without_raw))
handle_fft_data_message-handle_data_example =
    handle_fft_data_message-handle_data on_numbers none uninitialised line_of_sight (1 ∷ 2 ∷ [])
      older without_raw line_of_sight-IsFftData (omega arith) refl refl refl refl

-- Navigation messages at the azimuths 5 and 20, and then 3.
abbrev frame_at : ℕ → Frame
frame_at azimuth =
    (record { net_azimuth = azimuth * 256; seconds = 7; split_seconds = 9 }, two_peaks)

abbrev before : List Frame
before = frame_at 5 ∷ frame_at 20 ∷ []

frame_at-azimuth :
    (NavigationData.azimuth (frame_at 5).0 ≡ 5)
    × (NavigationData.azimuth (frame_at 20).0 ≡ 20)
    × (NavigationData.azimuth (frame_at 3).0 ≡ 3)
unfolding NavigationData.azimuth to_uint16_host byte_swap
frame_at-azimuth = (refl, refl, refl)

frame_at-IsFrame : (azimuth : ℕ) → azimuth < 256 → IsFrame (frame_at azimuth)
frame_at-IsFrame azimuth small =
    (omega arith, ((omega arith, omega arith), ((omega arith, omega arith), tt)), omega arith)

stream-revolution_example :
    (q' : Queue (List ℕ)) × (r' : Radar) × (read_thread (3 + 2) (
        at reader
          (wires (messages (before ++ (frame_at 3 ∷ []))) (9 ∷ []))
          (all_answers (messages (before ++ (frame_at 3 ∷ []))) [])
          empty_queue)
      ≡ read_thread 2 (at reader (9 ∷ []) [] q'))
    × (handle_all on_numbers none (History.run (replicate 3 works) q').handled radar ≡ some r')
    × (NavigationCloud.run environment no_answers
          (drop (length radar.reports) r'.reports)
          (Peaks.holding environment [] peak_node)
        ≡ NavigationCloud.check_config_publish environment no_answers (
            Peaks.turned environment
              (given_of on_numbers 5600 (frame_at 3))
              ([]
                ++ Peaks.all_points environment peak_node.window peak_node.bin_size
                    peak_node.azimuth_samples
                    (all_given on_numbers 5600 (before ++ (frame_at 3 ∷ []))))
              peak_node))
stream-revolution_example =
    stream-revolution environment no_answers none reader before (frame_at 3) (9 ∷ []) [] empty_queue
      2 radar [] peak_node
      (
        frame_at-IsFrame 5 (omega arith),
        (frame_at-IsFrame 20 (omega arith), (frame_at-IsFrame 3 (omega arith), tt)),
      )
      (omega arith) (refl, refl, refl, refl) refl refl refl
      (omega (arith, frame_at-azimuth), (omega (arith, frame_at-azimuth), tt))
      (omega (arith, frame_at-azimuth)) (omega arith)
