-- ===== src/Witnesses/Scans.antt =====
-- Runs of the theorems on the ROS 2 nodes that publish peaks, scans, images and the data.
use navtechradar.Base.{
  ℕ, ◌+◌, ◌*◌, ◌/◌, ◌%◌, ◌^◌, ◌≡◌, refl, arith, true, false, List, [], ◌∷◌, ◌++◌, map, none, some,
  ◌>>=◌,
}
use navtechradar.Base.{length, get_elem?, ltb, replicate, if◌then◌else◌}
use navtechradar.RadarClient.{FftReport}
use navtechradar.Ros2.Int.{pos, negsuc}
use navtechradar.Ros2.Window.{check_window, adjusted_azimuth_index, has_bin}
use navtechradar.Ros2.Rotation.{at_rest}
use navtechradar.Ros2.Configuration
use navtechradar.Ros2.Cloud.{cleared}
use navtechradar.Ros2.Tuning.{Thresholds, TuningParameters, Tuning, check_tuning}
use navtechradar.Ros2.Tuning.Settles.{check_tuning-quiet}
use navtechradar.Ros2.NavigationCloud
use navtechradar.Ros2.NavigationCloud.{check_bounds}
use navtechradar.Ros2.NavigationCloud.Bounds.{check_bounds-has_bin}
use navtechradar.Ros2.LaserScan
use navtechradar.Ros2.LaserScan.FirstPeak.{
  IsTaken, with_byte, fft_data_handler-outside, fft_data_handler-peak,
}
use navtechradar.Ros2.BScan
use navtechradar.Ros2.BScan.Images.{IsReady, turn_count}
use navtechradar.Ros2.BScan.Runs.{run_fft-IsReady, run_fft-reconfigured}
use navtechradar.Ros2.Colossus
use navtechradar.Ros2.Colossus.{int, double, message_of, fft_data_callback}
use navtechradar.Ros2.Colossus.Logs.{from_turn, run_fft-messages, fft_data_callback-message_of}
use navtechradar.Witnesses.Radar.{radar, on_numbers}
use navtechradar.Witnesses.Navigation.{plain}
use navtechradar.PeakFinder
use navtechradar.Witnesses.Nodes.{as_numbers, parameters, window, scan_at, configuration}

abbrev thresholds : Thresholds
thresholds = record {
  differ = λ a b. if ltb a b then true else ltb b a;
  is_refused = λ a. ltb 0x406FE00000000000 a;
}

abbrev tuning_parameters : TuningParameters
tuning_parameters = record {
  bins_to_operate_on = pos 20;
  min_bin = negsuc 4;
  power_threshold = 0x4080000000000000;
  max_peaks_per_azimuth = pos 9;
}

abbrev tuning : Tuning
tuning = record {
  bins_to_operate_on = 4;
  min_bin = 1;
  power_threshold = 0x4049000000000000;
  max_peaks_per_azimuth = 3;
}

check_tuning-quiet_example :
    (check_tuning thresholds 3
      (check_tuning thresholds 3 (check_tuning thresholds 3 (tuning_parameters, tuning)).0).0).1
    ≡ false
check_tuning-quiet_example =
    check_tuning-quiet thresholds refl refl 3 (tuning_parameters, tuning) (omega arith)
      (omega arith) (omega arith) (omega arith) refl

check_bounds-has_bin_example :
    (has_bin (check_window 4 9 (record parameters { end_bin = pos 9 }, window)).1 6 ≡ true)
    × (has_bin (check_bounds 4 9 (record parameters { end_bin = pos 9 }, window)).1 6 ≡ false)
check_bounds-has_bin_example =
    check_bounds-has_bin 4 9 (record parameters { end_bin = pos 9 }) window 4 9 1 6 (omega arith)
      refl (omega arith) refl (omega arith) refl (omega arith) (omega arith) (omega arith)

abbrev laser_floats : LaserScan.Floats
laser_floats = record {
  azimuth_index = λ angle azimuth_samples. angle * azimuth_samples / 360;
  of_number = λ n. n;
  narrowed = λ v. v;
  times_number = λ value n. value * n;
  increment = λ azimuth_samples. azimuth_samples;
  angle_at = λ azimuth_samples index. index;
  time_increment = λ rate azimuth_samples. rate;
  scan_time = λ rate. rate;
}

abbrev laser_node : LaserScan.Publisher
laser_node = record {
  parameters = parameters;
  threshold_parameter = pos 50;
  window = window;
  power_threshold = 50;
  range_values = 0 ∷ 0 ∷ 0 ∷ 0 ∷ [];
  intensity_values = 0 ∷ 0 ∷ 0 ∷ 0 ∷ [];
  azimuth_samples = 4;
  bin_size = 2;
  range_in_bins = 3;
  expected_rotation_rate = 4;
  rotation = at_rest;
  config_message = Configuration.config_message_of configuration;
  configurations = [];
  scans = [];
  radar_client = radar;
}

abbrev quiet_scan : FftReport
quiet_scan = record (scan_at 10 90) { fft_bytes = 90 ∷ 8 ∷ 10 ∷ [] }

quarter_turned :
    adjusted_azimuth_index window 4 (LaserScan.Floats.azimuth_index laser_floats 90 4) ≡ 2
unfolding adjusted_azimuth_index
quarter_turned = refl

fft_data_handler-outside_example :
    (LaserScan.fft_data_handler laser_floats quiet_scan laser_node ≡ none)
    × IsTaken laser_floats (with_byte 200 quiet_scan) laser_node 2 6 200
fft_data_handler-outside_example =
    fft_data_handler-outside laser_floats quiet_scan laser_node 200 2 (omega arith) (omega arith)
      (omega arith, (omega arith, tt)) quarter_turned (omega arith) (omega arith)

fft_data_handler-peak_example :
    (t : LaserScan.Publisher) × (LaserScan.fft_data_handler laser_floats (scan_at 10 90) laser_node
      ≡ some t)
    × (get_elem? t.range_values 2 ≡ some 2)
    × (get_elem? t.intensity_values 2 ≡ some 80)
    × (length t.range_values ≡ 4)
    × (length t.intensity_values ≡ 4)
fft_data_handler-peak_example =
    fft_data_handler-peak laser_floats (scan_at 10 90) laser_node [] 80 (10 ∷ []) 2 refl tt
      (omega arith) (omega arith) quarter_turned (omega arith) (omega arith)

abbrev image_node : BScan.Publisher
image_node = record {
  parameters = parameters;
  window = window;
  intensity_values = replicate 12 0;
  azimuth_samples = 4;
  range_in_bins = 3;
  buffer_length = 12;
  rotation = at_rest;
  images = [];
  radar_client = radar;
}

image_node-IsReady : IsReady image_node
image_node-IsReady = record {
  sized = record { small = omega arith; settled = (refl, omega arith); filled = omega arith };
  exact = refl;
}

abbrev data_node : Colossus.Publisher
data_node = record {
  azimuth_samples = 4;
  rotation = at_rest;
  config_message = Configuration.config_message_of configuration;
  configurations = [];
  messages = [];
  radar_client = radar;
}

abbrev two_turns : List FftReport
two_turns = scan_at 10 0 ∷ scan_at 5 90 ∷ scan_at 4 0 ∷ []

abbrev index_of : ℕ → ℕ → ℕ
index_of angle azimuth_samples = angle * azimuth_samples / 360

run_fft-IsReady_example :
    (t : BScan.Publisher) × (BScan.run_fft index_of two_turns image_node ≡ some t)
    × IsReady t
    × (length t.images ≡ 0 + turn_count 0 two_turns)
run_fft-IsReady_example =
    run_fft-IsReady index_of two_turns image_node image_node-IsReady
      ((omega arith, omega arith), ((omega arith, omega arith), ((omega arith, omega arith), tt)))

run_fft-reconfigured_example :
    (t : BScan.Publisher) × ((BScan.configuration_data_handler none configuration image_node
        >>= BScan.run_fft index_of two_turns)
      ≡ some t)
    × (t.images ≡ [])
run_fft-reconfigured_example =
    run_fft-reconfigured index_of none configuration two_turns image_node image_node-IsReady refl
      refl (omega arith)
      ((omega arith, omega arith), ((omega arith, omega arith), ((omega arith, omega arith), tt)))

abbrev recent : FftReport
recent = record (scan_at 10 0) { ntp_seconds = 3900000000 }

fft_data_callback-message_of_example :
    fft_data_callback (message_of recent)
    ≡ map some (
        double 0
        ∷ int (pos 10)
        ∷ int (pos 7)
        ∷ int (negsuc 394967295)
        ∷ int (pos 5)
        ∷ int (pos (3 % 2 ^ 16))
        ∷ [])
fft_data_callback-message_of_example = fft_data_callback-message_of recent (record {
  angle = omega arith;
  azimuth = omega arith;
  sweep_counter = omega arith;
  ntp_seconds = omega arith;
  ntp_split_seconds = omega arith;
})

run_fft-messages_example :
    (Colossus.run_fft two_turns data_node).messages
    ≡ []
      ++ map message_of (
          if data_node.rotation.rotated_once
          then two_turns
          else from_turn data_node.rotation.last_azimuth two_turns)
run_fft-messages_example = run_fft-messages two_turns data_node

abbrev pub environment : NavigationCloud.Environment
environment = record {
  floats = as_numbers;
  doubles = plain;
  outside = on_numbers;
  thresholds = thresholds;
  bin_index = λ range size. range / size;
  tenth = λ power. power / 10;
  tenfold = λ power. power * 10;
}

abbrev pub no_answers : NavigationCloud.Answers
no_answers = record { first = none; second = none }

-- A publisher of the radar's peaks, which is at the azimuth 0 and has the configuration.
abbrev pub peak_node : NavigationCloud.Publisher
peak_node = record {
  parameters = parameters;
  tuning_parameters = tuning_parameters;
  window = window;
  tuning = tuning;
  process_locally = false;
  points = cleared;
  config_data = some (configuration, []);
  azimuth_samples = 4;
  bin_size = 2;
  range_in_bins = 3;
  expected_rotation_rate = 4;
  rotation = at_rest;
  config_message = Configuration.config_message_of configuration;
  configurations = [];
  clouds = [];
  radar_client = radar;
  peak_finder = PeakFinder.new plain;
}
