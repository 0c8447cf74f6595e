-- ===== src/Witnesses/Nodes.antt =====
-- Runs of the theorems on the ROS 2 nodes.
use navtechradar.Base.{
  ℕ, ◌+◌, ◌*◌, ◌/◌, ◌%◌, ◌^◌, ◌≡◌, refl, arith, true, List, [], ◌∷◌, ◌++◌, map, none, some,
}
use navtechradar.Base.{length}
use navtechradar.RadarClient.{FftReport, ConfigurationReport, fft_report, configuration_report}
use navtechradar.Ros2.Int.{pos, negsuc}
use navtechradar.Ros2.Window.{Parameters, Window, check_window}
use navtechradar.Ros2.Window.Checks.{AreSettled, check_window-AreSettled}
use navtechradar.Ros2.Rotation.{at_rest}
use navtechradar.Ros2.Cloud.{Floats, PointCloud2, intensity_field, cleared, cloud_message}
use navtechradar.Ros2.Cloud.Layout.{Point, split, cloud_of, read_float, cloud_message-read}
use navtechradar.Ros2.Configuration
use navtechradar.Ros2.PointCloud
use navtechradar.Ros2.PointCloud.Revolution
use navtechradar.Ros2.PointCloud.Revolution.{run-revolution}
use navtechradar.Ros2.PointCloud.Safety.{IsValid, run-IsValid}
use navtechradar.Witnesses.Radar.{radar}

-- Numbers in place of floats: an angle is a number of degrees.
abbrev index_of : ℕ → ℕ → ℕ
index_of angle azimuth_samples = angle * azimuth_samples / 360

abbrev pub as_numbers : Floats
as_numbers = record {
  azimuth_index = index_of;
  of_number = λ n. n;
  narrowed = λ v. v;
  radians = λ azimuth. azimuth * 9;
  times_cos = λ bin angle. bin * angle;
  times_sin = λ bin angle. bin + angle;
}

abbrev pub parameters : Parameters
parameters = record {
  start_azimuth = pos 0;
  end_azimuth = pos 4;
  start_bin = pos 1;
  end_bin = pos 3;
  azimuth_offset = pos 1;
}

abbrev pub window : Window
window = record {
  start_azimuth = 0;
  end_azimuth = 4;
  start_bin = 1;
  end_bin = 3;
  azimuth_offset = 1;
}

abbrev pub scan_at : ℕ → ℕ → FftReport
scan_at azimuth angle = record {
  angle = angle;
  azimuth = azimuth;
  sweep_counter = 7;
  ntp_seconds = 100 + azimuth;
  ntp_split_seconds = 5;
  fft_bytes = 90 ∷ 80 ∷ 10 ∷ [];
}

abbrev pub configuration : ConfigurationReport
configuration = record {
  azimuth_samples = 4;
  encoder_size = 5600;
  bin_size = 2;
  range_in_bins = 3;
  expected_rotation_rate = 4;
  range_gain = 1;
  range_offset = 0;
}

-- A publisher that is at the azimuth 0 and has the configuration.
abbrev cloud_node : PointCloud.Publisher
cloud_node = record {
  parameters = parameters;
  threshold_parameter = pos 50;
  window = window;
  power_threshold = 50;
  points = cleared;
  azimuth_samples = 4;
  bin_size = 2;
  range_in_bins = 3;
  expected_rotation_rate = 4;
  rotation = at_rest;
  config_message = Configuration.config_message_of configuration;
  configurations = [];
  clouds = [];
  radar_client = radar;
}

abbrev turn_of_three : List FftReport
turn_of_three = scan_at 10 0 ∷ scan_at 20 90 ∷ []

run-revolution_example :
    PointCloud.run as_numbers none
      (map fft_report (turn_of_three ++ (scan_at 5 0 ∷ [])))
      (Revolution.holding as_numbers [] cloud_node)
    ≡ some (
        PointCloud.check_config_publish (record cloud_node {
          points = cleared;
          clouds =
              cloud_node.clouds
              ++ (cloud_of as_numbers 105 5 (
                    []
                    ++ Revolution.all_points as_numbers window 50 4
                        (turn_of_three ++ (scan_at 5 0 ∷ [])))
                  ∷ []);
          rotation = record { last_azimuth = 5; rotated_once = true; rotation_count = 1 };
        }))
run-revolution_example =
    run-revolution as_numbers none turn_of_three (scan_at 5 0) [] cloud_node
      (omega arith, (omega arith, tt)) (omega arith) (omega arith)

run-IsValid_example :
    (t : PointCloud.Publisher) × (PointCloud.run as_numbers none
        (configuration_report configuration []
          ∷ fft_report (scan_at 10 0)
          ∷ fft_report (scan_at 5 0)
          ∷ [])
        cloud_node
      ≡ some t)
    × IsValid t
run-IsValid_example =
    run-IsValid as_numbers none
      (configuration_report configuration []
        ∷ fft_report (scan_at 10 0)
        ∷ fft_report (scan_at 5 0)
        ∷ [])
      cloud_node (record { aligned = (refl, refl); counted = omega arith })

-- Parameters that are all refused at first.
abbrev refused : Parameters
refused = record {
  start_azimuth = negsuc 0;
  end_azimuth = pos 900;
  start_bin = pos 70;
  end_bin = negsuc 8;
  azimuth_offset = pos 12;
}

check_window-AreSettled_example :
    AreSettled 4 3 (check_window 4 3 (check_window 4 3 (refused, window)))
check_window-AreSettled_example =
    check_window-AreSettled 4 3 (refused, window) (omega arith) (omega arith) refl

abbrev a_point : Point
a_point = record { azimuth = 1; bin = 2; intensity = 80 }

cloud_message-read_example :
    (cloud : PointCloud2) × (cloud_message as_numbers 1 2 (split ((a_point ∷ []) ++ (a_point ∷ [])))
      ≡ some cloud)
    × (read_float as_numbers cloud 1 intensity_field ≡ some 80)
    × (length cloud.data_vector ≡ 2 * cloud.point_step)
    × (cloud.width ≡ 2 % 2 ^ 32)
    × (cloud.row_step ≡ length cloud.data_vector % 2 ^ 32)
cloud_message-read_example =
    cloud_message-read as_numbers 1 2 (a_point ∷ []) [] a_point intensity_field (omega arith)
