-- ===== src/Colossus/Kind.antt =====
-- The message types of cpp_17/network/colossus_network_message.h and their codes on the wire.
use navtechradar.Base.{
  ℕ, ◌<◌, ◌≡◌, refl, Option, none, some, arith, List, [], ◌∷◌, ◌==◌, if◌then◌else◌,
}

-- `enum class Type : std::uint8_t`.
pub data Kind : Type 0 where
  invalid keep_alive configuration configuration_request : Kind
  start_fft_data stop_fft_data start_health_msgs stop_health_msgs : Kind
  recalibrate_rf_health start_tracks stop_tracks transmit_on : Kind
  transmit_off fft_data high_precision_fft_data health : Kind
  contour_update sector_blanking_update system_restart logging_levels : Kind
  logging_levels_request set_auto_tune start_nav_data stop_nav_data : Kind
  set_nav_threshold navigation_data set_nav_range_offset_and_gain calibrate_accelerometer : Kind
  start_accelerometer stop_accelerometer accelerometer_data start_non_contour_fft_data : Kind
  set_nav_buffer_mode_and_length set_nav_bin_operation navigation_alarm_data set_nav_area_rules :
      Kind
  nav_radar_reset nav_radar_halt navigation_config_request navigation_configuration : Kind
  set_navigation_configuration : Kind

unfoldable pub code : Kind → ℕ
code invalid = 0
code keep_alive = 1
code configuration = 10
code configuration_request = 20
code start_fft_data = 21
code stop_fft_data = 22
code start_health_msgs = 23
code stop_health_msgs = 24
code recalibrate_rf_health = 25
code start_tracks = 26
code stop_tracks = 27
code transmit_on = 28
code transmit_off = 29
code fft_data = 30
code high_precision_fft_data = 31
code health = 40
code contour_update = 50
code sector_blanking_update = 51
code system_restart = 76
code logging_levels = 90
code logging_levels_request = 100
code set_auto_tune = 110
code start_nav_data = 120
code stop_nav_data = 121
code set_nav_threshold = 122
code navigation_data = 123
code set_nav_range_offset_and_gain = 124
code calibrate_accelerometer = 125
code start_accelerometer = 126
code stop_accelerometer = 127
code accelerometer_data = 128
code start_non_contour_fft_data = 140
code set_nav_buffer_mode_and_length = 141
code set_nav_bin_operation = 142
code navigation_alarm_data = 143
code set_nav_area_rules = 144
code nav_radar_reset = 145
code nav_radar_halt = 146
code navigation_config_request = 203
code navigation_configuration = 204
code set_navigation_configuration = 205

abbrev all_kinds : List Kind
all_kinds =
    invalid ∷ keep_alive ∷ configuration ∷ configuration_request ∷ start_fft_data ∷ stop_fft_data
    ∷ start_health_msgs ∷ stop_health_msgs ∷ recalibrate_rf_health ∷ start_tracks ∷ stop_tracks
    ∷ transmit_on ∷ transmit_off ∷ fft_data ∷ high_precision_fft_data ∷ health ∷ contour_update
    ∷ sector_blanking_update ∷ system_restart ∷ logging_levels ∷ logging_levels_request
    ∷ set_auto_tune ∷ start_nav_data ∷ stop_nav_data ∷ set_nav_threshold ∷ navigation_data
    ∷ set_nav_range_offset_and_gain ∷ calibrate_accelerometer ∷ start_accelerometer
    ∷ stop_accelerometer ∷ accelerometer_data ∷ start_non_contour_fft_data
    ∷ set_nav_buffer_mode_and_length ∷ set_nav_bin_operation ∷ navigation_alarm_data
    ∷ set_nav_area_rules ∷ nav_radar_reset ∷ nav_radar_halt ∷ navigation_config_request
    ∷ navigation_configuration ∷ set_navigation_configuration ∷ []

find_kind : ℕ → List Kind → Option Kind
unfolding code
find_kind c [] = none
find_kind c (k ∷ ks) = if code k == c then some k else find_kind c ks

-- The type that a code on the wire stands for, if the protocol has one.
unfoldable pub kind_of : ℕ → Option Kind
unfolding find_kind
kind_of c = find_kind c all_kinds

-- No two message types share a code, and every code fits the byte that holds it.
pub kind_of-code : (k : Kind) → (kind_of (code k) ≡ some k) × (code k < 256)
unfolding kind_of code
kind_of-code invalid = (refl, omega arith)
kind_of-code _ = (refl, omega arith)
