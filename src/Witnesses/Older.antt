-- ===== src/Witnesses/Older.antt =====
-- Runs of the theorems on the messages of the older edition.
use navtechradar.Base.{
  ℕ, ◌≡◌, refl, arith, false, List, [], ◌∷◌, ◌++◌, none, some, length, leb, ltb,
}
use navtechradar.Colossus.Message.{largest_payload, is_valid}
use navtechradar.Colossus.Message.Wire.{wire, message}
use navtechradar.TcpClient.Reader.{no_address}
use navtechradar.Colossus.Kind.{code}
use navtechradar.Colossus.Kind
use navtechradar.Colossus.Messages.NavigationData
use navtechradar.RadarClient.{NavigationReport, navigation_report}
use navtechradar.RadarClient.Handlers.{report, handle_data}
use navtechradar.RadarClient.Reports.{peaks_bytes}
use navtechradar.Cndp.Navigation.{navigation_data_of, navigation_data_of-handle_data}
use navtechradar.Witnesses.Radar.{on_numbers, radar, sweep, two_peaks, sweep-IsNavigationData}
use navtechradar.Cndp.{
  NetworkDataHeader, message_valid, message_data, message_id, payload_size, max_payload_size,
}
use navtechradar.Cndp.Editions.{built, message_data-wire, message_valid-is_valid}

-- What stood in memory before Init.
abbrev garbage : NetworkDataHeader
garbage = record { signature = []; version = 9; messageid = 9; payloadsize = 9 }

abbrev three_bytes : List ℕ
three_bytes = 7 ∷ 8 ∷ 9 ∷ []

message_data-wire_example :
    (message_data (built garbage 30 (length three_bytes) three_bytes) ≡ wire 30 three_bytes)
    × (message_id (built garbage 30 (length three_bytes) three_bytes) ≡ 30)
    × (payload_size (built garbage 30 (length three_bytes) three_bytes) ≡ length three_bytes)
message_data-wire_example = message_data-wire garbage 30 three_bytes (omega arith)

-- A payload length that only the older edition accepts.
message_valid-is_valid_example :
    (message_valid (built garbage 30 1000000 []) ≡ leb 1000000 max_payload_size)
    × (is_valid (message no_address 0 false (message_data (built garbage 30 1000000 [])))
        ≡ some (ltb 1000000 largest_payload))
message_valid-is_valid_example =
    message_valid-is_valid garbage no_address 0 30 1000000 [] (omega arith) (omega arith)

navigation_data_of-handle_data_example :
    (given : NavigationReport) × (navigation_data_of on_numbers 5600 (
        built garbage
          (code Kind.navigation_data)
          (length (NavigationData.fields sweep ++ peaks_bytes two_peaks))
          (NavigationData.fields sweep ++ peaks_bytes two_peaks))
      ≡ some given)
    × (handle_data on_numbers none
          (message_data (
            built garbage
              (code Kind.navigation_data)
              (length (NavigationData.fields sweep ++ peaks_bytes two_peaks))
              (NavigationData.fields sweep ++ peaks_bytes two_peaks)))
          radar
        ≡ some (report (navigation_report given) radar))
navigation_data_of-handle_data_example =
    navigation_data_of-handle_data on_numbers none garbage sweep two_peaks radar
      sweep-IsNavigationData ((omega arith, omega arith), ((omega arith, omega arith), tt))
      (omega arith) refl
