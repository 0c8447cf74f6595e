-- ===== src/Ros2/Configuration.antt =====
-- The message on radar_data/configuration_data: configuration_data_handler of Colossus_publisher, whose
-- assignments the handlers of the other publishers repeat, and what Colossus_subscriber reads of it.
use navtechradar.Base.{ℕ, List, [], ◌∷◌, Option, some, ◌>>=◌}
use navtechradar.NetConversion.{
  to_uint16_network, to_uint64_host, to_vector, from_vector_to, to_uint16_host, from_uint64_host,
}
use navtechradar.RadarClient.{ConfigurationReport}

-- RadarConfigurationMessage
pub record ConfigMessage : Type 0 where
  pub azimuth_samples : List ℕ
  pub encoder_size : List ℕ
  pub bin_size : List ℕ
  pub range_in_bins : List ℕ
  pub expected_rotation_rate : List ℕ

abbrev pub blank : ConfigMessage
blank = record {
  azimuth_samples = [];
  encoder_size = [];
  bin_size = [];
  range_in_bins = [];
  expected_rotation_rate = [];
}

abbrev pub network_vector : ℕ → List ℕ
network_vector v = to_vector 2 (to_uint16_network v)

unfoldable pub config_message_of : ConfigurationReport → ConfigMessage
config_message_of c = record {
  azimuth_samples = network_vector c.azimuth_samples;
  encoder_size = network_vector c.encoder_size;
  bin_size = to_vector 8 (to_uint64_host c.bin_size);
  range_in_bins = network_vector c.range_in_bins;
  expected_rotation_rate = network_vector c.expected_rotation_rate;
}

-- What the subscriber logs of a field, or none for `Failed to get value`.
abbrev pub logged_uint16 : List ℕ → Option ℕ
logged_uint16 field = do value ← from_vector_to 2 field; some (to_uint16_host value)

abbrev pub logged_double : List ℕ → Option ℕ
logged_double field = do value ← from_vector_to 8 field; some (from_uint64_host value)

-- The values logged, in the order of the source.
unfoldable pub configuration_data_callback : ConfigMessage → List (Option ℕ)
configuration_data_callback msg =
    logged_uint16 msg.azimuth_samples
    ∷ logged_uint16 msg.encoder_size
    ∷ logged_double msg.bin_size
    ∷ logged_uint16 msg.range_in_bins
    ∷ logged_uint16 msg.expected_rotation_rate
    ∷ []
