-- ===== src/Colossus/Messages/Accessors.antt =====
-- The accessors of the Colossus messages against their mutators.
use navtechradar.Base.{ℕ, ◌/◌, ◌%◌, ◌^◌, ◌<◌, ◌≡◌, ◌≢◌, refl, ap, arith, List, [], ◌∷◌}
use navtechradar.Base.Bytes.{byte_swap, byte_swap-byte_swap, byte_swap-lt, le_bytes-byte_swap}
use navtechradar.NetConversion.{
  to_uint16_host, to_uint16_network, to_uint32_host, to_uint32_network, from_uint32_network,
  float_to_uint32_network,
}
use navtechradar.Colossus.Messages.Configuration.{Configuration}
use navtechradar.Colossus.Messages.Configuration
use navtechradar.Colossus.Messages.FftData.{FftData}
use navtechradar.Colossus.Messages.FftData
use navtechradar.Colossus.Messages.NavigationData.{NavigationData}
use navtechradar.Colossus.Messages.NavigationData
use navtechradar.Colossus.Messages.Views.{IsConfiguration, IsFftData, IsNavigationData}

-- A Configuration on which every mutator was called.
abbrev pub filled_configuration : ℕ → ℕ → ℕ → ℕ → ℕ → ℕ → ℕ → ℕ → Configuration → Configuration
filled_configuration a b c d e f g h z = Configuration.set_azimuth_samples a (
    Configuration.set_bin_size b (
      Configuration.set_range_in_bins c (
        Configuration.set_encoder_size d (
          Configuration.set_rotation_speed e (
            Configuration.set_packet_rate f
              (Configuration.set_range_gain g (Configuration.set_range_offset h z)))))))

-- Each accessor of a Configuration returns the value that its mutator was given, if that fits the
-- field; the fields then hold words of their widths.
pub filled_configuration_lem :
    (a b c d e f g h : ℕ) (z : Configuration)
    → a < 2 ^ 16
    → b < 2 ^ 16
    → c < 2 ^ 16
    → d < 2 ^ 16
    → e < 2 ^ 16
    → f < 2 ^ 16
    → g < 2 ^ 32
    → h < 2 ^ 32
    → (Configuration.azimuth_samples (filled_configuration a b c d e f g h z) ≡ a)
      × (Configuration.bin_size (filled_configuration a b c d e f g h z) ≡ b)
      × (Configuration.range_in_bins (filled_configuration a b c d e f g h z) ≡ c)
      × (Configuration.encoder_size (filled_configuration a b c d e f g h z) ≡ d)
      × (Configuration.rotation_speed (filled_configuration a b c d e f g h z) ≡ e)
      × (Configuration.packet_rate (filled_configuration a b c d e f g h z) ≡ f)
      × (Configuration.range_gain (filled_configuration a b c d e f g h z) ≡ g)
      × (Configuration.range_offset (filled_configuration a b c d e f g h z) ≡ h)
      × IsConfiguration (filled_configuration a b c d e f g h z)
unfolding Configuration.set_azimuth_samples Configuration.azimuth_samples Configuration.set_bin_size
    Configuration.bin_size Configuration.set_range_in_bins Configuration.range_in_bins
    Configuration.set_encoder_size Configuration.encoder_size Configuration.set_rotation_speed
    Configuration.rotation_speed Configuration.set_packet_rate Configuration.packet_rate
    Configuration.set_range_gain Configuration.range_gain Configuration.set_range_offset
    Configuration.range_offset to_uint16_host to_uint16_network to_uint32_host to_uint32_network
    from_uint32_network float_to_uint32_network
filled_configuration_lem a b c d e f g h z ha hb hc hd he hf hg hh = (
  byte_swap-byte_swap 2 a ha,
  byte_swap-byte_swap 2 b hb,
  byte_swap-byte_swap 2 c hc,
  byte_swap-byte_swap 2 d hd,
  byte_swap-byte_swap 2 e he,
  byte_swap-byte_swap 2 f hf,
  byte_swap-byte_swap 4 g hg,
  byte_swap-byte_swap 4 h hh,
  record {
    azi_samples_word = byte_swap-lt 2 a;
    bin_sz_word = byte_swap-lt 2 b;
    range_bins_word = byte_swap-lt 2 c;
    encoder_sz_word = byte_swap-lt 2 d;
    rotation_spd_word = byte_swap-lt 2 e;
    pckt_rate_word = byte_swap-lt 2 f;
    gain_word = byte_swap-lt 4 g;
    offset_word = byte_swap-lt 4 h;
  },
)

-- A Fft_data on which every mutator was called.
abbrev pub filled_fft_data : ℕ → ℕ → ℕ → ℕ → ℕ → FftData → FftData
filled_fft_data a b c d e z = FftData.set_fft_data_offset a (
    FftData.set_sweep_counter b
      (FftData.set_azimuth c (FftData.set_ntp_seconds d (FftData.set_ntp_split_seconds e z))))

-- Of values that fit the fields of a Fft_data, offset, sweep counter and azimuth come back as they were
-- set. The two times come back with their four bytes reversed, since their accessors do not convert.
-- The fields hold words of their widths.
pub filled_fft_data_lem :
    (a b c d e : ℕ) (z : FftData)
    → a < 2 ^ 16
    → b < 2 ^ 16
    → c < 2 ^ 16
    → d < 2 ^ 32
    → e < 2 ^ 32
    → (FftData.fft_data_offset (filled_fft_data a b c d e z) ≡ a)
      × (FftData.sweep_counter (filled_fft_data a b c d e z) ≡ b)
      × (FftData.azimuth (filled_fft_data a b c d e z) ≡ c)
      × (FftData.ntp_seconds (filled_fft_data a b c d e z) ≡ byte_swap 4 d)
      × (FftData.ntp_split_seconds (filled_fft_data a b c d e z) ≡ byte_swap 4 e)
      × IsFftData (filled_fft_data a b c d e z)
unfolding FftData.set_fft_data_offset FftData.fft_data_offset FftData.set_sweep_counter
    FftData.sweep_counter FftData.set_azimuth FftData.azimuth FftData.set_ntp_seconds
    FftData.ntp_seconds FftData.set_ntp_split_seconds FftData.ntp_split_seconds to_uint16_host
    to_uint16_network to_uint32_host to_uint32_network from_uint32_network float_to_uint32_network
filled_fft_data_lem a b c d e z ha hb hc hd he = (
  byte_swap-byte_swap 2 a ha,
  byte_swap-byte_swap 2 b hb,
  byte_swap-byte_swap 2 c hc,
  refl,
  refl,
  record {
    data_offset_word = byte_swap-lt 2 a;
    sweep_word = byte_swap-lt 2 b;
    azi_word = byte_swap-lt 2 c;
    seconds_word = byte_swap-lt 4 d;
    split_seconds_word = byte_swap-lt 4 e;
  },
)

-- A Navigation_data on which every mutator was called.
abbrev pub filled_navigation_data : ℕ → ℕ → ℕ → NavigationData → NavigationData
filled_navigation_data a b c z =
    NavigationData.set_azimuth a
      (NavigationData.set_ntp_seconds b (NavigationData.set_ntp_split_seconds c z))

-- Each accessor of a Navigation_data returns the value that its mutator was given, if that fits the
-- field; the fields then hold words of their widths.
pub filled_navigation_data_lem :
    (a b c : ℕ) (z : NavigationData)
    → a < 2 ^ 16
    → b < 2 ^ 32
    → c < 2 ^ 32
    → (NavigationData.azimuth (filled_navigation_data a b c z) ≡ a)
      × (NavigationData.ntp_seconds (filled_navigation_data a b c z) ≡ b)
      × (NavigationData.ntp_split_seconds (filled_navigation_data a b c z) ≡ c)
      × IsNavigationData (filled_navigation_data a b c z)
unfolding NavigationData.set_azimuth NavigationData.azimuth NavigationData.set_ntp_seconds
    NavigationData.ntp_seconds NavigationData.set_ntp_split_seconds NavigationData.ntp_split_seconds
    to_uint16_host to_uint16_network to_uint32_host to_uint32_network from_uint32_network
    float_to_uint32_network
filled_navigation_data_lem a b c z ha hb hc = (
  byte_swap-byte_swap 2 a ha,
  byte_swap-byte_swap 4 b hb,
  byte_swap-byte_swap 4 c hc,
  record {
    net_azimuth_word = byte_swap-lt 2 a;
    seconds_word = byte_swap-lt 4 b;
    split_seconds_word = byte_swap-lt 4 c;
  },
)

abbrev first : List ℕ → ℕ
first [] = 0
first (b ∷ bs) = b

reversed : (v : ℕ) → v < 2 ^ 32 → byte_swap 4 v ≡ v → v % 256 ≡ v / 2 ^ 24
reversed v h e = omega (arith, ap first (le_bytes-byte_swap 4 v))

-- A time of a Fft_data, in seconds or split seconds, whose highest and lowest bytes differ is not read
-- back as it was set.
pub ntp_seconds-set_ntp_seconds_ne :
    (v : ℕ) (d : FftData)
    → v < 2 ^ 32
    → v % 256 ≢ v / 2 ^ 24
    → (FftData.ntp_seconds (FftData.set_ntp_seconds v d) ≢ v)
      × (FftData.ntp_split_seconds (FftData.set_ntp_split_seconds v d) ≢ v)
unfolding FftData.ntp_seconds FftData.set_ntp_seconds FftData.ntp_split_seconds
    FftData.set_ntp_split_seconds to_uint32_network
ntp_seconds-set_ntp_seconds_ne v d h ne = (λ e. ne (reversed v h e), λ e. ne (reversed v h e))
