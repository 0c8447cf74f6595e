-- ===== src/Colossus/Messages/Views.antt =====
-- The Colossus messages seen through the bytes of a Message: view_as and the protocol buffer.
use navtechradar.Base.{
  false, ℕ, ◌+◌, ◌-◌, ◌^◌, ◌<◌, ◌≡◌, ap, arith, List, [], ◌++◌, some, length, length-append,
  append-nil, ltb,
}
use navtechradar.Base.Bytes.{
  le_bytes, of_le, read_bytes, read_bytes-append, of_le-le_bytes, byte_swap-of_le-be_bytes,
}
use navtechradar.Colossus.Message.Wire.{header, wire}
use navtechradar.Colossus.Overlay.{fields_end, protobuf, overlay_payload_size}
use navtechradar.Colossus.Messages.Configuration.{Configuration}
use navtechradar.Colossus.Messages.Configuration
use navtechradar.Colossus.Messages.FftData.{FftData}
use navtechradar.Colossus.Messages.FftData
use navtechradar.Colossus.Messages.NavigationData.{NavigationData}
use navtechradar.Colossus.Messages.NavigationData
use navtechradar.Colossus.Messages.NavigationConfig.{NavigationConfig}
use navtechradar.Colossus.Messages.NavigationConfig

short : (v : ℕ) → v < 2 ^ 16 → of_le (le_bytes 2 v) ≡ v
short v h = of_le-le_bytes 2 v h

long : (v : ℕ) → v < 2 ^ 32 → of_le (le_bytes 4 v) ≡ v
long v h = of_le-le_bytes 4 v h

overlay_payload_size-header :
    (id n : ℕ) (p : List ℕ) → n < 2 ^ 32 → overlay_payload_size (header id n ++ p) ≡ some n
unfolding overlay_payload_size read_bytes
overlay_payload_size-header id n p h = ap some (byte_swap-of_le-be_bytes 4 n h)

-- The overlay of a message on the wire, whose payload is below 2^32 bytes, finds the protocol buffer
-- `p` behind its fields `f`.
pub protobuf-wire :
    (id : ℕ) (f p : List ℕ)
    → length f + length p < 2 ^ 32
    → protobuf (length f) (wire id (f ++ p)) ≡ some p
unfolding protobuf
protobuf-wire id f p h =
    let all : length (f ++ p) ≡ length f + length p = length-append f p in
    let n : ℕ = length (f ++ p) in
    let enough : ltb n (length f) ≡ false = ground arith in
    let found : read_bytes (fields_end (length f)) (n - length f) (wire id (f ++ p)) ≡ some p =
      simp append-nil at (
        read_bytes-append (fields_end (length f)) (n - length f) (header id n ++ f) p []
          (omega arith) (omega arith)) in
    rw (overlay_payload_size-header id n (f ++ p) (omega arith), enough, found)

-- The fields of a Configuration are words of their widths.
pub record IsConfiguration (d : Configuration) : Type 0 where
  pub azi_samples_word : d.azi_samples < 2 ^ 16
  pub bin_sz_word : d.bin_sz < 2 ^ 16
  pub range_bins_word : d.range_bins < 2 ^ 16
  pub encoder_sz_word : d.encoder_sz < 2 ^ 16
  pub rotation_spd_word : d.rotation_spd < 2 ^ 16
  pub pckt_rate_word : d.pckt_rate < 2 ^ 16
  pub gain_word : d.gain < 2 ^ 32
  pub offset_word : d.offset < 2 ^ 32

-- Over a message on the wire whose payload is the fields of a Configuration and a protocol buffer
-- of less than 2^31 bytes, view_as finds these fields, and the overlay finds the protocol buffer.
pub view-configuration :
    (id : ℕ) (d : Configuration) (p : List ℕ)
    → IsConfiguration d
    → length p < 2 ^ 31
    → (Configuration.view (wire id (Configuration.fields d ++ p)) ≡ some d)
      × (protobuf Configuration.size (wire id (Configuration.fields d ++ p)) ≡ some p)
unfolding Configuration.view read_bytes
view-configuration id d p w h = (
  λ i. some (record {
    azi_samples = short d.azi_samples w.azi_samples_word i;
    bin_sz = short d.bin_sz w.bin_sz_word i;
    range_bins = short d.range_bins w.range_bins_word i;
    encoder_sz = short d.encoder_sz w.encoder_sz_word i;
    rotation_spd = short d.rotation_spd w.rotation_spd_word i;
    pckt_rate = short d.pckt_rate w.pckt_rate_word i;
    gain = long d.gain w.gain_word i;
    offset = long d.offset w.offset_word i;
  }),
  protobuf-wire id (Configuration.fields d) p (omega arith),
)

-- The fields of a Fft_data are words of their widths.
pub record IsFftData (d : FftData) : Type 0 where
  pub data_offset_word : d.data_offset < 2 ^ 16
  pub sweep_word : d.sweep < 2 ^ 16
  pub azi_word : d.azi < 2 ^ 16
  pub seconds_word : d.seconds < 2 ^ 32
  pub split_seconds_word : d.split_seconds < 2 ^ 32

-- Over a message on the wire whose payload is the fields of a Fft_data and a protocol buffer
-- of less than 2^31 bytes, view_as finds these fields, and the overlay finds the protocol buffer.
pub view-fft_data :
    (id : ℕ) (d : FftData) (p : List ℕ)
    → IsFftData d
    → length p < 2 ^ 31
    → (FftData.view (wire id (FftData.fields d ++ p)) ≡ some d)
      × (protobuf FftData.size (wire id (FftData.fields d ++ p)) ≡ some p)
unfolding FftData.view read_bytes
view-fft_data id d p w h = (
  λ i. some (record {
    data_offset = short d.data_offset w.data_offset_word i;
    sweep = short d.sweep w.sweep_word i;
    azi = short d.azi w.azi_word i;
    seconds = long d.seconds w.seconds_word i;
    split_seconds = long d.split_seconds w.split_seconds_word i;
  }),
  protobuf-wire id (FftData.fields d) p (omega arith),
)

-- The fields of a Navigation_data are words of their widths.
pub record IsNavigationData (d : NavigationData) : Type 0 where
  pub net_azimuth_word : d.net_azimuth < 2 ^ 16
  pub seconds_word : d.seconds < 2 ^ 32
  pub split_seconds_word : d.split_seconds < 2 ^ 32

-- Over a message on the wire whose payload is the fields of a Navigation_data and a protocol buffer
-- of less than 2^31 bytes, view_as finds these fields, and the overlay finds the protocol buffer.
pub view-navigation_data :
    (id : ℕ) (d : NavigationData) (p : List ℕ)
    → IsNavigationData d
    → length p < 2 ^ 31
    → (NavigationData.view (wire id (NavigationData.fields d ++ p)) ≡ some d)
      × (protobuf NavigationData.size (wire id (NavigationData.fields d ++ p)) ≡ some p)
unfolding NavigationData.view read_bytes
view-navigation_data id d p w h = (
  λ i. some (record {
    net_azimuth = short d.net_azimuth w.net_azimuth_word i;
    seconds = long d.seconds w.seconds_word i;
    split_seconds = long d.split_seconds w.split_seconds_word i;
  }),
  protobuf-wire id (NavigationData.fields d) p (omega arith),
)

-- The fields of a Navigation_config are words of their widths.
pub record IsNavigationConfig (d : NavigationConfig) : Type 0 where
  pub operating_bins_word : d.operating_bins < 2 ^ 16
  pub min_bin_word : d.min_bin < 2 ^ 16
  pub threshold_word : d.threshold < 2 ^ 32
  pub max_peaks_word : d.max_peaks < 2 ^ 32

-- Over a message on the wire whose payload is the fields of a Navigation_config and a protocol buffer
-- of less than 2^31 bytes, view_as finds these fields, and the overlay finds the protocol buffer.
pub view-navigation_config :
    (id : ℕ) (d : NavigationConfig) (p : List ℕ)
    → IsNavigationConfig d
    → length p < 2 ^ 31
    → (NavigationConfig.view (wire id (NavigationConfig.fields d ++ p)) ≡ some d)
      × (protobuf NavigationConfig.size (wire id (NavigationConfig.fields d ++ p)) ≡ some p)
unfolding NavigationConfig.view read_bytes
view-navigation_config id d p w h = (
  λ i. some (record {
    operating_bins = short d.operating_bins w.operating_bins_word i;
    min_bin = short d.min_bin w.min_bin_word i;
    threshold = long d.threshold w.threshold_word i;
    max_peaks = long d.max_peaks w.max_peaks_word i;
  }),
  protobuf-wire id (NavigationConfig.fields d) p (omega arith),
)
