-- ===== src/PeakFinder.antt =====
-- cpp_17/navigation/peak_finder.h and .cpp: the class Peak_finder. A call of the target callback is an
-- entry of `reports`. A read outside an array or through a null pointer is none.
use navtechradar.Base.{
  ℕ, zero, suc, ◌+◌, min, max, Bool, true, false, not, ◌&&◌, List, [], ◌∷◌, ◌++◌, map, Option, none,
  some, ◌>>=◌,
}
use navtechradar.Base.{ltb, ◌==◌, length, get_elem?, if◌then◌else◌}
use navtechradar.RadarClient.{FftReport, ConfigurationReport}
use navtechradar.PeakFinder.Arithmetic.{Doubles}
use navtechradar.PeakFinder.Search.{Target, Settings, targets_of}
pub mod Arithmetic
pub mod Resolve
pub mod Search
pub mod Peaks
pub mod Targets
pub mod Buffer
pub mod Maximum

pub data BufferMode : Type 0 where
  off average maximum : BufferMode

-- Azimuth_target
pub record AzimuthTarget : Type 0 where
  pub azimuth : ℕ
  pub angle : ℕ
  pub targets : List Target
  pub ntp_seconds : ℕ
  pub ntp_split_seconds : ℕ

-- `configuration` has the configuration and the rangeresolutionmetres() of the protocol buffer, which
-- configure() sets together; none is a null pointer.
pub record PeakFinder : Type 0 where
  pub threshold : ℕ
  pub bins_to_operate_on : ℕ
  pub min_bin_to_operate_on : ℕ
  pub awaiting_rise : Bool
  pub data_buffer : List (List ℕ)
  pub buffer_mode : BufferMode
  pub buffer_length : ℕ
  pub max_peaks_per_azimuth : ℕ
  pub configuration : Option (ConfigurationReport × ℕ)
  pub has_callback : Bool
  pub reports : List AzimuthTarget

abbrev pub min_bins_to_operate_on : ℕ
min_bins_to_operate_on = 5

abbrev pub max_bins_to_operate_on : ℕ
max_bins_to_operate_on = 15

unfoldable pub new : Doubles → PeakFinder
new d = record {
  threshold = d.of_number 0;
  bins_to_operate_on = 4;
  min_bin_to_operate_on = 50;
  awaiting_rise = false;
  data_buffer = [];
  buffer_mode = off;
  buffer_length = 10;
  max_peaks_per_azimuth = 10;
  configuration = none;
  has_callback = false;
  reports = [];
}

unfoldable pub set_target_callback : Bool → PeakFinder → PeakFinder
set_target_callback fn p = record p { has_callback = fn }

unfoldable pub set_threshold : ℕ → PeakFinder → PeakFinder
set_threshold thresh p = record p { threshold = thresh }

unfoldable pub configure :
    ConfigurationReport → ℕ → ℕ → ℕ → ℕ → BufferMode → ℕ → ℕ → PeakFinder → PeakFinder
configure config resolution thresh bins min_bin mode buf_length max_peaks p = record p {
  configuration = some (config, resolution);
  threshold = thresh;
  bins_to_operate_on = max (min bins max_bins_to_operate_on) min_bins_to_operate_on;
  min_bin_to_operate_on = min_bin;
  buffer_mode = mode;
  buffer_length = buf_length;
  max_peaks_per_azimuth = max_peaks;
}

abbrev pub settings_of : PeakFinder → ConfigurationReport → ℕ → Settings
settings_of p config resolution = record {
  threshold = p.threshold;
  bins_to_operate_on = p.bins_to_operate_on;
  min_bin_to_operate_on = p.min_bin_to_operate_on;
  max_peaks_per_azimuth = p.max_peaks_per_azimuth;
  range_in_bins = config.range_in_bins;
  range_gain = config.range_gain;
  range_offset = config.range_offset;
  resolution = resolution;
}

abbrev pub is_empty : List Target → Bool
is_empty [] = true
is_empty (t ∷ ts) = false

module _ (d : Doubles) where
  unfoldable pub find_peaks :
      ConfigurationReport → ℕ → FftReport → List ℕ → PeakFinder → Option PeakFinder
  find_peaks config resolution fft bins p = do
    (targets, awaiting) ← targets_of d (settings_of p config resolution) bins
    let looked : PeakFinder = record p { awaiting_rise = awaiting }
    let target : AzimuthTarget = record {
      azimuth = fft.azimuth;
      angle = fft.angle;
      targets = targets;
      ntp_seconds = fft.ntp_seconds;
      ntp_split_seconds = fft.ntp_split_seconds;
    }
    some (
        if not (is_empty targets) && p.has_callback
        then record looked { reports = p.reports ++ (target ∷ []) }
        else looked)

  -- The inner loop of the average: over the buffered rows, at one bin.
  unfoldable pub total_at : ℕ → List (List ℕ) → ℕ → Option ℕ
  total_at bin [] total = some total
  total_at bin (row ∷ rows) total = do
    value ← get_elem? row bin
    total_at bin rows (d.power_added total (d.halved value))

  -- The outer loop, `n` bins from `bin` on.
  unfoldable pub averages : List (List ℕ) → ℕ → ℕ → Option (List ℕ)
  averages rows bin zero = some []
  averages rows bin (suc n) = do
    total ← total_at bin rows (d.of_number 0)
    rest ← averages rows (suc bin) n
    some (d.decibels total (length rows) ∷ rest)

  -- The inner loop of the maximum: over the buffered rows, at one bin.
  unfoldable pub max_at : ℕ → List (List ℕ) → ℕ → Option ℕ
  max_at bin [] so_far = some so_far
  max_at bin (row ∷ rows) so_far = do
    value ← get_elem? row bin
    max_at bin rows (if d.less so_far (d.halved value) then d.halved value else so_far)

  -- The outer loop: the variable `max` is not reset between bins.
  unfoldable pub maxima : List (List ℕ) → ℕ → ℕ → ℕ → Option (List ℕ)
  maxima rows so_far bin zero = some []
  maxima rows so_far bin (suc n) = do
    highest ← max_at bin rows so_far
    rest ← maxima rows highest (suc bin) n
    some (highest ∷ rest)

  abbrev pub as_doubles : List ℕ → List ℕ
  as_doubles [] = []
  as_doubles (b ∷ bs) = d.of_number b ∷ as_doubles bs

  -- What the mode makes of the buffered rows.
  unfoldable pub combine : BufferMode → List (List ℕ) → ℕ → Option (List ℕ)
  combine average rows n = averages rows 0 n
  combine mode rows n = maxima rows (d.of_number 0) 0 n

  -- The branch for a mode other than off.
  unfoldable pub buffer_data : ConfigurationReport → ℕ → FftReport → PeakFinder → Option PeakFinder
  buffer_data config resolution fft p =
      let rows : List (List ℕ) = p.data_buffer ++ (as_doubles fft.fft_bytes ∷ []) in
      if ltb (length rows) p.buffer_length then some (record p { data_buffer = rows }) else (do
        bins ← combine p.buffer_mode rows config.range_in_bins
        find_peaks config resolution fft bins (record p { data_buffer = [] }))

  abbrev pub is_off : BufferMode → Bool
  is_off off = true
  is_off average = false
  is_off maximum = false

  unfoldable pub fft_data_handler : FftReport → PeakFinder → Option PeakFinder
  fft_data_handler fft p = do
    (config, resolution) ← p.configuration
    if not (length fft.fft_bytes == config.range_in_bins)
        then some p
        else if is_off p.buffer_mode
        then find_peaks config resolution fft (as_doubles fft.fft_bytes) p
        else buffer_data config resolution fft p
