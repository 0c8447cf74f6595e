-- ===== src/Witnesses/Navigation.antt =====
-- Runs of the theorems on addresses and on the peak finder.
use navtechradar.Base.{
  ℕ, ◌+◌, ◌-◌, ◌*◌, ◌/◌, ◌≤◌, ◌≡◌, ◌⊎◌, refl, arith, max, ltb, Bool, true, false, List, [], ◌∷◌,
  some, length, All, suc,
}
use navtechradar.IpAddress.{
  IpAddress, of_string, to_string, validate, has_octets, is_octet, line_of, getline,
}
use navtechradar.IpAddress.RoundTrip.{dotted, of_string-to_string}
use navtechradar.RadarClient.{FftReport, ConfigurationReport}
use navtechradar.PeakFinder.Arithmetic.{Doubles}
use navtechradar.PeakFinder.Search.{Target, Settings, find_peak_bin, targets_of}
use navtechradar.PeakFinder.Peaks.{first_peak, find_peak_bin_lem}
use navtechradar.PeakFinder.Targets.{IsTarget, targets_of-Ends}
use navtechradar.PeakFinder.Buffer.{IsReady, Reports, searched, fft_data_handler-IsReady}
use navtechradar.PeakFinder.Maximum.{fft_data_handler-maximum}
use navtechradar.PeakFinder.{PeakFinder, BufferMode, fft_data_handler}

abbrev local : IpAddress
local = record { word = 0xc0a80001 }

of_string-to_string_example : of_string (to_string local) ≡ some local
of_string-to_string_example = of_string-to_string local (omega arith)

one_to_four-validate : validate (dotted (b'1' ∷ []) (b'2' ∷ []) (b'3' ∷ []) (b'4' ∷ [])) ≡ true
unfolding validate has_octets is_octet line_of getline
one_to_four-validate = refl

-- Numbers in place of doubles.
abbrev pub plain : Doubles
plain = record {
  less = ltb;
  is_inf = λ a. false;
  plus = λ a b. a + b;
  minus = λ a b. a - b;
  times = λ a b. a * b;
  over = λ a b. a / b;
  negated = λ a. 0;
  of_number = λ n. n;
  of_difference = λ n m. n - m;
  of_float = λ n. n;
  times_float = λ n m. n * m;
  halved = λ n. n / 2;
  power_added = λ total n. total + n;
  decibels = λ total n. total / n;
}

ltb_asym : (a b : ℕ) → ltb a b ≡ true → ltb b a ≡ false
ltb_asym a b h = ground arith

ltb_trans : (a b c : ℕ) → ltb a b ≡ true → ltb b c ≡ true → ltb a c ≡ true
ltb_trans a b c h k = ground arith

-- An azimuth with a peak in its fifth bin.
abbrev bins : List ℕ
bins = 0 ∷ 0 ∷ 0 ∷ 0 ∷ 9 ∷ 2 ∷ 1 ∷ 0 ∷ 0 ∷ 0 ∷ 0 ∷ 0 ∷ []

abbrev settings : Settings
settings = record {
  threshold = 1;
  bins_to_operate_on = 5;
  min_bin_to_operate_on = 2;
  max_peaks_per_azimuth = 3;
  range_in_bins = 12;
  range_gain = 1;
  range_offset = 0;
  resolution = 1;
}

find_peak_bin_lem_example :
    find_peak_bin plain 1 bins 2 12 5 false ≡ first_peak plain 1 bins 12 2 (suc 12 - (2 + 5)) false
find_peak_bin_lem_example = find_peak_bin_lem plain 1 bins 2 12 5 false (omega arith) (omega arith)

targets_of-Ends_example :
    (ts : List Target) × (flag : Bool) × (targets_of plain settings bins ≡ some (ts, flag))
    × (length ts ≤ max 3 1)
    × All (IsTarget plain settings bins) ts
targets_of-Ends_example =
    targets_of-Ends plain settings bins (omega arith) (omega arith) (omega arith) (omega arith)

abbrev config : ConfigurationReport
config = record {
  azimuth_samples = 400;
  encoder_size = 5600;
  bin_size = 1;
  range_in_bins = 12;
  expected_rotation_rate = 4;
  range_gain = 1;
  range_offset = 0;
}

abbrev azimuth : FftReport
azimuth = record {
  angle = 90;
  azimuth = 1400;
  sweep_counter = 7;
  ntp_seconds = 1;
  ntp_split_seconds = 2;
  fft_bytes = bins;
}

-- A finder that has buffered one row of two.
abbrev finder : BufferMode → PeakFinder
finder mode = record {
  threshold = 1;
  bins_to_operate_on = 5;
  min_bin_to_operate_on = 2;
  awaiting_rise = false;
  data_buffer = bins ∷ [];
  buffer_mode = mode;
  buffer_length = 2;
  max_peaks_per_azimuth = 3;
  configuration = some (config, 1);
  has_callback = true;
  reports = [];
}

finder-IsReady : (mode : BufferMode) → IsReady config 1 (finder mode)
finder-IsReady mode = (refl, (refl, tt), omega arith, omega arith, omega arith)

fft_data_handler-IsReady_example :
    (p : PeakFinder) × (fft_data_handler plain azimuth (finder BufferMode.average) ≡ some p)
    × IsReady config 1 p
    × ((p.reports ≡ [])
        ⊎ ((found : List ℕ) × (searched plain config 1 azimuth (finder BufferMode.average)
              ≡ some found)
            × Reports plain config 1 azimuth found (finder BufferMode.average) p))
fft_data_handler-IsReady_example =
    fft_data_handler-IsReady plain config 1 azimuth (finder BufferMode.average)
      (finder-IsReady BufferMode.average)

fft_data_handler-maximum_example :
    (p : PeakFinder) × (fft_data_handler plain azimuth (finder BufferMode.maximum) ≡ some p)
    × IsReady config 1 p
    × (p.reports ≡ [])
fft_data_handler-maximum_example =
    fft_data_handler-maximum plain ltb_asym ltb_trans config 1 azimuth (finder BufferMode.maximum)
      (finder-IsReady BufferMode.maximum) refl
