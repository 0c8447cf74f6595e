-- ===== src/Ros2/LaserScan/FirstPeak.antt =====
-- The peak that Laser_scan_publisher takes of a message, and the read that follows when it finds none.
use navtechradar.Base.{
  ℕ, zero, suc, ◌+◌, ◌-◌, ◌≤◌, ◌<◌, ◌≡◌, refl, ap, ◌∙◌, arith, min, true, false, inl, inr, List, [],
  ◌∷◌, ◌++◌, none, some, append-nil, sym,
}
use navtechradar.Base.{
  Bool-cases, ltb, length, drop, get_elem?, All, length-append, length-drop, get_elem?-drop,
  get_elem?-append, get_elem?-outside, drop-suc, drop-append_le, set_elem?-inside, if◌then◌else◌,
}
use navtechradar.RadarClient.{FftReport}
use navtechradar.Ros2.Window.{adjusted_azimuth_index, has_azimuth}
use navtechradar.Ros2.Rotation.{turns, is_config_due}
use navtechradar.Ros2.LaserScan.{
  Floats, Publisher, first_peak, collect, publish_laser_scan, end_rotation, check_config_publish,
  fft_data_handler,
}

-- The power is not above the threshold.
abbrev pub IsQuiet : ℕ → List ℕ → Type 0
IsQuiet threshold bytes = All (λ power. power ≤ threshold) bytes

head-drop :
    (bytes : List ℕ) (bin : ℕ) {power : ℕ} {rest : List ℕ}
    → drop bin bytes ≡ power ∷ rest
    → get_elem? bytes bin ≡ some power
head-drop bytes bin h =
    let e : bin ≡ bin + 0 = omega arith in
    ap (get_elem? bytes) e ∙ get_elem?-drop bytes bin 0 ∙ ap (λ xs. get_elem? xs 0) h

first_peak-found :
    (threshold : ℕ) (bytes : List ℕ) (bin n : ℕ) (low : List ℕ) (power : ℕ) (high : List ℕ)
    → drop bin bytes ≡ low ++ (power ∷ high)
    → IsQuiet threshold low
    → threshold < power
    → length low < n
    → first_peak threshold bytes bin n ≡ some (bin + length low)
unfolding first_peak
first_peak-found threshold bytes bin zero low power high e quiet loud h = absurd (omega arith)
first_peak-found threshold bytes bin (suc n) [] power high e quiet loud h =
    let above : ltb threshold power ≡ true = ground arith in
    let place : bin ≡ bin + 0 = omega arith in rw (head-drop bytes bin e, above) (ap some place)
first_peak-found threshold bytes bin (suc n) (b ∷ low) power high e quiet loud h =
    let below : ltb threshold b ≡ false = ground arith in
    let place : suc bin + length low ≡ bin + suc (length low) = omega arith in
    rw (head-drop bytes bin e, below)
      (first_peak-found threshold bytes (suc bin) n low power high (drop-suc bytes bin e) quiet.1
          loud (omega arith)
        ∙ ap some place)

first_peak-quiet :
    (threshold : ℕ) (bytes : List ℕ) (bin n : ℕ) (low rest : List ℕ)
    → drop bin bytes ≡ low ++ rest
    → IsQuiet threshold low
    → n ≤ length low
    → first_peak threshold bytes bin n ≡ some (bin + n)
unfolding first_peak
first_peak-quiet threshold bytes bin zero low rest e quiet h =
    let place : bin ≡ bin + 0 = omega arith in ap some place
first_peak-quiet threshold bytes bin (suc n) [] rest e quiet h = absurd (omega arith)
first_peak-quiet threshold bytes bin (suc n) (b ∷ low) rest e quiet h =
    let below : ltb threshold b ≡ false = ground arith in
    let place : suc bin + n ≡ bin + suc n = omega arith in
    rw (head-drop bytes bin e, below)
      (first_peak-quiet threshold bytes (suc bin) n low rest (drop-suc bytes bin e) quiet.1
          (omega arith)
        ∙ ap some place)

keeps :
    (s : Publisher)
    → ((check_config_publish s).range_values ≡ s.range_values)
      × ((check_config_publish s).intensity_values ≡ s.intensity_values)
unfolding check_config_publish
keeps s = elim (Bool-cases (is_config_due s.rotation)) [
  | inl e ↦ rw e (refl, refl)
  | inr e ↦ rw e (refl, refl)
]

module _ (fl : Floats) (fft : FftReport) (s : Publisher) where
  ends :
      ((end_rotation fl fft s).range_values ≡ s.range_values)
      × ((end_rotation fl fft s).intensity_values ≡ s.intensity_values)
  unfolding end_rotation publish_laser_scan
  ends = elim (Bool-cases (turns s.rotation fft.azimuth)) [
    | inl e ↦ rw e (refl, refl)
    | inr e ↦ rw e (refl, refl)
  ]

-- The range and the power of a bin, or 0 outside the window.
abbrev pub range_at : Floats → FftReport → Publisher → ℕ → ℕ
range_at fl fft s bin =
    if has_azimuth s.window (fl.azimuth_index fft.angle s.azimuth_samples)
    then fl.times_number s.bin_size bin
    else 0

abbrev pub intensity_at : Floats → FftReport → Publisher → ℕ → ℕ
intensity_at fl fft s power =
    if has_azimuth s.window (fl.azimuth_index fft.angle s.azimuth_samples)
    then fl.of_number power
    else 0

-- The handler takes a range and an intensity: it returns, has set both vectors at an index to them, and
-- left the lengths.
abbrev pub IsTaken : Floats → FftReport → Publisher → ℕ → ℕ → ℕ → Type 0
IsTaken fl fft s adjusted range intensity =
    (t : Publisher) × (fft_data_handler fl fft s ≡ some t)
    × (get_elem? t.range_values adjusted ≡ some range)
    × (get_elem? t.intensity_values adjusted ≡ some intensity)
    × (length t.range_values ≡ length s.range_values)
    × (length t.intensity_values ≡ length s.intensity_values)

module _ (fl : Floats) (fft : FftReport) (s : Publisher) where
  -- Where the loop ends at a bin, its power is taken.
  fft_data_handler-sets :
      (bin power adjusted : ℕ)
      → first_peak s.power_threshold fft.fft_bytes s.window.start_bin
          (min (length fft.fft_bytes) s.window.end_bin - s.window.start_bin)
        ≡ some bin
      → get_elem? fft.fft_bytes bin ≡ some power
      → adjusted_azimuth_index s.window s.azimuth_samples
          (fl.azimuth_index fft.angle s.azimuth_samples)
        ≡ adjusted
      → adjusted < length s.range_values
      → adjusted < length s.intensity_values
      → IsTaken fl fft s adjusted (range_at fl fft s bin) (intensity_at fl fft s power)
  unfolding fft_data_handler collect
  fft_data_handler-sets bin power adjusted found read at hr hi =
      let (rs, er, lr, gr) = set_elem?-inside s.range_values adjusted (range_at fl fft s bin) hr in
      let (vs, ev, lv, gv) =
        set_elem?-inside s.intensity_values adjusted (intensity_at fl fft s power) hi in
      let held : Publisher = record s { range_values = rs; intensity_values = vs } in
      let kept = keeps (end_rotation fl fft held) in
      let ended = ends fl fft held in
      (
        check_config_publish (end_rotation fl fft held),
        rw (found, read, at, er, ev) refl,
        rw (kept.0, ended.0) gr,
        rw (kept.1, ended.1) gv,
        rw (kept.0, ended.0) lr,
        rw (kept.1, ended.1) lv,
      )

  -- Where the data from start_bin on are powers not above the threshold, `low`, and then one above it,
  -- in a bin below end_bin, and the adjusted azimuth is an index of both vectors, the handler sets these
  -- there to the range and the power of that bin if the azimuth is in the window, and else to 0.
  pub fft_data_handler-peak :
      (low : List ℕ) (power : ℕ) (high : List ℕ) (adjusted : ℕ)
      → drop s.window.start_bin fft.fft_bytes ≡ low ++ (power ∷ high)
      → IsQuiet s.power_threshold low
      → s.power_threshold < power
      → s.window.start_bin + length low < s.window.end_bin
      → adjusted_azimuth_index s.window s.azimuth_samples
          (fl.azimuth_index fft.angle s.azimuth_samples)
        ≡ adjusted
      → adjusted < length s.range_values
      → adjusted < length s.intensity_values
      → IsTaken fl fft s adjusted
          (range_at fl fft s (s.window.start_bin + length low))
          (intensity_at fl fft s power)
  fft_data_handler-peak low power high adjusted data_at quiet loud below at hr hi =
      let start = s.window.start_bin in
      let n = min (length fft.fft_bytes) s.window.end_bin - start in
      let size : length (drop start fft.fft_bytes) ≡ length low + suc (length high) =
        ap length data_at ∙ length-append low (power ∷ high) in
      let rounds : length low < n = omega (arith, size, length-drop start fft.fft_bytes) in
      let read : get_elem? fft.fft_bytes (start + length low) ≡ some power =
        get_elem?-drop fft.fft_bytes start (length low)
        ∙ ap (λ xs. get_elem? xs (length low)) data_at
        ∙ get_elem?-append low high power in
      fft_data_handler-sets (start + length low) power adjusted
        (first_peak-found s.power_threshold fft.fft_bytes start n low power high data_at quiet loud
          rounds)
        read at hr hi

-- The message with one byte more behind its data.
abbrev pub with_byte : ℕ → FftReport → FftReport
with_byte b fft = record fft { fft_bytes = fft.fft_bytes ++ (b ∷ []) }

module _ (fl : Floats) (fft : FftReport) (s : Publisher) where
  -- If start_bin is not above the number of the data, end_bin is that number, and no power from start_bin
  -- on is above the threshold, then the handler reads outside the data, which is undefined; and with one
  -- byte more behind the data it takes that byte, be it above the threshold or not, for the power of the
  -- peak, and the number of the data for its bin, where the adjusted azimuth is an index of both vectors.
  pub fft_data_handler-outside :
      (b adjusted : ℕ)
      → s.window.start_bin ≤ length fft.fft_bytes
      → s.window.end_bin ≡ length fft.fft_bytes
      → IsQuiet s.power_threshold (drop s.window.start_bin fft.fft_bytes)
      → adjusted_azimuth_index s.window s.azimuth_samples
          (fl.azimuth_index fft.angle s.azimuth_samples)
        ≡ adjusted
      → adjusted < length s.range_values
      → adjusted < length s.intensity_values
      → (fft_data_handler fl fft s ≡ none)
        × IsTaken fl
            (with_byte b fft)
            s
            adjusted
            (range_at fl fft s (length fft.fft_bytes))
            (intensity_at fl fft s b)
  unfolding fft_data_handler collect
  fft_data_handler-outside b adjusted start stop quiet at hr hi =
      let bytes = fft.fft_bytes in
      let first = s.window.start_bin in
      let low = drop first bytes in
      let n = min (length bytes) s.window.end_bin - first in
      let m = min (length (bytes ++ (b ∷ []))) s.window.end_bin - first in
      let longer = length-append bytes (b ∷ []) in
      let size = length-drop first bytes in
      let end : first + n ≡ length bytes = omega (arith, stop) in
      let end' : first + m ≡ length bytes = omega (arith, longer, stop) in
      (
        rw
            (
              first_peak-quiet s.power_threshold bytes first n low [] (sym (append-nil low)) quiet
                  (omega (arith, size)),
              get_elem?-outside bytes (first + n) (omega (arith, end)),
            )
            refl,
        fft_data_handler-sets fl (with_byte b fft) s (length bytes) b adjusted
            (first_peak-quiet s.power_threshold (bytes ++ (b ∷ [])) first m low (b ∷ [])
                (drop-append_le first bytes (b ∷ []) start) quiet
                (omega (arith, size, longer, stop))
              ∙ ap some end')
            (get_elem?-append bytes [] b) at hr hi,
      )
