-- ===== src/PeakFinder/Buffer.antt =====
-- fft_data_handler over its life: what it buffers, what it makes of the buffer and what it reports.
use navtechradar.Base.{
  ℕ, zero, suc, ◌+◌, ◌<◌, ◌≤◌, ◌^◌, ◌≡◌, refl, ap, ◌∙◌, max, arith, Bool, true, false, not, ◌&&◌,
  List, [], ◌∷◌, ◌++◌, Option, some, ◌>>=◌,
}
use navtechradar.Base.{ltb, ◌==◌, eq→≡, length, if◌then◌else◌, All, Bool-cases, ◌⊎◌, inl, inr}
use navtechradar.Base.Bytes.{All-append}
use navtechradar.RadarClient.{FftReport, ConfigurationReport}
use navtechradar.PeakFinder.Arithmetic.{Doubles}
use navtechradar.PeakFinder.Resolve.{offset_of}
use navtechradar.PeakFinder.Search.{Target}
use navtechradar.PeakFinder.Peaks.{get_elem?-lt}
use navtechradar.PeakFinder.Targets.{IsTarget, targets_of-Ends}
use navtechradar.PeakFinder.{
  PeakFinder, BufferMode, AzimuthTarget, settings_of, is_empty, find_peaks, total_at, averages,
  max_at, maxima, combine, as_doubles, is_off, buffer_data, fft_data_handler,
}

-- A row for each azimuth that is buffered, of the length that is configured.
abbrev pub IsRows : ℕ → List (List ℕ) → Type 0
IsRows n rows = All (λ row. length row ≡ n) rows

-- A finder with a configuration, and with room for the parabola around each bin that it looks at.
abbrev pub IsReady : ConfigurationReport → ℕ → PeakFinder → Type 0
IsReady config resolution p =
    (p.configuration ≡ some (config, resolution))
    × IsRows config.range_in_bins p.data_buffer
    × (2 ≤ p.bins_to_operate_on)
    × (offset_of p.bins_to_operate_on ≤ p.min_bin_to_operate_on)
    × (config.range_in_bins < 2 ^ 16)

module _ (d : Doubles) where
  length-as_doubles : (bytes : List ℕ) → length (as_doubles d bytes) ≡ length bytes
  length-as_doubles [] = refl
  length-as_doubles (b ∷ bs) = ap suc (length-as_doubles bs)

  total_at-some :
      (n bin : ℕ) (rows : List (List ℕ)) (total : ℕ)
      → IsRows n rows
      → bin < n
      → (v : ℕ) × (total_at d bin rows total ≡ some v)
  unfolding total_at
  total_at-some n bin [] total h hb = (total, refl)
  total_at-some n bin (row ∷ rows) total (h, hs) hb =
      let (value, e) = get_elem?-lt row bin (omega arith) in
      rw e (total_at-some n bin rows (d.power_added total (d.halved value)) hs hb)

  averages-some :
      (m : ℕ) (rows : List (List ℕ)) (bin n : ℕ)
      → IsRows m rows
      → bin + n ≤ m
      → (bins : List ℕ) × (averages d rows bin n ≡ some bins) × (length bins ≡ n)
  unfolding averages
  averages-some m rows bin zero h hb = ([], refl, refl)
  averages-some m rows bin (suc n) h hb =
      let (total, e) = total_at-some m bin rows (d.of_number 0) h (omega arith) in
      let (rest, e', len) = averages-some m rows (suc bin) n h (omega arith) in
      (d.decibels total (length rows) ∷ rest, rw (e, e'), ap suc len)

  max_at-some :
      (n bin : ℕ) (rows : List (List ℕ)) (so_far : ℕ)
      → IsRows n rows
      → bin < n
      → (v : ℕ) × (max_at d bin rows so_far ≡ some v)
  unfolding max_at
  max_at-some n bin [] so_far h hb = (so_far, refl)
  max_at-some n bin (row ∷ rows) so_far (h, hs) hb =
      let (value, e) = get_elem?-lt row bin (omega arith) in
      rw e (
        max_at-some n bin rows (if d.less so_far (d.halved value) then d.halved value else so_far)
          hs hb)

  maxima-some :
      (m : ℕ) (rows : List (List ℕ)) (so_far bin n : ℕ)
      → IsRows m rows
      → bin + n ≤ m
      → (bins : List ℕ) × (maxima d rows so_far bin n ≡ some bins) × (length bins ≡ n)
  unfolding maxima
  maxima-some m rows so_far bin zero h hb = ([], refl, refl)
  maxima-some m rows so_far bin (suc n) h hb =
      let (highest, e) = max_at-some m bin rows so_far h (omega arith) in
      let (rest, e', len) = maxima-some m rows highest (suc bin) n h (omega arith) in
      (highest ∷ rest, rw (e, e'), ap suc len)

  combine-some :
      (mode : BufferMode) (rows : List (List ℕ)) (n : ℕ)
      → IsRows n rows
      → (bins : List ℕ) × (combine d mode rows n ≡ some bins) × (length bins ≡ n)
  unfolding combine
  combine-some BufferMode.off rows n h = maxima-some n rows (d.of_number 0) 0 n h (omega arith)
  combine-some BufferMode.average rows n h = averages-some n rows 0 n h (omega arith)
  combine-some BufferMode.maximum rows n h = maxima-some n rows (d.of_number 0) 0 n h (omega arith)

  module _ (config : ConfigurationReport) (resolution : ℕ) (fft : FftReport) where
    -- What find_peaks() looks at when it is called: the azimuth, or what the mode makes of the buffer.
    abbrev pub searched : PeakFinder → Option (List ℕ)
    searched p =
        if is_off d p.buffer_mode
        then some (as_doubles d fft.fft_bytes)
        else combine d p.buffer_mode (p.data_buffer ++ (as_doubles d fft.fft_bytes ∷ []))
            config.range_in_bins

    -- The report for the azimuth.
    abbrev pub report_of : List Target → AzimuthTarget
    report_of targets = record {
      azimuth = fft.azimuth;
      angle = fft.angle;
      targets = targets;
      ntp_seconds = fft.ntp_seconds;
      ntp_split_seconds = fft.ntp_split_seconds;
    }

    -- Nothing is reported, or the azimuth with one target or more, each a peak of the data.
    abbrev pub Reports : List ℕ → PeakFinder → PeakFinder → Type 0
    Reports bins p p' =
        (p'.reports ≡ p.reports)
        ⊎ ((ts : List Target) × (p'.reports ≡ p.reports ++ (report_of ts ∷ []))
            × (p.has_callback ≡ true)
            × (0 < length ts)
            × (length ts ≤ max p.max_peaks_per_azimuth 1)
            × All (IsTarget d (settings_of p config resolution) bins) ts)

    -- The finder after find_peaks() found the targets.
    abbrev after_find : PeakFinder → List Target → Bool → Bool → PeakFinder
    after_find p ts awaiting b =
        if not (is_empty ts) && b
        then record p { awaiting_rise = awaiting; reports = p.reports ++ (report_of ts ∷ []) }
        else record p { awaiting_rise = awaiting }

    report_if :
        (bins : List ℕ) (p : PeakFinder) (ts : List Target) (awaiting : Bool) (b : Bool)
        → p.has_callback ≡ b
        → length ts ≤ max p.max_peaks_per_azimuth 1
        → All (IsTarget d (settings_of p config resolution) bins) ts
        → Reports bins p (after_find p ts awaiting b)
    report_if bins p [] aw b e hl ha = inl refl
    report_if bins p (t ∷ ts) aw true e hl ha = inr (t ∷ ts, refl, e, omega arith, hl, ha)
    report_if bins p (t ∷ ts) aw false e hl ha = inl refl

    after_find-IsReady :
        (p : PeakFinder) (ts : List Target) (awaiting b : Bool)
        → IsReady config resolution p
        → IsReady config resolution (after_find p ts awaiting b)
    after_find-IsReady p [] aw b h = h
    after_find-IsReady p (t ∷ ts) aw true h = h
    after_find-IsReady p (t ∷ ts) aw false h = h

    find_peaks-Reports :
        (bins : List ℕ) (p : PeakFinder)
        → IsReady config resolution p
        → length bins ≡ config.range_in_bins
        → (p' : PeakFinder) × (find_peaks d config resolution fft bins p ≡ some p')
          × IsReady config resolution p'
          × Reports bins p p'
    unfolding find_peaks
    find_peaks-Reports bins p (hc, hr, hb, ho, hw) len =
        let (ts, aw, e, hl, ha) =
          targets_of-Ends d (settings_of p config resolution) bins (omega arith) hw hb ho in
        (
          after_find p ts aw p.has_callback,
          rw e refl,
          after_find-IsReady p ts aw p.has_callback (hc, hr, hb, ho, hw),
          report_if bins p ts aw p.has_callback refl hl ha,
        )

    -- The handler once the configuration is there.
    handler-configured :
        (p : PeakFinder)
        → p.configuration ≡ some (config, resolution)
        → fft_data_handler d fft p ≡ (
            if not (length fft.fft_bytes == config.range_in_bins)
            then some p
            else if is_off d p.buffer_mode
            then find_peaks d config resolution fft (as_doubles d fft.fft_bytes) p
            else buffer_data d config resolution fft p)
    unfolding fft_data_handler
    handler-configured p hc =
        ap
          (λ (o : Option (ConfigurationReport × ℕ)). o >>= λ (c, r).
            if not (length fft.fft_bytes == c.range_in_bins)
            then some p
            else if is_off d p.buffer_mode
            then find_peaks d c r fft (as_doubles d fft.fft_bytes) p
            else buffer_data d c r fft p)
          hc

    handler-off :
        (p : PeakFinder)
        → IsReady config resolution p
        → length fft.fft_bytes ≡ config.range_in_bins
        → is_off d p.buffer_mode ≡ true
        → (p' : PeakFinder) × (fft_data_handler d fft p ≡ some p')
          × IsReady config resolution p'
          × ((p'.reports ≡ p.reports)
              ⊎ ((bins : List ℕ) × (searched p ≡ some bins) × Reports bins p p'))
    handler-off p (hc, hr, hb, ho, hw) len off =
        let right : (length fft.fft_bytes == config.range_in_bins) ≡ true = ground arith in
        let bins = as_doubles d fft.fft_bytes in
        let (p', e, ready, reports) =
          find_peaks-Reports bins p (hc, hr, hb, ho, hw) (length-as_doubles fft.fft_bytes ∙ len) in
        (p', handler-configured p hc ∙ rw (right, off) e, ready, inr (bins, rw off refl, reports))

    handler-buffers :
        (p : PeakFinder)
        → IsReady config resolution p
        → length fft.fft_bytes ≡ config.range_in_bins
        → is_off d p.buffer_mode ≡ false
        → (p' : PeakFinder) × (fft_data_handler d fft p ≡ some p')
          × IsReady config resolution p'
          × ((p'.reports ≡ p.reports)
              ⊎ ((bins : List ℕ) × (searched p ≡ some bins) × Reports bins p p'))
    unfolding buffer_data
    handler-buffers p (hc, hr, hb, ho, hw) len on =
        let right : (length fft.fft_bytes == config.range_in_bins) ≡ true = ground arith in
        let row = as_doubles d fft.fft_bytes in
        let rows = p.data_buffer ++ (row ∷ []) in
        let hs : IsRows config.range_in_bins rows =
          All-append (λ r. length r ≡ config.range_in_bins) p.data_buffer (row ∷ []) hr
            (length-as_doubles fft.fft_bytes ∙ len, tt) in
        elim (Bool-cases (ltb (length rows) p.buffer_length)) [
          | inl more ↦ (
            record p { data_buffer = rows },
            handler-configured p hc ∙ rw (right, on, more) refl,
            (hc, hs, hb, ho, hw),
            inl refl,
          )
          | inr enough ↦
              let (bins, e, lb) = combine-some p.buffer_mode rows config.range_in_bins hs in
              let (p', e', ready, reports) =
                find_peaks-Reports bins (record p { data_buffer = [] }) (hc, tt, hb, ho, hw) lb in
              (
                p',
                handler-configured p hc ∙ rw (right, on, enough, e) e',
                ready,
                inr (bins, rw on e, reports),
              )
        ]

    -- With a finder that is ready, the handler returns whatever the length of the azimuth and the mode:
    -- it reads nothing outside the buffer, and the finder is ready for the next azimuth. It reports
    -- nothing, or the azimuth's number, angle and time with one target or more, at most
    -- max_peaks_per_azimuth (or one if that is 0), each of which is a peak of the azimuth's data or of
    -- what the mode makes of the buffered rows and this one; that only with a callback set.
    pub fft_data_handler-IsReady :
        (p : PeakFinder)
        → IsReady config resolution p
        → (p' : PeakFinder) × (fft_data_handler d fft p ≡ some p')
          × IsReady config resolution p'
          × ((p'.reports ≡ p.reports)
              ⊎ ((bins : List ℕ) × (searched p ≡ some bins) × Reports bins p p'))
    fft_data_handler-IsReady p ready =
        elim (Bool-cases (length fft.fft_bytes == config.range_in_bins)) [
          | inl right ↦
              let len = eq→≡ (length fft.fft_bytes) config.range_in_bins right in
              elim (Bool-cases (is_off d p.buffer_mode)) [
                | inl off ↦ handler-off p ready len off
                | inr on ↦ handler-buffers p ready len on
              ]
          | inr wrong ↦ (p, handler-configured p ready.0 ∙ rw wrong refl, ready, inl refl)
        ]
