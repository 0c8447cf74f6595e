-- ===== src/Ros2/BScan/Rows.antt =====
-- The row of an azimuth in the values of B_scan_colossus_publisher.
use navtechradar.Base.{
  ℕ, suc, ◌*◌, ◌≤◌, ◌≡◌, refl, sym, ap, ◌∙◌, arith, inl, inr, List, [], ◌∷◌, ◌++◌, some,
  append_assoc,
}
use navtechradar.Base.{
  length, set_elem?, >>=-some, Bool-cases, length-append, length-replicate, set_elem?-append,
}
use navtechradar.RadarClient.{FftReport}
use navtechradar.Ros2.Window.{Window, adjusted_azimuth_index, has_azimuth}
use navtechradar.Ros2.BScan.{Publisher, write_row, windowed, row_of, collect}

pub write_row-append :
    (row front mid back : List ℕ) (place : ℕ)
    → length front ≡ place
    → length mid ≡ length row
    → write_row place row (front ++ (mid ++ back)) ≡ some (front ++ (row ++ back))
unfolding write_row
write_row-append [] front [] back place hf hm = refl
write_row-append [] front (m ∷ mid) back place hf hm = absurd (omega arith)
write_row-append (v ∷ row) front [] back place hf hm = absurd (omega arith)
write_row-append (v ∷ row) front (m ∷ mid) back place hf hm =
    let set : set_elem? (front ++ (m ∷ mid ++ back)) place v ≡ some (front ++ (v ∷ mid ++ back)) =
      ap (λ (k : ℕ). set_elem? (front ++ (m ∷ mid ++ back)) k v) (sym hf)
      ∙ set_elem?-append front m (mid ++ back) v in
    >>=-some (write_row (suc place) row) set
    ∙ ap (write_row (suc place) row) (sym (append_assoc front (v ∷ []) (mid ++ back)))
    ∙ write_row-append row (front ++ (v ∷ [])) mid back (suc place)
        (omega (arith, length-append front (v ∷ []))) (omega arith)
    ∙ ap some (append_assoc front (v ∷ []) (row ++ back))

pub length-windowed :
    (w : Window) (y : ℕ) (bytes : List ℕ) → length (windowed w y bytes) ≡ length bytes
length-windowed w y [] = refl
length-windowed w y (byte ∷ bytes) = ap suc (length-windowed w (suc y) bytes)

module _ (azimuth_index : ℕ → ℕ → ℕ) where
  pub length-row_of :
      (fft : FftReport) (s : Publisher)
      → length fft.fft_bytes ≤ s.range_in_bins
      → length (row_of azimuth_index fft s) ≤ s.range_in_bins
  length-row_of fft s small =
      elim (Bool-cases (has_azimuth s.window (azimuth_index fft.angle s.azimuth_samples))) [
        | inl e ↦ rw e (omega (arith, length-windowed s.window 0 fft.fft_bytes))
        | inr e ↦ rw e (omega (arith, length-replicate {A = ℕ} s.range_in_bins 0))
      ]

  -- Where the values are those of the rows before the adjusted azimuth, then as many values as are
  -- written of the message, then others, the handler replaces these and only these: by the bytes of the
  -- message, with 0 in the bins outside the window, or by a 0 for each bin if the azimuth is not in the
  -- window.
  pub collect-row :
      (fft : FftReport) (s : Publisher) (front mid back : List ℕ)
      → s.intensity_values ≡ front ++ (mid ++ back)
      → length front
        ≡ adjusted_azimuth_index s.window s.azimuth_samples
            (azimuth_index fft.angle s.azimuth_samples)
          * s.range_in_bins
      → length mid ≡ length (row_of azimuth_index fft s)
      → collect azimuth_index fft s
        ≡ some (record s { intensity_values = front ++ (row_of azimuth_index fft s ++ back) })
  unfolding collect
  collect-row fft s front mid back held hf hm =
      let place =
        adjusted_azimuth_index s.window s.azimuth_samples
          (azimuth_index fft.angle s.azimuth_samples)
        * s.range_in_bins in
      >>=-some (λ values. some (record s { intensity_values = values }))
        (ap (write_row place (row_of azimuth_index fft s)) held
          ∙ write_row-append (row_of azimuth_index fft s) front mid back place hf hm)
