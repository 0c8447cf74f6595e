-- ===== src/PeakFinder/Targets.antt =====
-- find_peaks on data of the configured length: it ends, reads nothing outside the data, and reports
-- targets that are peaks.
use navtechradar.Base.{
  ℕ, zero, suc, ◌+◌, ◌-◌, ◌%◌, ◌^◌, ◌<◌, ◌≤◌, ◌≡◌, refl, max, arith, Bool, true, false, List, [],
  ◌∷◌, ◌++◌, Option, none, some,
}
use navtechradar.Base.{
  ltb, leb, ◌==◌, length, length-append, if◌then◌else◌, All, Bool-cases, inl, inr,
}
use navtechradar.Base.Bytes.{All-append}
use navtechradar.PeakFinder.Arithmetic.{Doubles}
use navtechradar.PeakFinder.Resolve.{fit, x_values, y_values, peak_resolve, offset_of}
use navtechradar.PeakFinder.Search.{
  Target, Settings, is_outside, range_of, target_at, after_target, peaks_loop, targets_of,
}
use navtechradar.PeakFinder.Peaks.{at, is_peak, get_elem?-at, find_peak_bin_sound}

module _ (d : Doubles) (s : Settings) (bins : List ℕ) where
  y_values-in_range :
      (peak_bin offset index n : ℕ)
      → offset ≤ peak_bin
      → peak_bin + index + n ≤ length bins + offset
      → (ys : List ℕ) × (y_values bins peak_bin offset index n ≡ some ys)
  unfolding y_values
  y_values-in_range peak_bin offset index zero h hn = ([], refl)
  y_values-in_range peak_bin offset index (suc n) h hn =
      let inside : ltb (peak_bin + index) offset ≡ false = ground arith in
      let y = get_elem?-at d s.threshold bins (peak_bin + index - offset) (omega arith) in
      let (ys, e) = y_values-in_range peak_bin offset (suc index) n h (omega arith) in
      (at d s.threshold bins (peak_bin + index - offset) ∷ ys, rw (inside, y, e))

  -- A target that is a peak in the data, within the range in which targets are reported.
  abbrev pub IsTarget : Target → Type 0
  IsTarget t =
      (p : ℕ) × (s.min_bin_to_operate_on ≤ p)
      × (p + s.bins_to_operate_on ≤ s.range_in_bins)
      × (is_peak d s.threshold bins p ≡ true)
      × (t.power ≡ at d s.threshold bins p)
      × (is_outside d s t.range ≡ false)

  abbrev Found : Option Target → Type 0
  Found none = Unit {0}
  Found (some t) = IsTarget t

  target-Found :
      (p range : ℕ) (b : Bool)
      → is_outside d s range ≡ b
      → s.min_bin_to_operate_on ≤ p
      → p + s.bins_to_operate_on ≤ s.range_in_bins
      → is_peak d s.threshold bins p ≡ true
      → Found (if b then none else some (record { range = range; power = at d s.threshold bins p }))
  target-Found p range true e h hp hk = tt {0}
  target-Found p range false e h hp hk = (p, h, hp, hk, refl, e)

  peak_resolve-in_range :
      (p b : ℕ)
      → offset_of b ≤ p
      → p + b ≤ length bins
      → (v : ℕ) × (peak_resolve d bins p b ≡ some v)
  unfolding peak_resolve
  peak_resolve-in_range p b ho hb =
      let (ys, e) = y_values-in_range p (offset_of b) 0 b ho (omega arith) in
      (
        d.minus
            (d.plus (fit d b (x_values d (offset_of b) 0 b) ys) (d.of_difference p (offset_of b)))
            (d.of_difference 0 (offset_of b)),
        rw e,
      )

  target_at-Found :
      (p : ℕ)
      → s.range_in_bins ≤ length bins
      → 2 ≤ s.bins_to_operate_on
      → offset_of s.bins_to_operate_on ≤ s.min_bin_to_operate_on
      → s.min_bin_to_operate_on ≤ p
      → p + s.bins_to_operate_on ≤ s.range_in_bins
      → is_peak d s.threshold bins p ≡ true
      → (o : Option Target) × (target_at d s bins p ≡ some o) × Found o
  unfolding target_at
  target_at-Found p hr hb ho hm hp hk =
      let (v, e) = peak_resolve-in_range p s.bins_to_operate_on (omega arith) (omega arith) in
      (
        _,
        rw (e, get_elem?-at d s.threshold bins p (omega arith)),
        target-Found p (range_of d s v) (is_outside d s (range_of d s v)) refl hm hp hk,
      )

  -- The loop ends with targets that are peaks, and no more than allowed.
  abbrev Ends : Option (List Target × Bool) → Type 0
  Ends o =
      (ts : List Target) × (flag : Bool) × (o ≡ some (ts, flag))
      × (length ts ≤ max s.max_peaks_per_azimuth 1)
      × All IsTarget ts

  after_target-Ends :
      (ts : List Target) (o : Option Target) (flag : Bool)
      (more : List Target → Option (List Target × Bool))
      → Found o
      → length ts < max s.max_peaks_per_azimuth 1
      → All IsTarget ts
      → ((ts' : List Target)
          → length ts' < max s.max_peaks_per_azimuth 1
          → All IsTarget ts'
          → Ends (more ts'))
      → Ends (elim (after_target d s ts o).1 [
        | true ↦ some ((after_target d s ts o).0, flag)
        | false ↦ more (after_target d s ts o).0
      ])
  unfolding after_target
  after_target-Ends ts none flag more f hl ha again = again ts hl ha
  after_target-Ends ts (some t) flag more f hl ha again =
      let all : All IsTarget (ts ++ (t ∷ [])) = All-append IsTarget ts (t ∷ []) ha (f, tt) in
      elim (Bool-cases (leb s.max_peaks_per_azimuth (suc (length ts)))) [
        | inl enough ↦
            rw enough (ts ++ (t ∷ []), flag, refl, ground (arith, length-append ts (t ∷ [])), all)
        | inr room ↦
            rw room (again (ts ++ (t ∷ [])) (ground (arith, length-append ts (t ∷ []))) all)
      ]

  peaks_loop-Ends :
      (fuel start_bin : ℕ) (awaiting_rise : Bool) (targets : List Target)
      → s.range_in_bins ≤ length bins
      → s.range_in_bins < 2 ^ 16
      → 2 ≤ s.bins_to_operate_on
      → offset_of s.bins_to_operate_on ≤ s.min_bin_to_operate_on
      → s.min_bin_to_operate_on ≤ start_bin
      → s.range_in_bins < start_bin + fuel
      → 0 < fuel
      → length targets < max s.max_peaks_per_azimuth 1
      → All IsTarget targets
      → Ends (peaks_loop d s fuel bins start_bin awaiting_rise targets)
  unfolding peaks_loop
  peaks_loop-Ends zero start_bin aw ts hr hw hb ho hm hf h0 hl ha = absurd (omega arith)
  peaks_loop-Ends (suc fuel) start_bin aw ts hr hw hb ho hm hf h0 hl ha =
      let (p, flag, e, where_p) =
        find_peak_bin_sound d s.threshold bins start_bin s.range_in_bins s.bins_to_operate_on aw hr
          hb in
      elim where_p [
        | inl at_end ↦
            let stop : ltb p s.range_in_bins ≡ false = ground arith in
            rw (e, stop) (ts, flag, refl, omega arith, ha)
        | inr (lo, hi, peak) ↦
            let (o, et, found) = target_at-Found p hr hb ho (omega arith) hi peak in
            let go_on : ltb p s.range_in_bins ≡ true = ground arith in
            let next : ℕ = (p + s.bins_to_operate_on) % 2 ^ 16 in
            rw (e, go_on, et)
              (after_target-Ends ts o flag (λ ts'. peaks_loop d s fuel bins next flag ts') found hl
                ha
                (λ ts' hl' ha'.
                  peaks_loop-Ends fuel next flag ts' hr hw hb ho (omega arith) (omega arith)
                    (omega arith) hl' ha'))
      ]

  -- On data of at least range_in_bins bins, with at least two bins to operate on and a first bin that
  -- leaves room for the parabola, find_peaks ends and reads nothing outside the data. Its targets are
  -- peaks above the threshold with the power of their bin and a range within the limits, and there are
  -- at most max_peaks_per_azimuth of them, or one if that is 0.
  pub targets_of-Ends :
      s.range_in_bins ≤ length bins
      → s.range_in_bins < 2 ^ 16
      → 2 ≤ s.bins_to_operate_on
      → offset_of s.bins_to_operate_on ≤ s.min_bin_to_operate_on
      → (ts : List Target) × (flag : Bool) × (targets_of d s bins ≡ some (ts, flag))
        × (length ts ≤ max s.max_peaks_per_azimuth 1)
        × All IsTarget ts
  unfolding targets_of
  targets_of-Ends hr hw hb ho = elim (Bool-cases (s.range_in_bins == 0)) [
    | inl nothing ↦ rw nothing ([], false, refl, omega arith, tt)
    | inr something ↦ rw something (
        peaks_loop-Ends (suc s.range_in_bins) s.min_bin_to_operate_on false [] hr hw hb ho
          (omega arith) (omega arith) (omega arith) (omega arith) tt)
  ]
