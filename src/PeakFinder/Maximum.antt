-- ===== src/PeakFinder/Maximum.antt =====
-- The mode BufferModes::max of fft_data_handler: the data that it hands to find_peaks.
use navtechradar.Base.{
  subst, ℕ, zero, suc, ◌<◌, ◌≤◌, ◌≡◌, refl, sym, ap, ◌∙◌, arith, Bool, true, false, ◌&&◌, List, [],
  ◌∷◌, ◌++◌, some,
}
use navtechradar.Base.{
  length, get_elem?, if◌then◌else◌, All, Bool-cases, Option-cases, ◌⊎◌, inl, inr,
}
use navtechradar.RadarClient.{FftReport, ConfigurationReport}
use navtechradar.PeakFinder.Arithmetic.{Doubles}
use navtechradar.PeakFinder.Search.{Target}
use navtechradar.PeakFinder.Peaks.{at, falls}
use navtechradar.PeakFinder.Targets.{IsTarget}
use navtechradar.PeakFinder.Buffer.{IsReady, fft_data_handler-IsReady}
use navtechradar.PeakFinder.{
  PeakFinder, BufferMode, settings_of, max_at, maxima, combine, as_doubles, fft_data_handler,
}

not_both : (a b : Bool) → b ≡ false → (a && b) ≡ true → ⊥
not_both true b e h = let both = sym e ∙ h in cc
not_both false b e h = cc

module _ (d : Doubles) (less_asym : (a b : ℕ) → d.less a b ≡ true → d.less b a ≡ false)
    (less_trans : (a b c : ℕ) → d.less a b ≡ true → d.less b c ≡ true → d.less a c ≡ true) where
  -- The second is the first, or greater.
  abbrev Rises : ℕ → ℕ → Type 0
  Rises a b = (b ≡ a) ⊎ (d.less a b ≡ true)

  Rises-trans : (a b c : ℕ) → Rises a b → Rises b c → Rises a c
  Rises-trans a b c (inl e) k = subst (λ x. Rises x c) e k
  Rises-trans a b c (inr h) (inl e) = inr (rw e h)
  Rises-trans a b c (inr h) (inr k) = inr (less_trans a b c h k)

  Rises-false : (a b : ℕ) → Rises a b → d.less b a ≡ false
  Rises-false a b (inr h) = less_asym a b h
  Rises-false a b (inl e) = elim (Bool-cases (d.less a a)) [
    | inl h ↦ rw e (less_asym a a h)
    | inr h ↦ rw e h
  ]

  if-Rises : (a b : ℕ) → Rises a (if d.less a b then b else a)
  if-Rises a b = elim (Bool-cases (d.less a b)) [ inl h ↦ rw h (inr h) | inr h ↦ rw h (inl refl) ]

  max_at-Rises :
      (bin : ℕ) (rows : List (List ℕ)) (so_far v : ℕ)
      → max_at d bin rows so_far ≡ some v
      → Rises so_far v
  unfolding max_at
  max_at-Rises bin [] so_far v e = inl cc
  max_at-Rises bin (row ∷ rows) so_far v e = elim (Option-cases (get_elem? row bin)) [
    | inl outside ↦ absurd (let h = rw outside at e in cc)
    | inr (value, inside) ↦
        let next = if d.less so_far (d.halved value) then d.halved value else so_far in
        Rises-trans so_far next v (if-Rises so_far (d.halved value))
          (max_at-Rises bin rows next v (rw inside at e))
  ]

  abbrev Climbs : ℕ → List ℕ → Type 0
  Climbs a [] = Unit {0}
  Climbs a (b ∷ bs) = Rises a b × Climbs b bs

  maxima-Climbs :
      (rows : List (List ℕ)) (so_far bin n : ℕ) (bins : List ℕ)
      → maxima d rows so_far bin n ≡ some bins
      → Climbs so_far bins × (length bins ≡ n)
  unfolding maxima
  maxima-Climbs rows so_far bin zero [] e = (tt, refl)
  maxima-Climbs rows so_far bin zero (b ∷ bs) e = absurd cc
  maxima-Climbs rows so_far bin (suc n) bins e = elim (Option-cases (max_at d bin rows so_far)) [
    | inl outside ↦ absurd (let h = rw outside at e in cc)
    | inr (highest, inside) ↦ elim (Option-cases (maxima d rows highest (suc bin) n)) [
      | inl outside ↦ absurd (let h = rw (inside, outside) at e in cc)
      | inr (rest, found) ↦
          let (climbs, len) = maxima-Climbs rows highest (suc bin) n rest found in
          subst (λ bs. Climbs so_far bs × (length bs ≡ suc n))
            (let h = rw (inside, found) at e in let same : highest ∷ rest ≡ bins = cc in same)
            ((max_at-Rises bin rows so_far highest inside, climbs), ap suc len)
    ]
  ]

  Climbs-falls :
      (threshold a : ℕ) (bins : List ℕ) (i : ℕ)
      → Climbs a bins
      → suc i < length bins
      → falls d threshold bins i ≡ false
  Climbs-falls threshold a [] i h hi = absurd (omega arith)
  Climbs-falls threshold a (b ∷ []) i h hi = absurd (omega arith)
  Climbs-falls threshold a (b ∷ c ∷ bs) zero (h, (k, hs)) hi = Rises-false b c k
  Climbs-falls threshold a (b ∷ c ∷ bs) (suc i) (h, hs) hi =
      Climbs-falls threshold b (c ∷ bs) i hs (omega arith)

  combine-falls :
      (rows : List (List ℕ)) (n : ℕ) (bins : List ℕ) (threshold i : ℕ)
      → combine d BufferMode.maximum rows n ≡ some bins
      → suc i < n
      → falls d threshold bins i ≡ false
  unfolding combine
  combine-falls rows n bins threshold i e hi =
      let (climbs, len) = maxima-Climbs rows (d.of_number 0) 0 n bins e in
      Climbs-falls threshold (d.of_number 0) bins i climbs (omega arith)

  no_target :
      (config : ConfigurationReport) (resolution : ℕ) (p : PeakFinder) (rows : List (List ℕ))
      → (bins : List ℕ) (ts : List Target) → 2 ≤ p.bins_to_operate_on
      → combine d BufferMode.maximum rows config.range_in_bins ≡ some bins
      → All (IsTarget d (settings_of p config resolution) bins) ts
      → 0 < length ts
      → ⊥
  no_target config resolution p rows bins [] hb e peaks h = omega arith
  no_target config resolution p rows bins (t ∷ ts) hb e ((i, lo, hi, peak, power, inside), peaks)
        h =
      let no_fall = combine-falls rows config.range_in_bins bins p.threshold i e (omega arith) in
      not_both (d.less p.threshold (at d p.threshold bins i)) (falls d p.threshold bins i) no_fall
        peak

  -- In the mode for the maximum, a ready finder handles every azimuth and stays ready, but never
  -- reports a target, whatever it has buffered: the running maximum is carried from bin to bin, so
  -- the data that find_peaks() is given never falls. It holds for an order on the doubles that is
  -- asymmetric and transitive.
  pub fft_data_handler-maximum :
      (config : ConfigurationReport) (resolution : ℕ) (fft : FftReport) (p : PeakFinder)
      → IsReady config resolution p
      → p.buffer_mode ≡ BufferMode.maximum
      → (p' : PeakFinder) × (fft_data_handler d fft p ≡ some p')
        × IsReady config resolution p'
        × (p'.reports ≡ p.reports)
  fft_data_handler-maximum config resolution fft p ready mode =
      let (p', e, ready', cases) = fft_data_handler-IsReady d config resolution fft p ready in
      (
        p',
        e,
        ready',
        elim cases [
          | inl nothing ↦ nothing
          | inr (bins, found, reports) ↦ elim reports [
            | inl nothing ↦ nothing
            | inr (ts, reported, fn, some_target, few, peaks) ↦ absurd (
                no_target config resolution p (p.data_buffer ++ (as_doubles d fft.fft_bytes ∷ []))
                  bins ts ready.2 (rw mode at found) peaks some_target)
          ]
        ],
      )
