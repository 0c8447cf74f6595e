-- ===== src/PeakFinder/Peaks.antt =====
-- Which bin find_peak_bin finds, by a description that does not scan with a flag.
use navtechradar.Base.{
  ℕ, zero, suc, ◌+◌, ◌-◌, ◌<◌, ◌≤◌, ◌≡◌, refl, sym, ap, ◌∙◌, arith, Bool, true, false, ◌&&◌, List,
  [], ◌∷◌, Option, none, some, ◌>>=◌,
}
use navtechradar.Base.{
  subst, ◌⊎◌, ltb, ◌==◌, length, get_elem?, if◌then◌else◌, Bool-cases, inl, inr,
}
use navtechradar.PeakFinder.Arithmetic.{Doubles}
use navtechradar.PeakFinder.Search.{falls_at, peaks_at, scan_bins, find_peak_bin}

pub get_elem?-lt {ℓ} :
    {A : Type ℓ} (xs : List A) (i : ℕ) → i < length xs → (a : A) × (get_elem? xs i ≡ some a)
get_elem?-lt [] i h = absurd (omega arith)
get_elem?-lt (x ∷ xs) zero h = (x, refl)
get_elem?-lt (x ∷ xs) (suc i) h = get_elem?-lt xs i (omega arith)

abbrev pub or_zero : Option ℕ → ℕ
or_zero none = 0
or_zero (some a) = a

-- From `bin` on, the first of `n` bins that passes a test.
pub first_bin : (ℕ → Bool) → ℕ → ℕ → Option ℕ
first_bin test bin zero = none
first_bin test bin (suc n) =
    let rest = first_bin test (suc bin) n in if test bin then some bin else rest

-- How many of `n` bins pass a test, from `bin` on, before one does not.
pub run_of : (ℕ → Bool) → ℕ → ℕ → ℕ
run_of test bin zero = 0
run_of test bin (suc n) = let rest = run_of test (suc bin) n in if test bin then suc rest else 0

pub first_bin_sound :
    (test : ℕ → Bool) (bin n p : ℕ)
    → first_bin test bin n ≡ some p
    → (bin ≤ p) × (p < bin + n) × (test p ≡ true)
unfolding first_bin
first_bin_sound test bin zero p e = cc
first_bin_sound test bin (suc n) p e = elim (Bool-cases (test bin)) [
  | inl now ↦ ground (arith, now)
  | inr later ↦
      let (lo, hi, t) = first_bin_sound test (suc bin) n p (rw later at e) in
      (omega arith, omega arith, t)
]

pub run_of-le : (test : ℕ → Bool) (bin n : ℕ) → run_of test bin n ≤ n
unfolding run_of
run_of-le test bin zero = omega arith
run_of-le test bin (suc n) = ground (arith, run_of-le test (suc bin) n)

module _ (d : Doubles) (threshold : ℕ) (bins : List ℕ) where
  -- The data at a bin; what it is outside plays no part below.
  abbrev pub at : ℕ → ℕ
  at bin = or_zero (get_elem? bins bin)

  abbrev pub falls : ℕ → Bool
  falls bin = d.less (at (suc bin)) (at bin)

  abbrev pub is_peak : ℕ → Bool
  is_peak bin = d.less threshold (at bin) && falls bin

  pub get_elem?-at : (bin : ℕ) → bin < length bins → get_elem? bins bin ≡ some (at bin)
  get_elem?-at bin h = let (a, e) = get_elem?-lt bins bin h in e ∙ ap some (ap or_zero (sym e))

  falls_at-in_range : (bin : ℕ) → suc bin < length bins → falls_at d bins bin ≡ some (falls bin)
  falls_at-in_range bin h = λ i. get_elem?-at bin (omega arith) i >>= λ a.
      get_elem?-at (suc bin) h i >>= λ b. some (d.less b a)

  peaks_at-in_range :
      (bin : ℕ) → suc bin < length bins → peaks_at d threshold bins bin ≡ some (is_peak bin)
  peaks_at-in_range bin h =
      ap
        (λ (o : Option ℕ).
          o >>= λ a. if d.less threshold a then falls_at d bins bin else some false)
        (get_elem?-at bin (omega arith))
      ∙ elim (Bool-cases (d.less threshold (at bin))) [
        | inl high ↦ rw high (falls_at-in_range bin h)
        | inr low ↦ rw low
      ]

  -- The bin that was found, or the end, with the flag that is left.
  abbrev pub outcome_of : ℕ → Bool → Option ℕ → Option (ℕ × Bool)
  outcome_of end_bin flag none = some (end_bin, flag)
  outcome_of end_bin flag (some p) = some (p, true)

  -- Without the flag: the first peak.
  scan_bins-ready :
      (end_bin n bin : ℕ)
      → bin + n < length bins
      → scan_bins d threshold bins end_bin n bin false
        ≡ outcome_of end_bin false (first_bin is_peak bin n)
  unfolding scan_bins first_bin
  scan_bins-ready end_bin zero bin h = refl
  scan_bins-ready end_bin (suc n) bin h =
      let later = scan_bins-ready end_bin n (suc bin) (omega arith) in
      rw (peaks_at-in_range bin (omega arith))
        (elim (Bool-cases (is_peak bin)) [ inl now ↦ rw now | inr not_yet ↦ rw not_yet later ])

  -- With the flag: the first peak behind the bins that still fall.
  scan_bins-awaiting :
      (end_bin n bin : ℕ)
      → bin + n < length bins
      → scan_bins d threshold bins end_bin n bin true
        ≡ outcome_of end_bin
            (run_of falls bin n == n)
            (first_bin is_peak (bin + run_of falls bin n) (n - run_of falls bin n))
  unfolding scan_bins first_bin run_of
  scan_bins-awaiting end_bin zero bin h = refl
  scan_bins-awaiting end_bin (suc n) bin h = elim (Bool-cases (falls bin)) [
    | inl still ↦
        let k = run_of falls (suc bin) n in
        let same : (k == n) ≡ (suc k == suc n) = ground arith in
        let from : suc bin + k ≡ bin + suc k = omega arith in
        let left : n - k ≡ suc n - suc k = omega arith in
        rw (falls_at-in_range bin (omega arith), still)
          (scan_bins-awaiting end_bin n (suc bin) (omega arith)
            ∙ (λ i. outcome_of end_bin (same i) (first_bin is_peak (from i) (left i))))
    | inr over ↦
        let r : ℕ = run_of falls bin (suc n) in
        let nothing : r ≡ 0 = rw over in
        let same : false ≡ (r == suc n) = ground arith in
        let from : bin ≡ bin + r = omega arith in
        let left : suc n ≡ suc n - r = omega arith in
        ap
          (λ (o : Option Bool). o >>= λ still_falls.
            (if still_falls then some false else peaks_at d threshold bins bin) >>= λ found.
            if found
            then some (bin, true)
            else scan_bins d threshold bins end_bin n (suc bin) still_falls)
          (falls_at-in_range bin (omega arith) ∙ ap some over)
        ∙ scan_bins-ready end_bin (suc n) bin h
        ∙ (λ i. outcome_of end_bin (same i) (first_bin is_peak (from i) (left i)))
  ]

  -- How many bins find_peak_bin passes over while the flag is set.
  abbrev pub passed_over : ℕ → ℕ → Bool → ℕ
  passed_over start_bin rounds true = run_of falls start_bin rounds
  passed_over start_bin rounds false = 0

  -- The first peak among `n` bins behind those that are passed over, and the flag that is left.
  abbrev pub first_peak : ℕ → ℕ → ℕ → Bool → Option (ℕ × Bool)
  first_peak end_bin start_bin n awaiting_rise =
      outcome_of end_bin (awaiting_rise && passed_over start_bin n awaiting_rise == n) (
        first_bin is_peak (start_bin + passed_over start_bin n awaiting_rise)
          (n - passed_over start_bin n awaiting_rise))

  scan_bins-first_peak :
      (end_bin n bin : ℕ) (awaiting_rise : Bool)
      → bin + n < length bins
      → scan_bins d threshold bins end_bin n bin awaiting_rise
        ≡ first_peak end_bin bin n awaiting_rise
  scan_bins-first_peak end_bin n bin true h = scan_bins-awaiting end_bin n bin h
  scan_bins-first_peak end_bin n bin false h =
      let from : bin ≡ bin + 0 = omega arith in
      let left : n ≡ n - 0 = omega arith in
      scan_bins-ready end_bin n bin h
      ∙ (λ i. outcome_of end_bin false (first_bin is_peak (from i) (left i)))

  none_left :
      (end_bin start_bin : ℕ) (awaiting_rise : Bool)
      → first_peak end_bin start_bin 0 awaiting_rise ≡ some (end_bin, awaiting_rise)
  unfolding first_bin run_of
  none_left end_bin start_bin true = refl
  none_left end_bin start_bin false = refl

  -- On data that reaches to end_bin, for at least two bins to operate upon, find_peak_bin reads nothing
  -- outside the data. It returns the first bin, at least bins_to_operate_upon before the end, that is
  -- above the threshold and above the next one, behind the bins that still fall if it is awaiting a
  -- rise; and end_bin if there is none. It awaits a rise afterwards if it found a peak, or if every
  -- bin was still falling.
  pub find_peak_bin_lem :
      (start_bin end_bin bins_to_operate_upon : ℕ) (awaiting_rise : Bool)
      → end_bin ≤ length bins
      → 2 ≤ bins_to_operate_upon
      → find_peak_bin d threshold bins start_bin end_bin bins_to_operate_upon awaiting_rise
        ≡ first_peak end_bin start_bin
            (suc end_bin - (start_bin + bins_to_operate_upon))
            awaiting_rise
  unfolding find_peak_bin
  find_peak_bin_lem start_bin end_bin b awaiting_rise h hb =
      elim (Bool-cases (ltb end_bin (start_bin + b))) [
        | inl short ↦
            let rounds : 0 ≡ suc end_bin - (start_bin + b) = ground arith in
            rw short (
              sym (none_left end_bin start_bin awaiting_rise)
              ∙ ap (λ (n : ℕ). first_peak end_bin start_bin n awaiting_rise) rounds)
        | inr long ↦
            let rounds : suc (end_bin - b - start_bin) ≡ suc end_bin - (start_bin + b) =
              ground arith in
            rw long (
              scan_bins-first_peak end_bin (suc (end_bin - b - start_bin)) start_bin awaiting_rise
                (ground arith)
              ∙ ap (λ (n : ℕ). first_peak end_bin start_bin n awaiting_rise) rounds)
      ]

  -- What comes of a call of find_peak_bin: a peak in range, or the end.
  abbrev pub Finds : ℕ → ℕ → ℕ → Option (ℕ × Bool) → Type 0
  Finds start_bin end_bin b o =
      (p : ℕ) × (flag : Bool) × (o ≡ some (p, flag))
      × ((p ≡ end_bin) ⊎ ((start_bin ≤ p) × (p + b ≤ end_bin) × (is_peak p ≡ true)))

  outcome_of-Finds :
      (start_bin end_bin b k rounds : ℕ) (flag : Bool) (o : Option ℕ)
      → rounds ≡ suc end_bin - (start_bin + b)
      → k ≤ rounds
      → first_bin is_peak (start_bin + k) (rounds - k) ≡ o
      → Finds start_bin end_bin b (outcome_of end_bin flag o)
  outcome_of-Finds start_bin end_bin b k rounds flag none hr hk e = (end_bin, flag, refl, inl refl)
  outcome_of-Finds start_bin end_bin b k rounds flag (some p) hr hk e =
      let (lo, hi, peak) = first_bin_sound is_peak (start_bin + k) (rounds - k) p e in
      (p, true, refl, inr (omega arith, omega arith, peak))

  passed_over-le :
      (start_bin n : ℕ) (awaiting_rise : Bool) → passed_over start_bin n awaiting_rise ≤ n
  passed_over-le start_bin n true = run_of-le falls start_bin n
  passed_over-le start_bin n false = omega arith

  pub find_peak_bin_sound :
      (start_bin end_bin b : ℕ) (awaiting_rise : Bool)
      → end_bin ≤ length bins
      → 2 ≤ b
      → Finds start_bin end_bin b (find_peak_bin d threshold bins start_bin end_bin b awaiting_rise)
  find_peak_bin_sound start_bin end_bin b awaiting_rise h hb =
      let rounds : ℕ = suc end_bin - (start_bin + b) in
      let k : ℕ = passed_over start_bin rounds awaiting_rise in
      subst (Finds start_bin end_bin b)
        (sym (find_peak_bin_lem start_bin end_bin b awaiting_rise h hb))
        (outcome_of-Finds start_bin end_bin b k rounds (awaiting_rise && k == rounds)
          (first_bin is_peak (start_bin + k) (rounds - k)) refl
          (passed_over-le start_bin rounds awaiting_rise) refl)
