-- ===== src/Ros2/Tuning/Settles.antt =====
-- The checks of the parameters stop to send configurations.
use native.Mathlib.Nat.{mod-eq_of_lt}
use navtechradar.Base.{
  ℕ, ◌^◌, ◌%◌, ◌≤◌, ◌<◌, ◌≡◌, refl, ap, ◌∙◌, subst, sym, arith, true, false, inl, inr, ◌⊎◌,
}
use navtechradar.Base.{Bool-cases}
use navtechradar.Ros2.Int.{
  ℤ, pos, negsuc, to_int, is_outside, differs, to_int-pos, to_int-negsuc, is_outside-pos,
  is_outside-false,
}
use navtechradar.Ros2.Tuning.{
  Thresholds, TuningParameters, Tuning, quarter, retuned, retuned_threshold, check_tuning,
}

-- The parameter is the number of an int.
abbrev pub IsInt : ℤ → Type 0
IsInt (pos n) = n < 2 ^ 31
IsInt (negsuc n) = n < 2 ^ 31

to_int_lem : (z : ℤ) → IsInt z → to_int z ≡ z
to_int_lem (pos n) h = to_int-pos n h
to_int_lem (negsuc n) h = to_int-negsuc n h

differs_refl : (n : ℕ) → differs (pos n) n ≡ false
differs_refl n = ground arith

abbrev IsQuiet : ℤ × ℕ → Type 0
IsQuiet (parameter, member) = differs parameter member ≡ false

module _ (width bound fallback : ℕ) (fits : bound < 2 ^ width) where
  retuned-quiet : (x : ℤ × ℕ) → IsQuiet x → retuned width bound fallback x ≡ (x, false)
  unfolding retuned
  retuned-quiet (parameter, member) h = rw h refl

  retuned-keeps : (x : ℤ × ℕ) → IsQuiet x → IsQuiet (retuned width bound fallback x).0
  retuned-keeps x q = ap (λ r. differs r.0.0 r.0.1) (retuned-quiet x q) ∙ q

  -- A number within the bound is taken over, if it was not already.
  retuned-accepts :
      (n member : ℕ)
      → n < 2 ^ 31
      → n ≤ bound
      → IsQuiet (retuned width bound fallback (pos n, member)).0
  unfolding retuned
  retuned-accepts n member small le = elim (Bool-cases (differs (pos n) member)) [
    | inl e ↦
        let whole : n % 2 ^ width ≡ n = mod-eq_of_lt (omega arith) in
        rw (e, to_int-pos n small, is_outside-pos n bound le, whole) (differs_refl n)
    | inr e ↦ rw e e
  ]

  retuned-refused :
      (parameter : ℤ) (member : ℕ)
      → differs parameter member ≡ true
      → is_outside (to_int parameter) bound ≡ true
      → (retuned width bound fallback (parameter, member)).0 ≡ (pos fallback, member)
  unfolding retuned
  retuned-refused parameter member e out = rw (e, out) refl

  retuned-once :
      (x : ℤ × ℕ)
      → IsInt x.0
      → IsQuiet (retuned width bound fallback x).0
        ⊎ ((retuned width bound fallback x).0 ≡ (pos fallback, x.1))
  retuned-once (parameter, member) int = elim (Bool-cases (is_outside (to_int parameter) bound)) [
    | inl out ↦ elim (Bool-cases (differs parameter member)) [
      | inl e ↦ inr (retuned-refused parameter member e out)
      | inr e ↦ inl (ap (λ r. differs r.0.0 r.0.1) (retuned-quiet (parameter, member) e) ∙ e)
    ]
    | inr inside ↦
        let (n, en, le) = is_outside-false (to_int parameter) bound inside in
        let same : parameter ≡ pos n = sym (to_int_lem parameter int) ∙ en in
        let small : n < 2 ^ 31 = subst IsInt same int in
        inl (
          subst (λ (z : ℤ). IsQuiet (retuned width bound fallback (z, member)).0) (sym same)
            (retuned-accepts n member small le))
  ]

  -- One check leaves nothing to check if the fallback is the member,
  retuned-member :
      (x : ℤ × ℕ) → IsInt x.0 → fallback ≡ x.1 → IsQuiet (retuned width bound fallback x).0
  retuned-member x int same = elim (retuned-once x int) [
    | inl q ↦ q
    | inr e ↦
        subst IsQuiet (sym e)
          (subst (λ (n : ℕ). differs (pos fallback) n ≡ false) same (differs_refl fallback))
  ]

  -- and two if it is within the bound.
  retuned-twice :
      (x : ℤ × ℕ)
      → IsInt x.0
      → fallback ≤ bound
      → fallback < 2 ^ 31
      → IsQuiet (retuned width bound fallback (retuned width bound fallback x).0).0
  retuned-twice x int le small = elim (retuned-once x int) [
    | inl q ↦ ap (λ r. differs r.0.0 r.0.1) (retuned-quiet _ q) ∙ q
    | inr e ↦
        subst (λ y. IsQuiet (retuned width bound fallback y).0) (sym e)
          (retuned-accepts fallback x.1 small le)
  ]

module _ (th : Thresholds) (self : th.differ quarter quarter ≡ false)
    (good : th.is_refused quarter ≡ false) where
  threshold-quiet : (x : ℕ × ℕ) → th.differ x.0 x.1 ≡ false → retuned_threshold th x ≡ (x, false)
  unfolding retuned_threshold
  threshold-quiet (parameter, member) h = rw h refl

  threshold-quarter :
      (member : ℕ)
      → th.differ
          (retuned_threshold th (quarter, member)).0.0
          (retuned_threshold th (quarter, member)).0.1
        ≡ false
  unfolding retuned_threshold
  threshold-quarter member = elim (Bool-cases (th.differ quarter member)) [
    | inl e ↦ rw (e, good) self
    | inr e ↦ rw e e
  ]

  threshold-once :
      (x : ℕ × ℕ)
      → th.differ x.0 x.0 ≡ false
      → (th.differ (retuned_threshold th x).0.0 (retuned_threshold th x).0.1 ≡ false)
        ⊎ ((retuned_threshold th x).0 ≡ (quarter, x.1))
  unfolding retuned_threshold
  threshold-once (parameter, member) number = elim (Bool-cases (th.differ parameter member)) [
    | inl e ↦ elim (Bool-cases (th.is_refused parameter)) [
      | inl r ↦ inr (rw (e, r) refl)
      | inr r ↦ inl (rw (e, r) number)
    ]
    | inr e ↦ inl (rw e e)
  ]

  threshold-twice :
      (x : ℕ × ℕ)
      → th.differ x.0 x.0 ≡ false
      → th.differ
          (retuned_threshold th (retuned_threshold th x).0).0.0
          (retuned_threshold th (retuned_threshold th x).0).0.1
        ≡ false
  threshold-twice x number = elim (threshold-once x number) [
    | inl q ↦ ap (λ r. th.differ r.0.0 r.0.1) (threshold-quiet _ q) ∙ q
    | inr e ↦
        subst (λ y. th.differ (retuned_threshold th y).0.0 (retuned_threshold th y).0.1 ≡ false)
          (sym e) (threshold-quarter x.1)
  ]

  check_tuning-flag :
      (n : ℕ) (p : TuningParameters) (m : Tuning)
      → n < 2 ^ 16
      → IsQuiet (p.bins_to_operate_on, m.bins_to_operate_on)
      → IsQuiet (p.min_bin, m.min_bin)
      → th.differ p.power_threshold m.power_threshold ≡ false
      → IsQuiet (p.max_peaks_per_azimuth, m.max_peaks_per_azimuth)
      → (check_tuning th n (p, m)).1 ≡ false
  unfolding check_tuning
  check_tuning-flag n p m small b f t k =
      rw
        (
          retuned-quiet 16 10 m.bins_to_operate_on (omega arith)
              (p.bins_to_operate_on, m.bins_to_operate_on) b,
          retuned-quiet 16 n m.min_bin small (p.min_bin, m.min_bin) f,
          threshold-quiet (p.power_threshold, m.power_threshold) t,
          retuned-quiet 32 5 5 (omega arith) (p.max_peaks_per_azimuth, m.max_peaks_per_azimuth) k,
        )
        refl

  -- After two rounds of checks the third one asks for no new configuration of the radar, whatever the
  -- parameters are, if those that are integers are ints, the threshold is equal to itself (is not NaN) and the bins are fewer than 2^16. The double
  -- 63.0 is equal to itself and is not refused.
  pub check_tuning-quiet :
      (range_in_bins : ℕ) (x : TuningParameters × Tuning)
      → range_in_bins < 2 ^ 16
      → IsInt x.0.bins_to_operate_on
      → IsInt x.0.min_bin
      → IsInt x.0.max_peaks_per_azimuth
      → th.differ x.0.power_threshold x.0.power_threshold ≡ false
      → (check_tuning th range_in_bins
          (check_tuning th range_in_bins (check_tuning th range_in_bins x).0).0).1
        ≡ false
  unfolding check_tuning
  check_tuning-quiet n (p, m) small ib im ip number =
      let x : ℤ × ℕ = (p.bins_to_operate_on, m.bins_to_operate_on) in
      let y : ℤ × ℕ = (p.min_bin, m.min_bin) in
      check_tuning-flag n _ _ small
        (retuned-keeps 16 10 _ (omega arith) _
          (retuned-member 16 10 m.bins_to_operate_on (omega arith) x ib refl))
        (retuned-keeps 16 n _ small _ (retuned-member 16 n m.min_bin small y im refl))
        (threshold-twice (p.power_threshold, m.power_threshold) number)
        (retuned-twice 32 5 5 (omega arith) (p.max_peaks_per_azimuth, m.max_peaks_per_azimuth) ip
          (omega arith) (omega arith))
