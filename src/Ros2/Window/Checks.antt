-- ===== src/Ros2/Window/Checks.antt =====
-- What the checks of the parameters make of them.
use native.Mathlib.Nat.{mod-eq_of_lt, mod-eq-sub-mod}
use navtechradar.Base.{
  ℕ, ◌+◌, ◌-◌, ◌%◌, ◌^◌, ◌≤◌, ◌<◌, ◌≡◌, ◌⊎◌, refl, sym, ap, ◌∙◌, subst, arith, false, inl, inr,
}
use navtechradar.Base.{leb, Bool-cases}
use navtechradar.Ros2.Int.{
  ℤ, pos, to_int, to_uint16, is_negative, exceeds, is_outside, to_int-pos, is_outside-false,
  is_outside-pos,
}
use navtechradar.Ros2.Window.{
  Parameters, Window, checked, checked_offset, check_window, adjusted_azimuth_index,
}

-- The member is the value of the parameter, read as an int, and is within the bound.
abbrev pub IsSettled : ℕ → ℤ × ℕ → Type 0
IsSettled bound (parameter, member) = (to_int parameter ≡ pos member) × (member ≤ bound)

to_uint16-pos : (n : ℕ) → n < 2 ^ 16 → to_uint16 (pos n) ≡ n
to_uint16-pos n h = omega arith

module _ (bound fallback : ℕ) (small : bound < 2 ^ 16) (within : fallback ≤ bound) where
  -- A parameter within the bound becomes the member.
  pub checked-within :
      (parameter : ℤ) (member n : ℕ)
      → to_int parameter ≡ pos n
      → n ≤ bound
      → checked bound fallback (parameter, member) ≡ (parameter, n)
  unfolding checked
  checked-within parameter member n e le =
      rw (e, is_outside-pos n bound le)
        (ap (λ (k : ℕ). (parameter, k)) (to_uint16-pos n (omega arith)))

  checked-settled : (x : ℤ × ℕ) → IsSettled bound x → checked bound fallback x ≡ x
  checked-settled (parameter, member) h = checked-within parameter member member h.0 h.1

  -- After one check the pair is settled, or the parameter is the fallback and the next check settles it.
  checked-once :
      (x : ℤ × ℕ)
      → IsSettled bound (checked bound fallback x)
        ⊎ (checked bound fallback x ≡ (pos fallback, x.1))
  unfolding checked
  checked-once (parameter, member) = elim (Bool-cases (is_outside (to_int parameter) bound)) [
    | inl e ↦ inr (rw e refl)
    | inr e ↦
        let (n, en, le) = is_outside-false (to_int parameter) bound e in
        let whole : IsSettled bound (parameter, n) = (en, le) in
        inl (subst (IsSettled bound) (sym (checked-within parameter member n en le)) whole)
  ]

  pub checked-settles :
      (x : ℤ × ℕ) → IsSettled bound (checked bound fallback (checked bound fallback x))
  checked-settles x = elim (checked-once x) [
    | inl h ↦ subst (IsSettled bound) (sym (checked-settled (checked bound fallback x) h)) h
    | inr e ↦
        let self : to_int (pos fallback) ≡ pos fallback = to_int-pos fallback (omega arith) in
        subst (IsSettled bound)
          (sym (
            ap (checked bound fallback) e ∙ checked-within (pos fallback) x.1 fallback self within))
          (self, within)
  ]

-- The offset settles too, unless it is negative.
pub checked_offset-within :
    (bound : ℕ) (parameter : ℤ) (member n : ℕ)
    → bound < 2 ^ 16
    → to_int parameter ≡ pos n
    → n ≤ bound
    → checked_offset bound (parameter, member) ≡ (parameter, n)
unfolding checked_offset
checked_offset-within bound parameter member n small e le =
    let low : exceeds (pos n) bound ≡ false = ground arith in
    rw (e, low) (ap (λ (k : ℕ). (parameter, k)) (to_uint16-pos n (omega arith)))

checked_offset-settles :
    (bound : ℕ) (x : ℤ × ℕ)
    → bound < 2 ^ 16
    → is_negative (to_int x.0) ≡ false
    → IsSettled bound (checked_offset bound (checked_offset bound x))
unfolding checked_offset
checked_offset-settles bound (parameter, member) small positive =
    elim (Bool-cases (exceeds (to_int parameter) bound)) [
      | inl e ↦
          let self : to_int (pos bound) ≡ pos bound = to_int-pos bound (omega arith) in
          let le : bound ≤ bound = omega arith in
          rw e (
            subst (IsSettled bound)
              (sym (checked_offset-within bound (pos bound) member bound small self le)) (self, le))
      | inr e ↦
          let (n, en, le) = is_outside-false (to_int parameter) bound (rw (positive, e) refl) in
          let once = checked_offset-within bound parameter member n small en le in
          let twice = checked_offset-within bound parameter n n small en le in
          subst (IsSettled bound) (sym (ap (checked_offset bound) once ∙ twice)) (en, le)
    ]

-- Every member is its parameter read as an int, and is within the scan.
pub record AreSettled (azimuth_samples range_in_bins : ℕ) (x : Parameters × Window) : Type 0 where
  pub start_azimuth : IsSettled azimuth_samples (x.0.start_azimuth, x.1.start_azimuth)
  pub end_azimuth : IsSettled azimuth_samples (x.0.end_azimuth, x.1.end_azimuth)
  pub start_bin : IsSettled range_in_bins (x.0.start_bin, x.1.start_bin)
  pub end_bin : IsSettled range_in_bins (x.0.end_bin, x.1.end_bin)
  pub azimuth_offset : IsSettled azimuth_samples (x.0.azimuth_offset, x.1.azimuth_offset)

-- Whatever the parameters are, but for an offset that is negative as an int, two rounds of checks leave
-- every member equal to the low 32 bits of its parameter, read as an int, and within the number of
-- azimuths or of bins, if these numbers are below 2^16. A parameter that is no int need not be equal to
-- its member.
pub check_window-AreSettled :
    (azimuth_samples range_in_bins : ℕ) (x : Parameters × Window)
    → azimuth_samples < 2 ^ 16
    → range_in_bins < 2 ^ 16
    → is_negative (to_int x.0.azimuth_offset) ≡ false
    → AreSettled azimuth_samples range_in_bins
        (check_window azimuth_samples range_in_bins (check_window azimuth_samples range_in_bins x))
unfolding check_window
check_window-AreSettled samples range (p, w) sa sr positive = record {
  start_azimuth = checked-settles samples 0 sa (omega arith) (p.start_azimuth, w.start_azimuth);
  end_azimuth = checked-settles samples samples sa (omega arith) (p.end_azimuth, w.end_azimuth);
  start_bin = checked-settles range 0 sr (omega arith) (p.start_bin, w.start_bin);
  end_bin = checked-settles range range sr (omega arith) (p.end_bin, w.end_bin);
  azimuth_offset = checked_offset-settles samples (p.azimuth_offset, w.azimuth_offset) sa positive;
}

-- An azimuth turned by the offset, of at most a whole turn, is the sum modulo the number of azimuths.
pub adjusted_azimuth_index_lem :
    (w : Window) (azimuth_samples azimuth_index : ℕ)
    → azimuth_index < azimuth_samples
    → w.azimuth_offset ≤ azimuth_samples
    → adjusted_azimuth_index w azimuth_samples azimuth_index
      ≡ (azimuth_index + w.azimuth_offset) % azimuth_samples
unfolding adjusted_azimuth_index
adjusted_azimuth_index_lem w n i h le = elim (Bool-cases (leb n (i + w.azimuth_offset))) [
  | inl e ↦
      let above : n ≤ i + w.azimuth_offset = ground arith in
      let less : i + w.azimuth_offset - n < n = omega arith in
      rw e (sym (mod-eq-sub-mod above ∙ mod-eq_of_lt less))
  | inr e ↦ let below : i + w.azimuth_offset < n = ground arith in rw e (sym (mod-eq_of_lt below))
]
