-- ===== src/Ros2/BScan/Images.antt =====
-- Which rotations B_scan_colossus_publisher publishes an image of.
use native.Mathlib.Nat.{mul-le-mul_right}
use navtechradar.Base.{
  ℕ, suc, ◌+◌, ◌*◌, ◌^◌, ◌≤◌, ◌<◌, ◌≡◌, refl, sym, ap, ◌∙◌, subst, arith, true, false, inl, inr,
  List, [], ◌∷◌, ◌++◌, some,
}
use navtechradar.Base.{
  ltb, length, replicate, >>=-some, Bool-cases, split_long, length-append, length-replicate,
  if◌then◌else◌, ◌==◌,
}
use navtechradar.RadarClient.{FftReport}
use navtechradar.Ros2.Window.{adjusted_azimuth_index, check_window}
use navtechradar.Ros2.Window.Checks.{IsSettled, checked_offset-within}
use navtechradar.Ros2.Rotation.{turns, seen, is_config_due}
use navtechradar.Ros2.BScan.{
  Publisher, check_config, image_data_handler, end_rotation, row_of, collect, fft_data_handler,
}
use navtechradar.Ros2.BScan.Rows.{collect-row, length-row_of}

-- The offset is that of its parameter and at most a turn, and there is a value for each bin.
pub record IsSized (s : Publisher) : Type 0 where
  pub small : s.azimuth_samples < 2 ^ 16
  pub settled : IsSettled s.azimuth_samples (s.parameters.azimuth_offset, s.window.azimuth_offset)
  pub filled : s.azimuth_samples * s.range_in_bins ≤ length s.intensity_values

adjusted_azimuth_index-lt :
    (s : Publisher) (i : ℕ)
    → IsSized s
    → i < s.azimuth_samples
    → adjusted_azimuth_index s.window s.azimuth_samples i < s.azimuth_samples
unfolding adjusted_azimuth_index
adjusted_azimuth_index-lt s i h lt = let le = h.settled.1 in ground arith

module _ (azimuth_index : ℕ → ℕ → ℕ) where
  -- The message is of one of the azimuths and has at most as many bins as the scan.
  abbrev pub IsFitting : ℕ → ℕ → FftReport → Type 0
  IsFitting azimuth_samples range_in_bins fft =
      (azimuth_index fft.angle azimuth_samples < azimuth_samples)
      × (length fft.fft_bytes ≤ range_in_bins)

  collect-IsSized :
      (fft : FftReport) (s : Publisher)
      → IsSized s
      → IsFitting s.azimuth_samples s.range_in_bins fft
      → (values : List ℕ) × (collect azimuth_index fft s
          ≡ some (record s { intensity_values = values }))
        × (length values ≡ length s.intensity_values)
  collect-IsSized fft s h fits =
      let adjusted =
        adjusted_azimuth_index s.window s.azimuth_samples
          (azimuth_index fft.angle s.azimuth_samples) in
      let below = adjusted_azimuth_index-lt s _ h fits.0 in
      let row = row_of azimuth_index fft s in
      let bound : suc adjusted * s.range_in_bins ≤ s.azimuth_samples * s.range_in_bins =
        mul-le-mul_right s.range_in_bins below in
      let next : suc adjusted * s.range_in_bins ≡ adjusted * s.range_in_bins + s.range_in_bins =
        omega arith in
      let (front, rest, cut, size) =
        split_long (adjusted * s.range_in_bins) s.intensity_values (omega (arith, h.filled)) in
      let whole : length s.intensity_values ≡ length front + length rest =
        ap length cut ∙ length-append front rest in
      let (mid, back, cut', size') =
        split_long (length row) rest
          (omega (arith, h.filled, length-row_of azimuth_index fft s fits.1)) in
      let whole' : length rest ≡ length mid + length back =
        ap length cut' ∙ length-append mid back in
      (
        front ++ (row ++ back),
        collect-row azimuth_index fft s front mid back (cut ∙ ap (◌++◌ front) cut') size size',
        omega (arith, length-append front (row ++ back), length-append row back),
      )

-- What the check of the parameters leaves as it is.
abbrev Keeps : Publisher → Publisher → Type 0
Keeps s t =
    (t.images ≡ s.images)
    × (t.intensity_values ≡ s.intensity_values)
    × (t.azimuth_samples ≡ s.azimuth_samples)
    × (t.range_in_bins ≡ s.range_in_bins)
    × (t.rotation.last_azimuth ≡ s.rotation.last_azimuth)

check_config-Keeps : (s : Publisher) → Keeps s (check_config s)
unfolding check_config
check_config-Keeps s = elim (Bool-cases (is_config_due s.rotation)) [
  | inl e ↦ rw e (refl, refl, refl, refl, refl)
  | inr e ↦ rw e (refl, refl, refl, refl, refl)
]

check_config-IsSized : (s : Publisher) → IsSized s → IsSized (check_config s)
unfolding check_config check_window
check_config-IsSized s h =
    let same =
      checked_offset-within s.azimuth_samples s.parameters.azimuth_offset s.window.azimuth_offset
        s.window.azimuth_offset h.small h.settled.0 h.settled.1 in
    elim (Bool-cases (is_config_due s.rotation)) [
      | inl e ↦ rw e (record {
        small = h.small;
        settled = subst (IsSettled s.azimuth_samples) (sym same) h.settled;
        filled = h.filled;
      })
      | inr e ↦ rw e h
    ]

-- The values are those of one scan.
pub record IsReady (s : Publisher) : Type 0 where
  pub sized : IsSized s
  pub exact : length s.intensity_values ≡ s.azimuth_samples * s.range_in_bins

-- They are more.
pub record IsGrown (s : Publisher) : Type 0 where
  pub sized : IsSized s
  pub more : s.azimuth_samples * s.range_in_bins < length s.intensity_values

-- The rotations that end with one of the messages, after a message at `azimuth`.
abbrev pub turn_count : ℕ → List FftReport → ℕ
turn_count azimuth [] = 0
turn_count azimuth (fft ∷ ffts) =
    (if ltb fft.azimuth azimuth then 1 else 0) + turn_count fft.azimuth ffts

end_rotation-IsReady :
    (fft : FftReport) (s : Publisher)
    → IsReady s
    → IsReady (end_rotation fft s)
      × (length (end_rotation fft s).images
          ≡ length s.images + (if ltb fft.azimuth s.rotation.last_azimuth then 1 else 0))
unfolding end_rotation image_data_handler
end_rotation-IsReady fft s h = elim (Bool-cases (turns s.rotation fft.azimuth)) [
  | inl e ↦
      let same : (length s.intensity_values == s.azimuth_samples * s.range_in_bins) ≡ true =
        ground (arith, h.exact) in
      let zeros = length-replicate {A = ℕ} (s.azimuth_samples * s.range_in_bins) 0 in
      rw (e, same)
        (
          record {
            sized = record {
              small = h.sized.small;
              settled = h.sized.settled;
              filled = omega (arith, zeros);
            };
            exact = zeros;
          },
          length-append s.images _,
        )
  | inr e ↦ rw e (
    record {
      sized = record { small = h.sized.small; settled = h.sized.settled; filled = h.sized.filled };
      exact = h.exact;
    },
    omega arith,
  )
]

end_rotation-IsGrown :
    (fft : FftReport) (s : Publisher)
    → IsGrown s
    → IsGrown (end_rotation fft s) × ((end_rotation fft s).images ≡ s.images)
unfolding end_rotation image_data_handler
end_rotation-IsGrown fft s h = elim (Bool-cases (turns s.rotation fft.azimuth)) [
  | inl e ↦
      let other : (length s.intensity_values == s.azimuth_samples * s.range_in_bins) ≡ false =
        ground (arith, h.more) in
      let longer =
        length-append s.intensity_values
          (replicate {A = ℕ} (s.azimuth_samples * s.range_in_bins) 0) in
      rw (e, other)
        (
          record {
            sized = record {
              small = h.sized.small;
              settled = h.sized.settled;
              filled = omega (arith, longer, h.sized.filled);
            };
            more = omega (arith, longer, h.more);
          },
          refl,
        )
  | inr e ↦ rw e (
    record {
      sized = record { small = h.sized.small; settled = h.sized.settled; filled = h.sized.filled };
      more = h.more;
    },
    refl,
  )
]

abbrev Moves : FftReport → Publisher → Publisher → Type 0
Moves fft s t =
    (t.azimuth_samples ≡ s.azimuth_samples)
    × (t.range_in_bins ≡ s.range_in_bins)
    × (t.rotation.last_azimuth ≡ fft.azimuth)

end_rotation-Moves : (fft : FftReport) (s : Publisher) → Moves fft s (end_rotation fft s)
unfolding end_rotation image_data_handler seen
end_rotation-Moves fft s = elim (Bool-cases (turns s.rotation fft.azimuth)) [
  | inl e ↦
      rw e (elim (Bool-cases (length s.intensity_values == s.azimuth_samples * s.range_in_bins)) [
        | inl f ↦ rw f (refl, refl, refl)
        | inr f ↦ rw f (refl, refl, refl)
      ])
  | inr e ↦ rw e (refl, refl, refl)
]

module _ (azimuth_index : ℕ → ℕ → ℕ) (fft : FftReport) (s : Publisher)
    (fits : IsFitting azimuth_index s.azimuth_samples s.range_in_bins fft) where
  pub fft_data_handler-IsReady :
      IsReady s
      → (t : Publisher) × (fft_data_handler azimuth_index fft s ≡ some t)
        × IsReady t
        × Moves fft s t
        × (length t.images
            ≡ length s.images + (if ltb fft.azimuth s.rotation.last_azimuth then 1 else 0))
  unfolding fft_data_handler
  fft_data_handler-IsReady h =
      let (values, e, size) = collect-IsSized azimuth_index fft s h.sized fits in
      let held : Publisher = record s { intensity_values = values } in
      let ready : IsReady held = record {
        sized = record {
          small = h.sized.small;
          settled = h.sized.settled;
          filled = omega (arith, size, h.sized.filled);
        };
        exact = size ∙ h.exact;
      } in
      let (ended, count) = end_rotation-IsReady fft held ready in
      let moved = end_rotation-Moves fft held in
      let (k0, k1, k2, k3, k4) = check_config-Keeps (end_rotation fft held) in
      (
        check_config (end_rotation fft held),
        >>=-some _ e,
        record { sized = check_config-IsSized _ ended.sized; exact = rw (k1, k2, k3) ended.exact },
        (k2 ∙ moved.0, k3 ∙ moved.1, k4 ∙ moved.2),
        ap length k0 ∙ count,
      )

  pub fft_data_handler-IsGrown :
      IsGrown s
      → (t : Publisher) × (fft_data_handler azimuth_index fft s ≡ some t)
        × IsGrown t
        × Moves fft s t
        × (t.images ≡ s.images)
  unfolding fft_data_handler
  fft_data_handler-IsGrown h =
      let (values, e, size) = collect-IsSized azimuth_index fft s h.sized fits in
      let held : Publisher = record s { intensity_values = values } in
      let grown : IsGrown held = record {
        sized = record {
          small = h.sized.small;
          settled = h.sized.settled;
          filled = omega (arith, size, h.sized.filled);
        };
        more = omega (arith, size, h.more);
      } in
      let (ended, same) = end_rotation-IsGrown fft held grown in
      let moved = end_rotation-Moves fft held in
      let (k0, k1, k2, k3, k4) = check_config-Keeps (end_rotation fft held) in
      (
        check_config (end_rotation fft held),
        >>=-some _ e,
        record { sized = check_config-IsSized _ ended.sized; more = rw (k1, k2, k3) ended.more },
        (k2 ∙ moved.0, k3 ∙ moved.1, k4 ∙ moved.2),
        k0 ∙ same,
      )
