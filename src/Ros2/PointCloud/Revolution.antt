-- ===== src/Ros2/PointCloud/Revolution.antt =====
-- What Point_cloud_publisher publishes of a rotation of the radar.
use navtechradar.Base.{
  ℕ, zero, suc, ◌+◌, ◌≤◌, ◌<◌, ◌≡◌, refl, sym, ap, ◌∙◌, arith, true, false, ◌&&◌, inl, inr, List,
  [], ◌∷◌, ◌++◌, map, Option, some, append-nil, append_assoc,
}
use navtechradar.Base.{ltb, leb, drop, Bool-cases, if◌then◌else◌}
use navtechradar.RadarClient.{FftReport, fft_report}
use navtechradar.Ros2.Window.{Window, adjusted_azimuth_index, has_azimuth, has_bin}
use navtechradar.Ros2.Rotation.{turns, seen, is_config_due}
use navtechradar.Ros2.Cloud.{Floats, Points, cleared}
use navtechradar.Ros2.Cloud.Layout.{Point, split, push_back-split, cloud_of, cloud_message-split}
use navtechradar.Ros2.PointCloud.{
  Publisher, check_config_publish, publish_point_cloud, collect_bins, collect, end_rotation,
  fft_data_handler, on_report, run,
}

module _ (fl : Floats) where
  -- Of all the bins of a message, numbered from `bin_index` on, those in the window whose power is
  -- above the threshold.
  abbrev pub selected : Window → ℕ → ℕ → ℕ → List ℕ → List Point
  selected w threshold azimuth bin_index [] = []
  selected w threshold azimuth bin_index (power ∷ bytes) =
      let rest = selected w threshold azimuth (suc bin_index) bytes in
      if has_bin w bin_index && ltb threshold power
      then record {
        azimuth = fl.of_number azimuth;
        bin = fl.of_number bin_index;
        intensity = fl.of_number power;
      }
        ∷ rest
      else rest

  -- The points of a message: none if its azimuth is not in the window.
  abbrev pub points_of : Window → ℕ → ℕ → FftReport → List Point
  points_of w threshold azimuth_samples fft =
      let azimuth_index = fl.azimuth_index fft.angle azimuth_samples in
      if has_azimuth w azimuth_index
      then selected w threshold (adjusted_azimuth_index w azimuth_samples azimuth_index) 0
          fft.fft_bytes
      else []

  -- Those of the messages, in their order.
  abbrev pub all_points : Window → ℕ → ℕ → List FftReport → List Point
  all_points w threshold azimuth_samples [] = []
  all_points w threshold azimuth_samples (fft ∷ ffts) =
      points_of w threshold azimuth_samples fft ++ all_points w threshold azimuth_samples ffts

  collect_bins-split :
      (w : Window) (threshold azimuth bin_index : ℕ) (bytes : List ℕ) (ps : List Point)
      → collect_bins fl w threshold azimuth bin_index bytes (split ps)
        ≡ split (ps ++ selected w threshold azimuth bin_index bytes)
  unfolding collect_bins
  collect_bins-split w threshold azimuth bin_index [] ps = ap split (sym (append-nil ps))
  collect_bins-split w threshold azimuth bin_index (power ∷ bytes) ps =
      elim (Bool-cases (has_bin w bin_index && ltb threshold power)) [
        | inl e ↦ rw e (
            ap (collect_bins fl w threshold azimuth (suc bin_index) bytes) (push_back-split ps p)
            ∙ collect_bins-split w threshold azimuth (suc bin_index) bytes (ps ++ (p ∷ []))
            ∙ ap split
                (append_assoc ps (p ∷ []) (selected w threshold azimuth (suc bin_index) bytes)))
        | inr e ↦ rw e (collect_bins-split w threshold azimuth (suc bin_index) bytes ps)
      ]
    where
      p : Point
      p = record {
        azimuth = fl.of_number azimuth;
        bin = fl.of_number bin_index;
        intensity = fl.of_number power;
      }

  -- The bins below the first one of the window are not selected.
  selected-drop :
      (w : Window) (threshold azimuth i n : ℕ) (bytes : List ℕ)
      → i + n ≡ w.start_bin
      → selected w threshold azimuth w.start_bin (drop n bytes)
        ≡ selected w threshold azimuth i bytes
  selected-drop w threshold azimuth i zero bytes h =
      ap (λ (k : ℕ). selected w threshold azimuth k bytes) (omega arith)
  selected-drop w threshold azimuth i (suc n) [] h = refl
  selected-drop w threshold azimuth i (suc n) (power ∷ bytes) h =
      let out : leb w.start_bin i ≡ false = ground arith in
      rw out (selected-drop w threshold azimuth (suc i) n bytes (omega arith))

  -- The publisher that holds the points.
  abbrev pub holding : List Point → Publisher → Publisher
  holding ps s = record s { points = split ps }

  collect-points :
      (fft : FftReport) (ps : List Point) (s : Publisher)
      → collect fl fft (holding ps s)
        ≡ holding (ps ++ points_of s.window s.power_threshold s.azimuth_samples fft) s
  unfolding collect
  collect-points fft ps s =
      let i = fl.azimuth_index fft.angle s.azimuth_samples in
      let adjusted = adjusted_azimuth_index s.window s.azimuth_samples i in
      elim (Bool-cases (has_azimuth s.window i)) [
        | inl e ↦ rw e (
            ap (λ (p : Points). record s { points = p })
              (collect_bins-split s.window s.power_threshold adjusted s.window.start_bin
                  (drop s.window.start_bin fft.fft_bytes) ps
                ∙ ap (λ (q : List Point). split (ps ++ q))
                    (selected-drop s.window s.power_threshold adjusted 0 s.window.start_bin
                      fft.fft_bytes (omega arith))))
        | inr e ↦ rw e (ap (λ (q : List Point). holding q s) (sym (append-nil ps)))
      ]

  -- The publisher after a message within a rotation.
  abbrev pub moved : FftReport → Publisher → Publisher
  moved fft s = record s { rotation = record s.rotation { last_azimuth = fft.azimuth } }

  -- A message within a rotation, when no configuration is due.
  pub fft_data_handler-steady :
      (fft : FftReport) (ps : List Point) (s : Publisher)
      → s.rotation.last_azimuth ≤ fft.azimuth
      → s.rotation.rotation_count < 4
      → fft_data_handler fl fft (holding ps s)
        ≡ some (
            holding
              (ps ++ points_of s.window s.power_threshold s.azimuth_samples fft)
              (moved fft s))
  unfolding fft_data_handler end_rotation check_config_publish seen
  fft_data_handler-steady fft ps s rising few =
      let same : turns s.rotation fft.azimuth ≡ false = ground arith in
      let early : is_config_due s.rotation ≡ false = ground arith in
      rw (collect-points fft ps s, same, early) refl

  -- The message that ends the rotation.
  pub fft_data_handler-turn :
      (fft : FftReport) (ps : List Point) (s : Publisher)
      → fft.azimuth < s.rotation.last_azimuth
      → fft_data_handler fl fft (holding ps s)
        ≡ some (
            check_config_publish (record s {
              points = cleared;
              clouds =
                  s.clouds
                  ++ (cloud_of fl fft.ntp_seconds fft.ntp_split_seconds
                        (ps ++ points_of s.window s.power_threshold s.azimuth_samples fft)
                      ∷ []);
              rotation = record {
                last_azimuth = fft.azimuth;
                rotated_once = true;
                rotation_count = suc s.rotation.rotation_count;
              };
            }))
  unfolding fft_data_handler end_rotation publish_point_cloud seen
  fft_data_handler-turn fft ps s falls =
      let over : turns s.rotation fft.azimuth ≡ true = ground arith in
      let all = ps ++ points_of s.window s.power_threshold s.azimuth_samples fft in
      rw
        (
          collect-points fft ps s,
          over,
          cloud_message-split fl fft.ntp_seconds fft.ntp_split_seconds all,
        )
        refl

  -- The azimuths of the messages do not fall, from `azimuth` on.
  abbrev pub IsRising : ℕ → List FftReport → Type 0
  IsRising azimuth [] = Unit
  IsRising azimuth (fft ∷ ffts) = (azimuth ≤ fft.azimuth) × IsRising fft.azimuth ffts

  abbrev pub final_azimuth : ℕ → List FftReport → ℕ
  final_azimuth azimuth [] = azimuth
  final_azimuth azimuth (fft ∷ ffts) = final_azimuth fft.azimuth ffts

  -- Messages whose azimuths rise, and then one whose azimuth is lower, are a rotation. Of those the
  -- publisher, if fewer than four rotations have been counted, publishes one cloud: of the points that it
  -- held and of all the points of these messages, the last one's included, in their order and with the
  -- last one's time. Then it holds no points and has counted the rotation, and checks its parameters and
  -- publishes the configuration if it is the fourth.
  pub run-revolution :
      (answer : Option ℕ) (ffts : List FftReport) (last : FftReport) (ps : List Point)
      (s : Publisher)
      → IsRising s.rotation.last_azimuth ffts
      → last.azimuth < final_azimuth s.rotation.last_azimuth ffts
      → s.rotation.rotation_count < 4
      → run fl answer (map fft_report (ffts ++ (last ∷ []))) (holding ps s)
        ≡ some (
            check_config_publish (record s {
              points = cleared;
              clouds =
                  s.clouds
                  ++ (cloud_of fl last.ntp_seconds last.ntp_split_seconds (
                        ps
                        ++ all_points s.window s.power_threshold s.azimuth_samples
                            (ffts ++ (last ∷ [])))
                      ∷ []);
              rotation = record {
                last_azimuth = last.azimuth;
                rotated_once = true;
                rotation_count = suc s.rotation.rotation_count;
              };
            }))
  unfolding run on_report
  run-revolution answer [] last ps s rising falls few =
      let own = points_of s.window s.power_threshold s.azimuth_samples last in
      rw (fft_data_handler-turn last ps s falls, append-nil own) refl
  run-revolution answer (fft ∷ ffts) last ps s rising falls few =
      let own = points_of s.window s.power_threshold s.azimuth_samples fft in
      let rest = all_points s.window s.power_threshold s.azimuth_samples (ffts ++ (last ∷ [])) in
      rw (fft_data_handler-steady fft ps s rising.0 few) (
        run-revolution answer ffts last (ps ++ own) (moved fft s) rising.1 falls few
        ∙ ap
            (λ (qs : List Point). some (
              check_config_publish (record s {
                points = cleared;
                clouds = s.clouds ++ (cloud_of fl last.ntp_seconds last.ntp_split_seconds qs ∷ []);
                rotation = record {
                  last_azimuth = last.azimuth;
                  rotated_once = true;
                  rotation_count = suc s.rotation.rotation_count;
                };
              })))
            (append_assoc ps own rest))
