-- ===== src/Ros2/NavigationCloud/Peaks.antt =====
-- What Navigation_mode_point_cloud_publisher publishes of a rotation of the radar.
use navtechradar.Base.{
  ℕ, suc, ◌≤◌, ◌<◌, ◌≡◌, refl, sym, ap, ◌∙◌, arith, true, false, inl, inr, List, [], ◌∷◌, ◌++◌, map,
  some, append-nil, append_assoc,
}
use navtechradar.Base.{Bool-cases, >>=-pure, if◌then◌else◌}
use navtechradar.RadarClient.{NavigationReport, navigation_report}
use navtechradar.Ros2.Window.{Window, adjusted_azimuth_index, has_azimuth, has_bin}
use navtechradar.Ros2.Rotation.{turns, seen, is_config_due}
use navtechradar.Ros2.Cloud.{Points, cleared}
use navtechradar.Ros2.Cloud.Layout.{Point, split, push_back-split, cloud_of, cloud_message-split}
use navtechradar.Ros2.NavigationCloud.{
  Environment, Answers, Publisher, check_config_publish, publish_point_cloud, collect_peaks,
  collect, end_rotation, navigation_data_handler, on_report, run,
}

module _ (env : Environment) where
  -- Of the peaks of a message, those whose bin is in the window.
  abbrev pub selected : Window → ℕ → ℕ → List (ℕ × ℕ) → List Point
  selected w size azimuth [] = []
  selected w size azimuth ((range, power) ∷ peaks) =
      let rest = selected w size azimuth peaks in
      let bin = env.bin_index range size in
      if has_bin w bin
      then record {
        azimuth = env.floats.of_number azimuth;
        bin = env.floats.of_number bin;
        intensity = env.tenth power;
      }
        ∷ rest
      else rest

  -- The points of a message: none if its azimuth is not in the window.
  abbrev pub points_of : Window → ℕ → ℕ → NavigationReport → List Point
  points_of w size azimuth_samples nav =
      let azimuth_index = env.floats.azimuth_index nav.angle azimuth_samples in
      if has_azimuth w azimuth_index
      then selected w size (adjusted_azimuth_index w azimuth_samples azimuth_index) nav.peaks
      else []

  abbrev pub all_points : Window → ℕ → ℕ → List NavigationReport → List Point
  all_points w size azimuth_samples [] = []
  all_points w size azimuth_samples (nav ∷ navs) =
      points_of w size azimuth_samples nav ++ all_points w size azimuth_samples navs

  collect_peaks-split :
      (w : Window) (size azimuth : ℕ) (peaks : List (ℕ × ℕ)) (ps : List Point)
      → collect_peaks env w size azimuth peaks (split ps)
        ≡ split (ps ++ selected w size azimuth peaks)
  unfolding collect_peaks
  collect_peaks-split w size azimuth [] ps = ap split (sym (append-nil ps))
  collect_peaks-split w size azimuth ((range, power) ∷ peaks) ps =
      elim (Bool-cases (has_bin w (env.bin_index range size))) [
        | inl e ↦ rw e (
            ap (collect_peaks env w size azimuth peaks) (push_back-split ps p)
            ∙ collect_peaks-split w size azimuth peaks (ps ++ (p ∷ []))
            ∙ ap split (append_assoc ps (p ∷ []) (selected w size azimuth peaks)))
        | inr e ↦ rw e (collect_peaks-split w size azimuth peaks ps)
      ]
    where
      p : Point
      p = record {
        azimuth = env.floats.of_number azimuth;
        bin = env.floats.of_number (env.bin_index range size);
        intensity = env.tenth power;
      }

  abbrev pub holding : List Point → Publisher → Publisher
  holding ps s = record s { points = split ps }

  collect-points :
      (nav : NavigationReport) (ps : List Point) (s : Publisher)
      → collect env nav (holding ps s)
        ≡ holding (ps ++ points_of s.window s.bin_size s.azimuth_samples nav) s
  unfolding collect
  collect-points nav ps s =
      let i = env.floats.azimuth_index nav.angle s.azimuth_samples in
      let adjusted = adjusted_azimuth_index s.window s.azimuth_samples i in
      elim (Bool-cases (has_azimuth s.window i)) [
        | inl e ↦ rw e (
            ap (λ (p : Points). record s { points = p })
              (collect_peaks-split s.window s.bin_size adjusted nav.peaks ps))
        | inr e ↦ rw e (ap (λ (q : List Point). holding q s) (sym (append-nil ps)))
      ]

  -- The publisher after a message within a rotation.
  abbrev pub moved : NavigationReport → Publisher → Publisher
  moved nav s = record s { rotation = record s.rotation { last_azimuth = nav.azimuth } }

  -- A message within a rotation, when no configuration is due.
  pub navigation_data_handler-steady :
      (answers : Answers) (nav : NavigationReport) (ps : List Point) (s : Publisher)
      → s.rotation.last_azimuth ≤ nav.azimuth
      → s.rotation.rotation_count < 4
      → navigation_data_handler env answers nav (holding ps s)
        ≡ some (holding (ps ++ points_of s.window s.bin_size s.azimuth_samples nav) (moved nav s))
  unfolding navigation_data_handler end_rotation check_config_publish seen
  navigation_data_handler-steady answers nav ps s rising few =
      let same : turns s.rotation nav.azimuth ≡ false = ground arith in
      let early : is_config_due s.rotation ≡ false = ground arith in
      rw (collect-points nav ps s, same, early) refl

  -- The publisher that has published the points, with the rotation counted.
  abbrev pub turned : NavigationReport → List Point → Publisher → Publisher
  turned nav ps s = record s {
    points = cleared;
    clouds = s.clouds ++ (cloud_of env.floats nav.ntp_seconds nav.ntp_split_seconds ps ∷ []);
    rotation = record {
      last_azimuth = nav.azimuth;
      rotated_once = true;
      rotation_count = suc s.rotation.rotation_count;
    };
  }

  -- The message that ends the rotation.
  pub navigation_data_handler-turn :
      (answers : Answers) (nav : NavigationReport) (ps : List Point) (s : Publisher)
      → nav.azimuth < s.rotation.last_azimuth
      → navigation_data_handler env answers nav (holding ps s)
        ≡ check_config_publish env answers
            (turned nav (ps ++ points_of s.window s.bin_size s.azimuth_samples nav) s)
  unfolding navigation_data_handler end_rotation publish_point_cloud seen
  navigation_data_handler-turn answers nav ps s falls =
      let over : turns s.rotation nav.azimuth ≡ true = ground arith in
      let all = ps ++ points_of s.window s.bin_size s.azimuth_samples nav in
      rw
        (
          collect-points nav ps s,
          over,
          cloud_message-split env.floats nav.ntp_seconds nav.ntp_split_seconds all,
        )
        refl

  -- The azimuths of the messages do not fall, from `azimuth` on.
  abbrev pub IsRising : ℕ → List NavigationReport → Type 0
  IsRising azimuth [] = Unit
  IsRising azimuth (nav ∷ navs) = (azimuth ≤ nav.azimuth) × IsRising nav.azimuth navs

  abbrev pub final_azimuth : ℕ → List NavigationReport → ℕ
  final_azimuth azimuth [] = azimuth
  final_azimuth azimuth (nav ∷ navs) = final_azimuth nav.azimuth navs

  -- Navigation messages whose azimuths rise, and then one whose azimuth is lower, are a rotation. Of
  -- those the publisher, if fewer than four rotations have been counted, comes to the check of its
  -- parameters with one more cloud: of the points that it held and of all the peaks of these messages in
  -- the window, the last one's included, in their order and with the last one's time. It holds no points
  -- then and has counted the rotation.
  pub run-revolution_peaks :
      (answers : Answers) (navs : List NavigationReport) (last : NavigationReport) (ps : List Point)
      (s : Publisher)
      → IsRising s.rotation.last_azimuth navs
      → last.azimuth < final_azimuth s.rotation.last_azimuth navs
      → s.rotation.rotation_count < 4
      → run env answers (map navigation_report (navs ++ (last ∷ []))) (holding ps s)
        ≡ check_config_publish env answers (
            turned last
              (ps ++ all_points s.window s.bin_size s.azimuth_samples (navs ++ (last ∷ [])))
              s)
  unfolding run on_report
  run-revolution_peaks answers [] last ps s rising falls few =
      let own = points_of s.window s.bin_size s.azimuth_samples last in
      rw (navigation_data_handler-turn answers last ps s falls, append-nil own)
        (>>=-pure (check_config_publish env answers (turned last (ps ++ own) s)))
  run-revolution_peaks answers (nav ∷ navs) last ps s rising falls few =
      let own = points_of s.window s.bin_size s.azimuth_samples nav in
      let rest = all_points s.window s.bin_size s.azimuth_samples (navs ++ (last ∷ [])) in
      rw (navigation_data_handler-steady answers nav ps s rising.0 few) (
        run-revolution_peaks answers navs last (ps ++ own) (moved nav s) rising.1 falls few
        ∙ ap (λ (qs : List Point). check_config_publish env answers (turned last qs s))
            (append_assoc ps own rest))
