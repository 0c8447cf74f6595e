-- ===== src/Ros2/NavigationCloud/Safety.antt =====
-- Navigation_mode_point_cloud_publisher, when the radar finds the peaks, never reads outside its vectors.
use navtechradar.Base.{
  ℕ, ◌≤◌, ◌<◌, ◌≡◌, refl, ap, ◌∙◌, arith, Bool, true, false, inl, inr, List, [], ◌∷◌, Option, some,
}
use navtechradar.Base.{All, Bool-cases, >>=-some, if_false}
use navtechradar.RadarClient.{
  ConfigurationReport, NavigationReport, Report, fft_report, navigation_report,
  configuration_report,
}
use navtechradar.RadarClient.Requests.{
  set_navigation_configuration-posted, request_navigation_configuration-wire,
  start_navigation_data-wire,
}
use navtechradar.Ros2.Rotation.{turns, is_config_due}
use navtechradar.Ros2.Cloud.Layout.{IsAligned, split-IsAligned, IsAligned-split}
use navtechradar.Ros2.Tuning.{check_tuning}
use navtechradar.Ros2.NavigationCloud.{
  Environment, Answers, Publisher, update_navigation_config, update_config, check_config_publish,
  start_data, navigation_data_handler, configuration_data_handler, on_report, run,
}
use navtechradar.Ros2.NavigationCloud.Peaks.{
  holding, navigation_data_handler-steady, navigation_data_handler-turn,
}

-- The radar finds the peaks, the three vectors have one length, and the fourth rotation has not been
-- counted.
pub record IsValid (s : Publisher) : Type 0 where
  pub remote : s.process_locally ≡ false
  pub aligned : IsAligned s.points
  pub counted : s.rotation.rotation_count < 4

-- A message that the publisher has asked for in that mode.
abbrev pub is_asked : Report → Bool
is_asked (fft_report fft) = false
is_asked report = true

abbrev Handles : Option Publisher → Type 0
Handles result = (t : Publisher) × (result ≡ some t) × IsValid t

module _ (env : Environment) (answers : Answers) where
  update_navigation_config-IsValid :
      (answer : Option ℕ) (s : Publisher)
      → IsValid s
      → Handles (update_navigation_config env answer s)
  unfolding update_navigation_config
  update_navigation_config-IsValid answer s v = (
    _,
    >>=-some _ (set_navigation_configuration-posted env.outside answer _ s.radar_client),
    record { remote = v.remote; aligned = v.aligned; counted = v.counted },
  )

  update_config-IsValid : (s : Publisher) → IsValid s → Handles (update_config env answers s)
  unfolding update_config
  update_config-IsValid s v =
      let (t, e, w) = update_navigation_config-IsValid answers.first s v in
      (
        _,
        if_false _ _ v.remote
            ∙ >>=-some _ e
            ∙ >>=-some _ (request_navigation_configuration-wire answers.second t.radar_client),
        record { remote = w.remote; aligned = w.aligned; counted = w.counted },
      )

  check_config_publish-IsValid :
      (s : Publisher)
      → s.process_locally ≡ false
      → IsAligned s.points
      → s.rotation.rotation_count ≤ 4
      → Handles (check_config_publish env answers s)
  unfolding check_config_publish
  check_config_publish-IsValid s re al few = elim (Bool-cases (is_config_due s.rotation)) [
    | inr e ↦ rw e (s, refl, record { remote = re; aligned = al; counted = ground arith })
    | inl e ↦
        rw e
          (elim (Bool-cases
            (check_tuning env.thresholds s.range_in_bins (s.tuning_parameters, s.tuning)).1) [
              | inl u ↦ rw u (
                  update_config-IsValid _
                    (record { remote = re; aligned = al; counted = omega arith }))
              | inr u ↦ rw u (_, refl, record { remote = re; aligned = al; counted = omega arith })
            ])
  ]

  navigation_data_handler-IsValid :
      (nav : NavigationReport) (s : Publisher)
      → IsValid s
      → Handles (navigation_data_handler env answers nav s)
  navigation_data_handler-IsValid nav s v =
      let (ps, e) = IsAligned-split s.points v.aligned in
      let held : s ≡ holding env ps s = ap (λ q. record s { points = q }) e in
      elim (Bool-cases (turns s.rotation nav.azimuth)) [
        | inl h ↦
            let turned = navigation_data_handler-turn env answers nav ps s (ground arith) in
            let (t, et, w) =
              check_config_publish-IsValid _ v.remote (refl, refl) (omega (arith, v.counted)) in
            (t, ap (navigation_data_handler env answers nav) held ∙ turned ∙ et, w)
        | inr h ↦
            let steady =
              navigation_data_handler-steady env answers nav ps s (ground arith) v.counted in
            (
              _,
              ap (navigation_data_handler env answers nav) held ∙ steady,
              record { remote = v.remote; aligned = split-IsAligned _; counted = v.counted },
            )
      ]

  configuration_data_handler-IsValid :
      (c : ConfigurationReport) (protobuf : List ℕ) (s : Publisher)
      → IsValid s
      → Handles (configuration_data_handler env answers c protobuf s)
  unfolding configuration_data_handler start_data
  configuration_data_handler-IsValid c protobuf s v =
      let (t, e, w) =
        update_navigation_config-IsValid answers.first _
          (record { remote = v.remote; aligned = v.aligned; counted = v.counted }) in
      (
        _,
        if_false _ _ v.remote
            ∙ >>=-some _ e
            ∙ >>=-some _ (start_navigation_data-wire answers.second t.radar_client),
        record { remote = w.remote; aligned = w.aligned; counted = w.counted },
      )

  on_report-IsValid :
      (report : Report) (s : Publisher)
      → is_asked report ≡ true
      → IsValid s
      → Handles (on_report env answers report s)
  unfolding on_report
  on_report-IsValid (fft_report fft) s asked v = absurd (ground arith)
  on_report-IsValid (navigation_report nav) s asked v = navigation_data_handler-IsValid nav s v
  on_report-IsValid (configuration_report c body) s asked v =
      configuration_data_handler-IsValid c body s v
  on_report-IsValid _ s asked v = (s, refl, v)

  -- When the radar finds the peaks, the publisher handles whatever is delivered but FFT messages,
  -- which it does not ask for: configurations in any place and navigation messages of any azimuths and
  -- numbers of peaks, and whether or not its sends fail. It makes no read outside a vector, and after it
  -- the vectors again have one length and fewer than four rotations are counted.
  pub run-IsValid_peaks :
      (reports : List Report) (s : Publisher)
      → All (λ report. is_asked report ≡ true) reports
      → IsValid s
      → (t : Publisher) × (run env answers reports s ≡ some t) × IsValid t
  unfolding run
  run-IsValid_peaks [] s asked v = (s, refl, v)
  run-IsValid_peaks (report ∷ reports) s asked v =
      let (next, e, w) = on_report-IsValid report s asked.0 v in
      let (t, et, wt) = run-IsValid_peaks reports next asked.1 w in (t, >>=-some _ e ∙ et, wt)
