-- ===== src/Ros2/PointCloud/Safety.antt =====
-- Point_cloud_publisher never reads outside its vectors.
use navtechradar.Base.{
  ℕ, ◌≤◌, ◌<◌, ◌≡◌, refl, ap, ◌∙◌, arith, inl, inr, List, [], ◌∷◌, Option, some,
}
use navtechradar.Base.{Bool-cases, >>=-some}
use navtechradar.RadarClient.{
  FftReport, ConfigurationReport, Report, fft_report, configuration_report,
}
use navtechradar.RadarClient.Requests.{start_fft_data-wire}
use navtechradar.Ros2.Rotation.{turns, is_config_due}
use navtechradar.Ros2.Cloud.{Floats}
use navtechradar.Ros2.Cloud.Layout.{IsAligned, split-IsAligned, IsAligned-split}
use navtechradar.Ros2.PointCloud.{
  Publisher, check_config_publish, configuration_data_handler, fft_data_handler, on_report, run,
}
use navtechradar.Ros2.PointCloud.Revolution.{
  holding, fft_data_handler-steady, fft_data_handler-turn,
}

-- The three vectors have one length, and the fourth rotation has not been counted.
pub record IsValid (s : Publisher) : Type 0 where
  pub aligned : IsAligned s.points
  pub counted : s.rotation.rotation_count < 4

check_config_publish-IsValid :
    (s : Publisher)
    → IsAligned s.points
    → s.rotation.rotation_count ≤ 4
    → IsValid (check_config_publish s)
unfolding check_config_publish
check_config_publish-IsValid s al few = elim (Bool-cases (is_config_due s.rotation)) [
  | inl e ↦ rw e (record { aligned = al; counted = omega arith })
  | inr e ↦ rw e (record { aligned = al; counted = ground arith })
]

module _ (fl : Floats) where
  fft_data_handler-IsValid :
      (fft : FftReport) (s : Publisher)
      → IsValid s
      → (t : Publisher) × (fft_data_handler fl fft s ≡ some t) × IsValid t
  fft_data_handler-IsValid fft s v =
      let (ps, e) = IsAligned-split s.points v.aligned in
      let held : s ≡ holding fl ps s = ap (λ q. record s { points = q }) e in
      elim (Bool-cases (turns s.rotation fft.azimuth)) [
        | inl h ↦
            let turned = fft_data_handler-turn fl fft ps s (ground arith) in
            (
              _,
              ap (fft_data_handler fl fft) held ∙ turned,
              check_config_publish-IsValid _ (refl, refl) (omega (arith, v.counted)),
            )
        | inr h ↦
            let steady = fft_data_handler-steady fl fft ps s (ground arith) v.counted in
            (
              _,
              ap (fft_data_handler fl fft) held ∙ steady,
              record { aligned = split-IsAligned _; counted = v.counted },
            )
      ]

  configuration_data_handler-IsValid :
      (answer : Option ℕ) (c : ConfigurationReport) (s : Publisher)
      → IsValid s
      → (t : Publisher) × (configuration_data_handler fl answer c s ≡ some t) × IsValid t
  unfolding configuration_data_handler
  configuration_data_handler-IsValid answer c s v = (
    _,
    >>=-some _ (start_fft_data-wire answer s.radar_client),
    record { aligned = v.aligned; counted = v.counted },
  )

  on_report-IsValid :
      (answer : Option ℕ) (report : Report) (s : Publisher)
      → IsValid s
      → (t : Publisher) × (on_report fl answer report s ≡ some t) × IsValid t
  unfolding on_report
  on_report-IsValid answer (fft_report fft) s v = fft_data_handler-IsValid fft s v
  on_report-IsValid answer (configuration_report c body) s v =
      configuration_data_handler-IsValid answer c s v
  on_report-IsValid answer _ s v = (s, refl, v)

  -- Whatever the radar client delivers, configurations in any place and FFT messages of any azimuths and
  -- lengths, the publisher handles it all without a read outside a vector, and after it the vectors
  -- again have one length and fewer than four rotations are counted.
  pub run-IsValid :
      (answer : Option ℕ) (reports : List Report) (s : Publisher)
      → IsValid s
      → (t : Publisher) × (run fl answer reports s ≡ some t) × IsValid t
  unfolding run
  run-IsValid answer [] s v = (s, refl, v)
  run-IsValid answer (report ∷ reports) s v =
      let (next, e, w) = on_report-IsValid answer report s v in
      let (t, et, wt) = run-IsValid answer reports next w in (t, rw e et, wt)
