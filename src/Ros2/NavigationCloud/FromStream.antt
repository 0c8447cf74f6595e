-- ===== src/Ros2/NavigationCloud/FromStream.antt =====
-- From the stream of bytes to the point cloud: the read thread, the queue, the radar client and
-- Navigation_mode_point_cloud_publisher, one behind the other.
use navtechradar.Base.{
  ℕ, suc, ◌+◌, ◌≤◌, ◌<◌, ◌≡◌, refl, sym, ap, ◌∙◌, true, List, [], ◌∷◌, ◌++◌, map, Option, some,
}
use navtechradar.Base.{length, drop, replicate, All}
use navtechradar.RadarClient.{Radar, Report, NavigationReport, navigation_report}
use navtechradar.ThreadedQueue.{Queue, max_queue_depth}
use navtechradar.ThreadedQueue.History.{works}
use navtechradar.ThreadedQueue.History
use navtechradar.ThreadedQueue.Course.{IsRunning}
use navtechradar.Socket.{Arrival}
use navtechradar.TcpClient.{Client}
use navtechradar.TcpClient.Reader.{read_thread}
use navtechradar.TcpClient.Frames.{at}
use navtechradar.TcpClient.Stream.{wires, all_answers}
use navtechradar.RadarClient.Delivery.{
  Frame, IsFrame, messages, handle_all, reports_of, report_of, read_thread-reports,
}
use navtechradar.RadarClient.Reports.{scaled}
use navtechradar.Colossus.Messages.NavigationData
use navtechradar.RadarClient.{Outside}
use navtechradar.Ros2.Cloud.Layout.{Point}
use navtechradar.Ros2.NavigationCloud.{Environment, Publisher, Answers, check_config_publish, run}
use navtechradar.Ros2.NavigationCloud.Peaks.{
  holding, turned, all_points, IsRising, final_azimuth, run-revolution_peaks,
}

module _ (os : Outside) (encoder_size : ℕ) where
  -- What the callback is given of a message.
  abbrev pub given_of : Frame → NavigationReport
  given_of (d, ps) = record {
    angle = os.angle (NavigationData.azimuth d) encoder_size;
    azimuth = NavigationData.azimuth d;
    ntp_seconds = NavigationData.ntp_seconds d;
    ntp_split_seconds = NavigationData.ntp_split_seconds d;
    peaks = scaled os ps;
  }

  abbrev pub all_given : List Frame → List NavigationReport
  all_given [] = []
  all_given (f ∷ fs) = given_of f ∷ all_given fs

  pub reports_of-all_given :
      (answer : Option ℕ) (fs : List Frame)
      → reports_of os answer encoder_size fs ≡ map navigation_report (all_given fs)
  reports_of-all_given answer [] = refl
  reports_of-all_given answer (f ∷ fs) =
      ap (◌∷◌ (report_of os answer encoder_size f)) (reports_of-all_given answer fs)

  pub all_given-append :
      (fs : List Frame) (f : Frame) → all_given (fs ++ (f ∷ [])) ≡ all_given fs ++ (given_of f ∷ [])
  all_given-append [] f = refl
  all_given-append (g ∷ fs) f = ap (◌∷◌ (given_of g)) (all_given-append fs f)

drop-append : (rs more : List Report) → drop (length rs) (rs ++ more) ≡ more
drop-append [] more = refl
drop-append (r ∷ rs) more = drop-append rs more

-- A stream of navigation messages of one rotation, the azimuths rising and the last one's lower, becomes
-- one point cloud: the read thread, with recv giving the bytes as they are asked for, the rounds of the
-- queue's thread, one for each message, and the radar client's reports bring the publisher to the check
-- of its parameters with one more cloud, of the points it held and of all peaks of these messages in the
-- window, in order, with their ranges divided. It holds for at most one more messages than
-- max_queue_depth, each below the largest payload, for a queue that is empty and whose thread runs, for a
-- radar client with a callback for navigation data, and for a publisher that has counted fewer than four
-- rotations.
pub stream-revolution :
    (env : Environment) (answers : Answers) (answer : Option ℕ) (c : Client) (fs : List Frame)
    (last : Frame) (rest : List ℕ) (later : List Arrival) (q : Queue (List ℕ)) (fuel : ℕ)
    (r : Radar) (ps : List Point) (s : Publisher)
    → All IsFrame (fs ++ (last ∷ []))
    → length (fs ++ (last ∷ [])) ≤ suc max_queue_depth
    → IsRunning q
    → q.handled ≡ []
    → q.items ≡ []
    → r.callbacks.navigation_data ≡ true
    → IsRising env s.rotation.last_azimuth (all_given env.outside r.encoder_size fs)
    → NavigationData.azimuth last.0
      < final_azimuth env s.rotation.last_azimuth (all_given env.outside r.encoder_size fs)
    → s.rotation.rotation_count < 4
    → (q' : Queue (List ℕ)) × (r' : Radar) × (read_thread (length (fs ++ (last ∷ [])) + fuel) (
          at c
            (wires (messages (fs ++ (last ∷ []))) rest)
            (all_answers (messages (fs ++ (last ∷ []))) later)
            q)
        ≡ read_thread fuel (at c rest later q'))
      × (handle_all env.outside answer
            (History.run (replicate (length (fs ++ (last ∷ []))) works) q').handled
            r
          ≡ some r')
      × (run env answers (drop (length r.reports) r'.reports) (holding env ps s)
          ≡ check_config_publish env answers (
              turned env
                (given_of env.outside r.encoder_size last)
                (ps
                  ++ all_points env s.window s.bin_size s.azimuth_samples
                      (all_given env.outside r.encoder_size (fs ++ (last ∷ []))))
                s))
stream-revolution env answers answer c fs last rest later q fuel r ps s h few running fresh nothing
      hc rising falls counted =
    let os = env.outside in
    let all = fs ++ (last ∷ []) in
    let (q', reads, handles) =
      read_thread-reports os answer c all rest later q fuel r h few running fresh nothing hc in
    let given = all_given os r.encoder_size fs in
    let end = given_of os r.encoder_size last in
    let split = all_given-append os r.encoder_size fs last in
    (
      q',
      record r { reports = r.reports ++ reports_of os answer r.encoder_size all },
      reads,
      handles,
      ap (λ rs. run env answers rs (holding env ps s))
            (drop-append r.reports (reports_of os answer r.encoder_size all)
              ∙ reports_of-all_given os r.encoder_size answer all
              ∙ ap (map navigation_report) split)
          ∙ run-revolution_peaks env answers given end ps s rising falls counted
          ∙ ap
              (λ navs. check_config_publish env answers (
                turned env end (ps ++ all_points env s.window s.bin_size s.azimuth_samples navs) s))
              (sym split),
    )
