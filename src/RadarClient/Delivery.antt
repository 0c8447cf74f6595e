-- ===== src/RadarClient/Delivery.antt =====
-- From the stream of bytes to the callbacks of the radar client: the read thread, the queue of
-- received messages and Radar_client::handle_data, one behind the other.
use navtechradar.Base.{
  ℕ, zero, suc, ◌+◌, ◌*◌, ◌<◌, ◌≤◌, ◌≡◌, refl, sym, ap, ◌∙◌, arith, Bool, true, List, [], ◌∷◌, ◌++◌,
  append-nil, append_assoc, Option, some, ◌>>=◌,
}
use navtechradar.Base.{length, length-append, All, if◌then◌else◌, replicate}
use navtechradar.ThreadedQueue.{Queue, max_queue_depth}
use navtechradar.ThreadedQueue
use navtechradar.ThreadedQueue.History.{Call, enqueues, works, step, run, history}
use navtechradar.ThreadedQueue.Course.{
  enqueued, IsRunning, run-handled, run-append, run-waiting, run-IsRunning, works-empty,
}
use navtechradar.Socket.{Arrival}
use navtechradar.Colossus.Kind.{code, kind_of-code}
use navtechradar.Colossus.Kind
use navtechradar.Colossus.Message.{largest_payload}
use navtechradar.Colossus.Message.Wire.{wire}
use navtechradar.Colossus.Messages.NavigationData
use navtechradar.Colossus.Messages.Views.{IsNavigationData}
use navtechradar.TcpClient.{Client}
use navtechradar.TcpClient.Reader.{read_thread}
use navtechradar.TcpClient.Frames.{at}
use navtechradar.TcpClient.Stream.{IsSendable, wires, all_answers, enqueue_all, read_thread-wires}
use navtechradar.RadarClient.{Outside, Radar, Report, navigation_report}
use navtechradar.RadarClient.Handlers.{report, handle_data}
use navtechradar.RadarClient.Reports.{
  peaks_bytes, IsPeak, scaled, peaks_bytes-length, handle_data-navigation,
}

-- A navigation message: its fields and its peaks.
abbrev pub Frame : Type 0
Frame = NavigationData.NavigationData × List (ℕ × ℕ)

abbrev pub IsFrame : Frame → Type 0
IsFrame (d, ps) =
    IsNavigationData d × All IsPeak ps × (NavigationData.size + 6 * length ps < largest_payload)

abbrev pub message_of : Frame → ℕ × List ℕ
message_of (d, ps) = (code Kind.navigation_data, NavigationData.fields d ++ peaks_bytes ps)

abbrev pub wire_of : Frame → List ℕ
wire_of f = wire (message_of f).0 (message_of f).1

-- The messages, and their bytes.
abbrev pub messages : List Frame → List (ℕ × List ℕ)
messages [] = []
messages (f ∷ fs) = message_of f ∷ messages fs

abbrev pub all_bytes : List Frame → List (List ℕ)
all_bytes [] = []
all_bytes (f ∷ fs) = wire_of f ∷ all_bytes fs

length-fields : (d : NavigationData.NavigationData) → length (NavigationData.fields d) ≡ 10
length-fields d = refl

IsSendable-frame : (f : Frame) → IsFrame f → IsSendable (message_of f)
IsSendable-frame (d, ps) (w, h, small) = (
  (kind_of-code Kind.navigation_data).1,
  omega (
    arith,
    length-append (NavigationData.fields d) (peaks_bytes ps),
    length-fields d,
    peaks_bytes-length ps,
  ),
)

IsSendable-frames : (fs : List Frame) → All IsFrame fs → All IsSendable (messages fs)
IsSendable-frames [] h = tt
IsSendable-frames (f ∷ fs) (hf, h) = (IsSendable-frame f hf, IsSendable-frames fs h)

length-messages : (fs : List Frame) → length (messages fs) ≡ length fs
length-messages [] = refl
length-messages (f ∷ fs) = ap suc (length-messages fs)

-- The read thread's calls of enqueue().
abbrev pub enqueue_calls : List Frame → List (Call (List ℕ))
enqueue_calls [] = []
enqueue_calls (f ∷ fs) = enqueues (wire_of f) ∷ enqueue_calls fs

enqueue_all-run :
    (fs : List Frame) (q : Queue (List ℕ)) → enqueue_all (messages fs) q ≡ run (enqueue_calls fs) q
unfolding run step
enqueue_all-run [] q = refl
enqueue_all-run (f ∷ fs) q = enqueue_all-run fs (ThreadedQueue.enqueue (wire_of f) q)

-- The calls followed by rounds of the queue's thread.
enqueued-works :
    (fs : List Frame) (n : ℕ) → enqueued (enqueue_calls fs ++ replicate n works) ≡ all_bytes fs
enqueued-works [] zero = refl
enqueued-works [] (suc n) = enqueued-works [] n
enqueued-works (f ∷ fs) n = ap (◌∷◌ (wire_of f)) (enqueued-works fs n)

length-all_bytes : (fs : List Frame) → length (all_bytes fs) ≡ length fs
length-all_bytes [] = refl
length-all_bytes (f ∷ fs) = ap suc (length-all_bytes fs)

module _ (os : Outside) (answer : Option ℕ) where
  -- The calls of the dequeue callback.
  unfoldable pub handle_all : List (List ℕ) → Radar → Option Radar
  handle_all [] r = some r
  handle_all (bytes ∷ rest) r = do r' ← handle_data os answer bytes r; handle_all rest r'

  abbrev pub report_of : ℕ → Frame → Report
  report_of encoder_size (d, ps) = navigation_report (record {
    angle = os.angle (NavigationData.azimuth d) encoder_size;
    azimuth = NavigationData.azimuth d;
    ntp_seconds = NavigationData.ntp_seconds d;
    ntp_split_seconds = NavigationData.ntp_split_seconds d;
    peaks = scaled os ps;
  })

  abbrev pub reports_of : ℕ → List Frame → List Report
  reports_of encoder_size [] = []
  reports_of encoder_size (f ∷ fs) = report_of encoder_size f ∷ reports_of encoder_size fs

  handle_data-frame :
      (f : Frame) (r : Radar)
      → IsFrame f
      → r.callbacks.navigation_data ≡ true
      → handle_data os answer (wire_of f) r ≡ some (report (report_of r.encoder_size f) r)
  handle_data-frame (d, ps) r (w, h, small) hc =
      handle_data-navigation os answer d ps r w h (omega arith)
      ∙ ap (λ (b : Bool). some (if b then report (report_of r.encoder_size (d, ps)) r else r)) hc

  handle_all-frames :
      (fs : List Frame) (r : Radar)
      → All IsFrame fs
      → r.callbacks.navigation_data ≡ true
      → handle_all (all_bytes fs) r
        ≡ some (record r { reports = r.reports ++ reports_of r.encoder_size fs })
  unfolding handle_all
  handle_all-frames [] r h hc =
      ap (λ (rs : List Report). some (record r { reports = rs })) (sym (append-nil r.reports))
  handle_all-frames (f ∷ fs) r (hf, h) hc =
      ap (λ (o : Option Radar). o >>= λ r'. handle_all (all_bytes fs) r')
        (handle_data-frame f r hf hc)
      ∙ handle_all-frames fs (report (report_of r.encoder_size f) r) h hc
      ∙ ap (λ (rs : List Report). some (record r { reports = rs }))
          (append_assoc r.reports (report_of r.encoder_size f ∷ []) (reports_of r.encoder_size fs))

  -- Of a course of calls that brings navigation messages, of a queue that starts empty with its thread
  -- running and ends with nothing waiting, the radar client reports each message, once and in order,
  -- wherever the rounds of the queue's thread fall, if there are at most one more messages than
  -- max_queue_depth and the callback for navigation data is set.
  pub run-reports :
      (fs : List Frame) (cs : List (Call (List ℕ))) (q : Queue (List ℕ)) (r : Radar)
      → All IsFrame fs
      → length fs ≤ suc max_queue_depth
      → IsRunning q
      → q.handled ≡ []
      → q.items ≡ []
      → enqueued cs ≡ all_bytes fs
      → (run cs q).items ≡ []
      → r.callbacks.navigation_data ≡ true
      → handle_all (run cs q).handled r
        ≡ some (record r { reports = r.reports ++ reports_of r.encoder_size fs })
  run-reports fs cs q r h few running fresh nothing e drained hc =
      let fits : length q.items + length (enqueued cs) ≤ suc max_queue_depth = omega (
        arith,
        ap (λ (bs : List (List ℕ)). length bs) e,
        length-all_bytes fs,
        ap (λ (bs : List (List ℕ)). length bs) nothing,
      ) in
      ap (λ (bs : List (List ℕ)). handle_all bs r)
        (run-handled cs q running fits drained ∙ (λ i. (fresh i ++ nothing i) ++ enqueued cs) ∙ e)
      ∙ handle_all-frames fs r h hc

  -- On a stream of navigation messages whose bytes recv gives as they are asked for, the read thread
  -- passes over them and leaves a queue from which the rounds of the queue's thread, one for each
  -- message, make the radar client report each message, once and in order: with its azimuth, its
  -- angle, its time, and its peaks with their ranges divided. It holds for at most one more messages
  -- than max_queue_depth, each below the largest payload, for a queue that is empty and whose thread
  -- runs, and for a radar client with a callback for navigation data.
  pub read_thread-reports :
      (c : Client) (fs : List Frame) (rest : List ℕ) (later : List Arrival) (q : Queue (List ℕ))
      → (fuel : ℕ) (r : Radar) → All IsFrame fs
      → length fs ≤ suc max_queue_depth
      → IsRunning q
      → q.handled ≡ []
      → q.items ≡ []
      → r.callbacks.navigation_data ≡ true
      → (q' : Queue (List ℕ)) × (read_thread
            (length fs + fuel)
            (at c (wires (messages fs) rest) (all_answers (messages fs) later) q)
          ≡ read_thread fuel (at c rest later q'))
        × (handle_all (run (replicate (length fs) works) q').handled r
            ≡ some (record r { reports = r.reports ++ reports_of r.encoder_size fs }))
  read_thread-reports c fs rest later q fuel r h few running fresh nothing hc =
      let rounds : List (Call (List ℕ)) = replicate (length fs) works in
      let cs = enqueue_calls fs in
      let split : run (cs ++ rounds) q ≡ run rounds (run cs q) = run-append cs rounds q in
      let all : enqueued cs ≡ all_bytes fs =
        ap enqueued (sym (append-nil cs)) ∙ enqueued-works fs 0 in
      let sizes : length q.items + length (enqueued cs) ≡ length fs = omega (
        arith,
        ap (λ (xs : List (List ℕ)). length xs) nothing,
        ap (λ (xs : List (List ℕ)). length xs) all,
        length-all_bytes fs,
      ) in
      let history_size : length (history q ++ enqueued cs) ≡ length fs =
        (λ i. length ((fresh i ++ nothing i) ++ all i)) ∙ length-all_bytes fs in
      let waiting : length (run cs q).items ≤ length fs =
        omega (arith, history_size, run-waiting cs q running (omega (arith, sizes))) in
      let drained : (run (cs ++ rounds) q).items ≡ [] =
        ap (λ (u : Queue (List ℕ)). u.items) split
        ∙ works-empty (length fs) (run cs q) (run-IsRunning cs q running) waiting in
      (
        run cs q,
        ap
              (λ (n : ℕ).
                read_thread (n + fuel)
                  (at c (wires (messages fs) rest) (all_answers (messages fs) later) q))
              (sym (length-messages fs))
            ∙ read_thread-wires c (messages fs) rest later q fuel (IsSendable-frames fs h)
            ∙ ap (λ (u : Queue (List ℕ)). read_thread fuel (at c rest later u))
                (enqueue_all-run fs q),
        ap (λ (u : Queue (List ℕ)). handle_all u.handled r) (sym split)
            ∙ run-reports fs (cs ++ rounds) q r h few running fresh nothing
                (enqueued-works fs (length fs)) drained hc,
      )
