-- ===== src/Witnesses/Delivery.antt =====
-- Runs of the theorems on the way from the stream to the callbacks.
use navtechradar.Base.{
  ℕ, suc, ◌+◌, ◌≡◌, refl, arith, List, [], ◌∷◌, ◌++◌, some, none, inl, take, ◌≢◌, length, replicate,
}
use navtechradar.ThreadedQueue.{Queue, max_queue_depth}
use navtechradar.ThreadedQueue.History.{works, run}
use navtechradar.TcpClient.Reader.{read_thread}
use navtechradar.Colossus.Message.{signature, version}
use navtechradar.Colossus.Message.Wire.{wire}
use navtechradar.TcpClient.Decode.{
  Decodes, stops, noise, skips, takes, header_with, rounds, decode_answers, read_thread-Decodes,
}
use navtechradar.TcpClient.Queued.{all_wires}
use navtechradar.TcpClient.DecodeAll.{IsPartial, read_thread-IsPartial}
use navtechradar.TcpClient.Frames.{at}
use navtechradar.TcpClient.Stream.{wires, all_answers, enqueue_all}
use navtechradar.RadarClient.Delivery.{Frame, messages, handle_all, reports_of, read_thread-reports}
use navtechradar.Witnesses.Network.{reader, empty_queue}
use navtechradar.Witnesses.Radar.{on_numbers, radar, sweep, two_peaks, sweep-IsNavigationData}

abbrev frames : List Frame
frames = (sweep, two_peaks) ∷ (sweep, []) ∷ []

read_thread-reports_example :
    (q' : Queue (List ℕ)) × (read_thread (length frames + 3) (
        at reader (wires (messages frames) (9 ∷ [])) (all_answers (messages frames) []) empty_queue)
      ≡ read_thread 3 (at reader (9 ∷ []) [] q'))
    × (handle_all on_numbers none (run (replicate (length frames) works) q').handled radar
        ≡ some (record radar { reports = radar.reports ++ reports_of on_numbers none 5600 frames }))
read_thread-reports_example =
    read_thread-reports on_numbers none reader frames (9 ∷ []) [] empty_queue 3 radar
      (
        (
          sweep-IsNavigationData,
          ((omega arith, omega arith), ((omega arith, omega arith), tt)),
          omega arith,
        ),
        ((sweep-IsNavigationData, tt, omega arith), tt),
      )
      (omega arith) (refl, refl, refl, refl) refl refl refl

-- Noise, a header of another version, and a message.
abbrev mixed : List ℕ
mixed = 99 ∷ (header_with 2 30 5 ++ (wire 30 (7 ∷ []) ++ (9 ∷ [])))

other_head : take 16 mixed ≢ signature
other_head e = cc

two_is_other : 2 ≢ version
two_is_other e = omega (arith, e)

mixed-cut : Decodes mixed ((30, 7 ∷ []) ∷ []) (9 ∷ [])
mixed-cut =
    noise 99 _ _ _ (omega arith) (λ e. other_head e)
      (skips 2 30 5 _ _ _ (omega arith) (omega arith) (inl (λ e. two_is_other e))
        (takes 30 (7 ∷ []) _ _ _ (omega arith, omega arith) (stops (9 ∷ []))))

read_thread-Decodes_example :
    read_thread (rounds mixed-cut + 4) (at reader mixed (decode_answers mixed-cut []) empty_queue)
    ≡ read_thread 4 (at reader (9 ∷ []) [] (enqueue_all ((30, 7 ∷ []) ∷ []) empty_queue))
read_thread-Decodes_example =
    read_thread-Decodes reader mixed ((30, 7 ∷ []) ∷ []) (9 ∷ []) mixed-cut [] empty_queue 4

-- Noise, a message, and the beginning of a header.
abbrev noisy : List ℕ
noisy = 99 ∷ (wire 30 (7 ∷ []) ++ (0 ∷ 1 ∷ 3 ∷ []))

read_thread-IsPartial_example :
    (ms : List (ℕ × List ℕ)) × (rest : List ℕ) × (cut : Decodes noisy ms rest) × IsPartial rest
    × (read_thread (rounds cut + 4) (at reader noisy (decode_answers cut []) empty_queue)
        ≡ read_thread 4 (
            at reader rest [] (record empty_queue {
              items = take (suc max_queue_depth) (empty_queue.items ++ all_wires ms);
            })))
read_thread-IsPartial_example =
    read_thread-IsPartial noisy reader [] empty_queue 4 (omega arith) (refl, refl, refl, refl)
      (omega arith)
