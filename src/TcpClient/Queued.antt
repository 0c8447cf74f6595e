-- ===== src/TcpClient/Queued.antt =====
-- What a queue whose thread runs holds after the calls of enqueue() for the messages of a stream.
use navtechradar.Base.{
  ℕ, suc, ◌≤◌, ◌<◌, ◌≡◌, sym, ap, ◌∙◌, arith, inl, inr, List, [], ◌∷◌, ◌++◌, append-nil,
  append_assoc,
}
use navtechradar.Base.{length, length-append, take, take-append_exact, take_all, ltb, Bool-cases}
use navtechradar.ThreadedQueue.{Queue, max_queue_depth}
use navtechradar.ThreadedQueue
use navtechradar.ThreadedQueue.Course.{IsRunning, enqueue-running}
use navtechradar.Colossus.Message.Wire.{wire}
use navtechradar.TcpClient.Stream.{enqueue_all}

-- The bytes of each message.
abbrev pub all_wires : List (ℕ × List ℕ) → List (List ℕ)
all_wires [] = []
all_wires ((id, p) ∷ ms) = wire id p ∷ all_wires ms

-- The queue with so many items of a list as it has place for.
abbrev pub filled : List (List ℕ) → Queue (List ℕ) → Queue (List ℕ)
filled xs q = record q { items = take (suc max_queue_depth) xs }

enqueue-full :
    (a : List ℕ) (q : Queue (List ℕ))
    → max_queue_depth < length q.items
    → ThreadedQueue.enqueue a q ≡ q
unfolding ThreadedQueue.enqueue
enqueue-full a q h = ground arith

-- Of a queue that runs and is not over its depth, enqueue() leaves the items and the messages, in order,
-- up to one more than max_queue_depth; what comes after is dropped.
pub enqueue_all-filled :
    (ms : List (ℕ × List ℕ)) (q : Queue (List ℕ))
    → IsRunning q
    → length q.items ≤ suc max_queue_depth
    → enqueue_all ms q ≡ filled (q.items ++ all_wires ms) q
enqueue_all-filled [] q h few =
    ap (λ xs. record q { items = xs })
      (sym (
        ap (take (suc max_queue_depth)) (append-nil q.items)
        ∙ take_all (suc max_queue_depth) q.items few))
enqueue_all-filled ((id, p) ∷ ms) q h few =
    elim (Bool-cases (ltb max_queue_depth (length q.items))) [
      | inl full ↦
          let exact : length q.items ≡ suc max_queue_depth = ground arith in
          let kept : (xs : List (List ℕ)) → take (suc max_queue_depth) (q.items ++ xs) ≡ q.items =
            λ xs. take-append_exact (suc max_queue_depth) q.items xs exact in
          ap (enqueue_all ms) (enqueue-full (wire id p) q (ground arith))
          ∙ enqueue_all-filled ms q h few
          ∙ ap (λ xs. record q { items = xs })
              (kept (all_wires ms) ∙ sym (kept (wire id p ∷ all_wires ms)))
      | inr room ↦
          let below : length q.items ≤ max_queue_depth = ground arith in
          let next : Queue (List ℕ) = record q { items = q.items ++ (wire id p ∷ []) } in
          ap (enqueue_all ms) (enqueue-running (wire id p) q h below).1
          ∙ enqueue_all-filled ms next h (omega (arith, length-append q.items (wire id p ∷ [])))
          ∙ ap (λ xs. filled xs q) (append_assoc q.items (wire id p ∷ []) (all_wires ms))
    ]
