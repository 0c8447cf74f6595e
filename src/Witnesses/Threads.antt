-- ===== src/Witnesses/Threads.antt =====
-- Runs of the theorems on the queue.
use navtechradar.Base.{ℕ, ◌≡◌, refl, true, false, List, [], ◌∷◌, ◌++◌}
use navtechradar.ThreadedQueue.{Queue}
use navtechradar.ThreadedQueue.History.{Call, enqueues, works, run, history, accepted, run-history}

abbrev working : List ℕ → Queue ℕ
working items = record {
  thread = record { joinable = true; stop_requested = false };
  stopping = false;
  items = items;
  has_callback = true;
  handled = 4 ∷ [];
}

abbrev calls : List (Call ℕ)
calls = enqueues 7 ∷ works ∷ enqueues 8 ∷ works ∷ works ∷ []

run-history_example :
    history (run calls (working (5 ∷ 6 ∷ [])))
    ≡ history (working (5 ∷ 6 ∷ [])) ++ accepted calls (working (5 ∷ 6 ∷ []))
run-history_example = run-history calls (working (5 ∷ 6 ∷ [])) refl
