-- ===== src/Witnesses/Timing.antt =====
-- Runs of the theorems on the timer, on the race of enqueue() and on stop().
use navtechradar.Base.{
  ℕ, ◌+◌, ◌≤◌, ◌≡◌, refl, arith, true, false, List, [], ◌∷◌, some, ◌>>=◌, length,
}
use navtechradar.ThreadedQueue.{Queue, max_queue_depth}
use navtechradar.ThreadedQueue.Race.{
  Shared, Reach, start_here, and_then, tests, pushes, push, Reach-IsBounded, stop-late_push,
}
use navtechradar.TcpClient.Shutdown.{
  Threads, threads, before_wait, ended, not_called, notified, joined, in_wait, IsStuck,
  IsStuck-cases, stop-hangs,
}
use navtechradar.TcpClient.Shutdown
use navtechradar.Timer.{Timer, Round, call_back, do_work, nanoseconds}
use navtechradar.Timer.Waits.{first_at, do_work-first_at}

abbrev ticking : ℕ → Timer
ticking ms = record {
  thread = record { joinable = true; stop_requested = false };
  has_callback = true;
  timeout_in_milliseconds = ms;
  is_enabled = true;
  fired = 3;
}

abbrev round_at : ℕ → Round
round_at ns = record { test = ns; slept = ns + 10000000; restart = ns + 10000100; others = λ t. t }

-- Readings around the five seconds of a timeout.
abbrev rounds : List Round
rounds = round_at 0 ∷ round_at 4990000000 ∷ round_at 5000000000 ∷ []

do_work-first_at_example :
    do_work 0 rounds (ticking 5000)
    ≡ (first_at (0 + nanoseconds 5000) rounds (ticking 5000) >>= λ t. some (call_back t))
do_work-first_at_example =
    do_work-first_at 10000000 0 rounds (ticking 5000) refl (omega arith)
      ((λ t. (refl, refl)), ((λ t. (refl, refl)), ((λ t. (refl, refl)), tt)))
      (omega arith, (omega arith, (omega arith, tt)))

abbrev waiting : Queue ℕ
waiting = record {
  thread = record { joinable = true; stop_requested = false };
  stopping = false;
  items = [];
  has_callback = true;
  handled = [];
}

-- Two calls pass the test before the first of them pushes.
abbrev both_passed : Shared ℕ
both_passed = record { queue = push 7 waiting; passed = 8 ∷ [] }

both_passed-Reach : Reach 2 (record { queue = waiting; passed = [] }) both_passed
both_passed-Reach =
    and_then _ _
      (and_then _ _ (and_then _ _ start_here (tests 7 waiting [] refl (omega arith)))
        (tests 8 waiting (7 ∷ []) refl (omega arith)))
      (pushes 7 waiting (8 ∷ []) [])

Reach-IsBounded_example :
    length both_passed.queue.items + length both_passed.passed ≤ max_queue_depth + 2
Reach-IsBounded_example =
    Reach-IsBounded 2 (record { queue = waiting; passed = [] }) both_passed refl refl
      both_passed-Reach

stop-late_push_example :
    (t : Shared ℕ) × Reach 1 (record { queue = waiting; passed = [] }) t
    × (t.passed ≡ [])
    × (t.queue.thread.joinable ≡ false)
    × (t.queue.items ≡ 7 ∷ [])
stop-late_push_example = stop-late_push 1 7 false waiting (omega arith) refl refl refl

joined-IsStuck : IsStuck (threads ended joined)
joined-IsStuck t st = elim st [ ]

stop-hangs_example :
    (t : Threads) × Shutdown.Reach (threads before_wait not_called) t
    × IsStuck t
    × (t.stopping ≡ notified)
stop-hangs_example = stop-hangs (threads before_wait not_called) refl refl
