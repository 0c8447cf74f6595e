-- ===== src/Timer.antt =====
-- cpp_17/utility/timer.h and .cpp: the class Timer, a Threaded_class whose thread calls back once in
-- every timeout. Time is in nanoseconds. What the clock reads, and what other threads do to the timer
-- meanwhile, are arguments. A call of the callback is counted in `fired`.
use navtechradar.Base.{
  ℕ, zero, suc, ◌+◌, ◌-◌, ◌*◌, Bool, true, false, not, ◌||◌, ◌&&◌, List, [], ◌∷◌, Option, none,
  some, ◌>>=◌,
}
use navtechradar.Base.{ltb, if◌then◌else◌}
use navtechradar.ThreadedQueue.{Thread}
pub mod Waits
pub mod Enables

pub record Timer : Type 0 where
  pub thread : Thread
  pub has_callback : Bool
  pub timeout_in_milliseconds : ℕ
  pub is_enabled : Bool
  pub fired : ℕ

abbrev pub nanoseconds : ℕ → ℕ
nanoseconds milliseconds = milliseconds * 1000000

abbrev pub restart_after : ℕ
restart_after = 15000

-- A round of the loop: the clock at the loop's test, after the sleep, and where `now` is set again.
pub record Round : Type 0 where
  pub test : ℕ
  pub slept : ℕ
  pub restart : ℕ
  pub others : Timer → Timer

unfoldable pub new : ℕ → Timer
new timeout = record {
  thread = record { joinable = false; stop_requested = false };
  has_callback = false;
  timeout_in_milliseconds = timeout;
  is_enabled = false;
  fired = 0;
}

unfoldable pub set_callback : Bool → Timer → Timer
set_callback fn t = record t { has_callback = fn }

unfoldable pub timeout : Timer → ℕ
timeout t = t.timeout_in_milliseconds

unfoldable pub set_timeout : ℕ → Timer → Timer
set_timeout new_timeout t = record t { timeout_in_milliseconds = new_timeout }

-- `now` at the end of a round.
abbrev pub now_after : ℕ → Round → ℕ
now_after now r = if ltb (nanoseconds restart_after) (r.slept - now) then r.restart else now

-- The while loop. `none` if it has not ended when the rounds are used up.
unfoldable pub wait : ℕ → List Round → Timer → Option Timer
wait now [] t = none
wait now (r ∷ rs) t =
    let slept : Timer = r.others t in
    let rest = wait (now_after now r) rs slept in
    if ltb r.test (now + nanoseconds t.timeout_in_milliseconds)
    then (if slept.thread.stop_requested then some slept else rest)
    else some t

-- What follows the loop, under the lock of the callback.
unfoldable pub call_back : Timer → Timer
call_back t = if t.is_enabled && t.has_callback then record t { fired = suc t.fired } else t

unfoldable pub do_work : ℕ → List Round → Timer → Option Timer
do_work now rounds t = wait now rounds t >>= λ t'. some (call_back t')

-- Threaded_class::start and stop, of which Timer overrides nothing. join() waits for the round of the
-- thread to end, which is the argument.
unfoldable pub start : Timer → Timer
start t =
    if t.thread.joinable
    then t
    else record t { thread = record { joinable = true; stop_requested = false } }

unfoldable pub stop : (Timer → Timer) → Timer → Timer
stop last_round t =
    if not t.thread.joinable || t.thread.stop_requested
    then t
    else (let stopped =
          last_round (record t { thread = record { joinable = true; stop_requested = true } }) in
        record stopped { thread = record { joinable = false; stop_requested = true } })

unfoldable pub enable : (Timer → Timer) → Bool → Timer → Timer
enable last_round true t = if t.is_enabled then t else start (record t { is_enabled = true })
enable last_round false t =
    if t.is_enabled then stop last_round (record t { is_enabled = false }) else t
