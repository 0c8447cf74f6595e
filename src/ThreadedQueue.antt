-- ===== src/ThreadedQueue.antt =====
-- cpp_17/utility/threaded_class.h and .cpp, and threaded_queue.h: a worker thread that takes items
-- from a queue and hands them to a callback. The callback's calls are the list `handled`. The locks
-- make each function below one step; a wait on the condition changes nothing.
use navtechradar.Base.{
  ℕ, zero, suc, ◌<◌, ◌≡◌, Bool, true, false, not, ◌||◌, List, [], ◌∷◌, ◌++◌, Option, none, some,
}
use navtechradar.Base.{length, ◌>>=◌, ltb, if◌then◌else◌}
pub mod History
pub mod Drain
pub mod Course
pub mod Race

-- Threaded_class
pub record Thread : Type 0 where
  pub joinable : Bool
  pub stop_requested : Bool

abbrev pub max_queue_depth : ℕ
max_queue_depth = 10000

pub record Queue {ℓ} (A : Type ℓ) : Type ℓ where
  pub thread : Thread
  pub stopping : Bool
  pub items : List A
  pub has_callback : Bool
  pub handled : List A

module _ {ℓ} {A : Type ℓ} where
  pub new : Queue A
  new = record {
    thread = record { joinable = false; stop_requested = false };
    stopping = false;
    items = [];
    has_callback = false;
    handled = [];
  }

  unfoldable pub enqueue : A → Queue A → Queue A
  enqueue item q =
      if q.stopping
        || not q.has_callback
        || not q.thread.joinable
        || ltb max_queue_depth (length q.items)
      then q
      else record q { items = q.items ++ (item ∷ []) }

  unfoldable pub set_dequeue_callback : Bool → Queue A → Queue A
  set_dequeue_callback some_fn q = record q { has_callback = some_fn }

  -- dequeue_callback(item), if there is one.
  abbrev pub call_back : A → List A → Queue A → Queue A
  call_back item rest q =
      if q.has_callback
      then record q { items = rest; handled = q.handled ++ (item ∷ []) }
      else record q { items = rest }

  abbrev take_front : List A → Queue A → Queue A
  take_front [] q = q
  take_front (item ∷ rest) q = call_back item rest q

  -- One round of the thread: Threaded_class::thread_method calls it until a stop is requested.
  unfoldable pub do_work : Queue A → Queue A
  do_work q = take_front q.items q

  unfoldable pub thread_round : Queue A → Queue A
  thread_round q = if q.thread.stop_requested || not q.thread.joinable then q else do_work q

  abbrev pub is_empty : List A → Bool
  is_empty [] = true
  is_empty (item ∷ rest) = false

  -- The new state, and whether the queue is empty now.
  unfoldable pub dequeue : Queue A → Queue A × Bool
  dequeue q = let next = take_front q.items q in (next, is_empty next.items)

  -- while (!dequeue()) { }
  unfoldable pub drain : ℕ → Queue A → Option (Queue A)
  drain zero q = none
  drain (suc fuel) q =
      let (next, done) = dequeue q in let rest = drain fuel next in if done then some next else rest

  -- Each round takes an item, so one round more than there are items is enough.
  unfoldable pub pre_stop : Bool → Queue A → Option (Queue A)
  pre_stop finish_work q =
      let flagged = record q { stopping = true } in
      let drained = drain (suc (length q.items)) flagged in
      (if finish_work then drained else some flagged) >>= λ d. some (record d { items = [] })

  unfoldable pub post_stop : Queue A → Queue A
  post_stop q = record q { stopping = false }

  -- Threaded_class::start, with post_stop() as the queue overrides it.
  unfoldable pub start : Queue A → Queue A
  start q =
      if q.thread.joinable
      then q
      else post_stop (record q { thread = record { joinable = true; stop_requested = false } })

  unfoldable pub join : Queue A → Queue A
  join q = record q {
    thread = record { joinable = false; stop_requested = q.thread.stop_requested };
  }

  -- Threaded_class::stop, with pre_stop() as the queue overrides it.
  unfoldable pub stop : Bool → Queue A → Option (Queue A)
  stop finish_work q =
      if not q.thread.joinable || q.thread.stop_requested
      then some q
      else (pre_stop finish_work
            (record q { thread = record { joinable = q.thread.joinable; stop_requested = true } })
          >>= λ d. some (join d))
