-- ===== src/ThreadedQueue/Drain.antt =====
-- Stopping the queue.
use navtechradar.Base.{
  Bool-cases, inl, inr, not, ◌||◌, ℕ, zero, suc, ◌<◌, ◌≡◌, refl, arith, Bool, true, false, List, [],
  ◌∷◌, ◌++◌, append-nil, append_assoc, some, length, if◌then◌else◌,
}
use navtechradar.ThreadedQueue.{Queue, Thread, dequeue, drain, pre_stop, stop, join}

abbrev thread : Bool → Bool → Thread
thread j r = record { joinable = j; stop_requested = r }

module _ {ℓ} {A : Type ℓ} where
  abbrev queue : Thread → Bool → Bool → List A → List A → Queue A
  queue t s cb xs hs = record {
    thread = t;
    stopping = s;
    items = xs;
    has_callback = cb;
    handled = hs;
  }

  drain_all :
      (xs hs : List A) (fuel : ℕ) (t : Thread) (s : Bool)
      → length xs < fuel
      → drain fuel (queue t s true xs hs) ≡ some (queue t s true [] (hs ++ xs))
  unfolding drain dequeue
  drain_all xs hs zero t s h = elim h [ ]
  drain_all [] hs (suc fuel) t s h = rw append-nil
  drain_all (x ∷ []) hs (suc fuel) t s h = refl
  drain_all (x ∷ y ∷ xs) hs (suc fuel) t s h =
      rw (drain_all (y ∷ xs) (hs ++ (x ∷ [])) fuel t s (omega arith), append_assoc)

  drain_none :
      (xs hs : List A) (fuel : ℕ) (t : Thread) (s : Bool)
      → length xs < fuel
      → drain fuel (queue t s false xs hs) ≡ some (queue t s false [] hs)
  unfolding drain dequeue
  drain_none xs hs zero t s h = elim h [ ]
  drain_none [] hs (suc fuel) t s h = refl
  drain_none (x ∷ []) hs (suc fuel) t s h = refl
  drain_none (x ∷ y ∷ xs) hs (suc fuel) t s h = drain_none (y ∷ xs) hs fuel t s (omega arith)

  abbrev stopped : Bool → Queue A → List A
  stopped finish q =
      if finish then (if q.has_callback then q.handled ++ q.items else q.handled) else q.handled

  -- What stop() promises of the queue that it leaves.
  abbrev pub Stops : Bool → Queue A → Type ℓ
  Stops finish q =
      (r : Queue A) × (stop finish q ≡ some r)
      × (r.items ≡ [])
      × (r.handled ≡ stopped finish q)
      × (r.stopping ≡ true)
      × (r.thread.joinable ≡ false)

  stop_parts :
      (finish j r s cb : Bool) (xs hs : List A)
      → j ≡ true
      → r ≡ false
      → Stops finish (queue (thread j r) s cb xs hs)
  unfolding stop pre_stop join
  stop_parts finish false r s cb xs hs hj hr = cc
  stop_parts finish true true s cb xs hs hj hr = cc
  stop_parts false true false s cb xs hs hj hr =
      (queue (thread false true) true cb [] hs, refl, refl, refl, refl, refl)
  stop_parts true true false s true xs hs hj hr = (
    queue (thread false true) true true [] (hs ++ xs),
    rw (drain_all xs hs (suc (length xs)) (thread true true) true (omega arith)),
    refl,
    refl,
    refl,
    refl,
  )
  stop_parts true true false s false xs hs hj hr = (
    queue (thread false true) true false [] hs,
    rw (drain_none xs hs (suc (length xs)) (thread true true) true (omega arith)),
    refl,
    refl,
    refl,
    refl,
  )

  -- Stopping a running queue always ends. With finish_work and a callback every item that was left
  -- goes to the callback, in order; otherwise the items are dropped and nothing more is handed
  -- over. Afterwards the queue is empty, marked as stopping, and its thread is joined.
  pub stop_lem :
      (finish : Bool) (q : Queue A)
      → q.thread.joinable ≡ true
      → q.thread.stop_requested ≡ false
      → Stops finish q
  stop_lem finish q hj hr =
      stop_parts finish q.thread.joinable q.thread.stop_requested q.stopping q.has_callback q.items
        q.handled hj hr

module _ {ℓ} {A : Type ℓ} where
  -- A stop that does not finish the work ends on every queue.
  pub stop_ends : (q : Queue A) → (r : Queue A) × (stop false q ≡ some r)
  unfolding stop pre_stop join
  stop_ends q = elim (Bool-cases (not q.thread.joinable || q.thread.stop_requested)) [
    | inl idle ↦ (q, rw idle)
    | inr works ↦ (queue (thread false true) true q.has_callback [] q.handled, rw works)
  ]
