-- ===== src/ThreadedQueue/History.antt =====
-- The queue over any course of calls: its depth, and the order in which items are handed over.
use navtechradar.Base.{
  suc, ◌≤◌, ◌≡◌, refl, sym, ap, ◌∙◌, arith, Bool, true, false, not, ◌||◌, List, [], ◌∷◌, ◌++◌,
  append-nil, append_assoc,
}
use navtechradar.Base.{length, length-append, ltb, if◌then◌else◌}
use navtechradar.ThreadedQueue.{
  Queue, enqueue, thread_round, do_work, start, post_stop, max_queue_depth, take_front,
}

-- The calls of other threads, and the rounds of the queue's own thread.
pub data Call {ℓ} (A : Type ℓ) : Type ℓ where
  enqueues : A → Call A
  works : Call A
  starts : Call A

module _ {ℓ} {A : Type ℓ} where
  unfoldable pub step : Call A → Queue A → Queue A
  step (enqueues a) q = enqueue a q
  step works q = thread_round q
  step starts q = start q

  unfoldable pub run : List (Call A) → Queue A → Queue A
  run [] q = q
  run (c ∷ cs) q = run cs (step c q)

  -- The test of enqueue().
  abbrev pub is_accepted : Queue A → Bool
  is_accepted q = not (
      q.stopping
      || not q.has_callback
      || not q.thread.joinable
      || ltb max_queue_depth (length q.items))

  -- The items that enqueue() takes over a course of calls.
  unfoldable pub accepted : List (Call A) → Queue A → List A
  accepted [] q = []
  accepted (enqueues a ∷ cs) q =
      let rest = accepted cs (enqueue a q) in if is_accepted q then a ∷ rest else rest
  accepted (works ∷ cs) q = accepted cs (thread_round q)
  accepted (starts ∷ cs) q = accepted cs (start q)

  take_front-length :
      (xs : List A) (q : Queue A) → q.items ≡ xs → length (take_front xs q).items ≤ length xs
  take_front-length [] q e = omega (arith, ap length e)
  take_front-length (x ∷ xs) q e = ground arith

  step-depth :
      (c : Call A) (q : Queue A)
      → length q.items ≤ suc max_queue_depth
      → length (step c q).items ≤ suc max_queue_depth
  unfolding step enqueue thread_round do_work start post_stop
  step-depth (enqueues a) q h = ground (arith, length-append q.items (a ∷ []))
  step-depth works q h = ground (arith, take_front-length q.items q refl)
  step-depth starts q h = ground arith

  -- Whatever the calls, a queue that holds at most one item over max_queue_depth goes on to do so.
  pub run-depth :
      (cs : List (Call A)) (q : Queue A)
      → length q.items ≤ suc max_queue_depth
      → length (run cs q).items ≤ suc max_queue_depth
  unfolding run
  run-depth [] q h = h
  run-depth (c ∷ cs) q h = run-depth cs (step c q) (step-depth c q h)

  -- The test in enqueue() lets a queue of max_queue_depth items grow by one more.
  pub enqueue_at_max_depth :
      (a : A) (q : Queue A)
      → q.stopping ≡ false
      → q.has_callback ≡ true
      → q.thread.joinable ≡ true
      → length q.items ≡ max_queue_depth
      → length (enqueue a q).items ≡ suc max_queue_depth
  unfolding enqueue
  enqueue_at_max_depth a q hs hc hj h = ground (arith, length-append q.items (a ∷ []))

  abbrev pub history : Queue A → List A
  history q = q.handled ++ q.items

  take_front-history :
      (xs : List A) (q : Queue A)
      → q.items ≡ xs
      → q.has_callback ≡ true
      → history (take_front xs q) ≡ history q
  take_front-history [] q e h = refl
  take_front-history (x ∷ xs) q e h = rw h (rw (append_assoc, e))

  pick-history :
      (b : Bool) (a : A) (q : Queue A)
      → history (if b then q else record q { items = q.items ++ (a ∷ []) })
        ≡ history q ++ (if not b then a ∷ [] else [])
  pick-history true a q = sym (append-nil (history q))
  pick-history false a q = sym (append_assoc q.handled q.items (a ∷ []))

  enqueue-history :
      (a : A) (q : Queue A)
      → history (enqueue a q) ≡ history q ++ (if is_accepted q then a ∷ [] else [])
  unfolding enqueue
  enqueue-history a q = pick-history _ a q

  take_front-has_callback :
      (xs : List A) (q : Queue A) → (take_front xs q).has_callback ≡ q.has_callback
  take_front-has_callback [] q = refl
  take_front-has_callback (x ∷ xs) q = ground arith

  step-has_callback : (c : Call A) (q : Queue A) → (step c q).has_callback ≡ q.has_callback
  unfolding step enqueue thread_round do_work start post_stop
  step-has_callback (enqueues a) q = ground arith
  step-has_callback works q = ground (arith, take_front-has_callback q.items q)
  step-has_callback starts q = ground arith

  round-history : (q : Queue A) → q.has_callback ≡ true → history (thread_round q) ≡ history q
  unfolding thread_round do_work
  round-history q h = ground (arith, take_front-history q.items q refl h)

  start-history : (q : Queue A) → history (start q) ≡ history q
  unfolding start post_stop
  start-history q = ground arith

  gathered :
      (a : A) (b : Bool) (xs : List A)
      → (if b then a ∷ [] else []) ++ xs ≡ (if b then a ∷ xs else xs)
  gathered a true xs = refl
  gathered a false xs = refl

  -- One more call keeps the claim for the calls that follow.
  rest-history :
      (cs : List (Call A)) (c : Call A) (q : Queue A) (new : List A)
      → history (step c q) ≡ history q ++ new
      → history (run cs (step c q)) ≡ history (step c q) ++ accepted cs (step c q)
      → history (run cs (step c q)) ≡ history q ++ (new ++ accepted cs (step c q))
  rest-history cs c q new e ih =
      ih ∙ ap (λ xs. xs ++ accepted cs (step c q)) e ∙ append_assoc (history q) new _

  -- The queue keeps order and loses nothing: what the callback has had, followed by what still
  -- waits, is what it was before, followed by the items that enqueue() accepted since.
  pub run-history :
      (cs : List (Call A)) (q : Queue A)
      → q.has_callback ≡ true
      → history (run cs q) ≡ history q ++ accepted cs q
  unfolding run accepted step
  run-history [] q h = sym (append-nil (history q))
  run-history (enqueues a ∷ cs) q h =
      let ih = run-history cs (step (enqueues a) q) (step-has_callback (enqueues a) q ∙ h) in
      rest-history cs (enqueues a) q _ (enqueue-history a q) ih
      ∙ ap (◌++◌ (history q)) (gathered a (is_accepted q) _)
  run-history (works ∷ cs) q h =
      run-history cs (step works q) (step-has_callback works q ∙ h)
      ∙ ap (λ xs. xs ++ accepted cs (thread_round q)) (round-history q h)
  run-history (starts ∷ cs) q h =
      run-history cs (step starts q) (step-has_callback starts q ∙ h)
      ∙ ap (λ xs. xs ++ accepted cs (start q)) (start-history q)
