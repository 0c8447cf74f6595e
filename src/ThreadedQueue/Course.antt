-- ===== src/ThreadedQueue/Course.antt =====
-- A course of calls that the queue takes in full, and the rounds that empty it.
use navtechradar.Base.{
  ℕ, zero, suc, ◌+◌, ◌-◌, ◌≤◌, ◌≡◌, refl, sym, ap, ◌∙◌, arith, Bool, not, ◌||◌, true, false, List,
  [], ◌∷◌, ◌++◌, append-nil,
}
use navtechradar.Base.{length, length-append, ltb, if◌then◌else◌, replicate, subst}
use navtechradar.ThreadedQueue.{
  Queue, enqueue, thread_round, do_work, start, post_stop, max_queue_depth, take_front,
}
use navtechradar.ThreadedQueue.History.{
  Call, enqueues, works, starts, step, run, accepted, is_accepted, history, run-history,
}

module _ {ℓ} {A : Type ℓ} where
  -- The items that a course of calls brings.
  abbrev pub enqueued : List (Call A) → List A
  enqueued [] = []
  enqueued (enqueues a ∷ cs) = a ∷ enqueued cs
  enqueued (works ∷ cs) = enqueued cs
  enqueued (starts ∷ cs) = enqueued cs

  -- The queue's thread runs and is not asked to stop, and there is a callback.
  abbrev pub IsRunning : Queue A → Type 0
  IsRunning q =
      (q.stopping ≡ false)
      × (q.has_callback ≡ true)
      × (q.thread.joinable ≡ true)
      × (q.thread.stop_requested ≡ false)

  round-do_work : (q : Queue A) → IsRunning q → thread_round q ≡ do_work q
  unfolding thread_round
  round-do_work q (hs, hc, hj, hr) =
      let goes_on : (q.thread.stop_requested || not q.thread.joinable) ≡ false = rw (hr, hj) refl in
      ap (λ (b : Bool). if b then q else do_work q) goes_on

  start-running : (q : Queue A) → IsRunning q → start q ≡ q
  unfolding start
  start-running q (hs, hc, hj, hr) =
      ap
        (λ (b : Bool).
          if b
          then q
          else post_stop (record q { thread = record { joinable = true; stop_requested = false } }))
        hj

  pub enqueue-running :
      (a : A) (q : Queue A)
      → IsRunning q
      → length q.items ≤ max_queue_depth
      → (is_accepted q ≡ true) × (enqueue a q ≡ record q { items = q.items ++ (a ∷ []) })
  unfolding enqueue
  enqueue-running a q (hs, hc, hj, hr) h =
      let fits : ltb max_queue_depth (length q.items) ≡ false = ground arith in
      let takes : (q.stopping
            || not q.has_callback
            || not q.thread.joinable
            || ltb max_queue_depth (length q.items))
          ≡ false =
        rw (hs, hc, hj, fits) refl in
      (
        ap not takes,
        ap (λ (b : Bool). if b then q else record q { items = q.items ++ (a ∷ []) }) takes,
      )

  take_front-IsRunning : (xs : List A) (q : Queue A) → IsRunning q → IsRunning (take_front xs q)
  take_front-IsRunning [] q h = h
  take_front-IsRunning (x ∷ xs) q (hs, hc, hj, hr) = rw hc (hs, refl, hj, hr)

  pub step-IsRunning : (c : Call A) (q : Queue A) → IsRunning q → IsRunning (step c q)
  unfolding step enqueue do_work
  step-IsRunning (enqueues a) q (hs, hc, hj, hr) = ground arith
  step-IsRunning works q h =
      subst IsRunning (sym (round-do_work q h)) (take_front-IsRunning q.items q h)
  step-IsRunning starts q h = subst IsRunning (sym (start-running q h)) h

  take_front-shorter :
      (xs : List A) (q : Queue A)
      → q.has_callback ≡ true
      → q.items ≡ xs
      → length (take_front xs q).items ≡ length xs - 1
  take_front-shorter [] q hc e = ap length e
  take_front-shorter (x ∷ xs) q hc e = rw hc (omega arith)

  works-length : (q : Queue A) → IsRunning q → length (thread_round q).items ≡ length q.items - 1
  unfolding do_work
  works-length q (hs, hc, hj, hr) =
      ap (λ (r : Queue A). length r.items) (round-do_work q (hs, hc, hj, hr))
      ∙ take_front-shorter q.items q hc refl

  accepted-enqueued :
      (cs : List (Call A)) (q : Queue A)
      → IsRunning q
      → length q.items + length (enqueued cs) ≤ suc max_queue_depth
      → accepted cs q ≡ enqueued cs
  unfolding accepted step
  accepted-enqueued [] q h room = refl
  accepted-enqueued (enqueues a ∷ cs) q h room =
      let (takes, e) = enqueue-running a q h (omega arith) in
      let longer : length (enqueue a q).items ≡ length q.items + 1 =
        ap (λ (r : Queue A). length r.items) e ∙ length-append q.items (a ∷ []) in
      let rest = accepted cs (enqueue a q) in
      ap (λ (b : Bool). if b then a ∷ rest else rest) takes
      ∙ ap (◌∷◌ a) (
          accepted-enqueued cs (enqueue a q) (step-IsRunning (enqueues a) q h)
            (omega (arith, longer)))
  accepted-enqueued (works ∷ cs) q h room =
      accepted-enqueued cs (thread_round q) (step-IsRunning works q h)
        (omega (arith, works-length q h))
  accepted-enqueued (starts ∷ cs) q h room =
      accepted-enqueued cs (start q) (step-IsRunning starts q h)
        (omega (arith, ap (λ (r : Queue A). length r.items) (start-running q h)))

  -- A queue whose thread runs, with a callback, hands over what it has had and what a course of calls
  -- brings, in order and in full, if the items never come to more than one over max_queue_depth and
  -- none waits at the end.
  pub run-handled :
      (cs : List (Call A)) (q : Queue A)
      → IsRunning q
      → length q.items + length (enqueued cs) ≤ suc max_queue_depth
      → (run cs q).items ≡ []
      → (run cs q).handled ≡ history q ++ enqueued cs
  run-handled cs q h room e =
      sym (append-nil _)
      ∙ ap (λ xs. (run cs q).handled ++ xs) (sym e)
      ∙ run-history cs q h.1
      ∙ ap (λ xs. history q ++ xs) (accepted-enqueued cs q h room)

  -- What waits is among what the queue has had and what the calls bring.
  pub run-waiting :
      (cs : List (Call A)) (q : Queue A)
      → IsRunning q
      → length q.items + length (enqueued cs) ≤ suc max_queue_depth
      → length (run cs q).items ≤ length (history q ++ enqueued cs)
  run-waiting cs q h room =
      let same : length ((run cs q).handled ++ (run cs q).items)
          ≡ length (history q ++ enqueued cs) =
        ap (λ (xs : List A). length xs)
          (run-history cs q h.1 ∙ ap (λ xs. history q ++ xs) (accepted-enqueued cs q h room)) in
      omega (arith, same, length-append (run cs q).handled (run cs q).items)

  pub run-append : (cs ds : List (Call A)) (q : Queue A) → run (cs ++ ds) q ≡ run ds (run cs q)
  unfolding run
  run-append [] ds q = refl
  run-append (c ∷ cs) ds q = run-append cs ds (step c q)

  pub run-IsRunning : (cs : List (Call A)) (q : Queue A) → IsRunning q → IsRunning (run cs q)
  unfolding run
  run-IsRunning [] q h = h
  run-IsRunning (c ∷ cs) q h = run-IsRunning cs (step c q) (step-IsRunning c q h)

  pub works-empty :
      (n : ℕ) (q : Queue A)
      → IsRunning q
      → length q.items ≤ n
      → (run (replicate n works) q).items ≡ []
  unfolding run step
  works-empty zero q h hn = nothing q.items (omega arith)
    where
      nothing : (xs : List A) → length xs ≤ 0 → xs ≡ []
      nothing [] h = refl
      nothing (x ∷ xs) h = absurd (omega arith)
  works-empty (suc n) q h hn =
      works-empty n (thread_round q) (step-IsRunning works q h) (omega (arith, works-length q h))
