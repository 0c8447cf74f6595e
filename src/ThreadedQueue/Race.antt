-- ===== src/ThreadedQueue/Race.antt =====
-- Threaded_queue::enqueue in the two stretches that it has: the test, which is outside the lock, and
-- the push, which is under it. Other calls can fall between the two.
use navtechradar.Base.{
  ℕ, ◌+◌, ◌<◌, ◌≤◌, ◌≡◌, refl, ap, arith, Bool, true, false, not, ◌||◌, List, [], ◌∷◌, ◌++◌, some,
}
use navtechradar.Base.{length, length-append, ltb, if◌then◌else◌, Bool-cases, inl, inr, ◌>>=◌}
use navtechradar.ThreadedQueue.{
  Queue, thread_round, do_work, start, stop, set_dequeue_callback, take_front, max_queue_depth,
  pre_stop, post_stop, join,
}
use navtechradar.ThreadedQueue.History.{is_accepted}
use navtechradar.ThreadedQueue.Drain.{stop_lem}

accepted-room : (a b c d : Bool) → not (a || b || c || d) ≡ true → d ≡ false
accepted-room a b c false h = refl
accepted-room true b c true h = absurd cc
accepted-room false true c true h = absurd cc
accepted-room false false true true h = absurd cc
accepted-room false false false true h = absurd cc

not_idle : (j r : Bool) → (not j || r) ≡ false → (j ≡ true) × (r ≡ false)
not_idle true false h = (refl, refl)
not_idle true true h = absurd cc
not_idle false r h = absurd cc

-- The queue, and the items of the calls that have passed the test and not yet pushed.
pub record Shared {ℓ} (A : Type ℓ) : Type ℓ where
  pub queue : Queue A
  pub passed : List A

module _ {ℓ} {A : Type ℓ} where
  unfoldable pub push : A → Queue A → Queue A
  push item q = record q { items = q.items ++ (item ∷ []) }

  -- A step of one of `n` threads that enqueue, of the queue's thread, or of its owner. A call that
  -- fails the test changes nothing.
  pub data Step (n : ℕ) : Shared A → Shared A → Type ℓ where
    tests :
        (item : A) (q : Queue A) (passed : List A)
        → is_accepted q ≡ true
        → length passed < n
        → Step n
            (record { queue = q; passed = passed })
            (record { queue = q; passed = item ∷ passed })
    pushes :
        (item : A) (q : Queue A) (before after : List A)
        → Step n
            (record { queue = q; passed = before ++ (item ∷ after) })
            (record { queue = push item q; passed = before ++ after })
    works :
        (q : Queue A) (passed : List A)
        → Step n
            (record { queue = q; passed = passed })
            (record { queue = thread_round q; passed = passed })
    starts :
        (q : Queue A) (passed : List A)
        → Step n
            (record { queue = q; passed = passed })
            (record { queue = start q; passed = passed })
    stops :
        (finish_work : Bool) (q q' : Queue A) (passed : List A)
        → stop finish_work q ≡ some q'
        → Step n (record { queue = q; passed = passed }) (record { queue = q'; passed = passed })
    sets :
        (some_fn : Bool) (q : Queue A) (passed : List A)
        → Step n
            (record { queue = q; passed = passed })
            (record { queue = set_dequeue_callback some_fn q; passed = passed })

  pub data Reach (n : ℕ) (s : Shared A) : Shared A → Type ℓ where
    start_here : Reach n s s
    and_then : (t u : Shared A) → Reach n s t → Step n t u → Reach n s u

  abbrev pub IsBounded : ℕ → Shared A → Type 0
  IsBounded n s =
      (length s.passed ≤ n) × (length s.queue.items + length s.passed ≤ max_queue_depth + n)

  stop_idle :
      (b : Bool) (q : Queue A)
      → (not q.thread.joinable || q.thread.stop_requested) ≡ true
      → stop b q ≡ some q
  unfolding stop
  stop_idle b q idle =
      ap
        (λ (i : Bool).
          if i
          then some q
          else (pre_stop b (record q {
            thread = record { joinable = q.thread.joinable; stop_requested = true };
          })
              >>= λ d. some (join d)))
        idle

  stop-items : (b : Bool) (q q' : Queue A) → stop b q ≡ some q' → length q'.items ≤ length q.items
  stop-items b q q' e = elim (Bool-cases (not q.thread.joinable || q.thread.stop_requested)) [
    | inl idle ↦
        let same : q ≡ q' = cc (stop_idle b q idle, e) in
        omega (arith, ap (λ (u : Queue A). length u.items) same)
    | inr busy ↦
        let (hj, hr) = not_idle q.thread.joinable q.thread.stop_requested busy in
        let (r, er, nothing, handled, stopping, joined) = stop_lem b q hj hr in
        let same : r ≡ q' = cc (er, e) in
        omega (
          arith,
          ap (λ (u : Queue A). length u.items) same,
          ap (λ (xs : List A). length xs) nothing,
        )
  ]

  is_accepted-room : (q : Queue A) → is_accepted q ≡ true → length q.items ≤ max_queue_depth
  is_accepted-room q h =
      let room : ltb max_queue_depth (length q.items) ≡ false =
        accepted-room q.stopping (not q.has_callback) (not q.thread.joinable)
          (ltb max_queue_depth (length q.items)) h in
      ground arith

  front-shorter :
      (xs : List A) (q : Queue A) → q.items ≡ xs → length (take_front xs q).items ≤ length xs
  front-shorter [] q e = omega (arith, ap length e)
  front-shorter (x ∷ xs) q e = ground arith

  round-shorter : (q : Queue A) → length (thread_round q).items ≤ length q.items
  unfolding thread_round do_work
  round-shorter q = ground (arith, front-shorter q.items q refl)

  Step-IsBounded : (n : ℕ) (s t : Shared A) → Step n s t → IsBounded n s → IsBounded n t
  unfolding start post_stop push set_dequeue_callback
  Step-IsBounded n _ _ (tests item q ps ok room) (hp, h) =
      (omega arith, omega (arith, is_accepted-room q ok))
  Step-IsBounded n _ _ (pushes item q before after) (hp, h) = (
    omega (arith, length-append before (item ∷ after), length-append before after),
    omega (
      arith,
      length-append before (item ∷ after),
      length-append before after,
      length-append q.items (item ∷ []),
    ),
  )
  Step-IsBounded n _ _ (works q ps) (hp, h) = (hp, omega (arith, round-shorter q))
  Step-IsBounded n _ _ (starts q ps) (hp, h) = (hp, ground arith)
  Step-IsBounded n _ _ (stops b q q' ps e) (hp, h) = (hp, omega (arith, stop-items b q q' e))
  Step-IsBounded n _ _ (sets b q ps) (hp, h) = (hp, h)

  -- With `n` threads that enqueue, the items that wait and the calls that are between the test and the
  -- push are never more than max_queue_depth and n, in whatever order the calls fall, if the queue
  -- starts out empty and no call is between the two.
  pub Reach-IsBounded :
      (n : ℕ) (s t : Shared A)
      → s.queue.items ≡ []
      → s.passed ≡ []
      → Reach n s t
      → length t.queue.items + length t.passed ≤ max_queue_depth + n
  Reach-IsBounded n s t hq hp r = (bounded t r).1
    where
      bounded : (u : Shared A) → Reach n s u → IsBounded n u
      bounded _ start_here =
          (omega (arith, ap length hp), omega (arith, ap length hp, ap length hq))
      bounded _ (and_then v w r st) = Step-IsBounded n v w st (bounded v r)

  -- A stop does not leave the queue empty if a call is between the test and the push: the item is
  -- pushed behind the stop, and waits in a queue whose thread has been joined.
  pub stop-late_push :
      (n : ℕ) (item : A) (finish_work : Bool) (q : Queue A)
      → 0 < n
      → is_accepted q ≡ true
      → q.thread.joinable ≡ true
      → q.thread.stop_requested ≡ false
      → (t : Shared A) × Reach n (record { queue = q; passed = [] }) t
        × (t.passed ≡ [])
        × (t.queue.thread.joinable ≡ false)
        × (t.queue.items ≡ item ∷ [])
  unfolding push
  stop-late_push n item b q hn ok hj hr =
      let (r, er, nothing, handled, stopping, joined) = stop_lem b q hj hr in
      (
        record { queue = push item r; passed = [] },
        and_then _ _
            (and_then _ _ (and_then _ _ start_here (tests item q [] ok hn))
              (stops b q r (item ∷ []) er))
            (pushes item r [] []),
        refl,
        joined,
        ap (λ xs. xs ++ (item ∷ [])) nothing,
      )
