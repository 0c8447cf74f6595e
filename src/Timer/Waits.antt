-- ===== src/Timer/Waits.antt =====
-- When the loop of do_work() ends.
use navtechradar.Base.{
  ℕ, ◌+◌, ◌-◌, ◌<◌, ◌≤◌, ◌≡◌, refl, ap, ◌∙◌, arith, Bool, true, false, List, [], ◌∷◌, Option, none,
  some, ◌>>=◌,
}
use navtechradar.Base.{ltb, if◌then◌else◌, Bool-cases, inl, inr}
use navtechradar.Timer.{
  Timer, Round, nanoseconds, restart_after, now_after, wait, call_back, do_work,
}

-- No other thread stops the timer or changes its timeout.
abbrev pub IsUndisturbed : List Round → Type 0
IsUndisturbed [] = Unit {0}
IsUndisturbed (r ∷ rs) =
    ((t : Timer)
      → ((r.others t).thread.stop_requested ≡ t.thread.stop_requested)
        × ((r.others t).timeout_in_milliseconds ≡ t.timeout_in_milliseconds))
    × IsUndisturbed rs

-- The last that a round reads of the clock.
abbrev pub last_after : ℕ → Round → ℕ
last_after now r = if ltb (nanoseconds restart_after) (r.slept - now) then r.restart else r.slept

-- The clock never runs back, and at most `gap` passes from one round's last reading to the next test.
abbrev pub IsSteady : ℕ → ℕ → ℕ → List Round → Type 0
IsSteady gap now last [] = Unit {0}
IsSteady gap now last (r ∷ rs) =
    (last ≤ r.test)
    × (r.test ≤ last + gap)
    × (r.test ≤ r.slept)
    × (r.slept ≤ r.restart)
    × IsSteady gap (now_after now r) (last_after now r) rs

wait-used_up : (now : ℕ) (t : Timer) → wait now [] t ≡ none
unfolding wait
wait-used_up now t = refl

wait-over :
    (now : ℕ) (r : Round) (rs : List Round) (t : Timer)
    → ltb r.test (now + nanoseconds t.timeout_in_milliseconds) ≡ false
    → wait now (r ∷ rs) t ≡ some t
unfolding wait
wait-over now r rs t over =
    ap
      (λ (b : Bool).
        if b
        then (if (r.others t).thread.stop_requested
            then some (r.others t)
            else wait (now_after now r) rs (r.others t))
        else some t)
      over

wait-goes_on :
    (now : ℕ) (r : Round) (rs : List Round) (t : Timer)
    → r.test < now + nanoseconds t.timeout_in_milliseconds
    → (r.others t).thread.stop_requested ≡ false
    → wait now (r ∷ rs) t ≡ wait (now_after now r) rs (r.others t)
unfolding wait
wait-goes_on now r rs t h hs =
    let before : ltb r.test (now + nanoseconds t.timeout_in_milliseconds) ≡ true = ground arith in
    let rest = wait (now_after now r) rs (r.others t) in
    ap
      (λ (b : Bool).
        if b
        then (if (r.others t).thread.stop_requested then some (r.others t) else rest)
        else some t)
      before
    ∙ ap (λ (b : Bool). if b then some (r.others t) else rest) hs

wait-long :
    (gap now last : ℕ) (rs : List Round) (t : Timer)
    → last ≤ now + nanoseconds restart_after
    → now ≤ last
    → t.thread.stop_requested ≡ false
    → nanoseconds restart_after + gap < nanoseconds t.timeout_in_milliseconds
    → IsUndisturbed rs
    → IsSteady gap now last rs
    → wait now rs t ≡ none
wait-long gap now last [] t hl hn hs ht hu hc = wait-used_up now t
wait-long gap now last (r ∷ rs) t hl hn hs ht (hu, hus) (h1, h2, h3, h4, hc) =
    let (e, e') = hu t in
    let longer : nanoseconds restart_after + gap
        < nanoseconds (r.others t).timeout_in_milliseconds =
      rw e' ht in
    wait-goes_on now r rs t (omega arith) (e ∙ hs)
    ∙ wait-long gap (now_after now r) (last_after now r) rs (r.others t) (ground arith)
        (ground arith) (e ∙ hs) longer hus hc

-- A timer whose timeout is more than 15 seconds and the time between two readings of the clock never
-- calls back, however long it runs, unless another thread stops it or changes its timeout: the loop
-- sets `now` again before the timeout is over.
pub do_work-long :
    (gap now : ℕ) (rounds : List Round) (t : Timer)
    → t.thread.stop_requested ≡ false
    → nanoseconds restart_after + gap < nanoseconds t.timeout_in_milliseconds
    → IsUndisturbed rounds
    → IsSteady gap now now rounds
    → do_work now rounds t ≡ none
unfolding do_work
do_work-long gap now rs t hs ht hu hc =
    ap (λ (o : Option Timer). o >>= λ t'. some (call_back t'))
      (wait-long gap now now rs t (omega arith) (omega arith) hs ht hu hc)

-- The timer at the first round that reads the clock at the deadline or later.
abbrev pub first_at : ℕ → List Round → Timer → Option Timer
first_at deadline [] t = none
first_at deadline (r ∷ rs) t =
    let rest = first_at deadline rs (r.others t) in if ltb r.test deadline then rest else some t

-- A sleep takes at most `nap`.
abbrev pub IsPrompt : ℕ → List Round → Type 0
IsPrompt nap [] = Unit {0}
IsPrompt nap (r ∷ rs) = (r.slept ≤ r.test + nap) × IsPrompt nap rs

wait-first_at :
    (nap now : ℕ) (rs : List Round) (t : Timer)
    → t.thread.stop_requested ≡ false
    → nanoseconds t.timeout_in_milliseconds + nap ≤ nanoseconds restart_after
    → IsUndisturbed rs
    → IsPrompt nap rs
    → wait now rs t ≡ first_at (now + nanoseconds t.timeout_in_milliseconds) rs t
wait-first_at nap now [] t hs ht hu hp = wait-used_up now t
wait-first_at nap now (r ∷ rs) t hs ht (hu, hus) (hp, hps) =
    let (e, e') = hu t in
    elim (Bool-cases (ltb r.test (now + nanoseconds t.timeout_in_milliseconds))) [
      | inl before ↦
          let same_now : now_after now r ≡ now = ground arith in
          let still : nanoseconds (r.others t).timeout_in_milliseconds + nap
              ≤ nanoseconds restart_after =
            rw e' ht in
          let same : now_after now r + nanoseconds (r.others t).timeout_in_milliseconds
              ≡ now + nanoseconds t.timeout_in_milliseconds =
            rw (same_now, e') refl in
          wait-goes_on now r rs t (ground arith) (e ∙ hs)
          ∙ wait-first_at nap (now_after now r) rs (r.others t) (e ∙ hs) still hus hps
          ∙ rw before (ap (λ n. first_at n rs (r.others t)) same)
      | inr over ↦ wait-over now r rs t over ∙ rw over refl
    ]

-- A timer whose timeout and one sleep are at most 15 seconds calls back, if it is enabled and has a
-- callback, after the first round that reads the clock when the timeout is over, and not before,
-- unless another thread stops it or changes its timeout.
pub do_work-first_at :
    (nap now : ℕ) (rounds : List Round) (t : Timer)
    → t.thread.stop_requested ≡ false
    → nanoseconds t.timeout_in_milliseconds + nap ≤ nanoseconds restart_after
    → IsUndisturbed rounds
    → IsPrompt nap rounds
    → do_work now rounds t ≡ (
        first_at (now + nanoseconds t.timeout_in_milliseconds) rounds t >>= λ t'.
        some (call_back t'))
unfolding do_work
do_work-first_at nap now rs t hs ht hu hp =
    ap (λ (o : Option Timer). o >>= λ t'. some (call_back t'))
      (wait-first_at nap now rs t hs ht hu hp)
