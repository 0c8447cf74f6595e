-- ===== src/TcpClient/Shutdown.antt =====
-- Tcp_radar_client::stop against connect_thread_handler, step by step: the flag `running`, the
-- condition connect_condition, and the join. The condition is notified without its mutex, and the wait
-- has no predicate. That the system wakes a thread for nothing is not a step.
use navtechradar.Base.{◌≡◌, refl, sym, subst, Bool, true, false, ◌⊎◌, inl, inr}

-- Where the connect thread is: at the test of the loop, behind it, in the wait, behind the wait, in
-- connect(), or at its end.
pub data Place : Type 0 where
  at_test before_wait in_wait woken in_connect ended : Place

-- How far stop() is: `running` is false, the condition has been notified, and the thread is joined.
pub data Stopping : Type 0 where
  not_called flagged notified joined : Stopping

abbrev pub running : Stopping → Bool
running not_called = true
running flagged = false
running notified = false
running joined = false

pub record Threads : Type 0 where
  pub place : Place
  pub stopping : Stopping

abbrev pub threads : Place → Stopping → Threads
threads p s = record { place = p; stopping = s }

-- notify_all
unfoldable pub wake : Place → Place
wake in_wait = woken
wake at_test = at_test
wake before_wait = before_wait
wake woken = woken
wake in_connect = in_connect
wake ended = ended

pub data Step : Threads → Threads → Type 0 where
  goes_on : (s : Stopping) → running s ≡ true → Step (threads at_test s) (threads before_wait s)
  ends : (s : Stopping) → running s ≡ false → Step (threads at_test s) (threads ended s)
  begins_wait : (s : Stopping) → Step (threads before_wait s) (threads in_wait s)
  checks : Step (threads in_wait not_called) (threads woken not_called)
  breaks : (s : Stopping) → running s ≡ false → Step (threads woken s) (threads ended s)
  begins_connect : (s : Stopping) → running s ≡ true → Step (threads woken s) (threads in_connect s)
  connects : (s : Stopping) → Step (threads in_connect s) (threads at_test s)
  flags : (p : Place) → Step (threads p not_called) (threads p flagged)
  notifies : (p : Place) → Step (threads p flagged) (threads (wake p) notified)
  joins : Step (threads ended notified) (threads ended joined)

pub data Reach (s : Threads) : Threads → Type 0 where
  start_here : Reach s s
  and_then : (t u : Threads) → Reach s t → Step t u → Reach s u

-- No thread can take a step.
abbrev pub IsStuck : Threads → Type 0
IsStuck s = (t : Threads) → Step s t → ⊥

-- Whatever the states of the two threads, they can go on unless stop() has joined the connect thread,
-- or the connect thread waits for a notification that stop() has given already.
pub IsStuck-cases :
    (s : Threads)
    → IsStuck s
    → (s.stopping ≡ joined) ⊎ ((s.place ≡ in_wait) × (s.stopping ≡ notified))
IsStuck-cases s h = stuck s.place s.stopping h
  where
    stuck :
        (p : Place) (s : Stopping)
        → IsStuck (threads p s)
        → (s ≡ joined) ⊎ ((p ≡ in_wait) × (s ≡ notified))
    stuck p not_called h = absurd (h (threads p flagged) (flags p))
    stuck p flagged h = absurd (h (threads (wake p) notified) (notifies p))
    stuck p joined h = inl refl
    stuck at_test notified h = absurd (h (threads ended notified) (ends notified refl))
    stuck before_wait notified h = absurd (h (threads in_wait notified) (begins_wait notified))
    stuck in_wait notified h = inr (refl, refl)
    stuck woken notified h = absurd (h (threads ended notified) (breaks notified refl))
    stuck in_connect notified h = absurd (h (threads at_test notified) (connects notified))
    stuck ended notified h = absurd (h (threads ended joined) joins)

never_woken : IsStuck (threads in_wait notified)
never_woken t st = elim st [ ]

-- If stop() is called while the connect thread is between its test of `running` and its wait, it can
-- come to a stop() that waits for ever: it has given the notification, the connect thread then begins
-- to wait, and neither can go on.
pub stop-hangs :
    (s : Threads)
    → s.place ≡ before_wait
    → s.stopping ≡ not_called
    → (t : Threads) × Reach s t × IsStuck t × (t.stopping ≡ notified)
unfolding wake
stop-hangs s hp hs =
    let here : s ≡ threads before_wait not_called = λ i. threads (hp i) (hs i) in
    (
      threads in_wait notified,
      and_then _ _
          (and_then _ _
            (and_then _ _ start_here
              (subst (λ u. Step u (threads before_wait flagged)) (sym here) (flags before_wait)))
            (notifies before_wait))
          (begins_wait notified),
      never_woken,
      refl,
    )
