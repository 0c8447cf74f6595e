-- ===== src/Timer/Enables.antt =====
-- Timer::enable, with start and stop of the thread.
use navtechradar.Base.{ℕ, ◌≡◌, refl, Bool, true, false}
use navtechradar.Timer.{Timer, call_back, start, stop, enable}

-- The thread runs while the timer is enabled, and only then, and is not asked to stop while it does.
abbrev pub IsValid : Timer → Type 0
IsValid t =
    (t.thread.joinable ≡ t.is_enabled) × (t.is_enabled ≡ true → t.thread.stop_requested ≡ false)

abbrev pub Enabled : Bool → Timer → Timer → Type 0
Enabled b t t' =
    IsValid t'
    × (t'.is_enabled ≡ b)
    × (t'.fired ≡ t.fired)
    × (t'.has_callback ≡ t.has_callback)
    × (t'.timeout_in_milliseconds ≡ t.timeout_in_milliseconds)

enable_cases :
    (b joinable requested enabled fn : Bool) (ms fired : ℕ)
    → joinable ≡ enabled
    → (enabled ≡ true → requested ≡ false)
    → (let t : Timer = record {
      thread = record { joinable = joinable; stop_requested = requested };
      has_callback = fn;
      timeout_in_milliseconds = ms;
      is_enabled = enabled;
      fired = fired;
    } in
        Enabled b t (enable call_back b t))
unfolding enable start stop call_back
enable_cases true true r true fn ms n hj hr = ((refl, λ h. hr h), refl, refl, refl, refl)
enable_cases true false r true fn ms n hj hr = absurd cc
enable_cases true true r false fn ms n hj hr = absurd cc
enable_cases true false r false fn ms n hj hr = ((refl, λ h. refl), refl, refl, refl, refl)
enable_cases false j r false fn ms n hj hr = ((hj, hr), refl, refl, refl, refl)
enable_cases false false r true fn ms n hj hr = absurd cc
enable_cases false true true true fn ms n hj hr = absurd (let h = hr refl in cc)
enable_cases false true false true fn ms n hj hr = ((refl, λ h. absurd cc), refl, refl, refl, refl)

-- enable() leaves a valid timer valid, enabled or not as asked, whose thread runs accordingly. It
-- keeps the callback and the timeout, and the last round of a thread that it stops does not call back.
pub enable-IsValid :
    (b : Bool) (t : Timer)
    → IsValid t
    → IsValid (enable call_back b t)
      × ((enable call_back b t).is_enabled ≡ b)
      × ((enable call_back b t).fired ≡ t.fired)
      × ((enable call_back b t).has_callback ≡ t.has_callback)
      × ((enable call_back b t).timeout_in_milliseconds ≡ t.timeout_in_milliseconds)
enable-IsValid b t (hj, hr) =
    enable_cases b t.thread.joinable t.thread.stop_requested t.is_enabled t.has_callback
      t.timeout_in_milliseconds t.fired hj hr
