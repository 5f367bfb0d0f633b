-- ===== src/TpTimers/Filled.antt =====
-- The timers package is what the sessions ask of their timers.
use free_bfd.Base.{ℕ, ◌≡◌, ◌≢◌, refl, Bool, true, false, arith, negsuc}
use free_bfd.Session.{TimerId, Timers}
use free_bfd.TpTimers.{
  Timeval, TimerState, Avl, same_timer, stop_timer, start_us_timer, start_timer, arm_timer,
  get_time_remaining,
}

pub same_timer_self : (t : TimerId) → same_timer t t ≡ true
same_timer_self t = ground arith

pub same_timer_ne : (t u : TimerId) → t ≢ u → same_timer t u ≡ false
same_timer_ne t u h = ground arith

pub same_timer_eq : (t u : TimerId) → same_timer t u ≡ true → t ≡ u
same_timer_eq t u h = ground arith

module _ {Tree : Type 0} (avl : Avl Tree) (clock : ℕ → Timeval) where
  abbrev pub runs : TimerId → TimerState Tree → Bool
  runs t s = (s.timers t).running

  pub runs-start :
      (t : TimerId) (us : ℕ) (s : TimerState Tree) → runs t (start_us_timer avl clock t us s) ≡ true
  unfolding start_us_timer start_timer arm_timer
  runs-start t us s = ground (arith, same_timer_self t)

  pub runs-start_ne :
      (t u : TimerId) (us : ℕ) (s : TimerState Tree)
      → t ≢ u
      → runs u (start_us_timer avl clock t us s) ≡ runs u s
  unfolding start_us_timer start_timer arm_timer stop_timer
  runs-start_ne t u us s h = ground (arith, same_timer_ne t u h)

  pub runs-stop : (t : TimerId) (s : TimerState Tree) → runs t (stop_timer avl clock t s) ≡ false
  unfolding stop_timer
  runs-stop t s = ground (arith, same_timer_self t)

  pub runs-stop_ne :
      (t u : TimerId) (s : TimerState Tree) → t ≢ u → runs u (stop_timer avl clock t s) ≡ runs u s
  unfolding stop_timer
  runs-stop_ne t u s h = ground (arith, same_timer_ne t u h)

  pub runs-remaining :
      (t u : TimerId) (s : TimerState Tree) → runs u (get_time_remaining avl clock t s).1 ≡ runs u s
  unfolding get_time_remaining
  runs-remaining t u s = ground arith

  pub remaining_stopped_lem :
      (t : TimerId) (s : TimerState Tree)
      → runs t s ≡ false
      → (get_time_remaining avl clock t s).0 ≡ negsuc 0
  unfolding get_time_remaining
  remaining_stopped_lem t s h = rw (h, get_time_remaining) refl

  -- The sessions' timers, on top of the package.
  abbrev pub tp_timers : Timers (TimerState Tree)
  tp_timers = record {
    start_us = start_us_timer avl clock;
    stop = stop_timer avl clock;
    remaining = get_time_remaining avl clock;
    running = runs;
    running-start = runs-start;
    running-start_ne = runs-start_ne;
    running-stop = runs-stop;
    running-stop_ne = runs-stop_ne;
    running-remaining = runs-remaining;
    remaining_stopped = remaining_stopped_lem;
  }
