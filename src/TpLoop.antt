-- ===== src/TpLoop.antt =====
-- src/core/tp-timers.c: `tpCheckTimers`, which calls the actions of the timers that have expired.
pub mod Expired
pub mod Check
use free_bfd.Base.{
  ℕ, zero, suc, Bool, true, false, Option, none, some, ℤ, pos, negsuc, ◌==◌, if◌then◌else◌,
}
use free_bfd.Session.{TimerId}
use free_bfd.TpTimers.{Timeval, TpTimer, TimerState, Avl, put_timer, compare_time, subtract_time}

-- `tpCompareTime(t, &now) <= 0`, for the expiration time of `t`.
abbrev pub is_due : Timeval → Timeval → Bool
is_due at now = elim (compare_time at now) [ negsuc _ ↦ true | pos n ↦ n == 0 ]

-- `S` is the state of the whole program, of which the timers are a part; `action` is what the
-- actions of the timers do.
module _ {Tree S : Type 0} (avl : Avl Tree) (clock : ℕ → Timeval) (get : S → TimerState Tree)
    (put : TimerState Tree → S → S) (action : TimerId → S → S) where
  -- A call of `gettimeofday`.
  unfoldable pub read_clock : S → Timeval × S
  read_clock s = (clock (get s).reads, put (record (get s) { reads = suc (get s).reads }) s)

  -- The timer is marked, taken out of the tree, and its action is called.
  unfoldable pub expire_one : TimerId → S → S
  expire_one t s =
      let ts = get s in
      action t (
        put
          (put_timer t (record (ts.timers t) { running = false })
            (record ts { timer_tree = avl.delete (ts.timers t).expires_at ts.timer_tree }))
          s)

  -- The loop: the first timer that has not expired, if there is one. It starts anew from the first
  -- item of the tree each time. `none` means too little fuel.
  unfoldable pub run_due : ℕ → Timeval → S → Option (Option TimerId × S)
  run_due zero now s = none
  run_due (suc fuel) now s = elim (avl.first (get s).timer_tree) [
    | none ↦ some (none, s)
    | some e ↦
        let rest = run_due fuel now (expire_one e.timer s) in
        if is_due ((get s).timers e.timer).expires_at now then rest else some (some e.timer, s)
  ]

  -- `tpCheckTimers`: the time until the next timer expires, if there is one.
  unfoldable pub check_timers : ℕ → S → Option (Option Timeval × S)
  check_timers fuel s =
      let (now, s1) = read_clock s in
      elim (run_due fuel now s1) [
        | none ↦ none
        | some (none, s2) ↦ some (none, s2)
        | some (some t, s2) ↦
            let (later, s3) = read_clock s2 in
            some (some (subtract_time ((get s2).timers t).expires_at later), s3)
      ]
