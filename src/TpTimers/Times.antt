-- ===== src/TpTimers/Times.antt =====
-- The arithmetic of src/core/tp-timers.c on times, against plain microseconds.
use free_bfd.Base.{ℕ, ◌+◌, ◌-◌, ◌*◌, ◌≤◌, ◌<◌, ◌≡◌, ◌⊎◌, arith, pos, negsuc}
use free_bfd.TpTimers.{Timeval, compare_time, subtract_time, expiry, time_left}

abbrev pub micros : Timeval → ℕ
micros t = t.sec * 1_000_000 + t.usec

-- The clock gives fewer than a million microseconds beside the seconds.
abbrev pub IsNormal : Timeval → Type 0
IsNormal t = t.usec < 1_000_000

-- What the code makes of a sum: a full million may be left over.
abbrev pub IsNearlyNormal : Timeval → Type 0
IsNearlyNormal t = t.usec ≤ 1_000_000

-- Starting a timer adds the timeout to the clock's time to the microsecond; the result has at
-- most a million microseconds beside the seconds.
pub expiry-micros :
    (now timeout : Timeval)
    → (micros (expiry now timeout) ≡ micros now + micros timeout)
      × IsNearlyNormal (expiry now timeout)
unfolding expiry
expiry-micros now timeout = ground arith

-- For times of at most a million microseconds beside the seconds, `tpCompareTime` puts them in
-- the order of their microseconds, and calls only equal times equal.
pub compare_time-micros :
    (t1 t2 : Timeval)
    → IsNearlyNormal t1
    → IsNearlyNormal t2
    → ((compare_time t1 t2 ≡ negsuc 0) × (micros t1 ≤ micros t2))
      ⊎ (((compare_time t1 t2 ≡ pos 0) × (t1 ≡ t2))
          ⊎ ((compare_time t1 t2 ≡ pos 1) × (micros t2 ≤ micros t1)))
unfolding compare_time
compare_time-micros t1 t2 h1 h2 = ground arith

-- `tpSubtractTime` is the difference in microseconds, or zero where that would be negative; where
-- the first time has at most a million microseconds beside the seconds, and the second has fewer.
pub subtract_time-micros :
    (t1 t2 : Timeval)
    → IsNearlyNormal t1
    → IsNormal t2
    → micros (subtract_time t1 t2) ≡ micros t1 - micros t2
unfolding subtract_time
subtract_time-micros t1 t2 h1 h2 = ground arith

-- The time left to a timer that runs is the difference in microseconds, or zero once it is over;
-- for a clock with fewer than a million microseconds beside the seconds, and an expiration time
-- with at most a million.
pub time_left-micros :
    (now at : Timeval)
    → IsNormal now
    → IsNearlyNormal at
    → time_left now at ≡ pos (micros at - micros now)
unfolding time_left
time_left-micros now at h1 h2 = ground arith
