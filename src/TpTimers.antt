-- ===== src/TpTimers.antt =====
-- src/core/tp-timers.c, the timers: times, the search tree of the timers that run, and the
-- operations that start, stop and read them. The tree itself is a library (AVL); `Avl` says what
-- is used of it.
pub mod Times
pub mod Order
pub mod Tree
pub mod Filled
pub mod Lost
use free_bfd.Base.{
  ℕ, suc, ◌+◌, ◌-◌, ◌*◌, ◌/◌, ◌%◌, ◌≡◌, not, Bool, true, false, ◌&&◌, ◌||◌, Option, none, some,
  List, [], ◌∷◌, ℤ, pos, negsuc, sub_ℕ, ltb, leb, ◌==◌, if◌then◌else◌,
}
use free_bfd.Session.{TimerId, Kind, detect, xmt}

-- `struct timeval`
pub record Timeval : Type 0 where
  pub sec : ℕ
  pub usec : ℕ

-- `tpCompareTime`, on the expiration times.
unfoldable pub compare_time : Timeval → Timeval → ℤ
compare_time t1 t2 =
    if ltb t1.sec t2.sec
    then negsuc 0
    else if ltb t2.sec t1.sec
    then pos 1
    else if ltb t1.usec t2.usec
    then negsuc 0
    else if ltb t2.usec t1.usec
    then pos 1
    else pos 0

-- `tpSubtractTime`: `t1 - t2`, or zero.
unfoldable pub subtract_time : Timeval → Timeval → Timeval
subtract_time t1 t2 =
    if ltb t1.sec t2.sec || ((t2.sec == t1.sec) && leb t1.usec t2.usec)
    then record { sec = 0; usec = 0 }
    else let r : Timeval =
        if ltb t1.usec t2.usec
        then record { sec = t1.sec - 1; usec = t1.usec + 1_000_000 }
        else record { sec = t1.sec; usec = t1.usec } in
      record { sec = r.sec - t2.sec; usec = r.usec - t2.usec }

-- `tpTimer`. Its action and the argument of it are told by the `TimerId`.
pub record TpTimer : Type 0 where
  pub expires_at : Timeval
  pub running : Bool

abbrev pub kind_code : Kind → ℕ
kind_code detect = 0
kind_code xmt = 1

-- The same `tpTimer` object.
abbrev pub same_timer : TimerId → TimerId → Bool
same_timer t u = t.owner == u.owner && kind_code t.kind == kind_code u.kind

-- An item of the tree: a timer that was inserted, with its expiration time.
pub record Entry : Type 0 where
  pub at : Timeval
  pub timer : TimerId

-- The items in the order of `compare_time`: one is put in unless an item compares equal to it, and
-- the item that compares equal is taken out.
pub put_in_order : Entry → List Entry → List Entry
put_in_order e [] = e ∷ []
put_in_order e (x ∷ xs) = elim (compare_time e.at x.at) [
  | negsuc _ ↦ e ∷ x ∷ xs
  | pos n ↦ if n == 0 then x ∷ xs else x ∷ put_in_order e xs
]

unfoldable pub take_out : Timeval → List Entry → List Entry
take_out t [] = []
take_out t (x ∷ xs) = elim (compare_time t x.at) [
  | negsuc _ ↦ x ∷ xs
  | pos n ↦ if n == 0 then xs else x ∷ take_out t xs
]

abbrev pub first_of_list : List Entry → Option Entry
first_of_list [] = none
first_of_list (x ∷ xs) = some x

-- What the timers use of the AVL library: a search tree over `tpTimerCompare`, which keeps one item
-- of those that compare equal (`avl_insert` returns the one that is there), and its first item.
pub record Avl (Tree : Type 0) : Type 0 where
  pub create : Tree
  pub insert : Entry → Tree → Tree
  pub delete : Timeval → Tree → Tree
  pub first : Tree → Option Entry
  pub items : Tree → List Entry
  pub items-create : items create ≡ []
  pub items-insert : (e : Entry) (t : Tree) → items (insert e t) ≡ put_in_order e (items t)
  pub items-delete : (k : Timeval) (t : Tree) → items (delete k t) ≡ take_out k (items t)
  pub first_lem : (t : Tree) → first t ≡ first_of_list (items t)

-- The package's state, the timer objects, and how often the clock was read.
pub record TimerState (Tree : Type 0) : Type 0 where
  pub timer_tree : Tree
  pub timers : TimerId → TpTimer
  pub reads : ℕ

abbrev pub put_timer : {Tree : Type 0} → TimerId → TpTimer → TimerState Tree → TimerState Tree
put_timer t v s = record s { timers = λ u. if same_timer t u then v else s.timers u }

-- The arithmetic of `tpStartTimer`: `now` plus `timeout`.
unfoldable pub expiry : Timeval → Timeval → Timeval
expiry now timeout =
    let usec = now.usec + timeout.usec in
    let sec = now.sec + timeout.sec in
    if ltb 1_000_000 usec
    then record { sec = sec + usec / 1_000_000; usec = usec % 1_000_000 }
    else record { sec = sec; usec = usec }

-- The arithmetic of `tpGetTimeRemaining` for a timer that runs.
unfoldable pub time_left : Timeval → Timeval → ℤ
time_left now at =
    if ltb at.sec now.sec
    then pos 0
    else if (now.sec == at.sec) && ltb at.usec now.usec
    then pos 0
    else sub_ℕ ((at.sec - now.sec) * 1_000_000 + at.usec) now.usec

-- `clock i` is what the i-th call of `gettimeofday` gives.
module _ {Tree : Type 0} (avl : Avl Tree) (clock : ℕ → Timeval) where
  -- `tpInitTimers`, in a program whose timers were all zeroed.
  unfoldable pub init_timers : TimerState Tree
  init_timers = record {
    timer_tree = avl.create;
    timers = λ _. record { expires_at = record { sec = 0; usec = 0 }; running = false };
    reads = 0;
  }

  -- `tpStopTimer`, with `tpRemoveTimer`
  unfoldable pub stop_timer : TimerId → TimerState Tree → TimerState Tree
  stop_timer t s =
      if (s.timers t).running
      then put_timer t (record (s.timers t) { running = false })
          (record s { timer_tree = avl.delete (s.timers t).expires_at s.timer_tree })
      else s

  -- `tpStartTimer` behind the stop: the new time, and `tpInsertTimer`.
  arm_timer : TimerId → Timeval → TimerState Tree → TimerState Tree
  arm_timer t timeout s =
      let at = expiry (clock s.reads) timeout in
      put_timer t (record { expires_at = at; running = true })
        (record s {
          timer_tree = avl.insert (record { at = at; timer = t }) s.timer_tree;
          reads = suc s.reads;
        })

  -- `tpStartTimer`
  unfoldable pub start_timer : TimerId → Timeval → TimerState Tree → TimerState Tree
  unfolding arm_timer
  start_timer t timeout s = arm_timer t timeout (if (s.timers t).running then stop_timer t s else s)

  -- `tpStartMsTimer`
  unfoldable pub start_ms_timer : TimerId → ℕ → TimerState Tree → TimerState Tree
  start_ms_timer t timeout s =
      start_timer t (record { sec = timeout / 1000; usec = timeout % 1000 * 1000 }) s

  -- `tpStartUsTimer`
  unfoldable pub start_us_timer : TimerId → ℕ → TimerState Tree → TimerState Tree
  start_us_timer t timeout s =
      start_timer t (record { sec = timeout / 1_000_000; usec = timeout % 1_000_000 }) s

  -- `tpStartSecTimer`
  unfoldable pub start_sec_timer : TimerId → ℕ → TimerState Tree → TimerState Tree
  start_sec_timer t timeout s = start_timer t (record { sec = timeout; usec = 0 }) s

  -- `tpGetTimeRemaining`
  unfoldable pub get_time_remaining : TimerId → TimerState Tree → ℤ × TimerState Tree
  get_time_remaining t s =
      if not (s.timers t).running
      then (negsuc 0, s)
      else (time_left (clock s.reads) (s.timers t).expires_at, record s { reads = suc s.reads })
