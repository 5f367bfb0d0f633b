-- ===== src/TpTimers/Tree.antt =====
-- The tree of timers: it is in order, and each of its items is a timer that runs, with its time.
use free_bfd.Base.{
  ℕ, ◌≡◌, ◌≢◌, true, false, inl, inr, List, [], ◌∷◌, arith, Bool-cases, if◌then◌else◌,
}
use free_bfd.Session.{TimerId}
use free_bfd.TpTimers.{
  Timeval, TpTimer, TimerState, Avl, Entry, put_in_order, take_out, same_timer, init_timers,
  stop_timer, start_timer, arm_timer, expiry,
}
use free_bfd.TpTimers.Filled.{same_timer_self, same_timer_ne}
use free_bfd.TpTimers.Order.{
  IsOrdered, NoneAt, put_in_order-IsOrdered, take_out-IsOrdered, take_out-NoneAt, compared, before,
  same, later,
}

-- All items are running timers with the time of the item.
abbrev pub AllRun : (TimerId → TpTimer) → List Entry → Type 0
AllRun f [] = Unit {0}
AllRun f (x ∷ xs) = (f x.timer ≡ record { expires_at = x.at; running = true }) × AllRun f xs

-- No item is the timer `t`.
abbrev pub IsGone : TimerId → List Entry → Type 0
IsGone t [] = Unit {0}
IsGone t (x ∷ xs) = (x.timer ≢ t) × IsGone t xs

pub AllRun-take :
    (f : TimerId → TpTimer) (k : Timeval) (xs : List Entry) → AllRun f xs → AllRun f (take_out k xs)
unfolding take_out
AllRun-take f k [] a = tt
AllRun-take f k (x ∷ xs) a = elim (compared k x.at) [
  | before c b ↦ rw (c, take_out) a
  | same c b ↦ rw (c, take_out) a.1
  | later c b ↦ rw (c, take_out) (a.0, AllRun-take f k xs a.1)
]

AllRun-put :
    (f : TimerId → TpTimer) (e : Entry) (xs : List Entry)
    → f e.timer ≡ record { expires_at = e.at; running = true }
    → AllRun f xs
    → AllRun f (put_in_order e xs)
unfolding put_in_order
AllRun-put f e [] h a = (h, tt)
AllRun-put f e (x ∷ xs) h a = elim (compared e.at x.at) [
  | before c b ↦ rw (c, put_in_order) (h, a)
  | same c b ↦ rw (c, put_in_order) a
  | later c b ↦ rw (c, put_in_order) (a.0, AllRun-put f e xs h a.1)
]

-- A running timer without an item at its own time has no item at all.
pub IsGone-NoneAt :
    (f : TimerId → TpTimer) (t : TimerId) (xs : List Entry)
    → AllRun f xs
    → NoneAt (f t).expires_at xs
    → IsGone t xs
IsGone-NoneAt f t [] a n = tt
IsGone-NoneAt f t (x ∷ xs) a n = (λ e. n.0 (ground arith), IsGone-NoneAt f t xs a.1 n.1)

-- A timer that does not run has no item.
pub IsGone-stopped :
    (f : TimerId → TpTimer) (t : TimerId) (xs : List Entry)
    → AllRun f xs
    → (f t).running ≡ false
    → IsGone t xs
IsGone-stopped f t [] a h = tt
IsGone-stopped f t (x ∷ xs) a h = (λ e. ground arith, IsGone-stopped f t xs a.1 h)

-- A change to a timer without an item changes no item.
AllRun-update :
    (f : TimerId → TpTimer) (t : TimerId) (v : TpTimer) (xs : List Entry)
    → IsGone t xs
    → AllRun f xs
    → AllRun (λ u. if same_timer t u then v else f u) xs
AllRun-update f t v [] g a = tt
AllRun-update f t v (x ∷ xs) g a =
    (ground (arith, same_timer_ne t x.timer), AllRun-update f t v xs g.1 a.1)

module _ {Tree : Type 0} (avl : Avl Tree) (clock : ℕ → Timeval) where
  pub record IsTree (s : TimerState Tree) : Type 0 where
    pub ordered : IsOrdered (avl.items s.timer_tree)
    pub run : AllRun s.timers (avl.items s.timer_tree)

  pub stop_timer-IsGone :
      (t : TimerId) (s : TimerState Tree)
      → IsTree s
      → IsTree (stop_timer avl clock t s)
        × IsGone t (avl.items (stop_timer avl clock t s).timer_tree)
  unfolding stop_timer
  stop_timer-IsGone t s v = elim (Bool-cases (s.timers t).running) [
    | inl on ↦
        let k = (s.timers t).expires_at in
        let xs = avl.items s.timer_tree in
        let left = AllRun-take s.timers k xs v.run in
        let gone = IsGone-NoneAt s.timers t (take_out k xs) left (take_out-NoneAt k xs v.ordered) in
        let off = record (s.timers t) { running = false } in
        rw (on, stop_timer)
          (
            record {
              ordered = rw avl.items-delete (take_out-IsOrdered k xs v.ordered);
              run = rw avl.items-delete (AllRun-update s.timers t off (take_out k xs) gone left);
            },
            rw avl.items-delete gone,
          )
    | inr off ↦ rw (off, stop_timer) (v, IsGone-stopped s.timers t _ v.run off)
  ]

  arm_timer-IsTree :
      (t : TimerId) (timeout : Timeval) (s : TimerState Tree)
      → IsTree s
      → IsGone t (avl.items s.timer_tree)
      → IsTree (arm_timer avl clock t timeout s)
  unfolding arm_timer
  arm_timer-IsTree t timeout s v gone =
      let at = expiry (clock s.reads) timeout in
      let xs = avl.items s.timer_tree in
      let f : TimerId → TpTimer =
        λ u. if same_timer t u then record { expires_at = at; running = true } else s.timers u in
      record {
        ordered = rw avl.items-insert (put_in_order-IsOrdered _ xs v.ordered);
        run = rw avl.items-insert (
            AllRun-put f (record { at = at; timer = t }) xs (ground (arith, same_timer_self t))
              (AllRun-update s.timers t _ xs gone v.run));
      }

  start_timer-IsTree :
      (t : TimerId) (timeout : Timeval) (s : TimerState Tree)
      → IsTree s
      → IsTree (start_timer avl clock t timeout s)
  unfolding start_timer
  start_timer-IsTree t timeout s v = elim (Bool-cases (s.timers t).running) [
    | inl on ↦
        rw (on, start_timer)
          (let (w, gone) = stop_timer-IsGone t s v in arm_timer-IsTree t timeout _ w gone)
    | inr off ↦
        rw (off, start_timer)
          (arm_timer-IsTree t timeout s v (IsGone-stopped s.timers t _ v.run off))
  ]

-- The calls of the package that change the tree.
pub data TimerCall : Type 0 where
  starts : TimerId → Timeval → TimerCall
  stops : TimerId → TimerCall

module _ {Tree : Type 0} (avl : Avl Tree) (clock : ℕ → Timeval) where
  unfoldable pub run_calls : List TimerCall → TimerState Tree → TimerState Tree
  run_calls [] s = s
  run_calls (starts t timeout ∷ calls) s = run_calls calls (start_timer avl clock t timeout s)
  run_calls (stops t ∷ calls) s = run_calls calls (stop_timer avl clock t s)

  run_calls-IsTree :
      (calls : List TimerCall) (s : TimerState Tree)
      → IsTree avl clock s
      → IsTree avl clock (run_calls calls s)
  unfolding run_calls
  run_calls-IsTree [] s v = v
  run_calls-IsTree (starts t timeout ∷ calls) s v =
      run_calls-IsTree calls _ (start_timer-IsTree avl clock t timeout s v)
  run_calls-IsTree (stops t ∷ calls) s v =
      run_calls-IsTree calls _ (stop_timer-IsGone avl clock t s v).0

  init_timers-IsTree : IsTree avl clock (init_timers avl clock)
  unfolding init_timers
  init_timers-IsTree = record { ordered = rw avl.items-create tt; run = rw avl.items-create tt }

  -- After any calls on the package that was just initialised, the tree is in strict order of
  -- time and each of its items is a running timer, with its time; and once a timer is stopped no
  -- item refers to it, so its memory may be freed.
  pub run_calls-safe :
      (calls : List TimerCall) (t : TimerId)
      → let s = run_calls calls (init_timers avl clock) in
        IsTree avl clock s × IsGone t (avl.items (stop_timer avl clock t s).timer_tree)
  run_calls-safe calls t =
      let v = run_calls-IsTree calls _ init_timers-IsTree in
      (v, (stop_timer-IsGone avl clock t _ v).1)
