-- ===== src/TpTimers/Lost.antt =====
-- Two timers with the same expiration time: the search tree keeps one item of those that compare
-- equal.
use free_bfd.Base.{
  ℕ, suc, ap, sym, ◌≡◌, ◌≢◌, ◌⊎◌, refl, true, false, inl, inr, List, [], ◌∷◌, arith,
}
use mathlib.Core.Path.{subst}
use free_bfd.Session.{TimerId}
use free_bfd.TpTimers.{
  Timeval, TpTimer, put_timer, TimerState, Avl, Entry, put_in_order, take_out, stop_timer,
  start_timer, arm_timer, expiry,
}
use free_bfd.TpTimers.Filled.{same_timer_self, same_timer_ne}
use free_bfd.TpTimers.Order.{
  AllAfter, IsOrdered, compared, before, same, later, Before, take_out-NoneAt, NoneAt,
}
use free_bfd.TpTimers.Tree.{AllRun, IsGone, IsTree, AllRun-take, IsGone-stopped, IsGone-NoneAt}

-- The timer `t` has an item at time `k`.
abbrev pub HasItem : TimerId → Timeval → List Entry → Type 0
HasItem t k [] = ⊥
HasItem t k (x ∷ xs) = ((x.timer ≡ t) × (x.at ≡ k)) ⊎ HasItem t k xs

after_item :
    (t : TimerId) (k l : Timeval) (xs : List Entry) → HasItem t k xs → AllAfter l xs → Before l k
after_item t k l [] h a = absurd h
after_item t k l (x ∷ xs) (inl h) a = ground arith
after_item t k l (x ∷ xs) (inr h) a = after_item t k l xs h a.1

put_in_order_same :
    (t : TimerId) (e : Entry) (xs : List Entry)
    → IsOrdered xs
    → HasItem t e.at xs
    → put_in_order e xs ≡ xs
unfolding put_in_order
put_in_order_same t e [] o h = absurd h
put_in_order_same t e (x ∷ xs) o (inl h) = elim (compared e.at x.at) [
  | before c b ↦ absurd (ground arith)
  | same c b ↦ rw (c, put_in_order) refl
  | later c b ↦ absurd (ground arith)
]
put_in_order_same t e (x ∷ xs) o (inr h) =
    let b' = after_item t e.at x.at xs h o.0 in
    elim (compared e.at x.at) [
      | before c b ↦ absurd (ground arith)
      | same c b ↦ absurd (ground arith)
      | later c b ↦ rw (c, put_in_order) (ap (λ ys. x ∷ ys) (put_in_order_same t e xs o.1 h))
    ]

item_runs :
    (f : TimerId → TpTimer) (t : TimerId) (k : Timeval) (xs : List Entry)
    → AllRun f xs
    → HasItem t k xs
    → f t ≡ record { expires_at = k; running = true }
item_runs f t k [] a h = absurd h
item_runs f t k (x ∷ xs) a (inl h) = ground arith
item_runs f t k (x ∷ xs) a (inr h) = item_runs f t k xs a.1 h

module _ {Tree : Type 0} (avl : Avl Tree) (clock : ℕ → Timeval) (t u : TimerId) (timeout : Timeval)
    (s : TimerState Tree) where
  abbrev started : TimerState Tree
  started = start_timer avl clock u timeout s

  abbrev stopped : TimerState Tree
  stopped = stop_timer avl clock u started

  abbrev at : Timeval
  at = expiry (clock s.reads) timeout

  abbrev items : List Entry
  items = avl.items s.timer_tree

  started_lem :
      (s.timers u).running ≡ false
      → started
        ≡ put_timer u
            (record { expires_at = at; running = true })
            (record s {
              timer_tree = avl.insert (record { at = at; timer = u }) s.timer_tree;
              reads = suc s.reads;
            })
  unfolding start_timer arm_timer
  started_lem idle = rw (idle, start_timer) refl

  stopped_lem :
      (s.timers u).running ≡ false
      → stopped
        ≡ put_timer u
            (record { expires_at = at; running = false })
            (record started { timer_tree = avl.delete at started.timer_tree })
  unfolding stop_timer
  stopped_lem idle = ground (arith, started_lem idle, same_timer_self u)

  -- Where the tree is in order and its items are timers that run: if a timer that does not run is
  -- started so that it expires at the very time of another one in the tree, it is marked as
  -- running but has no item and never expires; and when it is stopped, the item of the other one
  -- is deleted, which still runs and never expires either.
  pub start_timer_lost :
      IsTree avl clock s
      → t ≢ u
      → (s.timers u).running ≡ false
      → HasItem t (expiry (clock s.reads) timeout) (avl.items s.timer_tree)
      → ((started.timers u).running ≡ true)
        × IsGone u (avl.items started.timer_tree)
        × ((stopped.timers t).running ≡ true)
        × IsGone t (avl.items stopped.timer_tree)
  start_timer_lost v ne idle item =
      let run = item_runs s.timers t at items v.run item in
      let kept = put_in_order_same t (record { at = at; timer = u }) items v.ordered item in
      let other = same_timer_ne u t (λ e. ne (sym e)) in
      let none_left =
        subst (λ k. NoneAt k (take_out at items)) (ap (λ x. x.expires_at) (sym run))
          (take_out-NoneAt at items v.ordered) in
      (
        ground (arith, started_lem idle, same_timer_self u),
        rw (started_lem idle, avl.items-insert, kept) (IsGone-stopped s.timers u items v.run idle),
        ground (arith, stopped_lem idle, started_lem idle, other, run),
        rw (stopped_lem idle, started_lem idle, avl.items-delete, avl.items-insert, kept)
            (IsGone-NoneAt s.timers t (take_out at items) (AllRun-take s.timers at items v.run)
              none_left),
      )
