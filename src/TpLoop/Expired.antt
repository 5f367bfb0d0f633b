-- ===== src/TpLoop/Expired.antt =====
-- The loop of `tpCheckTimers` comes to an end, and leaves no timer behind that has expired.
use free_bfd.Base.{
  ℕ, zero, suc, ◌≤◌, ◌<◌, ◌≡◌, ◌⊎◌, refl, ap, ◌∙◌, arith, true, false, inl, inr, Option, none, some,
  List, [], ◌∷◌, Bool-cases, if◌then◌else◌,
}
use free_bfd.Session.{TimerId}
use free_bfd.TpTimers.{Timeval, TimerState, Avl, Entry, take_out, stop_timer, first_of_list}
use free_bfd.TpTimers.Order.{AllAfter, Before, compared, before, same, later}
use free_bfd.TpTimers.Tree.{IsTree, stop_timer-IsGone}
use free_bfd.TpLoop.{is_due, expire_one, run_due}

-- How many items have expired by now.
abbrev pub due : Timeval → List Entry → ℕ
due now [] = 0
due now (x ∷ xs) = if is_due x.at now then suc (due now xs) else due now xs

due_later : (k now : Timeval) → Before now k → is_due k now ≡ false
due_later k now b = elim (compared k now) [
  | before c h ↦ absurd (ground arith)
  | same c h ↦ absurd (ground arith)
  | later c h ↦ rw (c, is_due) refl
]

later_of_due : (k now : Timeval) → is_due k now ≡ false → Before now k
later_of_due k now e = elim (compared k now) [
  | before c h ↦ absurd (ground arith)
  | same c h ↦ absurd (ground arith)
  | later c h ↦ h
]

-- Behind an item that has not expired, none has.
none_due : (k now : Timeval) (xs : List Entry) → Before now k → AllAfter k xs → due now xs ≡ 0
none_due k now [] b a = refl
none_due k now (x ∷ xs) b a =
    let next : Before now x.at = ground arith in
    rw (due_later x.at now next) (none_due k now xs b a.1)

take_out_first : (e : Entry) (xs : List Entry) → take_out e.at (e ∷ xs) ≡ xs
unfolding take_out
take_out_first e xs = elim (compared e.at e.at) [
  | before c b ↦ absurd (ground arith)
  | same c b ↦ rw (c, take_out) refl
  | later c b ↦ absurd (ground arith)
]

List-cases : (xs : List Entry) → (xs ≡ []) ⊎ ((e : Entry) × (ys : List Entry) × (xs ≡ e ∷ ys))
List-cases [] = inl refl
List-cases (e ∷ ys) = inr (e, ys, refl)

items-stop :
    {Tree : Type 0} (avl : Avl Tree) (clock : ℕ → Timeval) (t : TimerId) (k : Timeval)
    (s : TimerState Tree)
    → s.timers t ≡ record { expires_at = k; running = true }
    → avl.items (stop_timer avl clock t s).timer_tree ≡ take_out k (avl.items s.timer_tree)
unfolding stop_timer
items-stop avl clock t k s on = rw (on, stop_timer, avl.items-delete) refl

reads-stop :
    {Tree : Type 0} (avl : Avl Tree) (clock : ℕ → Timeval) (t : TimerId) (s : TimerState Tree)
    → (stop_timer avl clock t s).reads ≡ s.reads
unfolding stop_timer
reads-stop avl clock t s = ground arith

module _ {Tree S : Type 0} (avl : Avl Tree) (clock : ℕ → Timeval) (get : S → TimerState Tree)
    (put : TimerState Tree → S → S) (action : TimerId → S → S) where
  abbrev pub items : S → List Entry
  items s = avl.items (get s).timer_tree

  abbrev pub IsGood : S → Type 0
  IsGood s = IsTree avl clock (get s)

  -- What the loop relies on: the timers are a part of the state, and an action leaves the tree in
  -- order and, from the clock read `start` times and more, starts no timer that has expired by
  -- `now`.
  pub record Calm (now : Timeval) (start : ℕ) : Type 0 where
    pub get-put : (ts : TimerState Tree) (s : S) → get (put ts s) ≡ ts
    pub keeps : (t : TimerId) (s : S) → IsGood s → IsGood (action t s)
    pub reads_on : (t : TimerId) (s : S) → (get s).reads ≤ (get (action t s)).reads
    pub starts_later :
        (t : TimerId) (s : S)
        → IsGood s
        → start ≤ (get s).reads
        → due now (items (action t s)) ≤ due now (items s)

  expire_one_lem :
      (t : TimerId) (s : S)
      → ((get s).timers t).running ≡ true
      → expire_one avl clock get put action t s ≡ action t (put (stop_timer avl clock t (get s)) s)
  unfolding expire_one stop_timer
  expire_one_lem t s on = rw (on, stop_timer) refl

  module _ (now : Timeval) (start : ℕ) (calm : Calm now start) (e : Entry) (xs : List Entry) (s : S)
      (good : IsGood s) (since : start ≤ (get s).reads) (first : items s ≡ e ∷ xs) where
    runs : (get s).timers e.timer ≡ record { expires_at = e.at; running = true }
    runs = (rw first at good.run).0

    abbrev quiet : TimerState Tree
    quiet = stop_timer avl clock e.timer (get s)

    went : expire_one avl clock get put action e.timer s ≡ action e.timer (put quiet s)
    went = expire_one_lem e.timer s (rw runs refl)

    quiet_reads : (get (put quiet s)).reads ≡ (get s).reads
    quiet_reads = ap (λ ts. ts.reads) (calm.get-put quiet s) ∙ reads-stop avl clock e.timer (get s)

    after_since : start ≤ (get (expire_one avl clock get put action e.timer s)).reads
    after_since = rw went (omega (arith, calm.reads_on e.timer (put quiet s), quiet_reads))

    quiet-IsGood : IsGood (put quiet s)
    quiet-IsGood = rw (calm.get-put quiet s) (stop_timer-IsGone avl clock e.timer (get s) good).0

    after-IsGood : IsGood (expire_one avl clock get put action e.timer s)
    after-IsGood = rw went (calm.keeps e.timer (put quiet s) quiet-IsGood)

    left : items (put quiet s) ≡ xs
    left =
        ap (λ ts. avl.items ts.timer_tree) (calm.get-put quiet s)
        ∙ items-stop avl clock e.timer e.at (get s) runs
        ∙ ap (take_out e.at) first
        ∙ take_out_first e xs

    after_due : due now (items (expire_one avl clock get put action e.timer s)) ≤ due now xs
    after_due =
        let same : due now (items (put quiet s)) ≡ due now xs = ap (due now) left in
        let more = calm.starts_later e.timer (put quiet s) quiet-IsGood (rw quiet_reads since) in
        rw went (omega (arith, same, more))

  -- What `tpCheckTimers` leaves: the first item of the tree, which has not expired.
  abbrev pub Next : Timeval → S → Option TimerId → Type 0
  Next now s none = items s ≡ []
  Next now s (some t) =
      (e : Entry) × (xs : List Entry) × (items s ≡ e ∷ xs)
      × (e.timer ≡ t)
      × (((get s).timers t).expires_at ≡ e.at)

  pub run_due_lem :
      (fuel : ℕ) (now : Timeval) (start : ℕ) (s : S)
      → Calm now start
      → IsGood s
      → start ≤ (get s).reads
      → due now (items s) < fuel
      → (r : Option TimerId) × (s1 : S) × (run_due avl clock get put action fuel now s
          ≡ some (r, s1))
        × IsGood s1
        × (due now (items s1) ≡ 0)
        × Next now s1 r
  unfolding run_due
  run_due_lem zero now start s calm good since enough = absurd (omega arith)
  run_due_lem (suc fuel) now start s calm good since enough = elim (List-cases (items s)) [
    | inl empty ↦
        let top : avl.first (get s).timer_tree ≡ none =
          avl.first_lem (get s).timer_tree ∙ ap first_of_list empty in
        (none, s, rw (top, run_due) refl, good, rw empty refl, empty)
    | inr (e, xs, first) ↦
        let top : avl.first (get s).timer_tree ≡ some e =
          avl.first_lem (get s).timer_tree ∙ ap first_of_list first in
        let on = runs now start calm e xs s good since first in
        elim (Bool-cases (is_due e.at now)) [
          | inl over ↦
              let less = after_due now start calm e xs s good since first in
              let count : due now (items s) ≡ suc (due now xs) = rw (first, over) refl in
              let (r, s1, ran, good1, none_left, next) =
                run_due_lem fuel now start (expire_one avl clock get put action e.timer s) calm
                  (after-IsGood now start calm e xs s good since first)
                  (after_since now start calm e xs s good since first) (omega arith) in
              (r, s1, rw (top, run_due, on, over) ran, good1, none_left, next)
          | inr not_yet ↦
              let ahead = later_of_due e.at now not_yet in
              let rest = none_due e.at now xs ahead (rw first at good.ordered).0 in
              (
                some e.timer,
                s,
                rw (top, run_due, on, not_yet) refl,
                good,
                rw (first, not_yet) rest,
                (e, xs, first, refl, rw on refl),
              )
        ]
  ]
