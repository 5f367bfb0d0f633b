-- ===== src/TpLoop/Check.antt =====
-- `tpCheckTimers` as a whole: it comes to an end, with the time until the next timer expires.
use free_bfd.Base.{ℕ, suc, ◌<◌, ◌≡◌, refl, ap, ◌∙◌, arith, Option, none, some, List, [], ◌∷◌}
use free_bfd.Session.{TimerId}
use free_bfd.TpTimers.{Timeval, TimerState, Avl, Entry, subtract_time}
use free_bfd.TpTimers.Tree.{IsTree}
use free_bfd.TpLoop.{read_clock, run_due, check_timers}
use free_bfd.TpLoop.Expired.{due, items, Calm, Next, run_due_lem}

-- Reading the clock changes neither the tree nor the timers.
tick-IsTree :
    {Tree : Type 0} (avl : Avl Tree) (clock : ℕ → Timeval) (s : TimerState Tree)
    → IsTree avl clock s
    → IsTree avl clock (record s { reads = suc s.reads })
tick-IsTree avl clock s good = record { ordered = good.ordered; run = good.run }

module _ {Tree S : Type 0} (avl : Avl Tree) (clock : ℕ → Timeval) (get : S → TimerState Tree)
    (put : TimerState Tree → S → S) (action : TimerId → S → S) where
  abbrev listed : S → List Entry
  listed s = items avl clock get put action s

  -- The time that is given back: how long, from a last reading of the clock, until the first item
  -- expires; or nothing if there is no item.
  abbrev pub Remains : S → Option Timeval → Type 0
  Remains s none = listed s ≡ []
  Remains s (some left) =
      (e : Entry) × (xs : List Entry) × (k : ℕ) × (listed s ≡ e ∷ xs)
      × ((get s).reads ≡ suc k)
      × (left ≡ subtract_time e.at (clock k))

  -- The check comes to an end with such a time, in a state where no timer of before is left.
  pub record Checks (fuel : ℕ) (s : S) : Type 0 where
    pub time : Option Timeval
    pub after : S
    pub ends : check_timers avl clock get put action fuel s ≡ some (time, after)
    pub tree : IsTree avl clock (get after)
    pub none_due : due (clock (get s).reads) (listed after) ≡ 0
    pub remains : Remains after time

  abbrev ticked : S → TimerState Tree
  ticked s = record (get s) { reads = suc (get s).reads }

  check_rest :
      (fuel : ℕ) (s : S)
      → let now = clock (get s).reads in
        Calm avl clock get put action now (suc (get s).reads)
        → (r : Option TimerId) (s2 : S)
        → run_due avl clock get put action fuel now (put (ticked s) s) ≡ some (r, s2)
        → IsTree avl clock (get s2)
        → due now (listed s2) ≡ 0
        → Next avl clock get put action now s2 r
        → Checks fuel s
  unfolding check_timers read_clock
  check_rest fuel s calm none s2 ran good none_left next = record {
    time = none;
    after = s2;
    ends = rw (ran, check_timers, read_clock) refl;
    tree = good;
    none_due = none_left;
    remains = next;
  }
  check_rest fuel s calm (some t) s2 ran good none_left next =
      let (e, xs, first, of_t, at) = next in
      let kept = calm.get-put (ticked s2) s2 in
      let same : listed (put (ticked s2) s2) ≡ listed s2 =
        ap (λ ts. avl.items ts.timer_tree) kept in
      record {
        time = some (subtract_time ((get s2).timers t).expires_at (clock (get s2).reads));
        after = put (ticked s2) s2;
        ends = rw (ran, check_timers, read_clock) refl;
        tree = rw kept (tick-IsTree avl clock (get s2) good);
        none_due = ap (due (clock (get s).reads)) same ∙ none_left;
        remains = (
          e,
          xs,
          (get s2).reads,
          same ∙ first,
          ap (λ ts. ts.reads) kept,
          ap (λ at. subtract_time at (clock (get s2).reads)) at,
        );
      }

  -- Where the tree is in order and its items are the timers that run, and where the actions keep
  -- that and start no timer that has expired by the time at which the check begins, as the clock
  -- goes on: with fuel for more steps than there are expired timers, `tpCheckTimers` comes to an
  -- end. No timer that had expired by then is left, and what it gives is the time until the first
  -- of the others expires, or nothing if there is none.
  pub check_timers_lem :
      (fuel : ℕ) (s : S)
      → let now = clock (get s).reads in
        Calm avl clock get put action now (suc (get s).reads)
        → IsTree avl clock (get s)
        → due now (listed s) < fuel
        → Checks fuel s
  unfolding check_timers read_clock
  check_timers_lem fuel s calm good enough =
      let now = clock (get s).reads in
      let ts : TimerState Tree = record (get s) { reads = suc (get s).reads } in
      let kept = calm.get-put ts s in
      let count : due now (listed (put ts s)) ≡ due now (listed s) =
        ap (λ t. due now (avl.items t.timer_tree)) kept in
      let result =
        run_due_lem avl clock get put action fuel now (suc (get s).reads) (put ts s) calm
          (rw kept (tick-IsTree avl clock (get s) good)) (omega (arith, ap (λ t. t.reads) kept))
          (omega (arith, count)) in
      let (r, s2, ran, good2, none_left, next) = result in
      check_rest fuel s calm r s2 ran good2 none_left next
