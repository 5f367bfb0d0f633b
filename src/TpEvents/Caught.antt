-- ===== src/TpEvents/Caught.antt =====
-- src/core/tp-timers.c: the signals that were caught.
use free_bfd.Base.{
  ℕ, zero, suc, ◌+◌, ◌≤◌, ◌<◌, ◌≡◌, ◌≢◌, refl, ap, ◌∙◌, arith, true, false, none, some, List, [],
  ◌∷◌, ◌==◌, inl, inr, Bool-cases, Option-cases, if◌then◌else◌,
}
use free_bfd.TpEvents.{
  Signals, max_signals, sig_handler, clear_caught, signal_one, signal_loop, check_signals,
}

-- The signals to handle among the next ones, in order: those that were caught and have an actor.
unfoldable pub pending : {B : Type 0} → ℕ → ℕ → Signals B → List (B × ℕ)
pending zero i g = []
pending (suc left) i g =
    let rest = pending left (suc i) g in
    if g.caught_sigset i then elim (g.actors i) [ none ↦ rest | some b ↦ (b, i) ∷ rest ] else rest

pending-clear_caught :
    {B : Type 0} (left i : ℕ) (g : Signals B) → pending left i (clear_caught g) ≡ []
unfolding clear_caught pending
pending-clear_caught zero i g = refl
pending-clear_caught (suc left) i g = pending-clear_caught left (suc i) g

module _ {B S : Type 0} (get : S → Signals B) (put : Signals B → S → S) (act : B → ℕ → S → S) where
  abbrev pub run_all : List (B × ℕ) → S → S
  run_all [] s = s
  run_all ((b, i) ∷ rest) s = run_all rest (act b i s)

  module _ (calm : (b : B) (i : ℕ) (s : S) → get (act b i s) ≡ get s)
      (get-put : (g : Signals B) (s : S) → get (put g s) ≡ g) where
    signal_loop_lem :
        (left i : ℕ) (s : S)
        → (signal_loop get put act left i s ≡ run_all (pending left i (get s)) s)
          × (get (signal_loop get put act left i s) ≡ get s)
    unfolding signal_loop signal_one pending
    signal_loop_lem zero i s = (refl, refl)
    signal_loop_lem (suc left) i s = elim (Bool-cases ((get s).caught_sigset i)) [
      | inr off ↦ rw (off, signal_loop, signal_one) (signal_loop_lem left (suc i) s)
      | inl on ↦ elim (Option-cases ((get s).actors i)) [
        | inl no_actor ↦ rw (on, signal_loop, signal_one, no_actor) (signal_loop_lem left (suc i) s)
        | inr (b, actor) ↦
            let same = calm b i s in
            let (runs, kept) = signal_loop_lem left (suc i) (act b i s) in
            (
              rw (on, signal_loop, signal_one, actor)
                  (runs ∙ ap (λ g. run_all (pending left (suc i) g) (act b i s)) same),
              rw (on, signal_loop, signal_one, actor) (kept ∙ same),
            )
      ]
    ]

    -- Where the actors of signals leave the signals as they are and a signal was caught: the check
    -- calls the actor of each signal that was caught and has one, once, in the order of their
    -- numbers; and afterwards no signal counts as caught.
    pub check_signals_lem :
        (s : S)
        → (get s).caught_signal ≡ true
        → (check_signals get put act s
            ≡ put (clear_caught (get s)) (run_all (pending max_signals 0 (get s)) s))
          × (pending max_signals 0 (get (check_signals get put act s)) ≡ [])
          × ((get (check_signals get put act s)).caught_signal ≡ false)
    unfolding check_signals clear_caught
    check_signals_lem s caught =
        let (runs, kept) = signal_loop_lem max_signals 0 s in
        let s1 = signal_loop get put act max_signals 0 s in
        let g = get-put (clear_caught (get s1)) s1 in
        let whole : check_signals get put act s ≡ put (clear_caught (get s1)) s1 =
          rw (caught, check_signals) refl in
        let after : get (check_signals get put act s) ≡ clear_caught (get s1) = ap get whole ∙ g in
        (
          whole ∙ ap (λ h. put (clear_caught h) s1) kept ∙ ap (put (clear_caught (get s))) runs,
          ap (pending max_signals 0) after ∙ pending-clear_caught max_signals 0 (get s1),
          ap (λ h. h.caught_signal) after,
        )

  module _ (s : S) (b : B) (i : ℕ) (on : (get s).caught_sigset i ≡ true)
      (alone : (m : ℕ) → m ≢ i → (get s).caught_sigset m ≡ false)
      (actor : (get s).actors i ≡ some b) where
    nothing_left :
        (left j : ℕ) (t : S)
        → ((m : ℕ) → j ≤ m → (get t).caught_sigset m ≡ false)
        → signal_loop get put act left j t ≡ t
    unfolding signal_loop signal_one
    nothing_left zero j t off = refl
    nothing_left (suc left) j t off =
        let here = off j (omega arith) in
        rw (here, signal_loop, signal_one)
          (nothing_left left (suc j) t λ m h. off m (omega (arith, h)))

    only_one :
        (left j : ℕ)
        → j ≤ i
        → i < j + left
        → ((m : ℕ) → i < m → (get (act b i s)).caught_sigset m ≡ false)
        → signal_loop get put act left j s ≡ act b i s
    unfolding signal_loop signal_one
    only_one zero j before within off = absurd (omega arith)
    only_one (suc left) j before within off = elim (Bool-cases (j == i)) [
      | inl same ↦
          let e : j ≡ i = ground arith in
          let here : (get s).caught_sigset j ≡ true = rw e on in
          let there : (get s).actors j ≡ some b = rw e actor in
          rw (here, signal_loop, signal_one, there, e)
            (nothing_left left (suc i) (act b i s) λ m h. off m (omega (arith, h)))
      | inr other ↦
          let here = alone j (ground arith) in
          rw (here, signal_loop, signal_one)
            (only_one left (suc j) (ground arith) (ground arith) off)
    ]

    -- A signal `k`, no greater than the only one that was caught, comes while the actor of that one
    -- is at work: after the check it does not count as caught, and its own actor was not called.
    pub check_signals_lost :
        (k : ℕ)
        → i < max_signals
        → k ≤ i
        → (get s).caught_signal ≡ true
        → get (act b i s) ≡ sig_handler k (get s)
        → check_signals get put act s ≡ put (clear_caught (sig_handler k (get s))) (act b i s)
    unfolding check_signals sig_handler
    check_signals_lost k small before caught comes =
        let off : (m : ℕ) → i < m → (get (act b i s)).caught_sigset m ≡ false = λ m h.
          let far : (k == m) ≡ false = ground arith in
          let quiet = alone m (omega arith) in rw (comes, far) quiet in
        let loop = only_one max_signals 0 (omega arith) (omega arith) off in
        rw (caught, check_signals, loop, comes) refl
