-- ===== src/TpEvents/Ready.antt =====
-- src/core/tp-timers.c: the sockets that `select` finds ready.
use free_bfd.Base.{
  ℕ, zero, suc, ◌+◌, ◌-◌, ◌≤◌, ◌≡◌, refl, arith, Bool, false, leb, of_bool, inl, inr, Bool-cases,
  if◌then◌else◌,
}
use free_bfd.TpSockets.{Skts, max_skts}
use free_bfd.TpEvents.{call_actor, dispatch}

-- How many of the next sockets are in the set.
abbrev pub count_ready : ℕ → ℕ → (ℕ → Bool) → ℕ
count_ready zero i rdset = 0
count_ready (suc left) i rdset = of_bool (rdset i) + count_ready left (suc i) rdset

module _ {A S : Type 0} (skts : S → Skts A) (act : A → ℕ → S → S) where
  -- To go through all of the sockets.
  abbrev pub all_ready : ℕ → ℕ → (ℕ → Bool) → S → S
  all_ready zero i rdset s = s
  all_ready (suc left) i rdset s =
      all_ready left (suc i) rdset (if rdset i then call_actor skts act i s else s)

  none_ready :
      (left i : ℕ) (rdset : ℕ → Bool) (s : S)
      → count_ready left i rdset ≡ 0
      → all_ready left i rdset s ≡ s
  none_ready zero i rdset s e = refl
  none_ready (suc left) i rdset s e =
      let off : rdset i ≡ false = ground (arith, e) in
      let rest : count_ready left (suc i) rdset ≡ 0 = ground (arith, e) in
      rw off (none_ready left (suc i) rdset s rest)

  dispatch-all_ready :
      (left i n : ℕ) (rdset : ℕ → Bool) (s : S)
      → count_ready left i rdset ≤ n
      → dispatch skts act left i n rdset s ≡ all_ready left i rdset s
  unfolding dispatch
  dispatch-all_ready zero i n rdset s most = refl
  dispatch-all_ready (suc left) i n rdset s most = elim (Bool-cases (rdset i)) [
    | inr off ↦
        rw (off, dispatch) (dispatch-all_ready left (suc i) n rdset s (ground (arith, most, off)))
    | inl on ↦
        let s1 = call_actor skts act i s in
        elim (Bool-cases (leb n 1)) [
          | inl last ↦
              let done : count_ready left (suc i) rdset ≡ 0 = ground (arith, most, on, last) in
              rw (on, dispatch, last, none_ready left (suc i) rdset s1 done) refl
          | inr more ↦
              rw (on, dispatch, more)
                (dispatch-all_ready left (suc i) (n - 1) rdset s1 (ground (arith, most, on, more)))
        ]
  ]

  -- Where `select` tells how many of the twenty sockets are ready: the loop, which ends at the last
  -- of them, does what going through all of them does. In the order of the sockets, each that is
  -- ready and still has an actor when it comes to it has its actor called, once.
  pub dispatch_lem :
      (n : ℕ) (rdset : ℕ → Bool) (s : S)
      → count_ready max_skts 0 rdset ≡ n
      → dispatch skts act max_skts 0 n rdset s ≡ all_ready max_skts 0 rdset s
  dispatch_lem n rdset s told = dispatch-all_ready max_skts 0 n rdset s (omega (arith, told))
