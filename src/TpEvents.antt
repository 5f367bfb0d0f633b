-- ===== src/TpEvents.antt =====
-- src/core/tp-timers.c: signals and the event loop, which brings the timers, the signals and the
-- sockets together.
pub mod Caught
pub mod Ready
use free_bfd.Base.{
  ℕ, zero, suc, ◌+◌, ◌-◌, Bool, true, false, ◌&&◌, Option, none, some, List, [], ◌∷◌, ℤ, pos,
  negsuc, leb, ◌==◌, if◌then◌else◌,
}
use free_bfd.Session.{TimerId}
use free_bfd.TpTimers.{Timeval, TimerState, Avl}
use free_bfd.TpLoop.{check_timers}
use free_bfd.TpSockets.{Skts, max_skts, write_at}

-- `TP_MAXSIGNALS`, which is `SIGUNUSED` + 1.
abbrev pub max_signals : ℕ
max_signals = 32

-- `sigActors`, `caughtSignal` and `caughtSigset`, and the signals for which the handler is
-- installed.
pub record Signals (B : Type 0) : Type 0 where
  pub actors : ℕ → Option B
  pub caught_signal : Bool
  pub caught_sigset : ℕ → Bool
  pub handled : ℕ → Bool

module _ {B : Type 0} where
  -- `tpSetSignalActor`
  unfoldable pub set_signal_actor : B → ℕ → Signals B → ℤ × Signals B
  set_signal_actor actor sig s = if leb max_signals sig then (negsuc 0, s) else (
    pos 0,
    record s { actors = write_at s.actors sig (some actor); handled = write_at s.handled sig true },
  )

  -- `tpSigHandler`
  unfoldable pub sig_handler : ℕ → Signals B → Signals B
  sig_handler sig s = record s {
    caught_signal = true;
    caught_sigset = write_at s.caught_sigset sig true;
  }

  -- What `tpCheckSignals` does at the end.
  unfoldable pub clear_caught : Signals B → Signals B
  clear_caught s = record s { caught_sigset = λ _. false; caught_signal = false }

-- `S` is the state of the whole program, of which the signals are a part; `act` is what the actors
-- do.
module _ {B S : Type 0} (get : S → Signals B) (put : Signals B → S → S) (act : B → ℕ → S → S) where
  -- One step of the loop: the actor of a signal that was caught.
  unfoldable pub signal_one : ℕ → S → S
  signal_one i s =
      if (get s).caught_sigset i
      then elim ((get s).actors i) [ none ↦ s | some b ↦ act b i s ]
      else s

  -- The loop for so many signals, from `i` on.
  unfoldable pub signal_loop : ℕ → ℕ → S → S
  signal_loop zero i s = s
  signal_loop (suc left) i s = signal_loop left (suc i) (signal_one i s)

  -- `tpCheckSignals`. `activeSigset` is empty, so that no signal is blocked meanwhile.
  unfoldable pub check_signals : S → S
  check_signals s =
      let s1 = signal_loop max_signals 0 s in
      if (get s).caught_signal then put (clear_caught (get s1)) s1 else s

-- What `select` gives: so many sockets that are ready, an interruption, another error, or the end
-- of the time.
pub data Selected : Type 0 where
  ready : (n : ℕ) (rdset : ℕ → Bool) → Selected
  select_interrupted select_failed timed_out : Selected

-- `tpStopEventLoop`, for what sets `exitEventLoopRequest`.
unfoldable pub stop_event_loop : {S : Type 0} → (ℕ → S → S) → S → S
stop_event_loop put_exit_request s = put_exit_request 1 s

-- How the loop ends: by `tpStopEventLoop`, or by `exit`.
pub data Ended (S : Type 0) : Type 0 where
  stopped exited : S → Ended S

module _ {A S : Type 0} (skts : S → Skts A) (act : A → ℕ → S → S) where
  -- The actor of a socket, if there is one by now.
  unfoldable pub call_actor : ℕ → S → S
  call_actor i s = elim ((skts s).actors i) [ none ↦ s | some a ↦ act a i s ]

  -- The loop over the sockets for so many of them, from `i` on, of which `n` are still to come.
  unfoldable pub dispatch : ℕ → ℕ → ℕ → (ℕ → Bool) → S → S
  dispatch zero i n rdset s = s
  dispatch (suc left) i n rdset s =
      let next = call_actor i s in
      let after = dispatch left (suc i) (n - 1) rdset next in
      let over = dispatch left (suc i) n rdset s in
      if rdset i then (if leb n 1 then next else after) else over

module _ {Tree A B S : Type 0} (avl : Avl Tree) (clock : ℕ → Timeval)
    (get_timers : S → TimerState Tree) (put_timers : TimerState Tree → S → S)
    (expired : TimerId → S → S) (get_signals : S → Signals B) (put_signals : Signals B → S → S)
    (on_signal : B → ℕ → S → S) (skts : S → Skts A) (on_socket : A → ℕ → S → S)
    (exit_request : S → ℕ) (fuel : ℕ) where
  -- `tpDoEventLoop`, for what the calls of `select` give one after the other. `none`: the last of
  -- them has not come back, or `fuel` is too little for the timers.
  unfoldable pub do_event_loop : List Selected → S → Option (Ended S)
  do_event_loop [] s = if exit_request s == 0 then none else some (stopped s)
  do_event_loop (selected ∷ rest) s =
      elim (check_timers avl clock get_timers put_timers expired fuel s) [
        | none ↦ if exit_request s == 0 then none else some (stopped s)
        | some (next_timer, s1) ↦
            let s2 = check_signals get_signals put_signals on_signal s1 in
            let next : Option (Ended S) = elim selected [
              | ready n rdset ↦ do_event_loop rest (dispatch skts on_socket max_skts 0 n rdset s2)
              | select_interrupted ↦ do_event_loop rest s2
              | select_failed ↦ some (exited s2)
              | timed_out ↦ do_event_loop rest s2
            ] in
            if exit_request s == 0 then next else some (stopped s)
      ]
