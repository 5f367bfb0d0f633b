-- ===== src/Tests/Events.antt =====
-- The theorems on signals and ready sockets, at a program that notes what its actors are called
-- for.
use free_bfd.Base.{
  ℕ, ◌≡◌, refl, arith, Bool, true, false, ◌||◌, none, some, List, [], ◌∷◌, ◌==◌, if◌then◌else◌,
}
use free_bfd.TpSockets.{Skts, max_skts}
use free_bfd.TpEvents.{Signals, max_signals, sig_handler, clear_caught, check_signals, dispatch}
use free_bfd.TpEvents.Ready.{all_ready, dispatch_lem}
use free_bfd.TpEvents.Caught.{pending, run_all, check_signals_lem, check_signals_lost}

-- The signals, and what was called (newest first).
abbrev P : Type 0
P = Signals ℕ × List ℕ

abbrev get : P → Signals ℕ
get s = s.0

abbrev put : Signals ℕ → P → P
put g s = (g, s.1)

abbrev note : ℕ → ℕ → P → P
note b i s = (s.0, i ∷ s.1)

-- SIGUSR1 and SIGUSR2 have actors and were caught.
abbrev both : P
both = (
  record {
    actors = λ i. if i == 10 || i == 12 then some i else none;
    caught_signal = true;
    caught_sigset = λ i. i == 10 || i == 12;
    handled = λ i. i == 10 || i == 12;
  },
  [],
)

check_signals_lem_example :
    (check_signals get put note both
      ≡ put
          (clear_caught (get both))
          (run_all get put note (pending max_signals 0 (get both)) both))
    × (pending max_signals 0 (get (check_signals get put note both)) ≡ [])
    × ((get (check_signals get put note both)).caught_signal ≡ false)
check_signals_lem_example = check_signals_lem get put note (λ b i s. refl) (λ g s. refl) both refl

-- SIGUSR2 alone was caught, and while its actor is at work SIGUSR1 comes.
abbrev one : P
one = (record (get both) { caught_sigset = λ i. i == 12 }, [])

abbrev meanwhile : ℕ → ℕ → P → P
meanwhile b i s = (sig_handler 10 s.0, i ∷ s.1)

check_signals_lost_example :
    check_signals get put meanwhile one
    ≡ put (clear_caught (sig_handler 10 (get one))) (meanwhile 12 12 one)
check_signals_lost_example =
    check_signals_lost get put meanwhile one 12 12 refl (λ m other. ground arith) refl 10
      (omega arith) (omega arith) refl refl

abbrev skts : List ℕ → Skts ℕ
skts s = record {
  actors = λ i. if i == 3 || i == 5 then some i else none;
  skt_set = λ i. i == 3 || i == 5;
  max_skt = 6;
}

abbrev is_ready : ℕ → Bool
is_ready i = i == 3 || i == 5

dispatch_lem_example :
    dispatch skts (λ a i s. i ∷ s) max_skts 0 2 is_ready []
    ≡ all_ready skts (λ a i s. i ∷ s) max_skts 0 is_ready []
dispatch_lem_example = dispatch_lem skts (λ a i s. i ∷ s) 2 is_ready [] refl
