-- ===== src/Tests/Links.antt =====
-- The theorems on packets, timers and sockets at concrete ones.
use free_bfd.Base.{
  ℕ, ◌≡◌, ◌+◌, List, if◌then◌else◌, ◌==◌, refl, arith, true, false, inl, [], ◌∷◌, pos, negsuc,
}
use free_bfd.Session.{TimerId, down, timer, detect, xmt}
use free_bfd.TpTimers.{
  Timeval, TimerState, same_timer, Entry, expiry, compare_time, init_timers, start_timer,
  stop_timer,
}
use free_bfd.TpTimers.Tree.{IsTree, IsGone, starts, run_calls, run_calls-safe}
use free_bfd.TpTimers.Lost.{start_timer_lost}
use free_bfd.TpLoop.Check.{Checks, check_timers_lem}
use free_bfd.TpSockets.{no_skts}
use free_bfd.Sockets.{SockState, find_sock, update_sock, Kernel, setup_rx_socket, socket_close}
use free_bfd.Sockets.Sharing.{setup_rx_socket-close}
use free_bfd.Tests.{list_avl, clock, session}

abbrev early : Timeval
early = record { sec = 100; usec = 900_000 }

abbrev late : Timeval
late = record { sec = 102; usec = 100_000 }

abbrev t : TimerId
t = timer 1000 detect

abbrev u : TimerId
u = timer 1000 xmt

abbrev two_starts : TimerState (List Entry)
two_starts =
    run_calls list_avl clock (starts t late ∷ starts u early ∷ []) (init_timers list_avl clock)

run_calls-safe_example :
    IsTree list_avl clock two_starts × IsGone t (stop_timer list_avl clock t two_starts).timer_tree
run_calls-safe_example = run_calls-safe list_avl clock (starts t late ∷ starts u early ∷ []) t

-- A timer that expires at 202.350.
abbrev one_runs : TimerState (List Entry)
one_runs = record {
  timer_tree = record { at = record { sec = 202; usec = 350_000 }; timer = t } ∷ [];
  timers = λ v.
      if same_timer t v
      then record { expires_at = record { sec = 202; usec = 350_000 }; running = true }
      else record { expires_at = record { sec = 0; usec = 0 }; running = false };
  reads = 0;
}

one_runs-IsTree : IsTree list_avl clock one_runs
one_runs-IsTree = record { ordered = (tt, tt); run = (refl, tt) }

start_timer_lost_example :
    let started = start_timer list_avl clock u late one_runs in
    let stopped = stop_timer list_avl clock u started in
    ((started.timers u).running ≡ true)
    × IsGone u started.timer_tree
    × ((stopped.timers t).running ≡ true)
    × IsGone t stopped.timer_tree
unfolding expiry
start_timer_lost_example =
    start_timer_lost list_avl clock t u late one_runs one_runs-IsTree (λ e. cc) refl
      (inl (refl, refl))

-- A kernel that gives the descriptor 7 and refuses to bind port 65535.
abbrev kernel : Kernel
kernel = record {
  socket = λ n. pos 7;
  setsockopt = λ n. pos 0;
  bind = λ n port. if port == 65535 then negsuc 0 else pos 0;
  calloc = λ n. true;
}

abbrev sockets : SockState ℕ
sockets = record {
  rx_socks = record { sock = pos 6; ref_cnt = 1; port = 3784 } ∷ [];
  src_port = 65535;
  skts = no_skts;
  closed = [];
  calls = 0;
}

abbrev shared : SockState ℕ
shared = record sockets { rx_socks = record { sock = pos 6; ref_cnt = 2; port = 3784 } ∷ [] }

sharing : setup_rx_socket kernel 1 (session down) sockets ≡ (true, session down, shared)
unfolding setup_rx_socket find_sock update_sock
sharing = refl

setup_rx_socket-close_example : (socket_close (session down) shared).1.rx_socks ≡ sockets.rx_socks
setup_rx_socket-close_example =
    setup_rx_socket-close kernel 1 (session down) sockets (session down) shared
      ((omega arith, omega arith), tt) sharing refl refl

-- A clock of which the timer that expires at 202.350 is due.
abbrev late_clock : ℕ → Timeval
late_clock n = record { sec = n + 300; usec = 0 }

late-IsTree : IsTree list_avl late_clock one_runs
late-IsTree = record { ordered = (tt, tt); run = (refl, tt) }

check_timers_lem_example : Checks list_avl late_clock (λ s. s) (λ ts s. ts) (λ v s. s) 2 one_runs
unfolding compare_time
check_timers_lem_example =
    check_timers_lem list_avl late_clock (λ s. s) (λ ts s. ts) (λ v s. s) 2 one_runs
      (record {
        get-put = λ ts s. refl;
        keeps = λ v s good. good;
        reads_on = λ v s. omega arith;
        starts_later = λ v s good since. omega arith;
      })
      late-IsTree (omega arith)
