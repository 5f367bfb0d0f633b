-- ===== src/Tests.antt =====
-- Concrete sessions, packets and timers, and the theorems of the library applied to them.
pub mod Sessions
pub mod Links
pub mod Tables
pub mod Trees
pub mod Messages
pub mod Monitor
pub mod Client
pub mod System
pub mod Events
pub mod Startup
use free_bfd.Base.{ℕ, ◌+◌, refl, true, false, [], ◌∷◌, List, negsuc, pos, replicate}
use free_bfd.Packet.{Bytes}
use free_bfd.Session.{BfdSession, SessionInt, State, down, Ctx, Timers}
use free_bfd.TpTimers.{
  Timeval, Entry, Avl, TimerState, put_in_order, take_out, first_of_list, init_timers,
}
use free_bfd.TpTimers.Filled.{tp_timers}

-- The search tree as a list.
abbrev pub list_avl : Avl (List Entry)
list_avl = record {
  create = [];
  insert = put_in_order;
  delete = take_out;
  first = first_of_list;
  items = λ xs. xs;
  items-create = refl;
  items-insert = λ e t. refl;
  items-delete = λ k t. refl;
  first_lem = λ t. refl;
}

-- A clock that ticks once a second.
abbrev pub clock : ℕ → Timeval
clock n = record { sec = n + 100; usec = 250_000 }

abbrev pub T : Type 0
T = TimerState (List Entry)

abbrev pub timers : Timers T
timers = tp_timers list_avl clock

abbrev pub random : ℕ → ℕ
random n = n + 12345

abbrev pub sn : BfdSession
sn = record {
  peer_addr = 167_772_161;
  local_addr = 167_772_162;
  peer_port = 3784;
  local_port = 3784;
  peer_addr_str = "1.0.0.10";
  local_addr_str = "2.0.0.10";
  sn_id_str = "peer=1.0.0.10:3784 local=2.0.0.10:3784";
  demand_mode = false;
  detect_mult = 3;
  auth_type = 0;
  desired_min_tx_interval = 100_000;
  required_min_rx_interval = 50_000;
}

-- A session as it was created, in some state.
abbrev pub session : State → SessionInt
session state = record {
  sn = sn;
  list_next = 0;
  hash_next = 0;
  peer_next = 0;
  notify = record { handle = 500; cb = 9; cb_arg = 4 } ∷ [];
  session_state = state;
  remote_session_state = down;
  remote_demand_mode = false;
  local_diag = 0;
  demand_mode_active = false;
  poll_seq_in_progress = false;
  polling = false;
  local_discr = 11;
  remote_discr = 0;
  remote_min_rx_interval = 0;
  ref_cnt = 1;
  active_desired_min_tx = 1_000_000;
  send_desired_min_tx = 1_000_000;
  detect_time = 0;
  xmt_time = 1_000_000;
  tx_sock = pos 5;
  rx_sock = pos 6;
}

abbrev pub at_work : State → Ctx T
at_work state = record {
  self = 1000;
  bfd = session state;
  timers = init_timers list_avl clock;
  out = [];
  draws = 0;
}

-- A packet of a peer that is down, with the discriminator 7 and intervals of a second.
abbrev pub hello : Bytes
hello =
    0x20 ∷ 0x40 ∷ 3 ∷ 24 ∷ 0 ∷ 0 ∷ 0 ∷ 7 ∷ 0 ∷ 0 ∷ 0 ∷ 0 ∷ 0 ∷ 15 ∷ 66 ∷ 64 ∷ 0 ∷ 15 ∷ 66 ∷ 64 ∷ 0
    ∷ 0 ∷ 0 ∷ 0 ∷ []
