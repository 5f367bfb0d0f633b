-- ===== src/Session.antt =====
-- The state of one session (src/inc/bfd.h, src/core/bfdInt.h), what its handlers send out, and the
-- interface of the timers that they start and stop.
pub mod Output
pub mod Change
pub mod Receive
pub mod Timeout
pub mod Invariant
pub mod Handshake
pub mod Links
use free_bfd.Base.{
  ℕ, suc, ◌≡◌, ◌≢◌, Bool, true, false, List, ◌∷◌, String, ℤ, negsuc, ◌==◌, if◌then◌else◌,
}
use free_bfd.Packet.{Bytes}

-- `bfdState`
pub data State : Type 0 where
  admin_down down init up : State

abbrev pub code : State → ℕ
code admin_down = 0
code down = 1
code init = 2
code up = 3

-- The state that a two-bit number stands for.
abbrev pub of_code : ℕ → State
of_code n = if n == 0 then admin_down else if n == 1 then down else if n == 2 then init else up

-- `s == t` on the codes.
abbrev pub is : State → State → Bool
is s t = code s == code t

-- `bfdDiag`, the values that the code sets.
abbrev pub diag_detect_time_expired : ℕ
diag_detect_time_expired = 1

abbrev pub diag_neighbor_said_down : ℕ
diag_neighbor_said_down = 3

abbrev pub diag_admin_down : ℕ
diag_admin_down = 7

-- `BFD_DOWNMINTX`, in microseconds.
abbrev pub down_min_tx : ℕ
down_min_tx = 1_000_000

abbrev pub Ptr : Type 0
Ptr = ℕ

abbrev pub null : Ptr
null = 0

-- `bfdSession`: what identifies a session, its names for messages, and its parameters.
pub record BfdSession : Type 0 where
  pub peer_addr : ℕ
  pub local_addr : ℕ
  pub peer_port : ℕ
  pub local_port : ℕ
  pub peer_addr_str : String
  pub local_addr_str : String
  pub sn_id_str : String
  pub demand_mode : Bool
  pub detect_mult : ℕ
  pub auth_type : ℕ
  pub desired_min_tx_interval : ℕ
  pub required_min_rx_interval : ℕ

-- `bfdNotifier` in the list of its session: the callback, its argument and its own address.
pub record Notifier : Type 0 where
  pub handle : Ptr
  pub cb : ℕ
  pub cb_arg : ℕ

-- `bfdSessionInt`. Its two timers are named by `TimerId` and kept by the timers package.
pub record SessionInt : Type 0 where
  pub sn : BfdSession
  pub list_next : Ptr
  pub hash_next : Ptr
  pub peer_next : Ptr
  pub notify : List Notifier
  pub session_state : State
  pub remote_session_state : State
  pub remote_demand_mode : Bool
  pub local_diag : ℕ
  pub demand_mode_active : Bool
  pub poll_seq_in_progress : Bool
  pub polling : Bool
  pub local_discr : ℕ
  pub remote_discr : ℕ
  pub remote_min_rx_interval : ℕ
  pub ref_cnt : ℕ
  pub active_desired_min_tx : ℕ
  pub send_desired_min_tx : ℕ
  pub detect_time : ℕ
  pub xmt_time : ℕ
  pub tx_sock : ℤ
  pub rx_sock : ℤ

-- `DetectTimer` and `XmtTimer`. The kind also tells the action: `bfdDetectTimeout` or
-- `bfdXmtTimeout`.
pub data Kind : Type 0 where
  detect xmt : Kind

pub record TimerId : Type 0 where
  pub owner : Ptr
  pub kind : Kind

abbrev pub timer : Ptr → Kind → TimerId
timer p k = record { owner = p; kind = k }

pub detect-ne-xmt : (p : Ptr) → timer p detect ≢ timer p xmt
detect-ne-xmt p e = cc

pub xmt-ne-detect : (p : Ptr) → timer p xmt ≢ timer p detect
xmt-ne-detect p e = cc

-- What the sessions use of the timers package: `tpStartUsTimer`, `tpStopTimer` and
-- `tpGetTimeRemaining` (which reads the clock), with what they rely on.
pub record Timers (T : Type 0) : Type 0 where
  pub start_us : TimerId → ℕ → T → T
  pub stop : TimerId → T → T
  pub remaining : TimerId → T → ℤ × T
  pub running : TimerId → T → Bool
  pub running-start : (t : TimerId) (us : ℕ) (s : T) → running t (start_us t us s) ≡ true
  pub running-start_ne :
      (t u : TimerId) (us : ℕ) (s : T) → t ≢ u → running u (start_us t us s) ≡ running u s
  pub running-stop : (t : TimerId) (s : T) → running t (stop t s) ≡ false
  pub running-stop_ne : (t u : TimerId) (s : T) → t ≢ u → running u (stop t s) ≡ running u s
  pub running-remaining : (t u : TimerId) (s : T) → running u (remaining t s).1 ≡ running u s
  pub remaining_stopped : (t : TimerId) (s : T) → running t s ≡ false → (remaining t s).0 ≡ negsuc 0

-- What leaves a session: a control packet handed to `sendto`, and a call of a subscriber.
pub data Event : Type 0 where
  sent : (sock : ℤ) (addr port : ℕ) (cp : Bytes) → Event
  notified : (cb cb_arg : ℕ) (state : State) → Event

-- A session at work: its address and state, the timers, what it sent so far (newest first), and
-- how many random numbers were drawn.
pub record Ctx (T : Type 0) : Type 0 where
  pub self : Ptr
  pub bfd : SessionInt
  pub timers : T
  pub out : List Event
  pub draws : ℕ

module _ {T : Type 0} where
  abbrev pub emit : Event → Ctx T → Ctx T
  emit e c = record c { out = e ∷ c.out }

  abbrev pub set_bfd : SessionInt → Ctx T → Ctx T
  set_bfd s c = record c { bfd = s }
