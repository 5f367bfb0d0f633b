-- ===== src/Session/Invariant.antt =====
-- The invariant of a session, the handlers of src/core/bfd.c as one function, and that none of them
-- breaks it.
pub mod Parts
pub mod Kept
use free_bfd.Base.{ℕ, ◌≤◌, ◌<◌, ◌^◌, ◌≡◌, Bool, true, false, List, [], ◌∷◌}
use free_bfd.Packet.{Bytes}
use free_bfd.Session.{State, up, is, down_min_tx, SessionInt, Timers, Ctx}
use free_bfd.Session.Output.Roundtrip.{FitsPacket}
use free_bfd.Session.Receive.{receive}
use free_bfd.Session.Timeout.{xmt_timeout, detect_timeout, poll_session, toggle_session}

-- The ranges of the fields, and how the intervals and the poll flags hang together.
pub record IsSound (s : SessionInt) : Type 0 where
  pub fits : FitsPacket s
  pub desired : s.sn.desired_min_tx_interval < 2 ^ 32
  pub active : s.active_desired_min_tx < 2 ^ 32
  pub remote_rx : s.remote_min_rx_interval < 2 ^ 32
  pub xmt : s.xmt_time < 2 ^ 32
  pub detect : s.detect_time < 2 ^ 32
  -- A session that is not up announces and uses an interval of at least a second (6.8.3).
  pub slow :
      is s.session_state up ≡ false
      → (down_min_tx ≤ s.send_desired_min_tx) × (down_min_tx ≤ s.active_desired_min_tx)
  -- A poll sequence polls, and only a session configured for demand mode has one.
  pub polls : s.poll_seq_in_progress ≡ true → (s.polling ≡ true) × (s.sn.demand_mode ≡ true)

-- Demand mode is active only between systems that are both up, at the remote one's request.
abbrev pub DemandFits : SessionInt → Type 0
DemandFits s =
    s.demand_mode_active ≡ true
    → (is s.session_state up ≡ true)
      × (is s.remote_session_state up ≡ true)
      × (s.remote_demand_mode ≡ true)

pub record IsSession (s : SessionInt) : Type 0 where
  pub sound : IsSound s
  pub demand : DemandFits s

-- What can happen to a session: a packet for it, the expiry of a timer, a signal.
pub data Occasion : Type 0 where
  receives : Bytes → Occasion
  detect_expires xmt_expires poll_signal toggle_signal : Occasion

module _ {T : Type 0} (timers : Timers T) (random : ℕ → ℕ) where
  unfoldable pub handle : Occasion → Ctx T → Ctx T
  handle (receives cp) c = receive timers random cp c
  handle detect_expires c = detect_timeout timers random c
  handle xmt_expires c = xmt_timeout timers random c
  handle poll_signal c = poll_session timers random c
  handle toggle_signal c = toggle_session timers random c

  unfoldable pub handle_all : List Occasion → Ctx T → Ctx T
  handle_all [] c = c
  handle_all (o ∷ os) c = handle_all os (handle o c)
