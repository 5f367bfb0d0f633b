-- ===== src/Session/Change.antt =====
-- src/core/bfd.c: `bfdSessionDown` and `bfdSessionUp`.
use free_bfd.Base.{ℕ, true, false, low_bits, larger, u8}
use free_bfd.Session.{down, up, down_min_tx, SessionInt, Ctx, set_bfd}
use free_bfd.Session.Output.{notify_state}

-- `selectedMin`: the transmit interval of a session that is not up.
unfoldable pub selected_min : SessionInt → ℕ
selected_min s = larger down_min_tx s.sn.desired_min_tx_interval

unfoldable pub down_fields : ℕ → SessionInt → SessionInt
down_fields diag s = record s {
  local_diag = u8 (low_bits diag 5);
  session_state = down;
  send_desired_min_tx = selected_min s;
  active_desired_min_tx = selected_min s;
  polling = false;
  poll_seq_in_progress = false;
  demand_mode_active = false;
}

unfoldable pub up_fields : SessionInt → SessionInt
up_fields s = record s {
  session_state = up;
  send_desired_min_tx = s.sn.desired_min_tx_interval;
  polling = true;
}

module _ {T : Type 0} where
  -- `bfdSessionDown`
  unfoldable pub session_down : ℕ → Ctx T → Ctx T
  session_down diag c = notify_state (set_bfd (down_fields diag c.bfd) c)

  -- `bfdSessionUp`
  unfoldable pub session_up : Ctx T → Ctx T
  session_up c = notify_state (set_bfd (up_fields c.bfd) c)
