-- ===== src/Session/Receive.antt =====
-- src/core/bfd.c: `bfdRcvPkt`, from the checks of the packet to the timers. The session that the
-- packet belongs to is found in between (Sessions).
pub mod Logic
pub mod Params
pub mod Frame
pub mod Outcome
pub mod Validity
pub mod Rearm
use free_bfd.Base.{
  ℕ, ◌*◌, ◌/◌, Bool, true, false, not, ◌&&◌, ◌||◌, Option, none, some, pos, u32, to_bool, larger,
  ltb, ltb_ℤ, ◌==◌, if◌then◌else◌,
}
use free_bfd.Packet.{
  Bytes, min_pkt_len, min_pkt_len_auth, version, get_vers, get_len, get_auth, get_detect_mult,
  get_multipoint, get_my_discr, get_your_discr, get_state, get_demand, get_min_rx_int,
  get_min_tx_int, get_final, get_poll,
}
use free_bfd.Session.{
  admin_down, down, init, up, of_code, is, diag_neighbor_said_down, SessionInt, detect, xmt, timer,
  Timers, Ctx, set_bfd,
}
use free_bfd.Session.Output.{notify_state, send_cpkt, start_xmt_timer}
use free_bfd.Session.Change.{session_down, session_up}

-- Why a packet is dropped, in the order of the checks.
pub data Drop : Type 0 where
  short bad_version bad_length zero_detect_mult multipoint_set zero_my_discr : Drop
  zero_your_discr auth_in_use : Drop

-- The checks of the packet alone; `mlen` is what `recvmsg` returned. `none` lets the packet pass.
unfoldable pub check_pkt : ℕ → Bytes → Option Drop
check_pkt mlen cp =
    if ltb mlen min_pkt_len
    then some short
    else if not (get_vers cp == version)
    then some bad_version
    else if ltb (get_len cp) (if to_bool (get_auth cp) then min_pkt_len_auth else min_pkt_len)
        || ltb mlen (get_len cp)
    then some bad_length
    else if get_detect_mult cp == 0
    then some zero_detect_mult
    else if to_bool (get_multipoint cp)
    then some multipoint_set
    else if get_my_discr cp == 0
    then some zero_my_discr
    else none

-- The checks that look at the session too.
unfoldable pub check_session : Bytes → SessionInt → Option Drop
check_session cp s =
    if (get_your_discr cp == 0) && not (is s.session_state down || is s.session_state admin_down)
    then some zero_your_discr
    else if to_bool (get_auth cp)
    then some auth_in_use
    else none

-- The fields that are copied from the packet.
unfoldable pub note_remote : Bytes → SessionInt → SessionInt
note_remote cp s = record s {
  remote_discr = get_my_discr cp;
  remote_session_state = of_code (get_state cp);
  remote_demand_mode = to_bool (get_demand cp);
  remote_min_rx_interval = get_min_rx_int cp;
}

-- A final bit ends the polling, and from then on the interval that was announced is in use.
unfoldable pub apply_final : Bytes → SessionInt → SessionInt
apply_final cp s =
    if to_bool (get_final cp)
    then record s { polling = false; active_desired_min_tx = s.send_desired_min_tx }
    else s

unfoldable pub new_xmt_time : SessionInt → SessionInt
new_xmt_time s = record s { xmt_time = larger s.active_desired_min_tx s.remote_min_rx_interval }

-- Both products are computed in `uint32_t`.
unfoldable pub new_detect_time : Bytes → SessionInt → SessionInt
new_detect_time cp s = record s {
  detect_time =
      if not s.demand_mode_active
      then u32 (get_detect_mult cp * larger s.sn.required_min_rx_interval (get_min_tx_int cp))
      else u32 (s.sn.detect_mult * larger s.active_desired_min_tx s.remote_min_rx_interval);
}

-- `bfd->RemoteDemandMode && bfd->SessionState == BFDSTATE_UP && ...`
unfoldable pub new_demand : SessionInt → SessionInt
new_demand s = record s {
  demand_mode_active =
      s.remote_demand_mode && is s.session_state up && is s.remote_session_state up;
}

module _ {T : Type 0} (timers : Timers T) where
  -- A poll sequence that this packet concludes.
  unfoldable pub conclude_poll : Bytes → Ctx T → Ctx T
  conclude_poll cp c =
      if c.bfd.poll_seq_in_progress && to_bool (get_final cp)
      then record c {
        bfd = record (c.bfd) { poll_seq_in_progress = false; polling = false };
        timers = timers.stop (timer c.self detect) (timers.stop (timer c.self xmt) c.timers);
      }
      else c

  -- The detection timer is restarted, or stopped in demand mode.
  unfoldable pub rearm_detect : Ctx T → Ctx T
  rearm_detect c =
      if not c.bfd.demand_mode_active
      then record c { timers = timers.start_us (timer c.self detect) c.bfd.detect_time c.timers }
      else record c { timers = timers.stop (timer c.self detect) c.timers }

-- The state logic of section 6.8.6: the session and `sendPkt`. The state is not `admin_down` here.
unfoldable pub state_logic : {T : Type 0} → Ctx T → Ctx T × Bool
state_logic c =
    if is c.bfd.remote_session_state admin_down
    then if not (is c.bfd.session_state down)
      then (session_down diag_neighbor_said_down c, true)
      else (c, false)
    else if is c.bfd.session_state down
    then if is c.bfd.remote_session_state down
      then (notify_state (set_bfd (record (c.bfd) { session_state = init }) c), false)
      else if is c.bfd.remote_session_state init
      then (session_up c, true)
      else (c, false)
    else if is c.bfd.session_state init
    then if is c.bfd.remote_session_state init || is c.bfd.remote_session_state up
      then (session_up c, true)
      else (c, false)
    else if is c.bfd.remote_session_state down
    then (session_down diag_neighbor_said_down c, true)
    else (c, false)

module _ {T : Type 0} (timers : Timers T) (random : ℕ → ℕ) where
  -- The transmit timer is restarted if it would expire later than the new time asks for.
  hasten : Ctx T → Ctx T
  hasten c =
      let (left, t) = timers.remaining (timer c.self xmt) c.timers in
      let c1 = record c { timers = t } in
      if ltb_ℤ (pos (u32 (c.bfd.xmt_time * 9) / 10)) left
      then start_xmt_timer timers random c1
      else c1

  -- The answer to a poll or to a change of state, or the earlier expiry of the transmit timer.
  unfoldable pub answer : Bytes → Bool → ℕ → Ctx T → Ctx T
  unfolding hasten
  answer cp send_pkt old_xmt_time c =
      if to_bool (get_poll cp) || send_pkt
      then send_cpkt timers random (get_poll cp) c
      else if not (old_xmt_time == c.bfd.xmt_time)
      then hasten c
      else c

  -- What follows the state logic.
  unfoldable pub finish : Bytes → ℕ → Ctx T × Bool → Ctx T
  finish cp old_xmt_time (c, send_pkt) =
      rearm_detect timers (answer cp send_pkt old_xmt_time (set_bfd (new_demand c.bfd) c))

  -- The session's parameters, before the state logic.
  unfoldable pub update_params : Bytes → Ctx T → Ctx T
  update_params cp c =
      let c1 = conclude_poll timers cp (set_bfd (note_remote cp c.bfd) c) in
      set_bfd (new_detect_time cp (new_xmt_time (apply_final cp c1.bfd))) c1

  -- `bfdRcvPkt` for a packet that passed the checks.
  unfoldable pub accept : Bytes → Ctx T → Ctx T
  accept cp c =
      let c1 = update_params cp c in
      if is c1.bfd.session_state admin_down then c1 else finish cp c.bfd.xmt_time (state_logic c1)

  -- `bfdRcvPkt` from the session that was found on.
  unfoldable pub receive : Bytes → Ctx T → Ctx T
  receive cp c = elim (check_session cp c.bfd) [ some why ↦ c | none ↦ accept cp c ]
