-- ===== src/Session/Receive/Outcome.antt =====
-- The outcome of `bfdRcvPkt` for a packet that passed the checks: the new state, and all that is
-- sent and notified.
use free_bfd.Base.{
  ℕ, ◌*◌, ◌^◌, ◌≤◌, ◌<◌, ◌↔◌, larger, ◌≡◌, false, not, ◌&&◌, ◌||◌, [], ◌∷◌, ◌++◌, arith, to_bool,
  if◌then◌else◌,
}
use free_bfd.Packet.{Bytes, get_state, get_poll, get_my_discr, get_detect_mult, get_min_tx_int}
use free_bfd.Session.{State, admin_down, init, is, of_code, sent, Timers, Ctx}
use free_bfd.Session.Change.{down_fields, up_fields}
use free_bfd.Session.Output.{start_xmt_timer, send_cpkt, control_pkt}
use free_bfd.Session.Output.Notices.{calls}
use free_bfd.Session.Receive.{update_params, accept, finish, answer, new_demand, rearm_detect}
use free_bfd.Session.Receive.Logic.{rfc_next, state_logic_lem}
use free_bfd.Session.Receive.Frame.{settled_keeps, accept_bfd}
use free_bfd.Session.Receive.Params.{update_params_keeps, update_params_detect_time}

module _ {T : Type 0} (timers : Timers T) (random : ℕ → ℕ) (cp : Bytes) (c : Ctx T) where
  -- A packet that passed the checks moves the session by the table of RFC 5880, section 6.8.6,
  -- whatever state the session is in and whatever state the packet reports.
  pub accept-rfc_next :
      (accept timers random cp c).bfd.session_state
      ≡ rfc_next c.bfd.session_state (of_code (get_state cp))
  accept-rfc_next =
      let settling = settled_keeps (update_params timers random cp c).bfd in
      let keeps = update_params_keeps timers random cp c in
      rw (accept_bfd timers random cp c) (ground (arith, settling, keeps))

  abbrev reached : State
  reached = rfc_next c.bfd.session_state (of_code (get_state cp))

  -- For a session that is not administratively down: the subscribers are called exactly when the
  -- state changes, each once and with the new state; and exactly one packet is sent, from the
  -- final session state, when the received packet is a poll or the state changes to another one
  -- than init.
  pub accept_out :
      is c.bfd.session_state admin_down ≡ false
      → let changed = not (is reached c.bfd.session_state) in
        let c' = accept timers random cp c in
        let replies = to_bool (get_poll cp) || (changed && not (is reached init)) in
        c'.out
        ≡ (if replies
            then sent c'.bfd.tx_sock c'.bfd.sn.peer_addr c'.bfd.sn.peer_port
                (control_pkt c'.bfd (get_poll cp))
              ∷ []
            else [])
          ++ ((if changed then calls c.bfd.notify reached else []) ++ c.out)
  unfolding accept finish answer send_cpkt start_xmt_timer new_demand rearm_detect down_fields
      up_fields
  accept_out h = ground (
    arith,
    update_params_keeps timers random cp c,
    state_logic_lem (update_params timers random cp c),
  )

  -- A packet that passed the checks leaves the session's own parameters and discriminator, and
  -- records the discriminator of the sender.
  pub accept_keeps :
      let c' = accept timers random cp c in
      (c'.bfd.sn ≡ c.bfd.sn)
      × (c'.bfd.local_discr ≡ c.bfd.local_discr)
      × (c'.bfd.remote_discr ≡ get_my_discr cp)
  accept_keeps =
      let settling = settled_keeps (update_params timers random cp c).bfd in
      let keeps = update_params_keeps timers random cp c in
      rw (accept_bfd timers random cp c) (ground (arith, settling, keeps))

  detect_time_kept :
      (accept timers random cp c).bfd.detect_time
      ≡ (update_params timers random cp c).bfd.detect_time
  detect_time_kept =
      rw (accept_bfd timers random cp c) (settled_keeps (update_params timers random cp c).bfd).4

  -- The detection time that section 6.8.4 asks for while demand mode is not active: the remote
  -- multiplier times the larger of the two intervals that were agreed on.
  abbrev pub agreed_detect_time : ℕ
  agreed_detect_time =
      get_detect_mult cp * larger c.bfd.sn.required_min_rx_interval (get_min_tx_int cp)

  -- Unless demand mode is active, the detection time after a packet that passed the checks is at
  -- most the one of the specification, and it is that one exactly when that one fits 32 bits.
  pub accept_detect_time :
      c.bfd.demand_mode_active ≡ false
      → ((accept timers random cp c).bfd.detect_time ≤ agreed_detect_time)
        × (((accept timers random cp c).bfd.detect_time ≡ agreed_detect_time)
            ↔ (agreed_detect_time < 2 ^ 32))
  accept_detect_time h =
      omega (arith, detect_time_kept, update_params_detect_time timers random cp c h)
