-- ===== src/Session/Receive/Rearm.antt =====
-- The timers after `bfdRcvPkt`.
use free_bfd.Base.{
  ℕ, true, Bool, inl, inr, refl, ◌∙◌, Bool-cases, ◌≡◌, false, not, ◌&&◌, ◌||◌, arith, to_bool,
}
use free_bfd.Packet.{Bytes, get_state, get_poll, get_final}
use free_bfd.Session.{
  detect-ne-xmt, State, admin_down, init, is, of_code, detect, xmt, timer, Timers, Ctx, set_bfd,
}
use free_bfd.Session.Output.{start_xmt_timer, send_cpkt, jitter}
use free_bfd.Session.Receive.{
  accept, finish, state_logic, answer, hasten, new_demand, rearm_detect, note_remote, update_params,
  conclude_poll,
}
use free_bfd.Session.Receive.Logic.{rfc_next, state_logic_lem}
use free_bfd.Session.Receive.Frame.{answer_self, rearm_detect_bfd}
use free_bfd.Session.Receive.Params.{update_params_keeps}

module _ {T : Type 0} (timers : Timers T) where
  rearm_detect-detect :
      (d : Ctx T)
      → timers.running (timer d.self detect) (rearm_detect timers d).timers
        ≡ not d.bfd.demand_mode_active
  unfolding rearm_detect
  rearm_detect-detect d = elim (Bool-cases d.bfd.demand_mode_active) [
    | inl active ↦ rw (active, rearm_detect) (timers.running-stop _ _)
    | inr idle ↦ rw (idle, rearm_detect) (timers.running-start _ _ _)
  ]

  rearm_detect-xmt :
      (d : Ctx T)
      → timers.running (timer d.self xmt) (rearm_detect timers d).timers
        ≡ timers.running (timer d.self xmt) d.timers
  unfolding rearm_detect
  rearm_detect-xmt d = elim (Bool-cases d.bfd.demand_mode_active) [
    | inl active ↦ rw (active, rearm_detect) (timers.running-stop_ne _ _ _ (detect-ne-xmt d.self))
    | inr idle ↦ rw (idle, rearm_detect) (timers.running-start_ne _ _ _ _ (detect-ne-xmt d.self))
  ]

  conclude_poll-xmt :
      (cp : Bytes) (d : Ctx T)
      → timers.running (timer d.self xmt) (conclude_poll timers cp d).timers ≡ (
          not (d.bfd.poll_seq_in_progress && to_bool (get_final cp))
          && timers.running (timer d.self xmt) d.timers)
  unfolding conclude_poll
  conclude_poll-xmt cp d =
      elim (Bool-cases (d.bfd.poll_seq_in_progress && to_bool (get_final cp))) [
        | inl over ↦
            rw (over, conclude_poll)
              (timers.running-stop_ne _ _ _ (detect-ne-xmt d.self) ∙ timers.running-stop _ _)
        | inr goes_on ↦ rw (goes_on, conclude_poll) refl
      ]

  module _ (random : ℕ → ℕ) (d : Ctx T) where
    start_xmt_timer-xmt :
        timers.running (timer d.self xmt) (start_xmt_timer timers random d).timers ≡ true
    unfolding start_xmt_timer
    start_xmt_timer-xmt =
        timers.running-start (timer d.self xmt) (jitter d.bfd (random d.draws)) d.timers

    -- A timer that does not run is never restarted early.
    hasten-xmt :
        timers.running (timer d.self xmt) (hasten timers random d).timers
        ≡ timers.running (timer d.self xmt) d.timers
    unfolding hasten start_xmt_timer
    hasten-xmt =
        let t = timer d.self xmt in
        let read = timers.remaining t d.timers in
        ground (
          arith,
          timers.running-start t (jitter d.bfd (random d.draws)) read.1,
          timers.running-remaining t t d.timers,
          timers.remaining_stopped t d.timers,
        )

    answer-xmt :
        (cp : Bytes) (send : Bool) (old : ℕ)
        → timers.running (timer d.self xmt) (answer timers random cp send old d).timers
          ≡ (to_bool (get_poll cp) || send || timers.running (timer d.self xmt) d.timers)
    unfolding answer send_cpkt start_xmt_timer
    answer-xmt cp send old = ground (
      arith,
      hasten-xmt,
      timers.running-start (timer d.self xmt) (jitter d.bfd (random d.draws)) d.timers,
    )

module _ {T : Type 0} (timers : Timers T) (random : ℕ → ℕ) (cp : Bytes) where
  update_params-xmt :
      (c : Ctx T)
      → timers.running (timer c.self xmt) (update_params timers random cp c).timers ≡ (
          not (c.bfd.poll_seq_in_progress && to_bool (get_final cp))
          && timers.running (timer c.self xmt) c.timers)
  unfolding update_params note_remote
  update_params-xmt c = conclude_poll-xmt timers cp (set_bfd (note_remote cp c.bfd) c)

  module _ (c : Ctx T) (on : is c.bfd.session_state admin_down ≡ false) where
    -- The context that the detection timer is set in.
    abbrev answered : Ctx T × Bool → Ctx T
    answered (d, send) = answer timers random cp send c.bfd.xmt_time (set_bfd (new_demand d.bfd) d)

    accept_lem :
        accept timers random cp c
        ≡ rearm_detect timers (answered (state_logic (update_params timers random cp c)))
    unfolding accept finish
    accept_lem = ground (arith, update_params_keeps timers random cp c)

    abbrev u : Ctx T
    u = update_params timers random cp c

    still_on : is u.bfd.session_state admin_down ≡ false
    still_on = ground (arith, update_params_keeps timers random cp c)

    answered_self : (answered (state_logic u)).self ≡ c.self
    answered_self =
        rw (state_logic_lem u still_on, answer_self) (update_params_keeps timers random cp c).0

    abbrev done : Ctx T
    done = accept timers random cp c

    abbrev reached : State
    reached = rfc_next c.bfd.session_state (of_code (get_state cp))

    abbrev concluded : Bool
    concluded = c.bfd.poll_seq_in_progress && to_bool (get_final cp)

    -- After a packet that passed the checks, the detection timer of a session that is not
    -- administratively down runs exactly when demand mode is not active.
    pub accept_detect_timer :
        timers.running (timer c.self detect) done.timers ≡ not done.bfd.demand_mode_active
    accept_detect_timer = ground (
      arith,
      accept_lem,
      answered_self,
      rearm_detect-detect timers (answered (state_logic u)),
      rearm_detect_bfd timers random cp (answered (state_logic u)),
    )

    -- After a packet that passed the checks, the transmit timer of a session that is not
    -- administratively down runs exactly when a packet was sent in answer (to a poll, or since the
    -- state changed to another one than init), or when it ran before and the packet did not
    -- conclude a poll sequence.
    pub accept_xmt_timer : timers.running (timer c.self xmt) done.timers ≡ (
        to_bool (get_poll cp)
        || (not (is reached c.bfd.session_state) && not (is reached init))
        || (not concluded && timers.running (timer c.self xmt) c.timers))
    accept_xmt_timer = ground (
      arith,
      accept_lem,
      answered_self,
      rearm_detect-xmt timers (answered (state_logic u)),
      state_logic_lem u still_on,
      update_params_keeps timers random cp c,
      update_params-xmt c,
      answer-xmt timers random (set_bfd (new_demand (state_logic u).0.bfd) (state_logic u).0) cp
          (state_logic u).1 c.bfd.xmt_time,
    )
