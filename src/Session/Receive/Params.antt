-- ===== src/Session/Receive/Params.antt =====
-- What `bfdRcvPkt` does to the session's parameters before the state logic.
use free_bfd.Base.{ℕ, ◌*◌, ◌≡◌, false, arith, u32, larger}
use free_bfd.Packet.{Bytes, get_state, get_my_discr, get_detect_mult, get_min_tx_int}
use free_bfd.Session.{of_code, Timers, Ctx}
use free_bfd.Session.Receive.{
  note_remote, apply_final, new_xmt_time, new_detect_time, conclude_poll, update_params,
}

module _ {T : Type 0} (timers : Timers T) (random : ℕ → ℕ) (cp : Bytes) (c : Ctx T) where
  abbrev after : Ctx T
  after = update_params timers random cp c

  pub update_params_keeps :
      (after.self ≡ c.self)
      × (after.out ≡ c.out)
      × (after.draws ≡ c.draws)
      × (after.bfd.session_state ≡ c.bfd.session_state)
      × (after.bfd.notify ≡ c.bfd.notify)
      × (after.bfd.sn ≡ c.bfd.sn)
      × (after.bfd.local_discr ≡ c.bfd.local_discr)
      × (after.bfd.remote_discr ≡ get_my_discr cp)
      × (after.bfd.demand_mode_active ≡ c.bfd.demand_mode_active)
      × (after.bfd.remote_session_state ≡ of_code (get_state cp))
  unfolding update_params note_remote apply_final new_xmt_time new_detect_time conclude_poll
  update_params_keeps = ground arith

  pub update_params_detect_time :
      c.bfd.demand_mode_active ≡ false
      → after.bfd.detect_time
        ≡ u32 (get_detect_mult cp * larger c.bfd.sn.required_min_rx_interval (get_min_tx_int cp))
  unfolding update_params note_remote apply_final new_xmt_time new_detect_time conclude_poll
  update_params_detect_time h = ground arith
