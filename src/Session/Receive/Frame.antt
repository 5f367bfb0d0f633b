-- ===== src/Session/Receive/Frame.antt =====
-- What the steps of `bfdRcvPkt` behind the state logic leave alone, and with it the session that
-- an accepted packet leaves behind.
use free_bfd.Base.{ℕ, ◌≡◌, Bool, inl, inr, refl, arith, Bool-cases, if◌then◌else◌}
use free_bfd.Packet.{Bytes}
use free_bfd.Session.{admin_down, is, SessionInt, Timers, Ctx}
use free_bfd.Session.Output.{start_xmt_timer, send_cpkt}
use free_bfd.Session.Change.{down_fields, up_fields}
use free_bfd.Session.Receive.{
  update_params, accept, finish, answer, hasten, new_demand, rearm_detect,
}
use free_bfd.Session.Receive.Logic.{rfc_next, logic_fields, state_logic_lem}

-- The session after the state logic and the demand mode that follows from it.
unfoldable pub settled : SessionInt → SessionInt
settled s =
    if is s.session_state admin_down
    then s
    else new_demand (logic_fields s (rfc_next s.session_state s.remote_session_state))

pub settled_keeps :
    (s : SessionInt)
    → ((settled s).session_state ≡ rfc_next s.session_state s.remote_session_state)
      × ((settled s).sn ≡ s.sn)
      × ((settled s).local_discr ≡ s.local_discr)
      × ((settled s).remote_discr ≡ s.remote_discr)
      × ((settled s).detect_time ≡ s.detect_time)
unfolding settled new_demand down_fields up_fields
settled_keeps s = ground arith

module _ {T : Type 0} (timers : Timers T) (random : ℕ → ℕ) (cp : Bytes) where
  hasten_bfd : (d : Ctx T) → (hasten timers random d).bfd ≡ d.bfd
  unfolding hasten start_xmt_timer
  hasten_bfd d = ground arith

  hasten_self : (d : Ctx T) → (hasten timers random d).self ≡ d.self
  unfolding hasten start_xmt_timer
  hasten_self d = ground arith

  pub answer_bfd :
      (send : Bool) (old : ℕ) (d : Ctx T) → (answer timers random cp send old d).bfd ≡ d.bfd
  unfolding answer send_cpkt start_xmt_timer
  answer_bfd send old d = ground (arith, hasten_bfd d)

  pub answer_self :
      (send : Bool) (old : ℕ) (d : Ctx T) → (answer timers random cp send old d).self ≡ d.self
  unfolding answer send_cpkt start_xmt_timer
  answer_self send old d = ground (arith, hasten_self d)

  pub rearm_detect_bfd : (d : Ctx T) → (rearm_detect timers d).bfd ≡ d.bfd
  unfolding rearm_detect
  rearm_detect_bfd d = ground arith

  pub accept_bfd :
      (c : Ctx T) → (accept timers random cp c).bfd ≡ settled (update_params timers random cp c).bfd
  unfolding accept finish settled
  accept_bfd c =
      elim (Bool-cases (is (update_params timers random cp c).bfd.session_state admin_down)) [
        | inl off ↦ rw (off, accept, settled) refl
        | inr on ↦
            rw
              (
                on,
                accept,
                settled,
                state_logic_lem (update_params timers random cp c) on,
                rearm_detect_bfd,
                answer_bfd,
              )
              refl
      ]
