-- ===== src/Session/Links.antt =====
-- No handler changes what a session is or where it is linked.
use free_bfd.Base.{ℕ, ◌≡◌, arith, Option-cases, inl, inr, Bool-cases}
use free_bfd.Packet.{Bytes}
use free_bfd.Session.{SessionInt, Timers, Ctx, set_bfd, is, admin_down, diag_detect_time_expired}
use free_bfd.Session.Output.{start_xmt_timer, send_cpkt}
use free_bfd.Session.Output.Notices.{notify_state_lem}
use free_bfd.Session.Change.{down_fields, up_fields, session_down}
use free_bfd.Session.Receive.{
  note_remote, conclude_poll, apply_final, new_xmt_time, new_detect_time, update_params, new_demand,
  accept, finish, receive, check_session, rearm_detect,
}
use free_bfd.Session.Receive.Logic.{state_logic_lem}
use free_bfd.Session.Receive.Frame.{answer_self, accept_bfd, settled}
use free_bfd.Session.Receive.Params.{update_params_keeps}
use free_bfd.Session.Timeout.{
  xmt_timeout, detect_timeout, poll_session, toggle_session, admin_down_fields,
}
use free_bfd.Session.Timeout.Admin.{toggle_off, toggle_on}
use free_bfd.Session.Invariant.{
  Occasion, receives, detect_expires, xmt_expires, poll_signal, toggle_signal, handle,
}

-- The parameters, the discriminator and the three links.
pub record SameLinks (s t : SessionInt) : Type 0 where
  pub sn : s.sn ≡ t.sn
  pub discr : s.local_discr ≡ t.local_discr
  pub list : s.list_next ≡ t.list_next
  pub hash : s.hash_next ≡ t.hash_next
  pub peer : s.peer_next ≡ t.peer_next

-- The handler worked on the same object, and left its links.
pub record StaysLinked {T : Type 0} (d c : Ctx T) : Type 0 where
  pub self : d.self ≡ c.self
  pub links : SameLinks d.bfd c.bfd

settled-SameLinks : (s : SessionInt) → SameLinks (settled s) s
unfolding settled new_demand down_fields up_fields
settled-SameLinks s = ground arith

rearm_detect_self :
    {T : Type 0} (timers : Timers T) (d : Ctx T) → (rearm_detect timers d).self ≡ d.self
unfolding rearm_detect
rearm_detect_self timers d = ground arith

module _ {T : Type 0} (timers : Timers T) (random : ℕ → ℕ) (c : Ctx T) where
  update_params-SameLinks : (cp : Bytes) → SameLinks (update_params timers random cp c).bfd c.bfd
  unfolding update_params note_remote apply_final new_xmt_time new_detect_time conclude_poll
  update_params-SameLinks cp = ground arith

  accept_self : (cp : Bytes) → (accept timers random cp c).self ≡ c.self
  unfolding accept finish
  accept_self cp =
      let u = update_params timers random cp c in
      let same = (update_params_keeps timers random cp c).0 in
      elim (Bool-cases (is u.bfd.session_state admin_down)) [
        | inl off ↦ rw (off, accept) same
        | inr on ↦ rw (on, accept, state_logic_lem u on, rearm_detect_self timers, answer_self) same
      ]

  accept-StaysLinked : (cp : Bytes) → StaysLinked (accept timers random cp c) c
  accept-StaysLinked cp =
      let first = update_params-SameLinks cp in
      let then = settled-SameLinks (update_params timers random cp c).bfd in
      record {
        self = accept_self cp;
        links = rw (accept_bfd timers random cp c) (ground (arith, first, then));
      }

  receive-StaysLinked : (cp : Bytes) → StaysLinked (receive timers random cp c) c
  unfolding receive
  receive-StaysLinked cp = elim (Option-cases (check_session cp c.bfd)) [
    | inl pass ↦ rw (pass, receive) (accept-StaysLinked cp)
    | inr (why, fails) ↦ rw (fails, receive) (ground arith)
  ]

  detect_timeout-StaysLinked : StaysLinked (detect_timeout timers random c) c
  unfolding detect_timeout send_cpkt start_xmt_timer session_down down_fields
  detect_timeout-StaysLinked =
      ground (arith, notify_state_lem (set_bfd (down_fields diag_detect_time_expired c.bfd) c))

  xmt_timeout-StaysLinked : StaysLinked (xmt_timeout timers random c) c
  unfolding xmt_timeout send_cpkt start_xmt_timer
  xmt_timeout-StaysLinked = ground arith

  poll_session-StaysLinked : StaysLinked (poll_session timers random c) c
  unfolding poll_session xmt_timeout send_cpkt start_xmt_timer
  poll_session-StaysLinked = ground arith

  toggle_session-StaysLinked : StaysLinked (toggle_session timers random c) c
  unfolding admin_down_fields
  toggle_session-StaysLinked = elim (Bool-cases (is c.bfd.session_state admin_down)) [
    | inl off ↦ rw (toggle_on timers random c off) (ground arith)
    | inr on ↦ rw (toggle_off timers random c on) (ground arith)
  ]

  pub handle-StaysLinked : (o : Occasion) → StaysLinked (handle timers random o c) c
  unfolding handle
  handle-StaysLinked (receives cp) = receive-StaysLinked cp
  handle-StaysLinked detect_expires = detect_timeout-StaysLinked
  handle-StaysLinked xmt_expires = xmt_timeout-StaysLinked
  handle-StaysLinked poll_signal = poll_session-StaysLinked
  handle-StaysLinked toggle_signal = toggle_session-StaysLinked
