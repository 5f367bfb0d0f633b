-- ===== src/Session/Invariant/Kept.antt =====
-- No handler of a session breaks its invariant.
use free_bfd.Base.{
  ℕ, ap, ◌≡◌, true, false, arith, List, [], ◌∷◌, Option-cases, inl, inr, Bool-cases, ◌&&◌, to_bool,
}
use free_bfd.Packet.{Bytes, get_final}
use free_bfd.Session.{
  admin_down, down, is, SessionInt, Timers, Ctx, set_bfd, diag_detect_time_expired,
}
use free_bfd.Session.Output.{start_xmt_timer, send_cpkt, notify_state}
use free_bfd.Session.Output.Notices.{notify_state_lem}
use free_bfd.Session.Change.{down_fields, selected_min, session_down}
use free_bfd.Session.Receive.{
  note_remote, conclude_poll, update_params, accept, finish, receive, check_session,
}
use free_bfd.Session.Receive.Logic.{state_logic_lem}
use free_bfd.Session.Receive.Frame.{answer_bfd, rearm_detect_bfd}
use free_bfd.Session.Receive.Params.{update_params_keeps}
use free_bfd.Session.Timeout.{
  xmt_timeout, detect_timeout, poll_session, toggle_session, admin_down_fields,
}
use free_bfd.Session.Invariant.{
  IsSound, IsSession, Occasion, receives, detect_expires, xmt_expires, poll_signal, toggle_signal,
  handle, handle_all,
}
use free_bfd.Session.Invariant.Parts.{
  down_fields-IsSound, logic_fields-IsSound, new_demand-IsSession, note_remote-IsSound,
  apply_final-IsSound, new_xmt_time-IsSound, new_detect_time-IsSound,
}

enable-IsSession :
    (s : SessionInt)
    → is s.session_state admin_down ≡ true
    → IsSession s
    → IsSession (record s { session_state = down })
enable-IsSession s off v = ground arith

admin_down_fields-IsSession : (s : SessionInt) → IsSession s → IsSession (admin_down_fields s)
unfolding admin_down_fields selected_min
admin_down_fields-IsSession s v = ground arith

notify_state_bfd : {T : Type 0} (c : Ctx T) → (notify_state c).bfd ≡ c.bfd
notify_state_bfd c = ap (λ d. d.bfd) (notify_state_lem c)

module _ {T : Type 0} (timers : Timers T) (random : ℕ → ℕ) where
  conclude_poll-IsSound :
      (cp : Bytes) (c : Ctx T)
      → IsSound c.bfd
      → IsSound (conclude_poll timers cp c).bfd
        × (((conclude_poll timers cp c).bfd.poll_seq_in_progress && to_bool (get_final cp)) ≡ false)
  unfolding conclude_poll
  conclude_poll-IsSound cp c v = ground arith

  update_params-IsSound :
      (cp : Bytes) (c : Ctx T) → IsSound c.bfd → IsSound (update_params timers random cp c).bfd
  unfolding update_params
  update_params-IsSound cp c v =
      let noted = note_remote-IsSound cp c.bfd v in
      let polled = conclude_poll-IsSound cp (set_bfd (note_remote cp c.bfd) c) noted in
      new_detect_time-IsSound cp _
        (new_xmt_time-IsSound _ (apply_final-IsSound cp _ polled.1 polled.0))

  accept-IsSession :
      (cp : Bytes) (c : Ctx T) → IsSession c.bfd → IsSession (accept timers random cp c).bfd
  unfolding accept finish
  accept-IsSession cp c v =
      elim (Bool-cases (is (update_params timers random cp c).bfd.session_state admin_down)) [
        | inl off ↦ rw off (record {
          sound = update_params-IsSound cp c v.sound;
          demand = ground (arith, update_params_keeps timers random cp c);
        })
        | inr on ↦
            rw
              (
                on,
                state_logic_lem (update_params timers random cp c) on,
                rearm_detect_bfd,
                answer_bfd,
              )
              (new_demand-IsSession _
                (logic_fields-IsSound _ _ on (update_params-IsSound cp c v.sound)))
      ]

  pub receive-IsSession :
      (cp : Bytes) (c : Ctx T) → IsSession c.bfd → IsSession (receive timers random cp c).bfd
  unfolding receive
  receive-IsSession cp c v = elim (Option-cases (check_session cp c.bfd)) [
    | inl pass ↦ rw (pass, receive) (accept-IsSession cp c v)
    | inr (why, fails) ↦ rw (fails, receive) v
  ]

  session_down_bfd : (diag : ℕ) (c : Ctx T) → (session_down diag c).bfd ≡ down_fields diag c.bfd
  unfolding session_down
  session_down_bfd diag c = notify_state_bfd (set_bfd (down_fields diag c.bfd) c)

  down_fields-IsSession : (diag : ℕ) (s : SessionInt) → IsSession s → IsSession (down_fields diag s)
  down_fields-IsSession diag s v = record {
    sound = down_fields-IsSound diag s v.sound;
    demand = unfold down_fields in cc;
  }

  detect_timeout-IsSession :
      (c : Ctx T) → IsSession c.bfd → IsSession (detect_timeout timers random c).bfd
  unfolding detect_timeout send_cpkt start_xmt_timer
  detect_timeout-IsSession c v = ground (
    arith,
    session_down_bfd diag_detect_time_expired c,
    down_fields-IsSession diag_detect_time_expired c.bfd v,
  )

  xmt_timeout-IsSession :
      (c : Ctx T) → IsSession c.bfd → IsSession (xmt_timeout timers random c).bfd
  unfolding xmt_timeout send_cpkt start_xmt_timer
  xmt_timeout-IsSession c v = v

  poll_session-IsSession :
      (c : Ctx T) → IsSession c.bfd → IsSession (poll_session timers random c).bfd
  unfolding poll_session xmt_timeout send_cpkt start_xmt_timer
  poll_session-IsSession c v = ground arith

  toggle_session-IsSession :
      (c : Ctx T) → IsSession c.bfd → IsSession (toggle_session timers random c).bfd
  unfolding toggle_session xmt_timeout send_cpkt start_xmt_timer
  toggle_session-IsSession c v = elim (Bool-cases (is c.bfd.session_state admin_down)) [
    | inl off ↦ rw (off, toggle_session, notify_state_bfd) (enable-IsSession c.bfd off v)
    | inr on ↦ rw (on, toggle_session, notify_state_bfd) (admin_down_fields-IsSession c.bfd v)
  ]

  -- Whatever packets a session receives, and whatever timeouts and signals it gets, in any order,
  -- its invariant holds afterwards if it held before.
  pub handle_all-IsSession :
      (os : List Occasion) (c : Ctx T)
      → IsSession c.bfd
      → IsSession (handle_all timers random os c).bfd
  unfolding handle_all handle
  handle_all-IsSession [] c v = v
  handle_all-IsSession (receives cp ∷ os) c v = handle_all-IsSession os _ (receive-IsSession cp c v)
  handle_all-IsSession (detect_expires ∷ os) c v =
      handle_all-IsSession os _ (detect_timeout-IsSession c v)
  handle_all-IsSession (xmt_expires ∷ os) c v =
      handle_all-IsSession os _ (xmt_timeout-IsSession c v)
  handle_all-IsSession (poll_signal ∷ os) c v =
      handle_all-IsSession os _ (poll_session-IsSession c v)
  handle_all-IsSession (toggle_signal ∷ os) c v =
      handle_all-IsSession os _ (toggle_session-IsSession c v)
