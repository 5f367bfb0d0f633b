-- ===== src/Session/Timeout/Admin.antt =====
-- Administrative down, set and lifted by a signal.
use free_bfd.Base.{ℕ, suc, refl, ◌∙◌, ◌≡◌, true, false, ◌∷◌, ◌++◌}
use free_bfd.Session.{
  detect-ne-xmt, xmt-ne-detect, admin_down, down, is, diag_admin_down, SessionInt, detect, xmt,
  timer, Timers, sent, Ctx,
}
use free_bfd.Session.Output.{control_pkt, jitter, send_cpkt, start_xmt_timer}
use free_bfd.Session.Output.Notices.{calls, notify_state_lem}
use free_bfd.Session.Timeout.{toggle_session, xmt_timeout, admin_down_fields}

module _ {T : Type 0} (timers : Timers T) (random : ℕ → ℕ) (c : Ctx T) where
  pub toggle_off :
      is c.bfd.session_state admin_down ≡ false
      → toggle_session timers random c ≡ record c {
        bfd = admin_down_fields c.bfd;
        timers = timers.stop (timer c.self detect) (timers.stop (timer c.self xmt) c.timers);
        out = calls c.bfd.notify admin_down ++ c.out;
      }
  unfolding toggle_session admin_down_fields
  toggle_off h = rw (h, toggle_session) (notify_state_lem _)

  abbrev enabled : SessionInt
  enabled = record (c.bfd) { session_state = down }

  pub toggle_on :
      is c.bfd.session_state admin_down ≡ true
      → toggle_session timers random c ≡ record c {
        bfd = enabled;
        timers = timers.start_us (timer c.self xmt) (jitter enabled (random c.draws)) c.timers;
        draws = suc c.draws;
        out =
            calls c.bfd.notify down
            ++ (sent c.bfd.tx_sock c.bfd.sn.peer_addr c.bfd.sn.peer_port (control_pkt enabled 0)
                ∷ c.out);
      }
  unfolding toggle_session xmt_timeout send_cpkt start_xmt_timer
  toggle_on h = rw (h, toggle_session) (notify_state_lem _)

-- What two signals in turn do: the first silences the session; the second lets it start anew.
pub record Toggles {T : Type 0} (timers : Timers T) (c once twice : Ctx T) : Type 0 where
  pub off : once.bfd.session_state ≡ admin_down
  pub diag : once.bfd.local_diag ≡ diag_admin_down
  pub forgets : once.bfd.remote_discr ≡ 0
  pub told : once.out ≡ calls c.bfd.notify admin_down ++ c.out
  pub idle : timers.running (timer c.self xmt) once.timers ≡ false
  pub deaf : timers.running (timer c.self detect) once.timers ≡ false
  pub on : twice.bfd.session_state ≡ down
  pub told_again :
      twice.out
      ≡ calls c.bfd.notify down
        ++ (sent c.bfd.tx_sock c.bfd.sn.peer_addr c.bfd.sn.peer_port (control_pkt twice.bfd 0)
            ∷ once.out)
  pub transmits : timers.running (timer c.self xmt) twice.timers ≡ true
  pub still_deaf : timers.running (timer c.self detect) twice.timers ≡ false

module _ {T : Type 0} (timers : Timers T) (random : ℕ → ℕ) (c : Ctx T) where
  off_ctx : Ctx T
  off_ctx = record c {
    bfd = admin_down_fields c.bfd;
    timers = timers.stop (timer c.self detect) (timers.stop (timer c.self xmt) c.timers);
    out = calls c.bfd.notify admin_down ++ c.out;
  }

  -- A first signal takes a session that is not administratively down out of service: it is
  -- administratively down, has forgotten the peer, told its subscribers and stopped both timers.
  -- A second one puts it down, ready to start again: the subscribers are told, a packet is sent
  -- and the transmit timer runs.
  pub toggle_session-Toggles :
      is c.bfd.session_state admin_down ≡ false
      → let once = toggle_session timers random c in
        Toggles timers c once (toggle_session timers random once)
  unfolding admin_down_fields off_ctx
  toggle_session-Toggles h =
      let first = toggle_off timers random c h in
      let second = toggle_on timers random off_ctx refl in
      let stopped = timers.stop (timer c.self xmt) c.timers in
      let quiet = timers.stop (timer c.self detect) stopped in
      let j = jitter (record (off_ctx.bfd) { session_state = down }) (random c.draws) in
      let xmt_off = timers.running-stop (timer c.self xmt) c.timers in
      let kept =
        timers.running-stop_ne (timer c.self detect) (timer c.self xmt) stopped
          (detect-ne-xmt c.self) in
      let detect_off = timers.running-stop (timer c.self detect) stopped in
      rw first (
        rw second (record {
          off = refl;
          diag = refl;
          forgets = refl;
          told = refl;
          idle = kept ∙ xmt_off;
          deaf = detect_off;
          on = refl;
          told_again = refl;
          transmits = timers.running-start (timer c.self xmt) j quiet;
          still_deaf =
              timers.running-start_ne (timer c.self xmt) (timer c.self detect) j quiet
                (xmt-ne-detect c.self)
              ∙ detect_off;
        }))
