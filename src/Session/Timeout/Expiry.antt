-- ===== src/Session/Timeout/Expiry.antt =====
-- What the expiry of the detection timer does.
use free_bfd.Base.{ℕ, ◌≡◌, ◌⊎◌, true, ◌∷◌, ◌++◌, arith}
use free_bfd.Session.{
  detect-ne-xmt, admin_down, down, init, up, diag_detect_time_expired, detect, xmt, timer, Timers,
  sent, Ctx, set_bfd,
}
use free_bfd.Session.Output.{control_pkt, jitter, send_cpkt, start_xmt_timer}
use free_bfd.Session.Output.Notices.{calls, notify_state_lem}
use free_bfd.Session.Change.{session_down, down_fields}
use free_bfd.Session.Timeout.{detect_timeout}

module _ {T : Type 0} (timers : Timers T) (random : ℕ → ℕ) (c : Ctx T) where
  abbrev after : Ctx T
  after = detect_timeout timers random c

  -- The session went down for the reason that its detection time expired: every subscriber is
  -- told, the peer is told by a packet, and both timers run again.
  pub record WentDown : Type 0 where
    pub state : after.bfd.session_state ≡ down
    pub diag : after.bfd.local_diag ≡ diag_detect_time_expired
    pub discr : after.bfd.remote_discr ≡ c.bfd.remote_discr
    pub out :
        after.out
        ≡ sent c.bfd.tx_sock c.bfd.sn.peer_addr c.bfd.sn.peer_port (control_pkt after.bfd 0)
          ∷ (calls c.bfd.notify down ++ c.out)
    pub detects : timers.running (timer c.self detect) after.timers ≡ true
    pub transmits : timers.running (timer c.self xmt) after.timers ≡ true

  went_down : (c.bfd.session_state ≡ up) ⊎ (c.bfd.session_state ≡ init) → WentDown
  unfolding detect_timeout session_down send_cpkt start_xmt_timer down_fields
  went_down h =
      let d = session_down diag_detect_time_expired c in
      let j = jitter (down_fields diag_detect_time_expired c.bfd) (random c.draws) in
      let sending = timers.start_us (timer c.self xmt) j c.timers in
      let e = notify_state_lem (set_bfd (down_fields diag_detect_time_expired c.bfd) c) in
      record {
        state = ground (arith, e);
        diag = ground (arith, e);
        discr = ground (arith, e);
        out = ground (arith, e);
        detects =
            ground (arith, e, timers.running-start (timer c.self detect) c.bfd.detect_time sending);
        transmits = ground (
          arith,
          e,
          timers.running-start (timer c.self xmt) j c.timers,
          timers.running-start_ne (timer c.self detect) (timer c.self xmt) c.bfd.detect_time sending
              (detect-ne-xmt c.self),
        );
      }

  -- When the detection time expires, a session that is up or in `init` goes down for that reason,
  -- tells its subscribers and its peer, and has both timers running; in the other states only the
  -- remote discriminator is forgotten.
  pub detect_timeout_lem :
      ((c.bfd.session_state ≡ up) ⊎ (c.bfd.session_state ≡ init) → WentDown)
      × ((c.bfd.session_state ≡ down) ⊎ (c.bfd.session_state ≡ admin_down)
          → after ≡ set_bfd (record (c.bfd) { remote_discr = 0 }) c)
  unfolding detect_timeout
  detect_timeout_lem = (went_down, λ h. ground arith)
