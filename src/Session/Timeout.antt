-- ===== src/Session/Timeout.antt =====
-- src/core/bfd.c: the actions of the two timers, `bfdXmtTimeout` and `bfdDetectTimeout`, and what
-- the two signals do to one session (`bfdStartPollSequence`, `bfdToggleAdminDown`).
pub mod Expiry
pub mod Admin
use free_bfd.Base.{ℕ, true, false, not, ◌&&◌, if◌then◌else◌}
use free_bfd.Session.{
  admin_down, down, init, up, is, diag_detect_time_expired, diag_admin_down, SessionInt, detect,
  xmt, timer, Timers, Ctx, set_bfd,
}
use free_bfd.Session.Output.{notify_state, send_cpkt}
use free_bfd.Session.Change.{selected_min, session_down}

-- The fields of a session that `bfdToggleAdminDown` disables.
unfoldable pub admin_down_fields : SessionInt → SessionInt
admin_down_fields s = record s {
  session_state = admin_down;
  polling = false;
  local_diag = diag_admin_down;
  demand_mode_active = false;
  poll_seq_in_progress = false;
  remote_discr = 0;
  send_desired_min_tx = selected_min s;
  active_desired_min_tx = selected_min s;
}

module _ {T : Type 0} (timers : Timers T) (random : ℕ → ℕ) where
  unfoldable pub xmt_timeout : Ctx T → Ctx T
  xmt_timeout c = send_cpkt timers random 0 c

  start_detect : Ctx T → Ctx T
  start_detect c = record c {
    timers = timers.start_us (timer c.self detect) c.bfd.detect_time c.timers;
  }

  -- The `case` of a session that is up or in `init`.
  expire : Ctx T → Ctx T
  unfolding start_detect
  expire c = start_detect (send_cpkt timers random 0 (session_down diag_detect_time_expired c))

  unfoldable pub detect_timeout : Ctx T → Ctx T
  unfolding expire
  detect_timeout c = elim c.bfd.session_state [
    | up ↦ expire c
    | init ↦ expire c
    | _ ↦ set_bfd (record (c.bfd) { remote_discr = 0 }) c
  ]

  -- The body of the loop of `bfdStartPollSequence`.
  unfoldable pub poll_session : Ctx T → Ctx T
  unfolding start_detect
  poll_session c =
      if c.bfd.sn.demand_mode && not c.bfd.poll_seq_in_progress
      then start_detect
          (xmt_timeout (set_bfd (record (c.bfd) { poll_seq_in_progress = true; polling = true }) c))
      else c

  -- The body of the loop of `bfdToggleAdminDown`.
  unfoldable pub toggle_session : Ctx T → Ctx T
  toggle_session c =
      if is c.bfd.session_state admin_down
      then notify_state (xmt_timeout (set_bfd (record (c.bfd) { session_state = down }) c))
      else notify_state (record c {
        bfd = admin_down_fields c.bfd;
        timers = timers.stop (timer c.self detect) (timers.stop (timer c.self xmt) c.timers);
      })
