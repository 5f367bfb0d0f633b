-- ===== src/Session/Output.antt =====
-- src/core/bfd.c: `bfdNotify`, `bfdSendCPkt` and `bfdStartXmtTimer`.
pub mod Notices
pub mod Roundtrip
pub mod Jitter
use free_bfd.Base.{
  ℕ, suc, ◌+◌, ◌*◌, ◌/◌, ◌%◌, List, [], ◌∷◌, false, u32, to_bool, ◌==◌, if◌then◌else◌, replicate,
}
use free_bfd.Packet.{
  Bytes, min_pkt_len, version, set_vers, set_diag, set_state, set_poll, set_final, set_cpi,
  set_auth, set_demand, set_multipoint, set_detect_mult, set_len, set_my_discr, set_your_discr,
  set_min_tx_int, set_min_rx_int, set_min_echo_rx_int,
}
use free_bfd.Session.{
  State, code, Notifier, SessionInt, xmt, timer, Timers, sent, notified, Ctx, emit,
}

-- The `while` loop of `bfdNotify`.
pub notify_all : {T : Type 0} → List Notifier → State → Ctx T → Ctx T
notify_all [] state c = c
notify_all (n ∷ ns) state c = notify_all ns state (emit (notified n.cb n.cb_arg state) c)

-- `bfdNotify`
unfoldable pub notify_state : {T : Type 0} → Ctx T → Ctx T
notify_state c = notify_all c.bfd.notify c.bfd.session_state c

-- The packet that `bfdSendCPkt` fills in.
unfoldable pub control_pkt : SessionInt → ℕ → Bytes
control_pkt s fbit =
    let cp = replicate min_pkt_len 0 in
    let cp = set_vers cp version in
    let cp = set_state cp (code s.session_state) in
    let cp = set_diag cp s.local_diag in
    let cp = set_demand cp s.sn.demand_mode in
    let cp = set_poll cp s.polling in
    let cp = set_final cp (to_bool fbit) in
    let cp = set_cpi cp false in
    let cp = set_auth cp false in
    let cp = set_multipoint cp false in
    let cp = set_detect_mult cp s.sn.detect_mult in
    let cp = set_len cp min_pkt_len in
    let cp = set_my_discr cp s.local_discr in
    let cp = set_your_discr cp s.remote_discr in
    let cp = set_min_tx_int cp s.send_desired_min_tx in
    let cp = set_min_rx_int cp s.sn.required_min_rx_interval in set_min_echo_rx_int cp 0

-- The time that `bfdStartXmtTimer` sets, in `uint32_t` arithmetic, from a number that `random()`
-- gave.
unfoldable pub jitter : SessionInt → ℕ → ℕ
jitter s r =
    let maxpercent = if s.sn.detect_mult == 1 then 16 else 26 in
    u32 (s.xmt_time * (75 + u32 r % maxpercent)) / 100

module _ {T : Type 0} (timers : Timers T) (random : ℕ → ℕ) where
  -- `bfdStartXmtTimer`
  unfoldable pub start_xmt_timer : Ctx T → Ctx T
  start_xmt_timer c = record c {
    timers = timers.start_us (timer c.self xmt) (jitter c.bfd (random c.draws)) c.timers;
    draws = suc c.draws;
  }

  -- `bfdSendCPkt`. A failure of `sendto` is only logged.
  unfoldable pub send_cpkt : ℕ → Ctx T → Ctx T
  send_cpkt fbit c =
      start_xmt_timer
        (emit (sent c.bfd.tx_sock c.bfd.sn.peer_addr c.bfd.sn.peer_port (control_pkt c.bfd fbit)) c)
