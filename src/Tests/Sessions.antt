-- ===== src/Tests/Sessions.antt =====
-- The theorems on sessions at concrete ones.
use free_bfd.Base.{
  ◌≡◌, ◌≤◌, ◌<◌, ◌*◌, ◌+◌, ◌↔◌, ◌⊎◌, inl, refl, arith, none, false, not, [], ◌∷◌, ◌++◌, ◌^◌,
}
use free_bfd.TpTimers.{init_timers}
use free_bfd.Packet.{
  get_vers, get_len, get_multipoint, get_my_discr, get_auth, get_state, get_poll, get_word,
  get_detect_mult, get_min_tx_int, get_final, get_your_discr,
}
use free_bfd.Session.{SessionInt, admin_down, down, init, up, of_code, timer, detect, xmt, set_bfd}
use free_bfd.Session.Output.{control_pkt, jitter}
use free_bfd.Session.Output.Notices.{calls}
use free_bfd.Session.Output.Roundtrip.{FitsPacket, Carries, control_pkt-Carries}
use free_bfd.Session.Output.Jitter.{jitter_bounds, jitter_wraps}
use free_bfd.Session.Receive.{check_pkt, accept}
use free_bfd.Session.Receive.Outcome.{accept-rfc_next, accept_out, accept_detect_time}
use free_bfd.Session.Receive.Validity.{
  IsEarly, IsRfcValid, Passes, check_pkt_sound, zero_your_discr-rfc,
}
use free_bfd.Session.Receive.Rearm.{accept_detect_timer, accept_xmt_timer}
use free_bfd.Session.Timeout.{detect_timeout, toggle_session}
use free_bfd.Session.Timeout.Expiry.{WentDown, detect_timeout_lem}
use free_bfd.Session.Timeout.Admin.{Toggles, toggle_session-Toggles}
use free_bfd.Session.Invariant.{IsSession, receives, detect_expires, toggle_signal, handle_all}
use free_bfd.Session.Invariant.Kept.{handle_all-IsSession}
use free_bfd.Session.Handshake.{IsAudible, hear, b1, a1, handshake}
use free_bfd.Tests.{timers, random, session, at_work, hello}

fits : FitsPacket (session down)
fits = record {
  diag = omega arith;
  mult = omega arith;
  mine = omega arith;
  yours = omega arith;
  tx = omega arith;
  rx = omega arith;
}

valid : IsSession (session down)
valid = record {
  sound = record {
    fits = fits;
    desired = omega arith;
    active = omega arith;
    remote_rx = omega arith;
    xmt = omega arith;
    detect = omega arith;
    slow = λ e. (omega arith, omega arith);
    polls = λ e. cc;
  };
  demand = λ e. cc;
}

audible : IsAudible (session down)
audible = record { valid = valid; mult = ground arith; mine = ground arith }

control_pkt-Carries_example : Carries (session down) 1 (control_pkt (session down) 1)
control_pkt-Carries_example = control_pkt-Carries (session down) 1 fits

-- A session that announces a second.
jitter_bounds_example :
    (75 * 1_000_000 < 100 * jitter (session up) 4711 + 100)
    × (jitter (session up) 4711 ≤ 1_000_000)
    × ((session up).sn.detect_mult ≡ 1 → 100 * jitter (session up) 4711 ≤ 90 * 1_000_000)
jitter_bounds_example = jitter_bounds (session up) 4711 (omega arith)

-- A session that announces a minute.
abbrev slow_session : SessionInt
slow_session = record (session up) { xmt_time = 60_000_000 }

jitter_wraps_example : 100 * jitter slow_session 4711 + 100 ≤ 75 * 60_000_000
jitter_wraps_example = jitter_wraps slow_session 4711 (omega arith) (omega arith)

accept-rfc_next_example : (accept timers random hello (at_work down)).bfd.session_state ≡ init
unfolding get_state
accept-rfc_next_example = accept-rfc_next timers random hello (at_work down)

accept_out_example :
    (accept timers random hello (at_work down)).out ≡ [] ++ (calls (session down).notify init ++ [])
unfolding get_poll get_state
accept_out_example = accept_out timers random hello (at_work down) refl

accept_detect_time_example :
    ((accept timers random hello (at_work down)).bfd.detect_time ≤ 3_000_000)
    × (((accept timers random hello (at_work down)).bfd.detect_time ≡ 3_000_000)
        ↔ (3_000_000 < 2 ^ 32))
unfolding get_detect_mult get_min_tx_int get_word
accept_detect_time_example = accept_detect_time timers random hello (at_work down) refl

accept_detect_timer_example :
    timers.running (timer 1000 detect) (accept timers random hello (at_work down)).timers
    ≡ not (accept timers random hello (at_work down)).bfd.demand_mode_active
accept_detect_timer_example = accept_detect_timer timers random hello (at_work down) refl

accept_xmt_timer_example :
    timers.running (timer 1000 xmt) (accept timers random hello (at_work down)).timers ≡ false
unfolding get_poll get_state get_final init_timers
accept_xmt_timer_example = accept_xmt_timer timers random hello (at_work down) refl

hello_passes : check_pkt 24 hello ≡ none
unfolding check_pkt get_vers get_len get_auth get_detect_mult get_multipoint get_my_discr get_word
hello_passes = refl

no_auth : get_auth hello ≡ 0
unfolding get_auth get_word
no_auth = refl

names_none : get_your_discr hello ≡ 0
unfolding get_your_discr get_word
names_none = refl

-- The packet reports down: a session that is up drops it.
zero_your_discr-rfc_example :
    (Passes 24 hello (session up) ↔ IsEarly up)
    × (IsRfcValid 24 hello ↔ IsEarly (of_code (get_state hello)))
zero_your_discr-rfc_example =
    zero_your_discr-rfc 24 hello (session up) no_auth (check_pkt_sound 24 hello hello_passes)
      names_none

detect_timeout_lem_example :
    (((session up).session_state ≡ up) ⊎ ((session up).session_state ≡ init)
      → WentDown timers random (at_work up))
    × (((session up).session_state ≡ down) ⊎ ((session up).session_state ≡ admin_down)
        → detect_timeout timers random (at_work up)
          ≡ set_bfd (record (session up) { remote_discr = 0 }) (at_work up))
detect_timeout_lem_example = detect_timeout_lem timers random (at_work up)

toggle_session-Toggles_example :
    Toggles timers
      (at_work up)
      (toggle_session timers random (at_work up))
      (toggle_session timers random (toggle_session timers random (at_work up)))
toggle_session-Toggles_example = toggle_session-Toggles timers random (at_work up) refl

handle_all-IsSession_example :
    IsSession
      (handle_all timers random
        (receives hello ∷ detect_expires ∷ toggle_signal ∷ [])
        (at_work down)).bfd
handle_all-IsSession_example =
    handle_all-IsSession timers random (receives hello ∷ detect_expires ∷ toggle_signal ∷ [])
      (at_work down) valid

handshake_example :
    let a = at_work down in
    ((a1 timers random a a).bfd.session_state ≡ up)
    × ((hear timers random a a (a1 timers random a a) (b1 timers random a a)).bfd.session_state
        ≡ up)
    × ((a1 timers random a a).bfd.remote_discr ≡ 11)
    × ((hear timers random a a (a1 timers random a a) (b1 timers random a a)).bfd.remote_discr ≡ 11)
handshake_example =
    handshake timers random (at_work down) (at_work down) audible audible refl refl (inl refl)
