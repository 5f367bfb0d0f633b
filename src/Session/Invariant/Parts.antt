-- ===== src/Session/Invariant/Parts.antt =====
-- The parts of the handlers and the invariant of a session.
use free_bfd.Base.{ℕ, ◌<◌, ◌^◌, ◌≡◌, false, arith, ◌&&◌, to_bool}
use free_bfd.Packet.{Bytes, get_final, get_my_discr, get_min_rx_int, get_word}
use free_bfd.Session.{State, admin_down, init, up, is, SessionInt, diag_neighbor_said_down}
use free_bfd.Session.Change.{down_fields, up_fields, selected_min}
use free_bfd.Session.Receive.{note_remote, apply_final, new_xmt_time, new_detect_time, new_demand}
use free_bfd.Session.Receive.Logic.{rfc_next, logic_fields}
use free_bfd.Session.Invariant.{IsSound, IsSession}

get_word-lt : (cp : Bytes) (i : ℕ) → get_word cp i < 2 ^ 32
unfolding get_word
get_word-lt cp i = omega arith

pub down_fields-IsSound : (diag : ℕ) (s : SessionInt) → IsSound s → IsSound (down_fields diag s)
unfolding down_fields selected_min
down_fields-IsSound diag s v = ground arith

up_fields-IsSound : (s : SessionInt) → IsSound s → IsSound (up_fields s)
unfolding up_fields
up_fields-IsSound s v = ground arith

init-IsSound :
    (s : SessionInt)
    → is s.session_state up ≡ false
    → IsSound s
    → IsSound (record s { session_state = init })
init-IsSound s h v = ground arith

pub logic_fields-IsSound :
    (s : SessionInt) (r : State)
    → is s.session_state admin_down ≡ false
    → IsSound s
    → IsSound (logic_fields s (rfc_next s.session_state r))
logic_fields-IsSound s r h v =
    ground
      (arith, down_fields-IsSound diag_neighbor_said_down s, up_fields-IsSound s, init-IsSound s)

pub new_demand-IsSession : (s : SessionInt) → IsSound s → IsSession (new_demand s)
unfolding new_demand
new_demand-IsSession s v = ground arith

pub note_remote-IsSound : (cp : Bytes) (s : SessionInt) → IsSound s → IsSound (note_remote cp s)
unfolding note_remote get_my_discr get_min_rx_int
note_remote-IsSound cp s v = ground (arith, get_word-lt cp 4, get_word-lt cp 16)

pub apply_final-IsSound :
    (cp : Bytes) (s : SessionInt)
    → s.poll_seq_in_progress && to_bool (get_final cp) ≡ false
    → IsSound s
    → IsSound (apply_final cp s)
unfolding apply_final
apply_final-IsSound cp s h v = ground arith

pub new_xmt_time-IsSound : (s : SessionInt) → IsSound s → IsSound (new_xmt_time s)
unfolding new_xmt_time
new_xmt_time-IsSound s v = ground arith

pub new_detect_time-IsSound :
    (cp : Bytes) (s : SessionInt) → IsSound s → IsSound (new_detect_time cp s)
unfolding new_detect_time
new_detect_time-IsSound cp s v = ground arith
