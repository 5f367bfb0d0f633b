-- ===== src/Session/Receive/Logic.antt =====
-- The state logic of `bfdRcvPkt` against the table of RFC 5880, section 6.8.6.
use free_bfd.Base.{◌≡◌, false, not, ◌&&◌, [], ◌++◌, arith, if◌then◌else◌}
use free_bfd.Session.{
  State, admin_down, down, init, up, is, diag_neighbor_said_down, SessionInt, Ctx, set_bfd,
}
use free_bfd.Session.Output.Notices.{calls, notify_state_lem}
use free_bfd.Session.Change.{session_down, session_up, down_fields, up_fields}
use free_bfd.Session.Receive.{state_logic}

-- The new state, from the session's own and the one that the packet reports.
abbrev pub rfc_next : State → State → State
rfc_next admin_down _ = admin_down
rfc_next down down = init
rfc_next down init = up
rfc_next down _ = down
rfc_next init admin_down = down
rfc_next init down = init
rfc_next init _ = up
rfc_next up admin_down = down
rfc_next up down = down
rfc_next up _ = up

-- The fields that the state logic gives the session.
abbrev pub logic_fields : SessionInt → State → SessionInt
logic_fields s down = if is s.session_state down then s else down_fields diag_neighbor_said_down s
logic_fields s init = record s { session_state = init }
logic_fields s up = if is s.session_state up then s else up_fields s
logic_fields s admin_down = s

module _ {T : Type 0} where
  pub state_logic_lem :
      (c : Ctx T)
      → is c.bfd.session_state admin_down ≡ false
      → let next = rfc_next c.bfd.session_state c.bfd.remote_session_state in
        let changed = not (is next c.bfd.session_state) in
        state_logic c ≡ (
          record c {
            bfd = logic_fields c.bfd next;
            out = (if changed then calls c.bfd.notify next else []) ++ c.out;
          },
          changed && not (is next init),
        )
  unfolding state_logic session_down session_up down_fields up_fields
  state_logic_lem c h = ground (
    arith,
    notify_state_lem (set_bfd (down_fields diag_neighbor_said_down c.bfd) c),
    notify_state_lem (set_bfd (up_fields c.bfd) c),
    notify_state_lem (set_bfd (record (c.bfd) { session_state = init }) c),
  )
