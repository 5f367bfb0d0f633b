-- ===== src/Monitor/Commands.antt =====
-- src/monitor/bfdmonServer.c: the requests that a connection brings.
use text.Mathlib.Text.{◌==◌ as str_eq}
use free_bfd.Base.{ℕ, false, Option, none, some, List, [], ◌∷◌, String, ◌==◌, if◌then◌else◌}
use free_bfd.Session.{BfdSession, Ptr, null}
use free_bfd.Sessions.{fault, ◌and_then◌}
use free_bfd.Trees.{Index}
use free_bfd.Json.{Json, Inet, read_session_id, read_session_opts}
use free_bfd.Monitor.{
  Monitor, Connection, ConnectionItem, connection_compare, monitor_compare, Core, Server, write,
  Alloc, Outcome, going, exited, monitor_create_copy, monitor_destroy, connection_close,
}

-- `Sn` of a request, all zero.
abbrev pub zero_session : BfdSession
zero_session = record {
  peer_addr = 0;
  local_addr = 0;
  peer_port = 0;
  local_port = 0;
  peer_addr_str = "";
  local_addr_str = "";
  sn_id_str = "";
  demand_mode = false;
  detect_mult = 0;
  auth_type = 0;
  desired_min_tx_interval = 0;
  required_min_rx_interval = 0;
}

-- `Sn` of a subscription, with `BFDDFLT_DEMANDMODE` and the other defaults.
abbrev pub default_session : BfdSession
default_session = record zero_session {
  demand_mode = false;
  detect_mult = 2;
  desired_min_tx_interval = 100_000;
  required_min_rx_interval = 50_000;
}

abbrev pub request : ℕ → BfdSession → Monitor
request sock sn = record { at = null; sock = sock; sn = sn; bfd_sub_handle = null }

-- What `read` gives to `bfdMonitorRecvPkt`: an interruption, another error, the end of the stream,
-- or bytes.
pub data Input : Type 0 where
  read_interrupted read_failed end_of_stream : Input
  bytes : List ℕ → Input

-- A C string ends before its first zero.
abbrev pub c_string : List ℕ → List ℕ
c_string [] = []
c_string (c ∷ s) = if c == 0 then [] else c ∷ c_string s

-- `CmdHandler_t`
abbrev pub CmdHandler : Type 0 → Type 0 → Type 0 → Type 0 → Type 0
CmdHandler W M C J = Ptr → Connection M → J → Server W M C → Outcome W M C

module _ {J : Type 0} (json : Json J) (inet : Inet) where
  -- What `handler_Subscribe` looks for: the identity and the options of the request, over the
  -- defaults.
  abbrev pub asked : ℕ → J → Option Monitor
  asked sock jso = elim (read_session_id json inet jso default_session) [
    | none ↦ none
    | some sn ↦ some (request sock (read_session_opts json jso sn))
  ]

module _ {W M C J : Type 0} (core : Core W) (alloc : Alloc)
    (monitors : Index Monitor monitor_compare M)
    (connections : Index ConnectionItem connection_compare C) (json : Json J) (inet : Inet) where
  abbrev put_tree : Ptr → Connection M → M → Server W M C → Server W M C
  put_tree q conn tree s = record s {
    connections = write q (some (record conn { monitor_tree = tree })) s.connections;
  }

  -- `handler_Subscribe` for a new subscription, with a copy of what was asked for.
  unfoldable pub subscribe_copy : Ptr → Connection M → Monitor → Server W M C → Outcome W M C
  subscribe_copy q conn mon s = core.subscribe mon.sn mon.at s.core and_then λ (sub, w).
      let s1 : Server W M C = record s { core = w } in
      let mon1 : Monitor = record mon { bfd_sub_handle = sub } in
      if sub == null
      then going (monitor_destroy mon.at s1)
      else going (
          put_tree q conn (monitors.insert mon1 conn.monitor_tree)
            (record s1 { monitors = write mon.at (some mon1) s1.monitors }))

  unfoldable pub subscribe_new : Ptr → Connection M → Monitor → Server W M C → Outcome W M C
  subscribe_new q conn find s = elim (monitor_create_copy alloc find s) [
    | none ↦ exited
    | some (mon, s1) ↦ subscribe_copy q conn mon s1
  ]

  unfoldable pub subscribe_found : Ptr → Connection M → Monitor → Server W M C → Outcome W M C
  subscribe_found q conn find s = elim (monitors.find find conn.monitor_tree) [
    | none ↦ subscribe_new q conn find s
    | some mon ↦ going s
  ]

  -- `handler_Subscribe`
  unfoldable pub handler_subscribe : Ptr → Connection M → J → Server W M C → Outcome W M C
  handler_subscribe q conn jso s = elim (asked json inet conn.sock jso) [
    | none ↦ going s
    | some find ↦ subscribe_found q conn find s
  ]

  -- `handler_Unsubscribe` for the monitor that it took out of the tree.
  unfoldable pub unsubscribe_found : Ptr → Connection M → Monitor → M → Server W M C → Outcome W M C
  unsubscribe_found q conn mon tree s = core.unsubscribe mon.bfd_sub_handle s.core and_then λ w.
      going (put_tree q conn tree (monitor_destroy mon.at (record s { core = w })))

  -- `handler_Unsubscribe`
  unfoldable pub handler_unsubscribe : Ptr → Connection M → J → Server W M C → Outcome W M C
  handler_unsubscribe q conn jso s = elim (read_session_id json inet jso zero_session) [
    | none ↦ going s
    | some sn ↦
        let (found, tree) = monitors.delete (request conn.sock sn) conn.monitor_tree in
        elim found [
          | none ↦ going (put_tree q conn tree s)
          | some mon ↦ unsubscribe_found q conn mon tree s
        ]
  ]

  -- `cmdTable` without its terminator.
  abbrev pub cmd_table : List (String × CmdHandler W M C J)
  cmd_table = ("Subscribe", handler_subscribe) ∷ ("Unsubscribe", handler_unsubscribe) ∷ []

  -- `bfdMonitorProcessCmd`, from an entry of the table on.
  unfoldable pub process_cmd :
      List (String × CmdHandler W M C J)
      → Ptr
      → Connection M
      → String
      → J
      → Server W M C
      → Outcome W M C
  process_cmd [] q conn cmd jso s = going s
  process_cmd ((name, handler) ∷ rest) q conn cmd jso s =
      if str_eq name cmd then handler q conn jso s else process_cmd rest q conn cmd jso s

  -- `bfdMonitorProcessPkt`
  unfoldable pub process_pkt : Ptr → Connection M → List ℕ → Server W M C → Outcome W M C
  process_pkt q conn buf s = elim (json.parse buf) [
    | none ↦ going s
    | some obj ↦ elim (json.member "MsgType" obj) [
      | none ↦ going s
      | some cmd ↦ process_cmd cmd_table q conn (json.get_string cmd) obj s
    ]
  ]

  unfoldable pub receive_pkt : Ptr → Connection M → Input → Server W M C → Outcome W M C
  receive_pkt q conn read_interrupted s = going s
  receive_pkt q conn read_failed s = going s
  receive_pkt q conn end_of_stream s =
      connection_close core alloc monitors connections q s and_then λ s1. going s1
  receive_pkt q conn (bytes buf) s = process_pkt q conn (c_string buf) s

  -- `bfdMonitorRecvPkt`, for what `read` gives, of at most 1024 bytes.
  unfoldable pub recv_pkt : Ptr → Input → Server W M C → Outcome W M C
  recv_pkt q input s = elim (s.connections q) [
    | none ↦ fault
    | some conn ↦ receive_pkt q conn input s
  ]
