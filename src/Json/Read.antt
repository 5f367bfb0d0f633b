-- ===== src/Json/Read.antt =====
-- A session that one side prints is the session that the other side reads.
use Prim.Native.String.{count}
use free_bfd.Base.{
  ℕ, ◌^◌, ◌<◌, ◌≤◌, ◌≡◌, refl, sym, ◌∙◌, ap, arith, some, String, pos, if◌then◌else◌,
}
use free_bfd.Session.{BfdSession}
use free_bfd.Texts.Decimal.{cut_all}
use free_bfd.Utils.Strings.{session_set_strings}
use free_bfd.Json.{Json, Inet, read_identity, read_session_id, addr_or_any, port_or_zero}

-- The ranges of the fields of a session (the intervals fit an `int`, as json-c gives it), which
-- has its names from `bfdSessionSetStrings` and does not use authentication.
pub record IsNamed (inet : Inet) (sn : BfdSession) : Type 0 where
  pub peer : sn.peer_addr < 2 ^ 32
  pub local : sn.local_addr < 2 ^ 32
  pub peer_port : sn.peer_port < 2 ^ 16
  pub local_port : sn.local_port < 2 ^ 16
  pub mult : sn.detect_mult < 2 ^ 8
  pub tx : sn.desired_min_tx_interval < 2 ^ 31
  pub rx : sn.required_min_rx_interval < 2 ^ 31
  pub no_auth : sn.auth_type ≡ 0
  pub named : session_set_strings inet.ntoa sn ≡ sn

-- A session with the identity of another.
abbrev pub identified : BfdSession → BfdSession → BfdSession
identified sn other = record other {
  peer_addr = sn.peer_addr;
  local_addr = sn.local_addr;
  peer_port = sn.peer_port;
  local_port = sn.local_port;
}

module _ {J : Type 0} (json : Json J) where
  -- A member that is a text, or a number.
  abbrev pub HasText : String → J → String → Type 0
  HasText key j s = (v : J) × (json.member key j ≡ some v) × (json.get_string v ≡ s)

  abbrev pub HasNumber : String → J → ℕ → Type 0
  HasNumber key j n = (v : J) × (json.member key j ≡ some v) × (json.get_int v ≡ pos n)

  -- What json-c finds in a message about the session `sn`.
  pub record HasSession (j : J) (sn : BfdSession) : Type 0 where
    pub sid : J
    pub there : json.member "SessionID" j ≡ some sid
    pub peer : HasText "PeerAddr" sid sn.peer_addr_str
    pub local : HasText "LocalAddr" sid sn.local_addr_str
    pub peer_port : HasNumber "PeerPort" sid sn.peer_port
    pub local_port : HasNumber "LocalPort" sid sn.local_port

  -- And about its options.
  pub record HasOptions (j : J) (sn : BfdSession) : Type 0 where
    pub opts : J
    pub there : json.member "SessionOpts" j ≡ some opts
    pub mode : HasText "DemandMode" opts (if sn.demand_mode then "on" else "off")
    pub mult : HasNumber "DetectMult" opts sn.detect_mult
    pub tx : HasNumber "DesiredMinTxInterval" opts sn.desired_min_tx_interval
    pub rx : HasNumber "RequiredMinRxInterval" opts sn.required_min_rx_interval

  module _ (inet : Inet) (sn other : BfdSession) (good : IsNamed inet sn) where
    peer_str : sn.peer_addr_str ≡ inet.ntoa sn.peer_addr
    unfolding session_set_strings
    peer_str =
        let short : count (inet.ntoa sn.peer_addr) ≤ 19 =
          omega (arith, inet.count-ntoa sn.peer_addr) in
        sym (ap (λ s. s.peer_addr_str) good.named) ∙ cut_all 19 (inet.ntoa sn.peer_addr) short

    local_str : sn.local_addr_str ≡ inet.ntoa sn.local_addr
    unfolding session_set_strings
    local_str =
        let short : count (inet.ntoa sn.local_addr) ≤ 19 =
          omega (arith, inet.count-ntoa sn.local_addr) in
        sym (ap (λ s. s.local_addr_str) good.named) ∙ cut_all 19 (inet.ntoa sn.local_addr) short

    addr_lem :
        (key : String) (sid : J) (text : String) (a : ℕ)
        → HasText key sid text
        → inet.aton text ≡ some a
        → addr_or_any json inet (json.member key sid) ≡ a
    addr_lem key sid text a (v, there, is_text) reads = rw (there, addr_or_any, is_text, reads) refl

    port_lem :
        (key : String) (sid : J) (n : ℕ)
        → HasNumber key sid n
        → n < 2 ^ 16
        → port_or_zero json inet (json.member key sid) ≡ n
    port_lem key sid n (v, there, number) small =
        rw (there, port_or_zero, number) (omega (arith, small))

    pub read_session_id_lem :
        (j : J)
        → HasSession j sn
        → read_session_id json inet j other
          ≡ some (session_set_strings inet.ntoa (identified sn other))
    unfolding read_session_id read_identity
    read_session_id_lem j has =
        let (v, there, text) = has.peer in
        let a : inet.aton sn.peer_addr_str ≡ some sn.peer_addr =
          rw peer_str (inet.aton-ntoa sn.peer_addr good.peer) in
        let l : inet.aton sn.local_addr_str ≡ some sn.local_addr =
          rw local_str (inet.aton-ntoa sn.local_addr good.local) in
        let l1 = addr_lem "LocalAddr" has.sid sn.local_addr_str sn.local_addr has.local l in
        let p1 = port_lem "PeerPort" has.sid sn.peer_port has.peer_port good.peer_port in
        let p2 = port_lem "LocalPort" has.sid sn.local_port has.local_port good.local_port in
        rw (has.there, read_session_id, there, read_identity, text, a, l1, p1, p2) refl
