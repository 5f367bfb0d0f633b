-- ===== src/Json.antt =====
-- What the monitor's two sides use of json-c and of the address conversions of the C library, and
-- what both do alike with a message: src/monitor/bfdmonServer.c reads the session of a request
-- (`bfdMonitorProcessJsonSessionId`, `bfdMonitorProcessJsonSessionOpts`), and
-- src/libbfdmon/bfdmonClient.c reads that of a notification in the same way.
pub mod Read
pub mod Docs
use free_bfd.Base.{
  ℕ, ◌+◌, ◌%◌, ◌^◌, ◌≡◌, ◌≤◌, ◌<◌, Bool, true, false, ◌&&◌, Option, none, some, List, [], ◌∷◌, map,
  String, ℤ, pattern, leb, ◌==◌, if◌then◌else◌,
}
use Prim.Native.String.{count}
use free_bfd.Session.{BfdSession}
use free_bfd.Texts.{codes}
use free_bfd.Utils.Strings.{session_set_strings}

-- json-c: `json_tokener_parse`, `json_object_object_get_ex` (nothing if there is no such member, or
-- it is null), `json_object_get_string` and `json_object_get_int`.
pub record Json (J : Type 0) : Type 0 where
  pub parse : List ℕ → Option J
  pub member : String → J → Option J
  pub get_string : J → String
  pub get_int : J → ℤ

-- `inet_aton` and `inet_ntoa`, on the 32 bits of `s_addr`.
pub record Inet : Type 0 where
  pub aton : String → Option ℕ
  pub ntoa : ℕ → String
  pub aton-ntoa : (a : ℕ) → a < 2 ^ 32 → aton (ntoa a) ≡ some a
  pub count-ntoa : (a : ℕ) → count (ntoa a) ≤ 15

abbrev pub lower : ℕ → ℕ
lower c = if leb 65 c && leb c 90 then c + 32 else c

abbrev pub same_codes : List ℕ → List ℕ → Bool
same_codes [] [] = true
same_codes [] (d ∷ t) = false
same_codes (c ∷ s) [] = false
same_codes (c ∷ s) (d ∷ t) = (c == d) && same_codes s t

-- `strcasecmp(s, t) == 0`
abbrev pub same_caseless : String → String → Bool
same_caseless s t = same_codes (map lower (codes s)) (map lower (codes t))

module _ {J : Type 0} (json : Json J) (inet : Inet) where
  -- An address that may be missing or wrong: `INADDR_ANY` then.
  abbrev pub addr_or_any : Option J → ℕ
  addr_or_any none = 0
  addr_or_any (some item) = elim (inet.aton (json.get_string item)) [ none ↦ 0 | some a ↦ a ]

  -- `(uint16_t)(json_object_get_int(item) & 0xffff)`, or zero if it is missing.
  abbrev pub port_or_zero : Option J → ℕ
  port_or_zero none = 0
  port_or_zero (some item) = pattern (json.get_int item) % 2 ^ 16

  -- The identity out of the member "SessionID"; `none` is the failure.
  unfoldable pub read_identity : J → BfdSession → Option BfdSession
  read_identity sid sn = elim (json.member "PeerAddr" sid) [
    | none ↦ none
    | some item ↦ elim (inet.aton (json.get_string item)) [
      | none ↦ none
      | some a ↦ some (
          session_set_strings inet.ntoa (record sn {
            peer_addr = a;
            local_addr = addr_or_any (json.member "LocalAddr" sid);
            peer_port = port_or_zero (json.member "PeerPort" sid);
            local_port = port_or_zero (json.member "LocalPort" sid);
          }))
    ]
  ]

  -- `bfdMonitorProcessJsonSessionId`
  unfoldable pub read_session_id : J → BfdSession → Option BfdSession
  read_session_id jso sn = elim (json.member "SessionID" jso) [
    | none ↦ none
    | some sid ↦ read_identity sid sn
  ]

module _ {J : Type 0} (json : Json J) where
  -- A number that may be missing: the default then.
  abbrev pub int_or : ℕ → Option J → ℕ
  int_or default none = default
  int_or default (some item) = pattern (json.get_int item)

  abbrev pub on_or : Bool → Option J → Bool
  on_or default none = default
  on_or default (some item) = same_caseless "on" (json.get_string item)

  abbrev pub byte_or : ℕ → Option J → ℕ
  byte_or default none = default
  byte_or default (some item) = pattern (json.get_int item) % 2 ^ 8

  -- `bfdMonitorProcessJsonSessionOpts`
  unfoldable pub read_session_opts : J → BfdSession → BfdSession
  read_session_opts jso sn = elim (json.member "SessionOpts" jso) [
    | none ↦ sn
    | some opts ↦ record sn {
      demand_mode = on_or sn.demand_mode (json.member "DemandMode" opts);
      detect_mult = byte_or sn.detect_mult (json.member "DetectMult" opts);
      desired_min_tx_interval =
          int_or sn.desired_min_tx_interval (json.member "DesiredMinTxInterval" opts);
      required_min_rx_interval =
          int_or sn.required_min_rx_interval (json.member "RequiredMinRxInterval" opts);
    }
  ]
