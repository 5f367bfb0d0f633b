-- ===== src/MonTest.antt =====
-- src/bfdmontest/bfdmontest.c: a program that asks the monitor server for the sessions of a file.
-- What `sscanf` finds in a line is given.
pub mod Options
pub mod Asked
pub mod Fitting
pub mod Loaded
use text.Mathlib.Text.{◌==◌ as str_eq}
use free_bfd.Base.{
  ℕ, suc, Bool, true, false, ◌||◌, Option, none, some, List, [], ◌∷◌, String, ℤ, pos, negsuc, u8,
  u16, u32, ◌==◌, if◌then◌else◌,
}
use free_bfd.Session.{BfdSession}
use free_bfd.Utils.Strings.{session_set_strings}
use free_bfd.Json.{Inet}
use free_bfd.Monitor.Commands.{default_session}
use free_bfd.Programs.{Exit, exits, goes}

-- A line: its bytes, the two addresses and ports at its start if they are all there, and the
-- pairs of an option and its value behind them, up to the first that is not one.
pub record Line : Type 0 where
  pub codes : List ℕ
  pub fields : Option (String × ℕ × String × ℕ)
  pub options : List (String × String)

-- Behind spaces and tabs, the line begins with '#'.
abbrev pub is_comment : List ℕ → Bool
is_comment [] = false
is_comment (c ∷ rest) = let more = is_comment rest in if c == 32 || c == 9 then more else c == b'#'

-- `sscanf` of a value as a number, which leaves the field as it is if there is none.
module _ (sscanf : String → Option ℕ) where
  abbrev pub scanned : (ℕ → ℕ) → ℕ → String → ℕ
  scanned cast old value = elim (sscanf value) [ none ↦ old | some n ↦ cast n ]

  -- One option of a session.
  unfoldable pub apply_option : String → String → BfdSession → BfdSession
  apply_option opt value sn =
      let sn1 : BfdSession =
        if str_eq "DemandMode" opt then record sn { demand_mode = str_eq "on" value } else sn in
      let sn2 : BfdSession =
        if str_eq "DetectMult" opt
        then record sn1 { detect_mult = scanned u8 sn1.detect_mult value }
        else sn1 in
      let sn3 : BfdSession =
        if str_eq "DesiredMinTx" opt
        then record sn2 { desired_min_tx_interval = scanned u32 sn2.desired_min_tx_interval value }
        else sn2 in
      if str_eq "RequiredMinRx" opt
      then record sn3 { required_min_rx_interval = scanned u32 sn3.required_min_rx_interval value }
      else sn3

  unfoldable pub apply_options : List (String × String) → BfdSession → BfdSession
  apply_options [] sn = sn
  apply_options ((opt, value) ∷ rest) sn = apply_options rest (apply_option opt value sn)

module _ (inet : Inet) where
  abbrev pub located : ℕ → ℕ → ℕ → ℕ → BfdSession
  located peer peer_port local local_port = session_set_strings inet.ntoa (record default_session {
    peer_addr = peer;
    local_addr = local;
    peer_port = u16 peer_port;
    local_port = u16 local_port;
  })

  -- What a line asks for, before its options; `none` if the line is skipped.
  unfoldable pub parse_fields : Option (String × ℕ × String × ℕ) → Option BfdSession
  parse_fields none = none
  parse_fields (some (peer, peer_port, local, local_port)) = elim (inet.aton peer) [
    | none ↦ none
    | some p ↦ elim (inet.aton local) [
      | none ↦ none
      | some l ↦ some (located p peer_port l local_port)
    ]
  ]

  unfoldable pub parse_line : Line → Option BfdSession
  parse_line line = if is_comment line.codes then none else parse_fields line.fields

module _ (sscanf : String → Option ℕ) (inet : Inet) where
  -- `load_session_file`, from a line on, with the sessions so far; `room` tells whether `malloc`
  -- gives an object. The file is there.
  unfoldable pub load_lines : Bool → List Line → List BfdSession → Exit (List BfdSession)
  load_lines room [] sns = goes sns
  load_lines room (line ∷ rest) sns = elim (parse_line inet line) [
    | none ↦ load_lines room rest sns
    | some sn ↦
        let more = load_lines room rest (apply_options sscanf line.options sn ∷ sns) in
        if room then more else exits 1
  ]

  unfoldable pub load_session_file : Bool → Option (List Line) → Exit (List BfdSession)
  load_session_file room none = exits 1
  load_session_file room (some lines) = load_lines room lines []

-- `monitorSktActor`, for the result of `bfdmonClient_NotifyReadAndDispatch`; `hang_up` closes the
-- socket, takes its actor away and stops the event loop.
unfoldable pub monitor_skt_actor : {W : Type 0} → (W → W) → ℤ → W → Exit W
monitor_skt_actor hang_up (negsuc n) w = exits 1
monitor_skt_actor hang_up (pos n) w = if n == 0 then goes (hang_up w) else goes w

-- `monitorStartupTimerActor`, where `subscribe` is `bfdmonClient_SubscribeSession`.
unfoldable pub startup_timer_actor : {W : Type 0} → (BfdSession → W → W) → List BfdSession → W → W
startup_timer_actor subscribe [] w = w
startup_timer_actor subscribe (sn ∷ rest) w = startup_timer_actor subscribe rest (subscribe sn w)

-- What `main` calls, on a state `W`: `fopen` with the lines of the file, `bfdmonClient_init`,
-- `tpInitTimers`, `tpStartSecTimer` for `startup_timer_actor`, `tpSetSktActor` for
-- `monitor_skt_actor`, and `tpDoEventLoop`.
pub record Calls (W : Type 0) : Type 0 where
  pub fopen : String → Option (List Line)
  pub client_init : String → W → ℤ × W
  pub init_timers : W → W
  pub start_sec_timer : ℕ → ℕ → List BfdSession → W → W
  pub set_skt_actor : ℕ → W → W
  pub do_event_loop : W → W

module _ {W : Type 0} (sscanf : String → Option ℕ) (inet : Inet) (room : Bool)
    (calls : Calls W) where
  -- `main` with its arguments, up to the end of the event loop.
  unfoldable pub main : List String → W → Exit W
  main (name ∷ monitor_server ∷ fname ∷ []) w =
      elim (load_session_file sscanf inet room (calls.fopen fname)) [
        | exits n ↦ exits n
        | goes sns ↦
            let (sock, w1) = calls.client_init monitor_server w in
            elim sock [
              | negsuc n ↦ exits 3
              | pos s ↦
                  let w2 = calls.start_sec_timer 0 s sns (calls.init_timers w1) in
                  goes (calls.do_event_loop (calls.set_skt_actor s w2))
            ]
      ]
  main args w = exits 2
