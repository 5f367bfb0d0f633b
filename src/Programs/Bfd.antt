-- ===== src/Programs/Bfd.antt =====
-- src/bfd/bfd-main.c: the options of bfd, and its one session.
use Prim.Native.String.{len, slice}
use text.Mathlib.Text.{starts_with}
use free_bfd.Base.{
  ℕ, Bool, false, not, ◌&&◌, Option, none, some, List, String, ℤ, pos, negsuc, u8, u32, leb, ltb,
  ◌==◌, if◌then◌else◌,
}
use free_bfd.Session.{BfdSession}
use free_bfd.Utils.Strings.{session_set_strings}
use free_bfd.Monitor.Commands.{zero_session}
use free_bfd.Config.{Host, address, default_port, default_mult, default_tx, default_rx}
use free_bfd.Programs.{log_notice, log_more, Opt, Exit, exits, goes, all_options}

-- The variables that the options set.
pub record Options : Type 0 where
  pub demand_mode : Bool
  pub detect_mult : ℕ
  pub desired_min_tx : ℕ
  pub required_min_rx : ℕ
  pub connectaddr : Option String
  pub peer_port : ℕ
  pub local_port : ℕ
  pub max_level : ℕ

abbrev pub defaults : Options
defaults = record {
  demand_mode = false;
  detect_mult = default_mult;
  desired_min_tx = default_tx;
  required_min_rx = default_rx;
  connectaddr = none;
  peer_port = default_port;
  local_port = default_port;
  max_level = log_notice;
}

-- `val <= 0 || val > 0xffff` is refused.
abbrev pub port_of : ℤ → Option ℕ
port_of (negsuc n) = none
port_of (pos n) = if leb 1 n && leb n 0xffff then some n else none

-- `sscanf` with `%u` of a size gives the number, if there is one; `strtol` always gives one.
module _ (sscanf : String → Option ℕ) (strtol : String → ℤ) where
  -- The option `-x`.
  unfoldable pub extension : String → Options → Exit Options
  extension optarg o =
      let l = len optarg in
      if ltb 9 l && starts_with optarg "PeerPort="
      then elim (port_of (strtol (slice optarg 9 l))) [
        | none ↦ exits 1
        | some val ↦ goes (record o { peer_port = val })
      ]
      else if ltb 10 l && starts_with optarg "LocalPort="
      then elim (port_of (strtol (slice optarg 10 l))) [
        | none ↦ exits 1
        | some val ↦ goes (record o { local_port = val })
      ]
      else exits 1

  unfoldable pub number : (ℕ → Options) → String → Exit Options
  number put optarg = elim (sscanf optarg) [ none ↦ exits 1 | some n ↦ goes (put n) ]

  -- One round of the loop over the options.
  unfoldable pub option : Opt → Options → Exit Options
  option x o =
      if x.letter == b'd'
      then goes (record o { demand_mode = not o.demand_mode })
      else if x.letter == b'h'
      then exits 0
      else if x.letter == b'm'
      then number (λ n. record o { detect_mult = u8 n }) x.optarg
      else if x.letter == b'p'
      then goes (record o { connectaddr = some x.optarg })
      else if x.letter == b'r'
      then number (λ n. record o { required_min_rx = u32 n }) x.optarg
      else if x.letter == b't'
      then number (λ n. record o { desired_min_tx = u32 n }) x.optarg
      else if x.letter == b'v'
      then goes (record o { max_level = log_more o.max_level })
      else if x.letter == b'x'
      then extension x.optarg o
      else exits 1

  module _ (inet_ntoa : ℕ → String) (gethostbyname : String → Option Host) where
    abbrev pub initial : Options → ℕ → BfdSession
    initial o addr = session_set_strings inet_ntoa (record zero_session {
      demand_mode = o.demand_mode;
      detect_mult = o.detect_mult;
      desired_min_tx_interval = o.desired_min_tx;
      required_min_rx_interval = o.required_min_rx;
      peer_addr = addr;
      local_addr = 0;
      peer_port = o.peer_port;
      local_port = o.local_port;
    })

    -- `main` with these options, up to the call of `bfdCreateSession`.
    unfoldable pub session_for : Options → Exit BfdSession
    session_for o = elim o.connectaddr [
      | none ↦ exits 1
      | some name ↦ elim (address inet_ntoa gethostbyname name) [
        | none ↦ exits 1
        | some addr ↦ goes (initial o addr)
      ]
    ]

    unfoldable pub main_session : List Opt → Exit BfdSession
    main_session args = elim (all_options option args defaults) [
      | exits n ↦ exits n
      | goes o ↦ session_for o
    ]

    -- `main`, where `init` is `tpInitTimers` with the signal handlers, and `loop` the event loop,
    -- if it comes back at all: then the program exits with 1.
    unfoldable pub main :
        {W : Type 0} → (W → W) → (BfdSession → W → Bool × W) → List Opt → W → Exit W
    main init create args w = elim (main_session args) [
      | exits n ↦ exits n
      | goes sn ↦ let (ok, w1) = create sn (init w) in if ok then goes w1 else exits 1
    ]
