-- ===== src/Config.antt =====
-- src/bfdd/bfdd-config.c: the sessions of a configuration file. What libconfig finds in the file,
-- and `gethostbyname`, are given.
pub mod Masks
pub mod Ranges
pub mod Made
use free_bfd.Base.{
  ℕ, ◌%◌, ◌^◌, ◌-◌, bit_and, Bool, true, false, Option, none, some, List, [], ◌∷◌, String, ℤ,
  pattern, to_bool, ◌==◌, if◌then◌else◌,
}
use free_bfd.Session.{BfdSession}
use free_bfd.Utils.Strings.{session_set_strings}
use free_bfd.Monitor.Commands.{zero_session}

-- `BFDDFLT_UDPPORT` and the other defaults.
abbrev pub default_port : ℕ
default_port = 3784

abbrev pub default_mult : ℕ
default_mult = 2

abbrev pub default_rx : ℕ
default_rx = 50_000

abbrev pub default_tx : ℕ
default_tx = 100_000

-- One element of "Sessions": what the lookups find in it, and, for the ports, in its "Ext".
pub record Setting : Type 0 where
  pub peer_address : Option String
  pub peer_port : Option ℤ
  pub local_port : Option ℤ
  pub demand_mode : Option Bool
  pub detect_mult : Option ℤ
  pub required_min_rx_interval : Option ℤ
  pub desired_min_tx_interval : Option ℤ

-- What `gethostbyname` gives: an address of the family `AF_INET`, or of another one.
pub data Host : Type 0 where
  inet_host : ℕ → Host
  other_host : Host

-- A number from the file whose bits are within the mask, or the default. `none`: the session is
-- skipped.
unfoldable pub within : ℕ → ℕ → Option ℤ → Option ℕ
within mask default none = some default
within mask default (some n) =
    if to_bool (bit_and (pattern n) (2 ^ 32 - 1 - mask)) then none else some (pattern n)

-- An interval, as it is.
abbrev pub interval : ℕ → Option ℤ → ℕ
interval default none = default
interval default (some n) = pattern n

abbrev pub flag : Option Bool → Bool
flag none = false
flag (some b) = b

module _ (inet_ntoa : ℕ → String) (gethostbyname : String → Option Host) where
  abbrev pub address : String → Option ℕ
  address name = elim (gethostbyname name) [
    | none ↦ none
    | some host ↦ elim host [ inet_host a ↦ some (a % 2 ^ 32) | other_host ↦ none ]
  ]

  abbrev pub built : Setting → ℕ → ℕ → ℕ → ℕ → BfdSession
  built s peer_port local_port mult addr = session_set_strings inet_ntoa (record zero_session {
    demand_mode = flag s.demand_mode;
    detect_mult = mult;
    desired_min_tx_interval = interval default_tx s.desired_min_tx_interval;
    required_min_rx_interval = interval default_rx s.required_min_rx_interval;
    peer_addr = addr;
    local_addr = 0;
    peer_port = peer_port;
    local_port = local_port;
  })

  -- The body of the loop in `bfdd_handleConfigFile`, up to the call of `bfdCreateSession`. `none`:
  -- the session is skipped.
  unfoldable pub session_of : Setting → Option BfdSession
  session_of s = elim s.peer_address [
    | none ↦ none
    | some name ↦ elim (within 0xffff default_port s.peer_port) [
      | none ↦ none
      | some peer_port ↦ elim (within 0xffff default_port s.local_port) [
        | none ↦ none
        | some local_port ↦ elim (within 0xff default_mult s.detect_mult) [
          | none ↦ none
          | some mult ↦ elim (address name) [
            | none ↦ none
            | some addr ↦ some (built s peer_port local_port mult addr)
          ]
        ]
      ]
    ]
  ]

  -- The loop; the result of `bfdCreateSession` is only logged.
  unfoldable pub create_sessions : {W : Type 0} → (BfdSession → W → Bool × W) → List Setting → W → W
  create_sessions create [] w = w
  create_sessions create (s ∷ rest) w = elim (session_of s) [
    | none ↦ create_sessions create rest w
    | some sn ↦ create_sessions create rest (create sn w).1
  ]

  -- `bfdd_handleConfigFile`, for what the file holds: `none` if it cannot be read, and else
  -- "Sessions", if it is there.
  unfoldable pub handle_config_file :
      {W : Type 0} → (BfdSession → W → Bool × W) → Option (Option (List Setting)) → W → Bool × W
  handle_config_file create none w = (false, w)
  handle_config_file create (some none) w = (true, w)
  handle_config_file create (some (some settings)) w = (true, create_sessions create settings w)
