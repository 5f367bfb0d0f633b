-- ===== src/Programs/Bfdd.antt =====
-- src/bfdd/bfdd-main.c: the options of bfdd, and how it starts.
use free_bfd.Base.{ℕ, Bool, true, false, Option, none, some, List, String, u16, ◌==◌, if◌then◌else◌}
use free_bfd.Programs.{log_notice, log_more, Opt, Exit, exits, goes, all_options}

-- `DEFAULT_MONITOR_PORT`
abbrev pub default_monitor_port : ℕ
default_monitor_port = 5643

pub record Options : Type 0 where
  pub config_file : Option String
  pub daemon_mode : Bool
  pub monitor_port : ℕ
  pub max_level : ℕ

abbrev pub defaults : Options
defaults = record {
  config_file = none;
  daemon_mode = true;
  monitor_port = default_monitor_port;
  max_level = log_notice;
}

module _ (sscanf : String → Option ℕ) where
  unfoldable pub port : Options → String → Exit Options
  port o optarg = elim (sscanf optarg) [
    | none ↦ exits 1
    | some n ↦ goes (record o { monitor_port = u16 n })
  ]

  -- One round of the loop over the options.
  unfoldable pub option : Opt → Options → Exit Options
  option x o =
      if x.letter == b'c'
      then goes (record o { config_file = some x.optarg })
      else if x.letter == b'd'
      then goes (record o { daemon_mode = false })
      else if x.letter == b'm'
      then port o x.optarg
      else if x.letter == b'v'
      then goes (record o { max_level = log_more o.max_level })
      else exits 1

-- The calls of `main`: `daemon`, `tpInitTimers` with the signal handlers,
-- `bfdd_handleConfigFile`, and `bfdMonitorSetupServer`, which may call `exit`.
pub record Calls (W : Type 0) : Type 0 where
  pub daemon : W → Bool × W
  pub init : W → W
  pub handle_config_file : String → W → Bool × W
  pub setup_server : ℕ → W → Exit W

module _ {W : Type 0} (calls : Calls W) where
  unfoldable pub configured : Option String → W → Exit W
  configured none w = goes w
  configured (some file) w =
      let (ok, w1) = calls.handle_config_file file w in if ok then goes w1 else exits 1

  unfoldable pub started : Options → W → Exit W
  started o w = elim (configured o.config_file (calls.init w)) [
    | exits n ↦ exits n
    | goes w1 ↦ calls.setup_server o.monitor_port w1
  ]

  -- `main`, up to the event loop.
  unfoldable pub main : (String → Option ℕ) → List Opt → W → Exit W
  main sscanf args w = elim (all_options (option sscanf) args defaults) [
    | exits n ↦ exits n
    | goes o ↦
        let (ok, w1) = calls.daemon w in
        if o.daemon_mode then (if ok then started o w1 else exits 1) else started o w
  ]
