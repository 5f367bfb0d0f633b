-- ===== src/Programs.antt =====
-- src/core/bfdLog.c: the level of the messages, and what the programs bfd (src/bfd/bfd-main.c) and
-- bfdd (src/bfdd/bfdd-main.c) share: their options, as `getopt` gives them.
pub mod Bfd
pub mod Bfdd
pub mod Limits
pub mod Ports
use free_bfd.Base.{ℕ, suc, Bool, List, [], ◌∷◌, String, leb, ltb, if◌then◌else◌}

-- `LOG_NOTICE` and `LOG_DEBUG`
abbrev pub log_notice : ℕ
log_notice = 5

abbrev pub log_debug : ℕ
log_debug = 7

-- `bfdLogMore`, on `sMaxLevel`, which is `log_notice` at first.
unfoldable pub log_more : ℕ → ℕ
log_more max_level = if ltb max_level log_debug then suc max_level else max_level

-- Whether `bfdLog` writes a message of a level.
unfoldable pub logs : ℕ → ℕ → Bool
logs lvl max_level = leb lvl max_level

-- What `getopt` gives: a letter, and its argument if it takes one.
pub record Opt : Type 0 where
  pub letter : ℕ
  pub optarg : String

-- A part of a program either calls `exit` or goes on.
pub data Exit (A : Type 0) : Type 0 where
  exits : ℕ → Exit A
  goes : A → Exit A

-- The loop over the options.
unfoldable pub all_options : {A : Type 0} → (Opt → A → Exit A) → List Opt → A → Exit A
all_options option [] o = goes o
all_options option (x ∷ xs) o = elim (option x o) [
  | exits n ↦ exits n
  | goes o1 ↦ all_options option xs o1
]
