-- ===== src/Tests/Startup.antt =====
-- The theorems on configuration files and command lines, and on the comparison of sessions.
use free_bfd.Base.{
  ℕ, ◌≡◌, ◌⊎◌, ◌≤◌, refl, arith, true, Option, none, some, List, [], ◌∷◌, String, pos,
}
use free_bfd.Session.{BfdSession}
use free_bfd.Texts.{dec}
use free_bfd.Utils.{session_compare}
use free_bfd.Utils.Cycles.{below_zero, session_compare_cycles}
use free_bfd.Config.{Setting, Host, inet_host, session_of}
use free_bfd.Config.Ranges.{IsFitting, made}
use free_bfd.Config.Made.{Wanted, session_of_lem}
use free_bfd.Programs.{Opt, exits, goes, all_options}
use free_bfd.Programs.Bfd.{main_session, session_for, option, number, extension, initial, defaults}
use free_bfd.Programs.Ports.{main_session-IsFitting}
use free_bfd.Trees.{All}
use free_bfd.MonTest.{Line, load_session_file}
use free_bfd.MonTest.Loaded.{wanted, load_session_file_lem}
use free_bfd.Tests.{sn}
use free_bfd.Tests.Messages.{inet}

abbrev resolve : String → Option Host
resolve name = some (inet_host 16_777_226)

-- A session with a port and a multiplier, and the rest by default.
abbrev setting : Setting
setting = record {
  peer_address = some "10.0.0.1";
  peer_port = some (pos 4000);
  local_port = none;
  demand_mode = some true;
  detect_mult = some (pos 5);
  required_min_rx_interval = none;
  desired_min_tx_interval = none;
}

session_of_lem_example :
    ((w : Wanted dec resolve setting) × (session_of dec resolve setting
        ≡ some (made dec resolve setting w.1))
      × IsFitting (made dec resolve setting w.1))
    ⊎ ((session_of dec resolve setting ≡ none) × ¬ Wanted dec resolve setting)
session_of_lem_example = session_of_lem dec resolve setting

-- `bfd -p 10.0.0.1 -m 5 -x PeerPort=4000`
abbrev args : List Opt
args =
    record { letter = b'p'; optarg = "10.0.0.1" }
    ∷ record { letter = b'm'; optarg = "5" }
    ∷ record { letter = b'x'; optarg = "PeerPort=4000" }
    ∷ []

abbrev scanned : String → Option ℕ
scanned s = some 5

abbrev given : BfdSession
given =
    initial scanned (λ s. pos 4000) dec resolve
      (record defaults { connectaddr = some "10.0.0.1"; detect_mult = 5; peer_port = 4000 })
      16_777_226

runs : main_session scanned (λ s. pos 4000) dec resolve args ≡ goes given
unfolding main_session session_for all_options option number extension
runs = refl

main_session-IsFitting_example : IsFitting given × (1 ≤ given.peer_port) × (1 ≤ given.local_port)
main_session-IsFitting_example =
    main_session-IsFitting scanned (λ s. pos 4000) dec resolve args given runs

-- A line that is commented out, "10 4784 0 3784 DetectMult=5", and an empty one.
abbrev session_lines : List Line
session_lines =
    record { codes = 32 ∷ b'#' ∷ b'1' ∷ []; fields = some ("1", 3784, "0", 3784); options = [] }
    ∷ record {
      codes = b'1' ∷ [];
      fields = some ("10", 4784, "0", 3784);
      options = ("DetectMult", "5") ∷ [];
    }
    ∷ record { codes = 10 ∷ []; fields = none; options = [] }
    ∷ []

load_session_file_lem_example :
    (load_session_file scanned inet true (some session_lines)
      ≡ goes (wanted scanned inet session_lines))
    × All IsFitting (wanted scanned inet session_lines)
    × (load_session_file scanned inet true none ≡ exits 1)
load_session_file_lem_example =
    load_session_file_lem inet (λ s a e. ground (arith, e)) scanned session_lines

abbrev peer_at : ℕ → BfdSession
peer_at a = record sn { peer_addr = a }

session_compare_cycles_example :
    (below_zero (session_compare (peer_at 0) (peer_at 2_000_000_000)) ≡ true)
    × (below_zero (session_compare (peer_at 2_000_000_000) (peer_at 4_000_000_000)) ≡ true)
    × (below_zero (session_compare (peer_at 4_000_000_000) (peer_at 0)) ≡ true)
session_compare_cycles_example =
    session_compare_cycles (peer_at 0) (peer_at 2_000_000_000) (peer_at 4_000_000_000) 2_000_000_000
      (omega arith) (omega arith) (omega arith) refl refl
