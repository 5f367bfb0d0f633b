-- ===== src/Utils/Compare.antt =====
-- What the result of `bfdSessionCompare` says.
use free_bfd.Base.{◌^◌, ◌≡◌, ◌↔◌, ◌<◌, true, arith}
use free_bfd.Session.{BfdSession}
use free_bfd.Utils.{session_compare, is_zero}

-- The ranges of the C types.
pub record IsId (s : BfdSession) : Type 0 where
  pub peer : s.peer_addr < 2 ^ 32
  pub here : s.local_addr < 2 ^ 32

-- The four fields that identify a session.
abbrev pub SameId : BfdSession → BfdSession → Type 0
SameId s1 s2 =
    (s1.peer_addr ≡ s2.peer_addr)
    × (s1.local_addr ≡ s2.local_addr)
    × (s1.peer_port ≡ s2.peer_port)
    × (s1.local_port ≡ s2.local_port)

-- Sessions whose addresses fit 32 bits compare equal exactly when the four fields that identify
-- them are the same.
pub session_compare-SameId_iff :
    (s1 s2 : BfdSession)
    → IsId s1
    → IsId s2
    → (is_zero (session_compare s1 s2) ≡ true) ↔ SameId s1 s2
unfolding session_compare
session_compare-SameId_iff s1 s2 h1 h2 = ground arith
