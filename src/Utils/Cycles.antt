-- ===== src/Utils/Cycles.antt =====
-- src/core/bfdUtils.c: the comparison that the search trees of the monitor code go by is no order.
use free_bfd.Base.{◌^◌, ◌+◌, ◌<◌, ◌≡◌, ℕ, ◌%◌, arith, true, Bool, false, ℤ, pos, negsuc}
use free_bfd.Session.{BfdSession}
use free_bfd.Utils.{session_compare}

abbrev pub below_zero : ℤ → Bool
below_zero (pos n) = false
below_zero (negsuc n) = true

-- Three sessions whose peers' addresses, as numbers of 32 bits, are each the same distance past the
-- one before, a distance of more than 2^30 and less than 2^31: the first compares as less than the
-- second, the second as less than the third, and the third as less than the first.
pub session_compare_cycles :
    (s1 s2 s3 : BfdSession) (k : ℕ)
    → 2 ^ 30 < k
    → k < 2 ^ 31
    → s1.peer_addr < 2 ^ 32
    → s2.peer_addr ≡ (s1.peer_addr + k) % 2 ^ 32
    → s3.peer_addr ≡ (s2.peer_addr + k) % 2 ^ 32
    → (below_zero (session_compare s1 s2) ≡ true)
      × (below_zero (session_compare s2 s3) ≡ true)
      × (below_zero (session_compare s3 s1) ≡ true)
unfolding session_compare
session_compare_cycles s1 s2 s3 k more less fits e2 e3 = ground arith
