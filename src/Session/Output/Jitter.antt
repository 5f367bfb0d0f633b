-- ===== src/Session/Output/Jitter.antt =====
-- The time that `bfdStartXmtTimer` sets, against the range that section 6.8.7 of RFC 5880 and the
-- comment in the code ask for.
use free_bfd.Base.{
  ℕ, ◌+◌, ◌*◌, ◌/◌, ◌%◌, ◌^◌, ◌≤◌, ◌<◌, ◌≡◌, inl, inr, arith, u32, ◌==◌, Bool-cases,
}
use free_bfd.Session.{SessionInt}
use free_bfd.Session.Output.{jitter}

-- The percentage `75 + k` of `x`, where nothing wraps.
scaled :
    (x k m : ℕ)
    → x ≤ 42_949_672
    → k ≤ m
    → m ≤ 25
    → (75 * x < 100 * (u32 (x * (75 + k)) / 100) + 100)
      × (100 * (u32 (x * (75 + k)) / 100) ≤ x * (75 + m))
scaled x k m h p q =
    let a : x * k ≤ x * m = grind arith in let b : x * m ≤ x * 25 = grind arith in omega arith

module _ (s : SessionInt) (r : ℕ) where
  -- As long as the interval is at most 42 949 672 microseconds, so that its hundredfold fits 32
  -- bits, the timer is set to 75% to 100% of it, and to 75% to 90% if the detection multiplier
  -- is 1; both up to the rounding down to a microsecond.
  pub jitter_bounds :
      s.xmt_time ≤ 42_949_672
      → (75 * s.xmt_time < 100 * jitter s r + 100)
        × (jitter s r ≤ s.xmt_time)
        × (s.sn.detect_mult ≡ 1 → 100 * jitter s r ≤ 90 * s.xmt_time)
  unfolding jitter
  jitter_bounds h = elim (Bool-cases (s.sn.detect_mult == 1)) [
    | inl one ↦ ground (arith, scaled s.xmt_time (r % 2 ^ 32 % 16) 15 h (omega arith) (omega arith))
    | inr more ↦
        ground (arith, scaled s.xmt_time (r % 2 ^ 32 % 26) 25 h (omega arith) (omega arith))
  ]

  -- For an interval of 57 266 231 microseconds (57 seconds) or more that fits 32 bits, whatever
  -- the random number, the product wraps and the timer is set to less than 75% of the interval.
  pub jitter_wraps :
      57_266_231 ≤ s.xmt_time → s.xmt_time < 2 ^ 32 → 100 * jitter s r + 100 ≤ 75 * s.xmt_time
  unfolding jitter
  jitter_wraps h k = omega arith
