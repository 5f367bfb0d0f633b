-- ===== src/Packet/Bits.antt =====
-- `|` of a shifted field and a value below it, as the macros of src/core/bfdInt.h write it, is a
-- sum.
use Prim.Native.Nat.{max, digits, bit_or-bitwise}
use native.Mathlib.Nat.{pow-suc}
use free_bfd.Base.{
  ℕ, zero, suc, ◌+◌, ◌*◌, ◌/◌, ◌%◌, ◌^◌, ◌≤◌, ◌<◌, bit_or, ◌≡◌, refl, ap, arith, ◌<<<◌,
}

-- The recursion on digits gives the same for every fuel that covers the first number.
or_fuel :
    (a n b m : ℕ) → a ≤ n → a ≤ m → digits (λ low. low) max n a b ≡ digits (λ low. low) max m a b
or_fuel zero zero b zero enough more = refl
or_fuel zero zero b (suc m) enough more = refl
or_fuel zero (suc n) b zero enough more = refl
or_fuel zero (suc n) b (suc m) enough more = refl
or_fuel (suc a) zero b m enough more = absurd (omega arith)
or_fuel (suc a) (suc n) b zero enough more = absurd (omega arith)
or_fuel (suc a) (suc n) b (suc m) enough more =
    omega (arith, or_fuel (suc a / 2) n (b / 2) m (omega arith) (omega arith))

or-suc : (a b : ℕ) → bit_or (suc a) b ≡ bit_or (suc a / 2) (b / 2) * 2 + max (suc a % 2) (b % 2)
or-suc a b = omega (
  arith,
  bit_or-bitwise (suc a) b,
  bit_or-bitwise (suc a / 2) (b / 2),
  or_fuel (suc a / 2) a (b / 2) (suc a / 2) (omega arith) (omega arith),
)

zero-or : (b : ℕ) → bit_or 0 b ≡ b
zero-or b = bit_or-bitwise 0 b

or_lowest : (a b : ℕ) → bit_or a b ≡ bit_or (a / 2) (b / 2) * 2 + max (a % 2) (b % 2)
or_lowest zero b = omega (arith, zero-or b, zero-or (b / 2))
or_lowest (suc a) b = or-suc a b

or-zero_below : (n a : ℕ) → a ≤ n → bit_or a 0 ≡ a
or-zero_below n zero h = refl
or-zero_below zero (suc a) h = absurd (omega arith)
or-zero_below (suc n) (suc a) h =
    omega (arith, or_lowest (suc a) 0, or-zero_below n (suc a / 2) (omega arith))

shift-suc : (q k : ℕ) → (q <<< suc k) ≡ 2 * (q <<< k)
shift-suc q k = omega (arith, ap (λ (t : ℕ). q * t) (pow-suc 2 k))

pub or_of_fields : (k q r : ℕ) → r < 2 ^ k → bit_or (q <<< k) r ≡ (q <<< k) + r
or_of_fields zero q r fits = ground (arith, or-zero_below q q)
or_of_fields (suc k) q r fits = ground (
  arith,
  or_lowest (q <<< suc k) r,
  shift-suc q k,
  pow-suc 2 k,
  or_of_fields k q (r / 2) (omega (arith, pow-suc 2 k)),
)
