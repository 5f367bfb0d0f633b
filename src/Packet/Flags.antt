-- ===== src/Packet/Flags.antt =====
-- The six single-bit fields of a control packet's second byte: how the macros that write one of
-- them (src/core/bfdInt.h) act on all of them and on the state that shares the byte.
use free_bfd.Base.{
  Bool-cases, ltb, inl, inr, ℕ, zero, suc, ◌<◌, ◌≡◌, refl, arith, Bool, true, false, ◌&&◌, bit_and,
  bit_or, length, ◌==◌, ==_iff, of_bool, low_bits, ◌>>>◌, ◌<<<◌, if◌then◌else◌,
}
use free_bfd.Packet.{
  Bytes, byte, get_state, get_poll, get_final, get_cpi, get_auth, get_demand, get_multipoint,
  set_poll, set_final, set_cpi, set_auth, set_demand, set_multipoint,
}
use free_bfd.Packet.Words.{byte-set}

pub data Flag : Type 0 where
  poll final cpi auth demand multipoint : Flag

-- The place of a flag in the byte, counted from the right.
abbrev pub place : Flag → ℕ
place multipoint = 0
place demand = 1
place auth = 2
place cpi = 3
place final = 4
place poll = 5

pub get_flag : Flag → Bytes → ℕ
get_flag poll = get_poll
get_flag final = get_final
get_flag cpi = get_cpi
get_flag auth = get_auth
get_flag demand = get_demand
get_flag multipoint = get_multipoint

pub set_flag : Flag → Bytes → Bool → Bytes
set_flag poll = set_poll
set_flag final = set_final
set_flag cpi = set_cpi
set_flag auth = set_auth
set_flag demand = set_demand
set_flag multipoint = set_multipoint

-- The test holds for all numbers below the last argument.
holds_below : (ℕ → Bool) → ℕ → Bool
holds_below test zero = true
holds_below test (suc last) = holds_below test last && test last

test_of_holds :
    (test : ℕ → Bool) (bound : ℕ)
    → holds_below test bound ≡ true
    → (b : ℕ) → b < bound
    → test b ≡ true
unfolding holds_below
test_of_holds test zero all b below = absurd (omega arith)
test_of_holds test (suc last) all b below = elim (Bool-cases (ltb b last)) [
  | inl before ↦ test_of_holds test last (ground arith) b (ground arith)
  | inr at_last ↦ let e : b ≡ last = ground arith in ground (arith, e)
]

mask : Flag → ℕ
mask multipoint = 0xfe
mask demand = 0xfd
mask auth = 0xfb
mask cpi = 0xf7
mask final = 0xef
mask poll = 0xdf

-- The second byte after flag `f` was written.
written : Flag → Bool → ℕ → ℕ
unfolding mask
written f v b = if v then bit_or b (1 <<< place f) else bit_and b (mask f)

byte-set_flag :
    (f : Flag) (cp : Bytes) (v : Bool)
    → 1 < length cp
    → byte (set_flag f cp v) 1 ≡ written f v (byte cp 1)
unfolding set_flag written set_poll set_final set_cpi set_auth set_demand set_multipoint
byte-set_flag poll cp v h = byte-set cp 1 _ 1 h
byte-set_flag final cp v h = byte-set cp 1 _ 1 h
byte-set_flag cpi cp v h = byte-set cp 1 _ 1 h
byte-set_flag auth cp v h = byte-set cp 1 _ 1 h
byte-set_flag demand cp v h = byte-set cp 1 _ 1 h
byte-set_flag multipoint cp v h = byte-set cp 1 _ 1 h

get_flag_lem : (g : Flag) (cp : Bytes) → get_flag g cp ≡ low_bits (byte cp 1 >>> place g) 1
unfolding get_flag get_poll get_final get_cpi get_auth get_demand get_multipoint
get_flag_lem poll cp = refl
get_flag_lem final cp = refl
get_flag_lem cpi cp = refl
get_flag_lem auth cp = refl
get_flag_lem demand cp = refl
get_flag_lem multipoint cp = ground arith

abbrev flag_right : Flag → Bool → Flag → ℕ → Bool
flag_right f v g b =
    low_bits (written f v b >>> place g) 1
    == (if place f == place g then of_bool v else low_bits (b >>> place g) 1)

abbrev all_right : Flag → Bool → ℕ → Bool
all_right f v b =
    flag_right f v poll b
    && flag_right f v final b
    && flag_right f v cpi b
    && flag_right f v auth b
    && flag_right f v demand b
    && flag_right f v multipoint b
    && ((written f v b >>> 6) == (b >>> 6))

flag_table : (f : Flag) (v : Bool) → holds_below (all_right f v) 256 ≡ true
unfolding holds_below written
flag_table poll true = refl
flag_table poll false = refl
flag_table final true = refl
flag_table final false = refl
flag_table cpi true = refl
flag_table cpi false = refl
flag_table auth true = refl
flag_table auth false = refl
flag_table demand true = refl
flag_table demand false = refl
flag_table multipoint true = refl
flag_table multipoint false = refl

all_right_parts : (f : Flag) (v : Bool) (b : ℕ) → b < 256 → all_right f v b ≡ true
all_right_parts f v b h = test_of_holds (all_right f v) 256 (flag_table f v) b h

written_flag : (f : Flag) (v : Bool) (g : Flag) (b : ℕ) → b < 256 → flag_right f v g b ≡ true
written_flag f v poll b h = ground (arith, all_right_parts f v b h)
written_flag f v final b h = ground (arith, all_right_parts f v b h)
written_flag f v cpi b h = ground (arith, all_right_parts f v b h)
written_flag f v auth b h = ground (arith, all_right_parts f v b h)
written_flag f v demand b h = ground (arith, all_right_parts f v b h)
written_flag f v multipoint b h = ground (arith, all_right_parts f v b h)

module _ (cp : Bytes) (f : Flag) (v : Bool) (two : 1 < length cp) (is_byte : byte cp 1 < 256) where
  -- Each flag macro sets its own flag to the truth value it is given, and leaves the other five
  -- flags and the state, which share the byte, as they were; for a packet whose second byte is one.
  pub get_flag-set_flag :
      (g : Flag)
      → (get_flag g (set_flag f cp v) ≡ (if place f == place g then of_bool v else get_flag g cp))
        × (get_state (set_flag f cp v) ≡ get_state cp)
  unfolding get_state
  get_flag-set_flag g = (
    rw (get_flag_lem g (set_flag f cp v), get_flag_lem g cp, byte-set_flag f cp v two)
        ((==_iff _ _).0 (written_flag f v g (byte cp 1) is_byte)),
    rw (byte-set_flag f cp v two) (ground (arith, all_right_parts f v (byte cp 1) is_byte)),
  )
