-- ===== src/Packet/Words.antt =====
-- `CPKT_SET_WORD` and the word readers of src/core/bfdInt.h.
use free_bfd.Base.{
  ℕ, zero, suc, refl, [], ◌∷◌, ◌==◌, if◌then◌else◌, ◌+◌, ◌*◌, ◌/◌, ◌%◌, ◌^◌, ◌<◌, ◌≡◌, ◌⊎◌, arith,
  u32, length, set, length-set, bit_or, ◌<<<◌,
}
use free_bfd.Packet.{Bytes, byte, get_word, set_word}
use free_bfd.Packet.Bits.{or_of_fields}

-- Four bytes put together are the word in base 256.
pub word_of_bytes :
    (a b c d : ℕ)
    → b < 256
    → c < 256
    → d < 256
    → bit_or (bit_or (bit_or (a <<< 24) (b <<< 16)) (c <<< 8)) d
      ≡ a * 2 ^ 24 + b * 2 ^ 16 + c * 2 ^ 8 + d
word_of_bytes a b c d hb hc hd = ground (
  arith,
  or_of_fields 24 a (b <<< 16) (omega arith),
  or_of_fields 16 (a * 2 ^ 8 + b) (c <<< 8) (omega arith),
  or_of_fields 8 (a * 2 ^ 16 + b * 2 ^ 8 + c) d (omega arith),
)

-- A byte of the packet after another byte was written.
pub byte-set :
    (cp : Bytes) (i v j : ℕ)
    → i < length cp
    → byte (set cp i v) j ≡ (if i == j then v else byte cp j)
byte-set [] i v j h = absurd (omega arith)
byte-set (x ∷ xs) zero v zero h = refl
byte-set (x ∷ xs) zero v (suc j) h = ground arith
byte-set (x ∷ xs) (suc i) v zero h = ground arith
byte-set (x ∷ xs) (suc i) v (suc j) h = ground (arith, byte-set xs i v j)

-- A byte of the packet after a word was written at `i`.
byte-set_word :
    (cp : Bytes) (v i j : ℕ)
    → i + 3 < length cp
    → byte (set_word cp v i) j ≡ (
        if i + 3 == j
        then v % 256
        else if i + 2 == j
        then v / 2 ^ 8 % 256
        else if i + 1 == j
        then v / 2 ^ 16 % 256
        else if i == j
        then v / 2 ^ 24 % 256
        else byte cp j)
unfolding set_word
byte-set_word cp v i j h =
    let one = set cp i (v / 2 ^ 24 % 256) in
    let two = set one (i + 1) (v / 2 ^ 16 % 256) in
    let three = set two (i + 2) (v / 2 ^ 8 % 256) in
    let l1 = length-set cp i (v / 2 ^ 24 % 256) in
    let l2 = length-set one (i + 1) (v / 2 ^ 16 % 256) in
    let l3 = length-set two (i + 2) (v / 2 ^ 8 % 256) in
    rw
      (
        byte-set three (i + 3) (v % 256) j (omega (arith, l1, l2, l3)),
        byte-set two (i + 2) (v / 2 ^ 8 % 256) j (omega (arith, l1, l2)),
        byte-set one (i + 1) (v / 2 ^ 16 % 256) j (omega (arith, l1)),
        byte-set cp i (v / 2 ^ 24 % 256) j (omega arith),
      )
      refl

module _ (cp : Bytes) (v i : ℕ) where
  -- A word written at `i`, all within the packet, is read back there, modulo 2 ^ 32.
  pub get_word-set_word : i + 3 < length cp → get_word (set_word cp v i) i ≡ u32 v
  unfolding get_word
  get_word-set_word h = ground (
    arith,
    byte-set_word cp v i i,
    byte-set_word cp v i (i + 1),
    byte-set_word cp v i (i + 2),
    byte-set_word cp v i (i + 3),
    word_of_bytes (v / 2 ^ 24 % 256) (v / 2 ^ 16 % 256) (v / 2 ^ 8 % 256) (v % 256) (omega arith)
        (omega arith) (omega arith),
  )

  -- Reading a word that does not overlap the one written, which lies within the packet, gives
  -- what was there.
  pub get_word-set_word_ne :
      (j : ℕ)
      → i + 3 < length cp
      → (j + 3 < i) ⊎ (i + 3 < j)
      → get_word (set_word cp v i) j ≡ get_word cp j
  unfolding get_word
  get_word-set_word_ne j h apart = ground (
    arith,
    byte-set_word cp v i j,
    byte-set_word cp v i (j + 1),
    byte-set_word cp v i (j + 2),
    byte-set_word cp v i (j + 3),
  )
