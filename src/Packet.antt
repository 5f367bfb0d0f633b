-- ===== src/Packet.antt =====
-- The control packet of src/core/bfdInt.h: the macros that read its fields (`CPKT_GET_*`) and that
-- write them (`CPKT_SET_*`). A packet is the list of its bytes.
pub mod Bits
pub mod Words
pub mod Flags
use free_bfd.Base.{
  ℕ, ◌+◌, Bool, List, bit_and, bit_or, u8, u32, ◌<<<◌, ◌>>>◌, low_bits, get_or, set, if◌then◌else◌,
}

abbrev pub min_pkt_len : ℕ
min_pkt_len = 24

abbrev pub min_pkt_len_auth : ℕ
min_pkt_len_auth = 26

abbrev pub version : ℕ
version = 1

abbrev pub Bytes : Type 0
Bytes = List ℕ

abbrev pub byte : Bytes → ℕ → ℕ
byte cp i = get_or cp i 0

-- Reading.

unfoldable pub get_vers : Bytes → ℕ
get_vers cp = byte cp 0 >>> 5

unfoldable pub get_diag : Bytes → ℕ
get_diag cp = low_bits (byte cp 0) 5

unfoldable pub get_state : Bytes → ℕ
get_state cp = u8 (byte cp 1 >>> 6)

unfoldable pub get_poll : Bytes → ℕ
get_poll cp = low_bits (byte cp 1 >>> 5) 1

unfoldable pub get_final : Bytes → ℕ
get_final cp = low_bits (byte cp 1 >>> 4) 1

unfoldable pub get_cpi : Bytes → ℕ
get_cpi cp = low_bits (byte cp 1 >>> 3) 1

unfoldable pub get_auth : Bytes → ℕ
get_auth cp = low_bits (byte cp 1 >>> 2) 1

unfoldable pub get_demand : Bytes → ℕ
get_demand cp = low_bits (byte cp 1 >>> 1) 1

unfoldable pub get_multipoint : Bytes → ℕ
get_multipoint cp = low_bits (byte cp 1) 1

unfoldable pub get_detect_mult : Bytes → ℕ
get_detect_mult cp = byte cp 2

unfoldable pub get_len : Bytes → ℕ
get_len cp = byte cp 3

-- The big-endian word at `i`. The shift of a byte by 24 wraps as a 32-bit pattern.
unfoldable pub get_word : Bytes → ℕ → ℕ
get_word cp i = u32 (
    bit_or (bit_or (bit_or (byte cp i <<< 24) (byte cp (i + 1) <<< 16)) (byte cp (i + 2) <<< 8))
      (byte cp (i + 3)))

unfoldable pub get_my_discr : Bytes → ℕ
get_my_discr cp = get_word cp 4

unfoldable pub get_your_discr : Bytes → ℕ
get_your_discr cp = get_word cp 8

unfoldable pub get_min_tx_int : Bytes → ℕ
get_min_tx_int cp = get_word cp 12

unfoldable pub get_min_rx_int : Bytes → ℕ
get_min_rx_int cp = get_word cp 16

unfoldable pub get_min_echo_rx_int : Bytes → ℕ
get_min_echo_rx_int cp = get_word cp 20

-- Writing.

-- `{ cp[i] = cp[i] & mask; cp[i] = (uint8_t)(cp[i] | v); }`
put_field : Bytes → ℕ → ℕ → ℕ → Bytes
put_field cp i mask v =
    let cleared = set cp i (bit_and (byte cp i) mask) in
    set cleared i (u8 (bit_or (byte cleared i) v))

unfoldable pub set_vers : Bytes → ℕ → Bytes
unfolding put_field
set_vers cp v = put_field cp 0 0x1f (low_bits v 3 <<< 5)

unfoldable pub set_diag : Bytes → ℕ → Bytes
unfolding put_field
set_diag cp v = put_field cp 0 0xe0 (low_bits v 5)

unfoldable pub set_state : Bytes → ℕ → Bytes
unfolding put_field
set_state cp v = put_field cp 1 0x3f (low_bits v 2 <<< 6)

-- `{ cp[1] = v ? cp[1] | (1 << k) : cp[1] & mask; }`
put_flag : Bytes → Bool → ℕ → ℕ → Bytes
put_flag cp v k mask =
    set cp 1 (if v then bit_or (byte cp 1) (1 <<< k) else bit_and (byte cp 1) mask)

unfoldable pub set_poll : Bytes → Bool → Bytes
unfolding put_flag
set_poll cp v = put_flag cp v 5 0xdf

unfoldable pub set_final : Bytes → Bool → Bytes
unfolding put_flag
set_final cp v = put_flag cp v 4 0xef

unfoldable pub set_cpi : Bytes → Bool → Bytes
unfolding put_flag
set_cpi cp v = put_flag cp v 3 0xf7

unfoldable pub set_auth : Bytes → Bool → Bytes
unfolding put_flag
set_auth cp v = put_flag cp v 2 0xfb

unfoldable pub set_demand : Bytes → Bool → Bytes
unfolding put_flag
set_demand cp v = put_flag cp v 1 0xfd

unfoldable pub set_multipoint : Bytes → Bool → Bytes
unfolding put_flag
set_multipoint cp v = put_flag cp v 0 0xfe

unfoldable pub set_detect_mult : Bytes → ℕ → Bytes
set_detect_mult cp v = set cp 2 (low_bits v 8)

unfoldable pub set_len : Bytes → ℕ → Bytes
set_len cp v = set cp 3 (low_bits v 8)

unfoldable pub set_word : Bytes → ℕ → ℕ → Bytes
set_word cp v i =
    set
      (set (set (set cp i (u8 (v >>> 24))) (i + 1) (low_bits (v >>> 16) 8)) (i + 2)
        (low_bits (v >>> 8) 8))
      (i + 3) (low_bits v 8)

unfoldable pub set_my_discr : Bytes → ℕ → Bytes
set_my_discr cp v = set_word cp v 4

unfoldable pub set_your_discr : Bytes → ℕ → Bytes
set_your_discr cp v = set_word cp v 8

unfoldable pub set_min_tx_int : Bytes → ℕ → Bytes
set_min_tx_int cp v = set_word cp v 12

unfoldable pub set_min_rx_int : Bytes → ℕ → Bytes
set_min_rx_int cp v = set_word cp v 16

unfoldable pub set_min_echo_rx_int : Bytes → ℕ → Bytes
set_min_echo_rx_int cp v = set_word cp v 20
