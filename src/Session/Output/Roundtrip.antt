-- ===== src/Session/Output/Roundtrip.antt =====
-- What a peer reads from the packet that `bfdSendCPkt` builds.
use free_bfd.Base.{
  ℕ, ◌%◌, ◌^◌, ◌<◌, ◌≡◌, refl, arith, length, of_bool, to_bool, u32, u8, low_bits, bit_or, ◌>>>◌,
  ◌<<<◌,
}
use free_bfd.Packet.{
  Bytes, min_pkt_len, version, get_vers, get_diag, get_state, get_poll, get_final, get_cpi,
  get_auth, get_demand, get_multipoint, get_detect_mult, get_len, get_my_discr, get_your_discr,
  get_min_tx_int, get_min_rx_int, get_min_echo_rx_int, get_word, set_vers, set_diag, set_state,
  set_poll, set_final, set_cpi, set_auth, set_demand, set_multipoint, set_detect_mult, set_len,
  set_my_discr, set_your_discr, set_min_tx_int, set_min_rx_int, set_min_echo_rx_int, set_word,
}
use free_bfd.Packet.Bits.{or_of_fields}
use free_bfd.Packet.Words.{word_of_bytes}
use free_bfd.Session.{code, SessionInt}
use free_bfd.Session.Output.{control_pkt}

-- The ranges that the C types give the fields which a packet carries.
pub record FitsPacket (s : SessionInt) : Type 0 where
  pub diag : s.local_diag < 32
  pub mult : s.sn.detect_mult < 2 ^ 8
  pub mine : s.local_discr < 2 ^ 32
  pub yours : s.remote_discr < 2 ^ 32
  pub tx : s.send_desired_min_tx < 2 ^ 32
  pub rx : s.sn.required_min_rx_interval < 2 ^ 32

-- The packet says what the session holds, field by field.
pub record Carries (s : SessionInt) (fbit : ℕ) (cp : Bytes) : Type 0 where
  pub len : length cp ≡ min_pkt_len
  pub length_field : get_len cp ≡ min_pkt_len
  pub vers : get_vers cp ≡ version
  pub diag : get_diag cp ≡ s.local_diag
  pub state : get_state cp ≡ code s.session_state
  pub poll : get_poll cp ≡ of_bool s.polling
  pub final : get_final cp ≡ of_bool (to_bool fbit)
  pub cpi : get_cpi cp ≡ 0
  pub auth : get_auth cp ≡ 0
  pub demand : get_demand cp ≡ of_bool s.sn.demand_mode
  pub multipoint : get_multipoint cp ≡ 0
  pub mult : get_detect_mult cp ≡ s.sn.detect_mult
  pub mine : get_my_discr cp ≡ s.local_discr
  pub yours : get_your_discr cp ≡ s.remote_discr
  pub tx : get_min_tx_int cp ≡ s.send_desired_min_tx
  pub rx : get_min_rx_int cp ≡ s.sn.required_min_rx_interval
  pub echo : get_min_echo_rx_int cp ≡ 0

-- The four bytes of a word, put together again.
word_back :
    (v : ℕ)
    → u32 (
        bit_or
          (bit_or
            (bit_or (u8 (v >>> 24) <<< 24) (low_bits (v >>> 16) 8 <<< 16))
            (low_bits (v >>> 8) 8 <<< 8))
          (low_bits v 8))
      ≡ u32 v
word_back v = omega (
  arith,
  word_of_bytes (u8 (v >>> 24)) (low_bits (v >>> 16) 8) (low_bits (v >>> 8) 8) (low_bits v 8),
)

module _ (s : SessionInt) (fbit : ℕ) (fits : FitsPacket s) where
  -- A session whose fields fit their C types sends a packet of 24 bytes from which the reading
  -- macros give back each field of the session, the final bit, and zero for what is not supported.
  pub control_pkt-Carries : Carries s fbit (control_pkt s fbit)
  unfolding control_pkt get_vers get_diag get_state get_poll get_final get_cpi get_auth get_demand
      get_multipoint get_detect_mult get_len get_my_discr get_your_discr get_min_tx_int
      get_min_rx_int get_min_echo_rx_int get_word set_vers set_diag set_state set_poll set_final
      set_cpi set_auth set_demand set_multipoint set_detect_mult set_len set_my_discr set_your_discr
      set_min_tx_int set_min_rx_int set_min_echo_rx_int set_word
  control_pkt-Carries = record {
    len = refl;
    length_field = refl;
    vers = ground (arith, or_of_fields 5 1 (s.local_diag % 32) (omega arith));
    diag = ground (arith, or_of_fields 5 1 (s.local_diag % 32) (omega arith));
    state = ground arith;
    poll = ground arith;
    final = ground arith;
    cpi = ground arith;
    auth = ground arith;
    demand = ground arith;
    multipoint = ground arith;
    mult = omega arith;
    mine = rw (word_back s.local_discr) (omega arith);
    yours = rw (word_back s.remote_discr) (omega arith);
    tx = rw (word_back s.send_desired_min_tx) (omega arith);
    rx = rw (word_back s.sn.required_min_rx_interval) (omega arith);
    echo = refl;
  }
