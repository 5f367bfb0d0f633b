-- ===== src/Config/Ranges.antt =====
-- src/bfdd/bfdd-config.c: which sessions of a file are made, and with what.
use free_bfd.Base.{
  ℕ, ◌%◌, ◌^◌, ◌≤◌, ◌<◌, bit_and, ◌≡◌, refl, arith, Bool, false, Option, none, some, String, ℤ, pos,
  negsuc, pattern, to_bool, inl, inr, ◌⊎◌, Bool-cases, Option-cases,
}
use free_bfd.Session.{BfdSession}
use free_bfd.Utils.Strings.{session_set_strings}
use free_bfd.Config.{
  Setting, Host, inet_host, other_host, within, interval, flag, address, built, default_port,
  default_mult,
}
use free_bfd.Config.Masks.{bit_and-zero_iff}

-- The number is missing, or it is in the range up to `top`.
abbrev pub InRange : ℕ → Option ℤ → Type 0
InRange top none = Unit {0}
InRange top (some n) = pattern n ≤ top

abbrev pub or_default : ℕ → Option ℤ → ℕ
or_default default none = default
or_default default (some n) = pattern n

pattern_lt : (n : ℤ) → pattern n < 2 ^ 32
pattern_lt (pos n) = omega arith
pattern_lt (negsuc n) = omega arith

pub within_16 :
    (default : ℕ) (n : Option ℤ)
    → ((within 0xffff default n ≡ some (or_default default n)) × InRange 0xffff n)
      ⊎ ((within 0xffff default n ≡ none) × ¬ InRange 0xffff n)
unfolding within
within_16 default none = inl (refl, tt)
within_16 default (some n) = elim (Bool-cases (to_bool (bit_and (pattern n) 0xffff_0000))) [
  | inl over ↦
      let test = bit_and-zero_iff 16 16 (pattern n) (pattern_lt n) in
      inr (rw (over, within) refl, λ h. ground (arith, over, test.1 (omega (arith, h))))
  | inr fits ↦
      let test = bit_and-zero_iff 16 16 (pattern n) (pattern_lt n) in
      let zero : bit_and (pattern n) 0xffff_0000 ≡ 0 = ground (arith, fits) in
      inl (rw (fits, within) refl, omega (arith, test.0 zero))
]

pub within_8 :
    (default : ℕ) (n : Option ℤ)
    → ((within 0xff default n ≡ some (or_default default n)) × InRange 0xff n)
      ⊎ ((within 0xff default n ≡ none) × ¬ InRange 0xff n)
unfolding within
within_8 default none = inl (refl, tt)
within_8 default (some n) = elim (Bool-cases (to_bool (bit_and (pattern n) 0xffff_ff00))) [
  | inl over ↦
      let test = bit_and-zero_iff 8 24 (pattern n) (pattern_lt n) in
      inr (rw (over, within) refl, λ h. ground (arith, over, test.1 (omega (arith, h))))
  | inr fits ↦
      let test = bit_and-zero_iff 8 24 (pattern n) (pattern_lt n) in
      let zero : bit_and (pattern n) 0xffff_ff00 ≡ 0 = ground (arith, fits) in
      inl (rw (fits, within) refl, omega (arith, test.0 zero))
]

-- The ranges of the fields.
pub record IsFitting (sn : BfdSession) : Type 0 where
  pub peer : sn.peer_addr < 2 ^ 32
  pub peer_port : sn.peer_port < 2 ^ 16
  pub local_port : sn.local_port < 2 ^ 16
  pub mult : sn.detect_mult < 2 ^ 8
  pub tx : sn.desired_min_tx_interval < 2 ^ 32
  pub rx : sn.required_min_rx_interval < 2 ^ 32

pub in_range :
    (top default : ℕ) (n : Option ℤ) → default ≤ top → InRange top n → or_default default n ≤ top
in_range top default none h r = h
in_range top default (some n) h r = r

pub or_default_lt : (default : ℕ) (n : Option ℤ) → default < 2 ^ 32 → or_default default n < 2 ^ 32
or_default_lt default none h = h
or_default_lt default (some n) h = pattern_lt n

module _ (inet_ntoa : ℕ → String) (gethostbyname : String → Option Host) where
  pub address_lt :
      (name : String) (addr : ℕ) → address inet_ntoa gethostbyname name ≡ some addr → addr < 2 ^ 32
  address_lt name addr e = elim (Option-cases (gethostbyname name)) [
    | inl gone ↦ absurd (ground (arith, e, gone))
    | inr (host, there) ↦ address_of host there
  ]
    where
      address_of : (host : Host) → gethostbyname name ≡ some host → addr < 2 ^ 32
      address_of (inet_host a) there =
          let same : a % 2 ^ 32 ≡ addr = ground (arith, e, there) in omega arith
      address_of other_host there = absurd (ground (arith, e, there))

module _ (inet_ntoa : ℕ → String) (gethostbyname : String → Option Host) (s : Setting) where
  -- A session that is asked for with an address that can be found and with numbers in range.
  pub record IsWanted (name : String) (addr : ℕ) : Type 0 where
    pub named : s.peer_address ≡ some name
    pub found : address inet_ntoa gethostbyname name ≡ some addr
    pub peer_port : InRange 0xffff s.peer_port
    pub local_port : InRange 0xffff s.local_port
    pub mult : InRange 0xff s.detect_mult

  -- The session that is made of it: what is missing in the file has its default, demand mode is off
  -- unless it is on in the file, and the local address is any.
  abbrev pub made : ℕ → BfdSession
  made addr = session_set_strings inet_ntoa (record {
    peer_addr = addr;
    local_addr = 0;
    peer_port = or_default 3784 s.peer_port;
    local_port = or_default 3784 s.local_port;
    peer_addr_str = "";
    local_addr_str = "";
    sn_id_str = "";
    demand_mode = elim s.demand_mode [ none ↦ false | some on ↦ on ];
    detect_mult = or_default 2 s.detect_mult;
    auth_type = 0;
    desired_min_tx_interval = or_default 100_000 s.desired_min_tx_interval;
    required_min_rx_interval = or_default 50_000 s.required_min_rx_interval;
  })

  interval-or_default : (default : ℕ) (n : Option ℤ) → interval default n ≡ or_default default n
  interval-or_default default none = refl
  interval-or_default default (some n) = refl

  flag_lem : (on : Option Bool) → flag on ≡ elim on [ none ↦ false | some b ↦ b ]
  flag_lem none = refl
  flag_lem (some b) = refl

  -- The code makes that session of numbers in range.
  pub built-made :
      (addr : ℕ)
      → built inet_ntoa gethostbyname s
          (or_default default_port s.peer_port)
          (or_default default_port s.local_port)
          (or_default default_mult s.detect_mult)
          addr
        ≡ made addr
  built-made addr =
      rw
        (
          interval-or_default 100_000 s.desired_min_tx_interval,
          interval-or_default 50_000 s.required_min_rx_interval,
          flag_lem s.demand_mode,
        )
        refl
