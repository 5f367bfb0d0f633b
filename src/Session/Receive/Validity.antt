-- ===== src/Session/Receive/Validity.antt =====
-- Which packets `bfdRcvPkt` lets through, against the list of RFC 5880, section 6.8.6.
use free_bfd.Base.{
  ℕ, ◌≤◌, ◌≡◌, ◌≢◌, ◌↔◌, ◌⊎◌, ◌||◌, ◌==◌, inl, inr, true, refl, none, arith, Bool-cases,
}
use free_bfd.Packet.{
  Bytes, min_pkt_len, min_pkt_len_auth, version, get_vers, get_len, get_auth, get_detect_mult,
  get_multipoint, get_my_discr, get_your_discr, get_state,
}
use free_bfd.Session.{State, down, admin_down, init, up, is, of_code, SessionInt}
use free_bfd.Session.Output.{control_pkt}
use free_bfd.Session.Output.Roundtrip.{FitsPacket, control_pkt-Carries}
use free_bfd.Session.Receive.{check_pkt, check_session}

-- What the specification asks of a packet with `mlen` bytes of payload, apart from its rule on a
-- discriminator of zero.
pub record IsValid (mlen : ℕ) (cp : Bytes) : Type 0 where
  pub whole : min_pkt_len ≤ mlen
  pub vers : get_vers cp ≡ version
  pub long : min_pkt_len ≤ get_len cp
  pub long_auth : get_auth cp ≢ 0 → min_pkt_len_auth ≤ get_len cp
  pub within : get_len cp ≤ mlen
  pub mult : get_detect_mult cp ≢ 0
  pub single : get_multipoint cp ≡ 0
  pub mine : get_my_discr cp ≢ 0

module _ (mlen : ℕ) (cp : Bytes) where
  pub check_pkt_sound : check_pkt mlen cp ≡ none → IsValid mlen cp
  unfolding check_pkt
  check_pkt_sound h = ground arith

  pub check_pkt_complete : IsValid mlen cp → check_pkt mlen cp ≡ none
  unfolding check_pkt
  check_pkt_complete v = ground arith

  -- The checks of the packet alone let it pass exactly when it fulfils these rules.
  pub check_pkt-IsValid_iff : (check_pkt mlen cp ≡ none) ↔ IsValid mlen cp
  check_pkt-IsValid_iff = (check_pkt_sound, check_pkt_complete)

-- A state in which the other side may not know the discriminator yet.
abbrev pub IsEarly : State → Type 0
IsEarly state = (state ≡ down) ⊎ (state ≡ admin_down)

-- All that the specification asks: a packet with Your Discriminator zero reports that its sender is
-- down or administratively down.
pub record IsRfcValid (mlen : ℕ) (cp : Bytes) : Type 0 where
  pub valid : IsValid mlen cp
  pub early : (get_your_discr cp ≢ 0) ⊎ IsEarly (of_code (get_state cp))

-- What `bfdRcvPkt` lets pass to the session `s`.
abbrev pub Passes : ℕ → Bytes → SessionInt → Type 0
Passes mlen cp s = (check_pkt mlen cp ≡ none) × (check_session cp s ≡ none)

module _ (mlen : ℕ) (cp : Bytes) (s : SessionInt) (plain : get_auth cp ≡ 0) where
  early_cases : (state : State) → (is state down || is state admin_down ≡ true) ↔ IsEarly state
  early_cases admin_down = (λ h. inr refl, λ h. refl)
  early_cases down = (λ h. inl refl, λ h. refl)
  early_cases init = (λ h. absurd (ground (arith, h)), λ h. absurd (ground (arith, h)))
  early_cases up = (λ h. absurd (ground (arith, h)), λ h. absurd (ground (arith, h)))

  -- The session is asked where the specification asks the packet.
  check_session_iff :
      (check_session cp s ≡ none) ↔ ((get_your_discr cp ≢ 0) ⊎ IsEarly s.session_state)
  unfolding check_session
  check_session_iff = elim (Bool-cases (get_your_discr cp == 0)) [
    | inl zero ↦ elim (Bool-cases (is s.session_state down || is s.session_state admin_down)) [
      | inl early ↦ (
        λ h. inr ((early_cases s.session_state).0 early),
        λ h. ground (arith, zero, early, plain),
      )
      | inr late ↦ (
        λ h. absurd (ground (arith, h, zero, late)),
        λ h. elim h [
          | inl other ↦ absurd (ground (arith, zero, other))
          | inr early ↦ absurd (ground (arith, late, (early_cases s.session_state).1 early))
        ],
      )
    ]
    | inr other ↦ (λ h. inl (ground (arith, other)), λ h. ground (arith, other, plain))
  ]

  -- For a packet without authentication that is valid but for the rule on Your Discriminator, which
  -- is zero: the code looks at the state of the session, where section 6.8.6 looks at the state in
  -- the packet. So a packet that reports init or up passes if the session is down, against the
  -- specification, and one that reports down is dropped if the session is init or up.
  pub zero_your_discr-rfc :
      IsValid mlen cp
      → get_your_discr cp ≡ 0
      → (Passes mlen cp s ↔ IsEarly s.session_state)
        × (IsRfcValid mlen cp ↔ IsEarly (of_code (get_state cp)))
  zero_your_discr-rfc v zero = (
    (
      λ p. elim (check_session_iff.0 p.1) [ inl k ↦ absurd (k zero) | inr e ↦ e ],
      λ e. (check_pkt_complete mlen cp v, check_session_iff.1 (inr e)),
    ),
    (
      λ r. elim r.early [ inl k ↦ absurd (k zero) | inr e ↦ e ],
      λ e. record { valid = v; early = inr e },
    ),
  )

-- A packet of at most 24 bytes, which is the size of the receive buffer, with the authentication
-- bit never passes the checks: the later test for it in `bfdRcvPkt` is never reached with the bit
-- set.
pub check_pkt_auth :
    (mlen : ℕ) (cp : Bytes) → mlen ≤ min_pkt_len → check_pkt mlen cp ≡ none → get_auth cp ≡ 0
check_pkt_auth mlen cp fits h = ground (arith, check_pkt_sound mlen cp h)

-- A packet that a session whose fields fit their C types sends, whole or cut, passes the checks
-- exactly when it arrives whole and the session's detection multiplier and discriminator are not
-- zero.
pub control_pkt-passes :
    (s : SessionInt) (fbit mlen : ℕ)
    → FitsPacket s
    → (check_pkt mlen (control_pkt s fbit) ≡ none)
      ↔ ((min_pkt_len ≤ mlen) × (s.sn.detect_mult ≢ 0) × (s.local_discr ≢ 0))
control_pkt-passes s fbit mlen fits = (
  λ h. ground (arith, control_pkt-Carries s fbit fits, check_pkt_sound mlen (control_pkt s fbit) h),
  λ h.
      check_pkt_complete mlen (control_pkt s fbit)
        (ground (arith, control_pkt-Carries s fbit fits)),
)
