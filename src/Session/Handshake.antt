-- ===== src/Session/Handshake.antt =====
-- Two sessions that hear each other: what a packet that one sends does to the other.
use free_bfd.Base.{
  ℕ, ◌≡◌, ◌≢◌, ◌⊎◌, inl, inr, none, some, refl, ◌∙◌, arith, Bool, true, ◌==◌, if◌then◌else◌,
}
use free_bfd.Packet.{Bytes, min_pkt_len, get_your_discr}
use free_bfd.Session.{State, down, up, init, admin_down, code, of_code, SessionInt, Timers, Ctx}
use free_bfd.Session.Output.{control_pkt}
use free_bfd.Session.Output.Roundtrip.{control_pkt-Carries}
use free_bfd.Session.Receive.{check_pkt, check_session, accept, receive}
use free_bfd.Session.Receive.Logic.{rfc_next}
use free_bfd.Session.Receive.Outcome.{accept-rfc_next, accept_keeps}
use free_bfd.Session.Receive.Validity.{control_pkt-passes}
use free_bfd.Session.Invariant.{IsSession}
use free_bfd.Session.Invariant.Kept.{receive-IsSession}

-- Whether `bfdGetSession` finds this session for a packet from the address `addr`, if there is no
-- other.
unfoldable pub belongs : Bytes → ℕ → SessionInt → Bool
belongs cp addr s =
    if get_your_discr cp == 0 then s.sn.peer_addr == addr else s.local_discr == get_your_discr cp

-- `bfdRcvPkt` where this session is the only one: the checks, the search and what follows.
module _ {T : Type 0} (timers : Timers T) (random : ℕ → ℕ) where
  unfoldable pub deliver : ℕ → ℕ → Bytes → Ctx T → Ctx T
  deliver mlen addr cp c = elim (check_pkt mlen cp) [
    | some why ↦ c
    | none ↦ if belongs cp addr c.bfd then receive timers random cp c else c
  ]

-- A session that can be heard: it is well formed, and its packets pass the checks.
pub record IsAudible (s : SessionInt) : Type 0 where
  pub valid : IsSession s
  pub mult : s.sn.detect_mult ≢ 0
  pub mine : s.local_discr ≢ 0

-- Whom the receiver takes the packet from: the sender knows its discriminator, or knows none, and
-- the receiver is not yet past `down`.
abbrev pub Expects : SessionInt → SessionInt → Type 0
Expects receiver sender =
    (sender.remote_discr ≡ receiver.local_discr)
    ⊎ ((sender.remote_discr ≡ 0)
        × ((receiver.session_state ≡ down) ⊎ (receiver.session_state ≡ admin_down)))

of_code-code : (s : State) → of_code (code s) ≡ s
of_code-code admin_down = refl
of_code-code down = refl
of_code-code init = refl
of_code-code up = refl

module _ {T : Type 0} (timers : Timers T) (random : ℕ → ℕ) (s : SessionInt) (fbit : ℕ) (c : Ctx T)
    (sender : IsAudible s) (hears : IsAudible c.bfd) (heard : Expects c.bfd s) where
  abbrev cp : Bytes
  cp = control_pkt s fbit

  passes : check_session cp c.bfd ≡ none
  unfolding check_session
  passes = ground (arith, hears.mine, control_pkt-Carries s fbit sender.valid.sound.fits)

  is_found : belongs cp c.bfd.sn.peer_addr c.bfd ≡ true
  unfolding belongs
  is_found = ground (arith, hears.mine, control_pkt-Carries s fbit sender.valid.sound.fits)

  deliver-accept :
      deliver timers random min_pkt_len c.bfd.sn.peer_addr cp c ≡ accept timers random cp c
  unfolding deliver receive
  deliver-accept =
      rw
        (
          (control_pkt-passes s fbit min_pkt_len sender.valid.sound.fits).1
              (omega arith, sender.mult, sender.mine),
          deliver,
          is_found,
          passes,
          receive,
        )
        refl

  accept-receive : accept timers random cp c ≡ receive timers random cp c
  unfolding receive
  accept-receive = rw (passes, receive) refl

  -- A packet from a session that can be heard, to a session that expects it, moves the receiver
  -- by the table of the specification and the sender's state; the receiver learns the sender's
  -- discriminator and keeps its own, its parameters and its invariant.
  pub deliver-rfc_next :
      let c' = deliver timers random min_pkt_len c.bfd.sn.peer_addr cp c in
      (c'.bfd.session_state ≡ rfc_next c.bfd.session_state s.session_state)
      × (c'.bfd.remote_discr ≡ s.local_discr)
      × (c'.bfd.local_discr ≡ c.bfd.local_discr)
      × IsAudible c'.bfd
      × (c'.bfd.sn ≡ c.bfd.sn)
  deliver-rfc_next =
      let carries = control_pkt-Carries s fbit sender.valid.sound.fits in
      let same = accept-rfc_next timers random cp c in
      let kept = accept_keeps timers random cp c in
      rw deliver-accept (
        rw (carries.state, of_code-code) at same,
        kept.2 ∙ carries.mine,
        kept.1,
        record {
          valid = rw accept-receive (receive-IsSession timers random cp c hears.valid);
          mult = rw kept.0 hears.mult;
          mine = rw kept.1 hears.mine;
        },
        kept.0,
      )

module _ {T : Type 0} (timers : Timers T) (random : ℕ → ℕ) (a b : Ctx T) where
  -- `hear x y` is `y` after a packet of `x` arrived from the address of its peer.
  abbrev pub hear : Ctx T → Ctx T → Ctx T
  hear x y = deliver timers random min_pkt_len y.bfd.sn.peer_addr (control_pkt x.bfd 0) y

  abbrev pub b1 : Ctx T
  b1 = hear a b

  abbrev pub a1 : Ctx T
  a1 = hear b1 a

  -- Two sessions that are down and can be heard, each the only one of its process and the peer of
  -- the other, and the first of which knows no discriminator yet or that of the second: both are
  -- up, each knowing the other's discriminator, once a packet of the first, a packet of the second
  -- and another of the first have arrived in turn.
  pub handshake :
      IsAudible a.bfd
      → IsAudible b.bfd
      → a.bfd.session_state ≡ down
      → b.bfd.session_state ≡ down
      → (a.bfd.remote_discr ≡ 0) ⊎ (a.bfd.remote_discr ≡ b.bfd.local_discr)
      → (a1.bfd.session_state ≡ up)
        × ((hear a1 b1).bfd.session_state ≡ up)
        × (a1.bfd.remote_discr ≡ b.bfd.local_discr)
        × ((hear a1 b1).bfd.remote_discr ≡ a.bfd.local_discr)
  handshake ha hb da db fresh =
      let expected : Expects b.bfd a.bfd = elim fresh [
        | inl none_yet ↦ inr (none_yet, inl db)
        | inr known ↦ inl known
      ] in
      let first = deliver-rfc_next timers random a.bfd 0 b ha hb expected in
      let second = deliver-rfc_next timers random b1.bfd 0 a first.3 ha (inl first.1) in
      let knows : a1.bfd.remote_discr ≡ b1.bfd.local_discr = second.1 in
      let third = deliver-rfc_next timers random a1.bfd 0 b1 second.3 first.3 (inl knows) in
      ground (arith, first, second, third)
