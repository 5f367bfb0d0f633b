-- ===== src/Sessions/Kept.antt =====
-- What happens to the sessions of a process leaves the tables as they are, and uses no pointer to
-- nothing.
use free_bfd.Base.{
  ℕ, ◌≡◌, ◌<◌, ◌⊎◌, refl, arith, Bool, inl, inr, List, [], ◌∷◌, length, Bool-cases, Option-cases,
  ◌==◌, if◌then◌else◌, ℤ, pos, negsuc,
}
use free_bfd.Packet.{Bytes, get_your_discr}
use free_bfd.Session.{Ptr, null, Kind, detect, xmt, Timers, Ctx}
use free_bfd.Session.Receive.{check_pkt}
use free_bfd.Session.Invariant.{
  receives, detect_expires, xmt_expires, poll_signal, toggle_signal, handle,
}
use free_bfd.Session.Links.{StaysLinked, handle-StaysLinked}
use free_bfd.Sessions.{Run, done, World, on_session, get_session}
use free_bfd.Sessions.Lookup.{Member, discr, first_at, IsTables, get_session_lem}
use free_bfd.Sessions.Arrivals.{
  Arrival, good_ttl, rcv_pkt, expire_timer, start_poll_sequence, toggle_admin_down,
}
use free_bfd.Sessions.Stored.{HasMember, on_session-Ran, for_all_from-IsTables}

ℤ-cases : (z : ℤ) → ((n : ℕ) × (z ≡ pos n)) ⊎ ((n : ℕ) × (z ≡ negsuc n))
ℤ-cases (pos n) = inl (n, refl)
ℤ-cases (negsuc n) = inr (n, refl)

-- The address that a lookup gives is null or that of a session of the list.
first_at-HasMember :
    (test : Member → Bool) (ms : List Member) (p : Ptr)
    → p ≡ first_at test ms
    → (p ≡ null) ⊎ HasMember p ms
first_at-HasMember test [] p e = inl e
first_at-HasMember test (m ∷ ms) p e = elim (Bool-cases (test m)) [
  | inl passes ↦ inr (inl (rw passes at e))
  | inr fails ↦ elim (first_at-HasMember test ms p (rw fails at e)) [
    | inl gone ↦ inl gone
    | inr has ↦ inr (inr has)
  ]
]

-- It is done, and the tables hold the sessions of the list.
abbrev pub KeepsTables : {T A : Type 0} → List Member → Run (World T A) → Type 0
KeepsTables {T} {A} ms r = (w1 : World T A) × (r ≡ done w1) × IsTables w1 ms

module _ {T A : Type 0} (timers : Timers T) (random : ℕ → ℕ) (w : World T A) (ms : List Member)
    (fuel : ℕ) (good : IsTables w ms) (enough : length ms < fuel) where
  on_member :
      (f : Ctx T → Ctx T) (p : Ptr)
      → ((c : Ctx T) → StaysLinked (f c) c)
      → HasMember p ms
      → KeepsTables ms (on_session f p w)
  on_member f p stays has =
      let (w1, ran, keeps) = on_session-Ran f stays p w ms good has in (w1, ran, keeps.tables)

  found_session :
      (cp : Bytes) (addr : ℕ)
      → (p : Ptr) × (get_session fuel cp addr w ≡ done p) × ((p ≡ null) ⊎ HasMember p ms)
  found_session cp addr =
      let wanted = λ (m : Member).
        if get_your_discr cp == 0 then m.sn.peer_addr == addr else discr m == get_your_discr cp in
      (
        first_at wanted ms,
        get_session_lem w ms fuel good enough cp addr,
        first_at-HasMember wanted ms (first_at wanted ms) refl,
      )

  pub rcv_pkt-KeepsTables : (msg : Arrival) → KeepsTables ms (rcv_pkt timers random fuel msg w)
  unfolding rcv_pkt handle
  rcv_pkt-KeepsTables msg = elim (ℤ-cases msg.mlen) [
    | inr (n, failed) ↦ rw (failed, rcv_pkt) (w, refl, good)
    | inl (mlen, came) ↦ elim (Bool-cases (good_ttl msg.cmsgs)) [
      | inr far ↦ rw (came, far, rcv_pkt) (w, refl, good)
      | inl near ↦ elim (Option-cases (check_pkt mlen msg.buf)) [
        | inr (why, bad) ↦ rw (came, near, bad, rcv_pkt) (w, refl, good)
        | inl pass ↦
            let (p, found, here) = found_session msg.buf msg.addr in
            elim (Bool-cases (p == null)) [
              | inl no_session ↦ rw (came, near, pass, rcv_pkt, found, no_session) (w, refl, good)
              | inr a_session ↦
                  let has : HasMember p ms = elim here [
                    | inl e ↦ absurd (ground (arith, e, a_session))
                    | inr has ↦ has
                  ] in
                  rw (came, near, pass, rcv_pkt, found, a_session)
                    (on_member (handle timers random (receives msg.buf)) p
                      (λ c. handle-StaysLinked timers random c (receives msg.buf)) has)
            ]
      ]
    ]
  ]

  pub expire_timer-KeepsTables :
      (kind : Kind) (p : Ptr)
      → HasMember p ms
      → KeepsTables ms (expire_timer timers random kind p w)
  unfolding expire_timer handle
  expire_timer-KeepsTables detect p has =
      on_member (handle timers random detect_expires) p
        (λ c. handle-StaysLinked timers random c detect_expires) has
  expire_timer-KeepsTables xmt p has =
      on_member (handle timers random xmt_expires) p
        (λ c. handle-StaysLinked timers random c xmt_expires) has

  pub start_poll_sequence-KeepsTables : KeepsTables ms (start_poll_sequence timers random fuel w)
  unfolding start_poll_sequence handle
  start_poll_sequence-KeepsTables =
      for_all_from-IsTables (handle timers random poll_signal)
        (λ c. handle-StaysLinked timers random c poll_signal) ms w.session_list w ms fuel good
        good.all (λ p has. has) enough

  pub toggle_admin_down-KeepsTables : KeepsTables ms (toggle_admin_down timers random fuel w)
  unfolding toggle_admin_down handle
  toggle_admin_down-KeepsTables =
      for_all_from-IsTables (handle timers random toggle_signal)
        (λ c. handle-StaysLinked timers random c toggle_signal) ms w.session_list w ms fuel good
        good.all (λ p has. has) enough
