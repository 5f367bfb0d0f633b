-- ===== src/Sessions/Loops.antt =====
-- The loops over `sessionList`, one session at a time, and where the list leads to nothing.
use free_bfd.Base.{
  ℕ, suc, ◌≡◌, ◌≢◌, refl, arith, ap, ◌∙◌, false, inl, inr, none, some, Bool-cases, ◌==◌,
}
use free_bfd.Session.{is, admin_down, SessionInt, Ptr, null, Timers, Ctx}
use free_bfd.Session.Timeout.{toggle_session, admin_down_fields}
use free_bfd.Session.Timeout.Admin.{toggle_off, toggle_on}
use free_bfd.Sessions.{done, fault, load, World, on_session, ctx, put_ctx}
use free_bfd.Sessions.Arrivals.{for_all_from}

module _ {T : Type 0} (timers : Timers T) (random : ℕ → ℕ) where
  pub toggle_session_links :
      (c : Ctx T)
      → ((toggle_session timers random c).bfd.list_next ≡ c.bfd.list_next)
        × ((toggle_session timers random c).self ≡ c.self)
  unfolding admin_down_fields
  toggle_session_links c = elim (Bool-cases (is c.bfd.session_state admin_down)) [
    | inl off ↦ rw (toggle_on timers random c off) (refl, refl)
    | inr on ↦ rw (toggle_off timers random c on) (refl, refl)
  ]

module _ {T A : Type 0} (f : Ctx T → Ctx T) (p : Ptr) (w : World T A) where
  on_session-done :
      (s : SessionInt) → w.heap p ≡ some s → on_session f p w ≡ done (put_ctx (f (ctx p s w)) w)
  unfolding on_session
  on_session-done s at =
      let loaded : load p w.heap ≡ done s = ground (arith, at) in rw (loaded, on_session) refl

  on_session_fault : w.heap p ≡ none → on_session f p w ≡ fault
  unfolding on_session
  on_session_fault gone =
      let lost : load p w.heap ≡ fault = ground (arith, gone) in rw (lost, on_session) refl

module _ {T A : Type 0} (f : Ctx T → Ctx T) (p : Ptr) (w : World T A) where
  for_all_from_step :
      (fuel : ℕ) (w1 : World T A) (s1 : SessionInt)
      → p ≢ null
      → on_session f p w ≡ done w1
      → load p w1.heap ≡ done s1
      → for_all_from f (suc fuel) p w ≡ for_all_from f fuel s1.list_next w1
  unfolding for_all_from
  for_all_from_step fuel w1 s1 ne ran loaded =
      let head : (p == null) ≡ false = ground arith in rw (head, for_all_from, ran, loaded) refl

  for_all_from_fault :
      (fuel : ℕ) → p ≢ null → on_session f p w ≡ fault → for_all_from f (suc fuel) p w ≡ fault
  unfolding for_all_from
  for_all_from_fault fuel ne failed =
      let head : (p == null) ≡ false = ground arith in rw (head, for_all_from, failed) refl

module _ {T A : Type 0} (f : Ctx T → Ctx T) (p : Ptr) (w : World T A) where
  -- A list that leads from a session to an address where none is, for a body that leaves the links.
  pub for_all_from_dangles :
      (s : SessionInt) (fuel : ℕ)
      → p ≢ null
      → w.heap p ≡ some s
      → s.list_next ≢ null
      → s.list_next ≢ p
      → w.heap s.list_next ≡ none
      → ((f (ctx p s w)).bfd.list_next ≡ s.list_next) × ((f (ctx p s w)).self ≡ p)
      → for_all_from f (suc (suc fuel)) p w ≡ fault
  unfolding put_ctx
  for_all_from_dangles s fuel ne at more apart gone keeps =
      let c = f (ctx p s w) in
      let w1 = put_ctx c w in
      let lost : w1.heap s.list_next ≡ none = ground (arith, keeps) in
      let back : load p w1.heap ≡ done c.bfd = ground (arith, keeps) in
      for_all_from_step f p w (suc fuel) w1 c.bfd ne (on_session-done f p w s at) back
      ∙ ap (λ q. for_all_from f (suc fuel) q w1) keeps.0
      ∙ for_all_from_fault f s.list_next w1 fuel more (on_session_fault f s.list_next w1 lost)
