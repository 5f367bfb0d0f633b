-- ===== src/Sessions/Process.antt =====
-- All that happens to the sessions of a process between creations and removals, in any order.
use free_bfd.Base.{ℕ, ◌<◌, ◌≡◌, refl, List, [], ◌∷◌, length}
use free_bfd.Session.{Ptr, Kind, Timers}
use free_bfd.Sessions.{Run, done, ◌and_then◌, World}
use free_bfd.Sessions.Lookup.{Member, IsTables}
use free_bfd.Sessions.Arrivals.{
  Arrival, rcv_pkt, expire_timer, start_poll_sequence, toggle_admin_down,
}
use free_bfd.Sessions.Stored.{HasMember}
use free_bfd.Sessions.Kept.{
  KeepsTables, rcv_pkt-KeepsTables, expire_timer-KeepsTables, start_poll_sequence-KeepsTables,
  toggle_admin_down-KeepsTables,
}

-- A packet arrives, a timer of the session at an address expires, or a signal is caught.
pub data Happening : Type 0 where
  arrives : Arrival → Happening
  expires : Kind → Ptr → Happening
  poll_request toggle_request : Happening

-- A timer that expires is the timer of a session.
abbrev pub Occurs : Happening → List Member → Type 0
Occurs (expires kind p) ms = HasMember p ms
Occurs _ ms = Unit {0}

abbrev pub AllOccur : List Happening → List Member → Type 0
AllOccur [] ms = Unit {0}
AllOccur (e ∷ es) ms = Occurs e ms × AllOccur es ms

module _ {T A : Type 0} (timers : Timers T) (random : ℕ → ℕ) (fuel : ℕ) where
  unfoldable pub happen : Happening → World T A → Run (World T A)
  happen (arrives msg) w = rcv_pkt timers random fuel msg w
  happen (expires kind p) w = expire_timer timers random kind p w
  happen poll_request w = start_poll_sequence timers random fuel w
  happen toggle_request w = toggle_admin_down timers random fuel w

  unfoldable pub happen_all : List Happening → World T A → Run (World T A)
  happen_all [] w = done w
  happen_all (e ∷ es) w = happen e w and_then λ w1. happen_all es w1

module _ {T A : Type 0} (timers : Timers T) (random : ℕ → ℕ) (ms : List Member) (fuel : ℕ)
    (enough : length ms < fuel) where
  happen-KeepsTables :
      (e : Happening) (w : World T A)
      → IsTables w ms
      → Occurs e ms
      → KeepsTables ms (happen timers random fuel e w)
  unfolding happen
  happen-KeepsTables (arrives msg) w good o =
      rcv_pkt-KeepsTables timers random w ms fuel good enough msg
  happen-KeepsTables (expires kind p) w good o =
      expire_timer-KeepsTables timers random w ms fuel good enough kind p o
  happen-KeepsTables poll_request w good o =
      start_poll_sequence-KeepsTables timers random w ms fuel good enough
  happen-KeepsTables toggle_request w good o =
      toggle_admin_down-KeepsTables timers random w ms fuel good enough

  -- Whatever packets arrive, timers expire and signals are caught, in any order, where the tables
  -- hold some sessions and the timers that expire are theirs: no pointer to nothing is used,
  -- every loop ends within more steps than there are sessions, and the tables hold the same
  -- sessions afterwards.
  pub happen_all-IsTables :
      (es : List Happening) (w : World T A)
      → IsTables w ms
      → AllOccur es ms
      → (w1 : World T A) × (happen_all timers random fuel es w ≡ done w1) × IsTables w1 ms
  unfolding happen_all
  happen_all-IsTables [] w good o = (w, refl, good)
  happen_all-IsTables (e ∷ es) w good o =
      let (w1, ran, good1) = happen-KeepsTables e w good o.0 in
      let (w2, all, good2) = happen_all-IsTables es w1 good1 o.1 in
      (w2, rw (ran, happen_all) all, good2)
