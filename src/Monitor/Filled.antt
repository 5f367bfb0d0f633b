-- ===== src/Monitor/Filled.antt =====
-- What the monitor server uses of the sessions and of the socket actors, filled by src/core/bfd.c
-- and src/core/tp-timers.c.
use free_bfd.Base.{ℕ, pos}
use free_bfd.Session.{Ptr, Timers}
use free_bfd.Sockets.{Kernel}
use free_bfd.Sessions.{World}
use free_bfd.Sessions.Lifecycle.{subscribe, unsubscribe}
use free_bfd.TpSockets.{Skts, set_skt_actor, rm_skt_actor}
use free_bfd.Monitor.{Core, Actor}

-- `notify` is the address of `bfdMonitorNotify`, and `actor` an actor of the server among all.
module _ {T A : Type 0} (timers : Timers T) (random : ℕ → ℕ) (kernel : Kernel) (receiver : A)
    (calloc : ℕ → Ptr) (fuel : ℕ) (notify : ℕ) (actor : Actor → A) where
  abbrev with_skts : World T A → Skts A → World T A
  with_skts w skts = record w { sockets = record w.sockets { skts = skts } }

  abbrev pub session_core : Core (World T A)
  session_core = record {
    subscribe = λ sn mon w. subscribe timers random kernel receiver calloc fuel sn notify mon w;
    unsubscribe = λ h w. unsubscribe timers random kernel receiver calloc fuel h w;
    set_skt_actor = λ sock a w.
        let (res, skts) = set_skt_actor (pos sock) (actor a) w.sockets.skts in
        (res, with_skts w skts);
    rm_skt_actor = λ sock w.
        let (res, skts) = rm_skt_actor (pos sock) w.sockets.skts in (res, with_skts w skts);
  }
