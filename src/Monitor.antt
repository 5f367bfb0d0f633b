-- ===== src/Monitor.antt =====
-- src/monitor/bfdmonServer.c: the state of the monitor server, its monitors and its connections.
-- `Core` is what it uses of the sessions (src/core/bfd.c) and of the socket actors
-- (src/core/tp-timers.c).
pub mod Commands
pub mod Close
pub mod Owned
pub mod Notify
pub mod Texts
pub mod Filled
pub mod Repeated
use free_bfd.Base.{
  ℕ, suc, Bool, true, false, Option, none, some, List, [], ◌∷◌, ℤ, pos, negsuc, sub_ℕ, ◌≡◌, ◌⊎◌,
  ltb, ◌==◌, if◌then◌else◌,
}
use free_bfd.Session.{BfdSession, Ptr, null}
use free_bfd.Sessions.{Run, done, fault, ◌and_then◌}
use free_bfd.Utils.{session_compare, is_zero}
use free_bfd.Trees.{Index}

-- `Monitor_t`, with its own address.
pub record Monitor : Type 0 where
  pub at : Ptr
  pub sock : ℕ
  pub sn : BfdSession
  pub bfd_sub_handle : Ptr

-- `Connection_t`; `M` is the type of its tree.
pub record Connection (M : Type 0) : Type 0 where
  pub sock : ℕ
  pub monitor_tree : M

-- A connection in the tree of connections.
pub record ConnectionItem : Type 0 where
  pub at : Ptr
  pub sock : ℕ

-- `bfdMonitorCompare`
unfoldable pub monitor_compare : Monitor → Monitor → ℤ
monitor_compare m1 m2 =
    let cmp = sub_ℕ m1.sock m2.sock in if is_zero cmp then session_compare m1.sn m2.sn else cmp

-- `bfdMonitorConnectionCompare`
unfoldable pub connection_compare : ConnectionItem → ConnectionItem → ℤ
connection_compare c1 c2 = sub_ℕ c1.sock c2.sock

-- The actors that the server gives to `tpSetSktActor`: `bfdMonitorConnection`, and
-- `bfdMonitorRecvPkt` with its connection.
pub data Actor : Type 0 where
  on_connection : Actor
  on_packet : Ptr → Actor

-- `bfdSubscribe` with `bfdMonitorNotify` and the monitor's address, `bfdUnsubscribe`,
-- `tpSetSktActor` and `tpRmSktActor`, on a state that is theirs.
pub record Core (W : Type 0) : Type 0 where
  pub subscribe : BfdSession → Ptr → W → Run (Ptr × W)
  pub unsubscribe : Ptr → W → Run W
  pub set_skt_actor : ℕ → Actor → W → ℤ × W
  pub rm_skt_actor : ℕ → W → ℤ × W

-- The heap as the server sees it, `connectionTree`, the sockets that it closed, and how often it
-- allocated.
pub record Server (W M C : Type 0) : Type 0 where
  pub core : W
  pub monitors : Ptr → Option Monitor
  pub connections : Ptr → Option (Connection M)
  pub connection_tree : C
  pub closed : List ℕ
  pub allocs : ℕ

abbrev pub write : {A : Type 0} → Ptr → Option A → (Ptr → Option A) → Ptr → Option A
write p v f q = if p == q then v else f q

abbrev pub is_some : {A : Type 0} → Option A → Bool
is_some none = false
is_some (some a) = true

-- `calloc`, which may fail, gives the address of no object that is there.
pub record Alloc : Type 0 where
  pub calloc : (Ptr → Bool) → ℕ → Ptr
  pub fresh : (used : Ptr → Bool) (k : ℕ) → (calloc used k ≡ null) ⊎ (used (calloc used k) ≡ false)

-- The process goes on, or it has called `exit`.
abbrev pub Outcome : Type 0 → Type 0 → Type 0 → Type 0
Outcome W M C = Run (Option (Server W M C))

module _ {W M C : Type 0} where
  abbrev pub going : Server W M C → Outcome W M C
  going s = done (some s)

  abbrev pub exited : Outcome W M C
  exited = done none

  -- The addresses in use, and a new one.
  abbrev pub in_use : Server W M C → Ptr → Bool
  in_use s p = if is_some (s.monitors p) then true else is_some (s.connections p)

  abbrev pub new_at : Alloc → Server W M C → Ptr
  new_at alloc s = alloc.calloc (in_use s) s.allocs

  -- `bfdMonitorCreateCopy`: `none` is the exit.
  unfoldable pub monitor_create_copy :
      Alloc → Monitor → Server W M C → Option (Monitor × Server W M C)
  monitor_create_copy alloc other s =
      let p = new_at alloc s in
      let mon : Monitor = record other { at = p } in
      if p == null
      then none
      else some (mon, record s { monitors = write p (some mon) s.monitors; allocs = suc s.allocs })

  -- `bfdMonitorDestroy`
  unfoldable pub monitor_destroy : Ptr → Server W M C → Server W M C
  monitor_destroy p s = if p == null then s else record s { monitors = write p none s.monitors }

module _ {W M C : Type 0} (core : Core W) where
  -- `bfdMonitorDestroyNode`
  unfoldable pub monitor_destroy_node : Monitor → Server W M C → Run (Server W M C)
  monitor_destroy_node mon s = core.unsubscribe mon.bfd_sub_handle s.core and_then λ w.
      done (monitor_destroy mon.at (record s { core = w }))

  -- `avl_destroy` with `bfdMonitorDestroyNode`, on the items of the tree in the order it visits
  -- them.
  unfoldable pub destroy_all : List Monitor → Server W M C → Run (Server W M C)
  destroy_all [] s = done s
  destroy_all (mon ∷ rest) s = monitor_destroy_node mon s and_then destroy_all rest

module _ {W M C : Type 0} (core : Core W) (alloc : Alloc)
    (monitors : Index Monitor monitor_compare M)
    (connections : Index ConnectionItem connection_compare C) where
  -- `bfdMonitorConnectionCreate`
  unfoldable pub connection_create : ℕ → Server W M C → Option (Ptr × Server W M C)
  connection_create sock s =
      let p = new_at alloc s in
      if p == null
      then none
      else some (
        p,
        record s {
          connections =
              write p (some (record { sock = sock; monitor_tree = monitors.create })) s.connections;
          connection_tree = connections.insert (record { at = p; sock = sock }) s.connection_tree;
          allocs = suc s.allocs;
        },
      )

  -- `bfdMonitorConnectionClose`, without the freeing of the connection at its end.
  unfoldable pub close_parts : Ptr → Connection M → Server W M C → Run (Server W M C)
  close_parts q conn s =
      let (found, tree) =
        connections.delete (record { at = q; sock = conn.sock }) s.connection_tree in
      let (res, w) = core.rm_skt_actor conn.sock s.core in
      destroy_all core (monitors.visited conn.monitor_tree)
        (record s { core = w; connection_tree = tree; closed = conn.sock ∷ s.closed })

  unfoldable pub connection_close : Ptr → Server W M C → Run (Server W M C)
  connection_close q s = if q == null then done s else elim (s.connections q) [
    | none ↦ fault
    | some conn ↦ close_parts q conn s and_then λ s1.
        done (record s1 { connections = write q none s1.connections })
  ]

  -- `bfdMonitorConnection`, for what `accept` gives. The result of `tpSetSktActor` is not looked
  -- at.
  unfoldable pub monitor_connection : ℤ → Server W M C → Outcome W M C
  monitor_connection (negsuc n) s = going s
  monitor_connection (pos sock) s = elim (connection_create sock s) [
    | none ↦ exited
    | some (q, s1) ↦
        let (res, w) = core.set_skt_actor sock (on_packet q) s1.core in
        going (record s1 { core = w })
  ]

  -- `bfdMonitorSetupServer`, for what `socket`, `setsockopt`, `bind` and `listen` give.
  unfoldable pub setup_server : ℤ → ℤ → ℤ → ℤ → Server W M C → Outcome W M C
  setup_server (negsuc n) reuse bound listens s = exited
  setup_server (pos sock) (negsuc n) bound listens s = exited
  setup_server (pos sock) (pos r) (negsuc n) listens s = exited
  setup_server (pos sock) (pos r) (pos b) (negsuc n) s = exited
  setup_server (pos sock) (pos r) (pos b) (pos l) s =
      let (res, w) = core.set_skt_actor sock on_connection s.core in
      going (record s { core = w; connection_tree = connections.create })
