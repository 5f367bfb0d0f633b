-- ===== src/Monitor/Owned.antt =====
-- src/monitor/bfdmonServer.c: the monitors in the trees of the connections are objects that are
-- there, each in one place of one tree.
use free_bfd.Base.{ℕ, ◌≡◌, ◌≢◌, arith, Option, none, some, List, inl, inr, Option-cases}
use free_bfd.Session.{Ptr, null}
use free_bfd.Trees.{Index, All}
use free_bfd.Trees.Items.{All-map, AllApart}
use free_bfd.Monitor.{Monitor, Connection, monitor_compare, Server, Alloc, new_at, in_use}

abbrev pub Apart : Monitor → Monitor → Type 0
Apart m n = m.at ≢ n.at

-- A monitor in the tree of the connection at `q`; `owner` tells the connection of each monitor.
pub record IsOwned (f : Ptr → Option Monitor) (owner : Ptr → Ptr) (q : Ptr) (sock : ℕ) (m : Monitor)
    : Type 0 where
  pub live : f m.at ≡ some m
  pub same_sock : m.sock ≡ sock
  pub owned : owner m.at ≡ q
  pub subscribed : m.bfd_sub_handle ≢ null
  pub real : m.at ≢ null

-- The connection at `q`.
pub record IsConnection {M : Type 0} (monitors : Index Monitor monitor_compare M)
    (f : Ptr → Option Monitor) (owner : Ptr → Ptr) (q : Ptr) (conn : Connection M) : Type 0 where
  pub a_conn : q ≢ null
  pub own : All (IsOwned f owner q conn.sock) (monitors.items conn.monitor_tree)
  pub once : AllApart Apart (monitors.items conn.monitor_tree)

-- All connections.
pub record IsServer {W M C : Type 0} (monitors : Index Monitor monitor_compare M)
    (owner : Ptr → Ptr) (s : Server W M C) : Type 0 where
  pub each :
      (q : Ptr) (conn : Connection M)
      → s.connections q ≡ some conn
      → IsConnection monitors s.monitors owner q conn

-- A monitor that is there is not at an address where nothing is.
away :
    (f : Ptr → Option Monitor) (owner : Ptr → Ptr) (q p : Ptr) (sock : ℕ) (m : Monitor)
    → f p ≡ none
    → IsOwned f owner q sock m
    → m.at ≢ p
away f owner q p sock m free o e = ground (arith, o.live, free, e)

pub All-away :
    (f : Ptr → Option Monitor) (owner : Ptr → Ptr) (q p : Ptr) (sock : ℕ) (ms : List Monitor)
    → f p ≡ none
    → All (IsOwned f owner q sock) ms
    → All (λ m. m.at ≢ p) ms
All-away f owner q p sock ms free all =
    All-map (IsOwned f owner q sock) (λ m. m.at ≢ p) ms (λ m o. away f owner q p sock m free o) all

-- The address of a new object is no monitor's.
pub new_at-free :
    {W M C : Type 0} (alloc : Alloc) (s : Server W M C)
    → new_at alloc s ≢ null
    → s.monitors (new_at alloc s) ≡ none
new_at-free alloc s real = elim (alloc.fresh (in_use s) s.allocs) [
  | inl is_null ↦ absurd (real is_null)
  | inr free ↦ elim (Option-cases (s.monitors (new_at alloc s))) [
    | inl e ↦ e
    | inr (m, e) ↦ absurd (ground (arith, free, e))
  ]
]
