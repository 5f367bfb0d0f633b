-- ===== src/Monitor/Close.antt =====
-- src/monitor/bfdmonServer.c: closing a connection takes back all of its subscriptions.
use mathlib.Core.List.Permᴰ
use free_bfd.Base.{◌≡◌, ◌≢◌, refl, arith, Option, none, some, List, [], ◌∷◌, false, ◌==◌}
use free_bfd.Session.{Ptr, null}
use free_bfd.Sessions.{Run, done, fault, out_of_fuel, ◌and_then◌}
use free_bfd.Trees.{Index, All}
use free_bfd.Trees.Items.{All-perm}
use free_bfd.Monitor.{
  Monitor, Connection, ConnectionItem, monitor_compare, connection_compare, Core, Server, write,
  Alloc, monitor_destroy, monitor_destroy_node, destroy_all, close_parts, connection_close,
}

-- To free the monitors of a list, one after the other.
abbrev pub freed : List Monitor → (Ptr → Option Monitor) → Ptr → Option Monitor
freed [] f = f
freed (m ∷ ms) f = freed ms (write m.at none f)

freed_stays :
    (ms : List Monitor) (f : Ptr → Option Monitor) (p : Ptr) → f p ≡ none → freed ms f p ≡ none
freed_stays [] f p gone = gone
freed_stays (m ∷ ms) f p gone = freed_stays ms (write m.at none f) p (ground (arith, gone))

-- None of them is there afterwards.
pub freed-gone :
    (ms : List Monitor) (f : Ptr → Option Monitor) → All (λ m. freed ms f m.at ≡ none) ms
freed-gone [] f = tt
freed-gone (m ∷ ms) f =
    let here : write m.at none f m.at ≡ none = ground arith in
    (freed_stays ms (write m.at none f) m.at here, freed-gone ms (write m.at none f))

module _ {W : Type 0} (core : Core W) where
  -- `bfdUnsubscribe` of the subscription of each.
  abbrev pub unsubscribe_all : List Monitor → W → Run W
  unsubscribe_all [] w = done w
  unsubscribe_all (m ∷ ms) w = core.unsubscribe m.bfd_sub_handle w and_then unsubscribe_all ms

chained :
    {A B X : Type 0} (r : Run A) (g : A → B) (k : B → Run B) (k1 : A → Run X) (k2 : X → Run B)
    → ((a : A) → k (g a) ≡ (k1 a and_then k2))
    → ((r and_then λ a. done (g a)) and_then k) ≡ ((r and_then k1) and_then k2)
chained (done a) g k k1 k2 same = same a
chained fault g k k1 k2 same = refl
chained out_of_fuel g k k1 k2 same = refl

pub and_then_assoc :
    {A B X : Type 0} (r : Run A) (f : A → Run B) (k : B → Run X)
    → ((r and_then f) and_then k) ≡ (r and_then λ a. f a and_then k)
and_then_assoc (done a) f k = refl
and_then_assoc fault f k = refl
and_then_assoc out_of_fuel f k = refl

module _ {W M C : Type 0} (core : Core W) where
  abbrev without : List Monitor → Server W M C → W → Run (Server W M C)
  without ms s w = done (record s { core = w; monitors = freed ms s.monitors })

  monitor_destroy_lem :
      (p : Ptr) (s : Server W M C)
      → p ≢ null
      → monitor_destroy p s ≡ record s { monitors = write p none s.monitors }
  unfolding monitor_destroy
  monitor_destroy_lem p s real =
      let off : (p == null) ≡ false = ground arith in rw (off, monitor_destroy) refl

  destroy_all_lem :
      (ms : List Monitor) (s : Server W M C)
      → All (λ m. m.at ≢ null) ms
      → destroy_all core ms s ≡ (unsubscribe_all core ms s.core and_then without ms s)
  unfolding destroy_all monitor_destroy_node
  destroy_all_lem [] s real = refl
  destroy_all_lem (m ∷ ms) s real =
      chained (core.unsubscribe m.bfd_sub_handle s.core)
        (λ w. monitor_destroy m.at (record s { core = w })) (destroy_all core ms)
        (unsubscribe_all core ms) (without (m ∷ ms) s)
        λ w.
          rw (monitor_destroy_lem m.at (record s { core = w }) real.0) (
            destroy_all_lem ms (record s { core = w; monitors = write m.at none s.monitors })
              real.1)

module _ {W M C : Type 0} (core : Core W) (alloc : Alloc)
    (monitors : Index Monitor monitor_compare M)
    (connections : Index ConnectionItem connection_compare C) where
  -- The server when a connection and its monitors are gone.
  abbrev pub closed_at : Ptr → Connection M → Server W M C → W → Server W M C
  closed_at q conn s w = record s {
    core = w;
    monitors = freed (monitors.visited conn.monitor_tree) s.monitors;
    connections = write q none s.connections;
    connection_tree =
        (connections.delete (record { at = q; sock = conn.sock }) s.connection_tree).1;
    closed = conn.sock ∷ s.closed;
  }

  -- To close a connection is to take the actor from its socket, and then to unsubscribe each of
  -- the monitors in its tree, in the order of `avl_destroy`, and to free them and the connection:
  -- none of the monitors in the tree is there any more. The connection and its monitors have
  -- addresses that are not null.
  pub connection_close_lem :
      (q : Ptr) (conn : Connection M) (s : Server W M C)
      → q ≢ null
      → s.connections q ≡ some conn
      → All (λ m. m.at ≢ null) (monitors.items conn.monitor_tree)
      → let ms = monitors.visited conn.monitor_tree in
        (connection_close core alloc monitors connections q s ≡ (
          unsubscribe_all core ms (core.rm_skt_actor conn.sock s.core).1 and_then λ w.
          done (closed_at q conn s w)))
        × ((w : W)
            → All
                (λ m. (closed_at q conn s w).monitors m.at ≡ none)
                (monitors.items conn.monitor_tree))
  unfolding connection_close close_parts
  connection_close_lem q conn s real at reals =
      let off : (q == null) ≡ false = ground arith in
      let ms = monitors.visited conn.monitor_tree in
      let all_real = All-perm (λ m. m.at ≢ null) (monitors.visited_items conn.monitor_tree) reals in
      let w = (core.rm_skt_actor conn.sock s.core).1 in
      let tree = (connections.delete (record { at = q; sock = conn.sock }) s.connection_tree).1 in
      let s1 : Server W M C = record s {
        core = w;
        connection_tree = tree;
        closed = conn.sock ∷ s.closed;
      } in
      (
        rw (off, connection_close, at, close_parts, destroy_all_lem core ms s1 all_real)
            (and_then_assoc (unsubscribe_all core ms w) (without core ms s1)
              λ s2. done (record s2 { connections = write q none s2.connections })),
        λ w.
            All-perm (λ m. freed ms s.monitors m.at ≡ none)
              (Permᴰ.symm (monitors.visited_items conn.monitor_tree)) (freed-gone ms s.monitors),
      )
