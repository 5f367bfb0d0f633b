-- ===== src/Monitor/Repeated.antt =====
-- src/monitor/bfdmonServer.c: a subscription, the same one again, and its end.
use mathlib.Core.Path.{subst}
use free_bfd.Base.{
  suc, ◌≡◌, ◌≢◌, refl, sym, arith, ap, ◌∙◌, none, some, ◌∷◌, ◌++◌, true, false, inl, inr, ◌==◌,
  Bool-cases,
}
use free_bfd.Session.{BfdSession, Ptr, null}
use free_bfd.Sessions.{done}
use free_bfd.Utils.{is_zero}
use free_bfd.Utils.Compare.{IsId, SameId, session_compare-SameId_iff}
use free_bfd.Trees.{Index, IsOrder, All}
use free_bfd.Trees.Items.{All-map, take_out_once}
use free_bfd.Json.{Json, Inet, read_session_id}
use free_bfd.Monitor.{
  Monitor, Connection, ConnectionItem, monitor_compare, connection_compare, Core, Server, Alloc,
  new_at, write, monitor_create_copy, monitor_destroy,
}
use free_bfd.Monitor.Owned.{IsServer, All-away, new_at-free}
use free_bfd.Monitor.Commands.{
  request, zero_session, asked, subscribe_copy, subscribe_new, subscribe_found, handler_subscribe,
  unsubscribe_found, handler_unsubscribe,
}

compare_same :
    (m n : Monitor)
    → m.sock ≡ n.sock
    → IsId m.sn
    → IsId n.sn
    → SameId m.sn n.sn
    → is_zero (monitor_compare m n) ≡ true
unfolding monitor_compare
compare_same m n sock im in_ same =
    let zero = (session_compare-SameId_iff m.sn n.sn im in_).1 same in ground (arith, sock, zero)

module _ {W M C J : Type 0} (core : Core W) (alloc : Alloc)
    (monitors : Index Monitor monitor_compare M)
    (connections : Index ConnectionItem connection_compare C) (json : Json J) (inet : Inet)
    (owner : Ptr → Ptr) (s : Server W M C) (good : IsServer monitors owner s) (q : Ptr)
    (conn : Connection M) (at : s.connections q ≡ some conn) (jso again : J) (sn sn2 : BfdSession)
    (h : Ptr) (w w2 : W) where
  abbrev p : Ptr
  p = new_at alloc s

  abbrev find : Monitor
  find = request conn.sock sn

  abbrev mon : Monitor
  mon = record find { at = p; bfd_sub_handle = h }

  abbrev tree : M
  tree = monitors.insert mon conn.monitor_tree

  abbrev conn1 : Connection M
  conn1 = record conn { monitor_tree = tree }

  abbrev s1 : Server W M C
  s1 = record s {
    core = w;
    monitors = write p (some mon) (write p (some (record find { at = p })) s.monitors);
    connections = write q (some conn1) s.connections;
    allocs = suc s.allocs;
  }

  -- What the two requests and the calls of the sessions give.
  pub record Requested : Type 0 where
    pub first : asked json inet conn.sock jso ≡ some find
    pub second : read_session_id json inet again zero_session ≡ some sn2
    pub id : IsId sn
    pub id2 : IsId sn2
    pub same : SameId sn2 sn
    pub absent : monitors.find find conn.monitor_tree ≡ none
    pub ordered : IsOrder monitor_compare (mon ∷ find ∷ monitors.items conn.monitor_tree)
    pub ordered2 :
        IsOrder monitor_compare (mon ∷ request conn.sock sn2 ∷ monitors.items conn.monitor_tree)
    pub room : p ≢ null
    pub given : h ≢ null
    pub subscribed : core.subscribe sn p s.core ≡ done (h, w)
    pub unsubscribed : core.unsubscribe h w ≡ done w2

  module _ (r : Requested) where
    still : monitors.find mon conn.monitor_tree ≡ none
    unfolding monitor_compare
    still = monitors.find_same mon find conn.monitor_tree (λ x. refl) ∙ r.absent

    found :
        (k : Monitor)
        → IsOrder monitor_compare (mon ∷ k ∷ monitors.items conn.monitor_tree)
        → is_zero (monitor_compare k mon) ≡ true
        → monitors.find k tree ≡ some mon
    found k order zero = monitors.find-insert mon k conn.monitor_tree order still zero

    subscribes :
        handler_subscribe core alloc monitors connections json inet q conn jso s ≡ done (some s1)
    unfolding handler_subscribe subscribe_found subscribe_new subscribe_copy monitor_create_copy
    subscribes =
        let off : (p == null) ≡ false = ground (arith, r.room) in
        let on : (h == null) ≡ false = ground (arith, r.given) in
        rw
          (
            r.first, handler_subscribe, r.absent, subscribe_found, off, subscribe_new,
            monitor_create_copy, subscribe_copy, r.subscribed, on,
          )
          refl

    stays :
        handler_subscribe core alloc monitors connections json inet q conn1 jso s1 ≡ done (some s1)
    unfolding handler_subscribe subscribe_found
    stays =
        let there =
          found find r.ordered (compare_same find mon refl r.id r.id (refl, refl, refl, refl)) in
        rw (r.first, handler_subscribe, there, subscribe_found) refl

    abbrev tree2 : M
    tree2 = (monitors.delete (request conn.sock sn2) tree).1

    abbrev s2 : Server W M C
    s2 = record s1 {
      core = w2;
      monitors = write p none s1.monitors;
      connections = write q (some (record conn { monitor_tree = tree2 })) s1.connections;
    }

    found2 : monitors.find (request conn.sock sn2) tree ≡ some mon
    found2 =
        found (request conn.sock sn2) r.ordered2
          (compare_same (request conn.sock sn2) mon refl r.id2 r.id r.same)

    unsubscribes :
        handler_unsubscribe core alloc monitors connections json inet q conn1 again s1
        ≡ done (some s2)
    unfolding handler_unsubscribe unsubscribe_found monitor_destroy
    unsubscribes =
        let off : (p == null) ≡ false = ground (arith, r.room) in
        let taken = monitors.delete-find (request conn.sock sn2) tree ∙ found2 in
        rw
          (
            r.second, handler_unsubscribe, taken, unsubscribe_found, r.unsubscribed,
            monitor_destroy, off,
          )
          refl

    same_items : monitors.items tree2 ≡ monitors.items conn.monitor_tree
    same_items =
        let (xs, ys, before, with_it) = monitors.insert_new mon conn.monitor_tree still in
        let (us, vs, full, without) =
          monitors.delete_there (request conn.sock sn2) mon tree found2 in
        let free = new_at-free alloc s r.room in
        let far =
          All-away s.monitors owner q p conn.sock (monitors.items conn.monitor_tree) free
            (good.each q conn at).own in
        let others : All (λ m. m ≢ mon) (xs ++ ys) = subst (All (λ m. m ≢ mon)) before (
          All-map (λ m. m.at ≢ p) (λ m. m ≢ mon) (monitors.items conn.monitor_tree)
            (λ m away e. away (ap (λ m. m.at) e)) far) in
        without ∙ sym (take_out_once mon xs ys us vs others (sym with_it ∙ full)) ∙ sym before

    -- A connection asks for a session that it did not ask for before, and the session gives a
    -- subscription: that is so once; to ask again changes nothing; and a request to unsubscribe
    -- with the same addresses and ports takes just that subscription back, frees its monitor, and
    -- leaves the other monitors of the connection as they were. The comparison has to order the
    -- monitors that are compared.
    pub subscribe-handler_unsubscribe :
        (handler_subscribe core alloc monitors connections json inet q conn jso s ≡ done (some s1))
        × (handler_subscribe core alloc monitors connections json inet q conn1 jso s1
            ≡ done (some s1))
        × (handler_unsubscribe core alloc monitors connections json inet q conn1 again s1
            ≡ done (some s2))
        × (s2.connections q ≡ some (record conn { monitor_tree = tree2 }))
        × (monitors.items tree2 ≡ monitors.items conn.monitor_tree)
        × ((m : Ptr) → s2.monitors m ≡ s.monitors m)
    subscribe-handler_unsubscribe =
        let here : (q == q) ≡ true = ground arith in
        let free = new_at-free alloc s r.room in
        (
          subscribes,
          stays,
          unsubscribes,
          rw here refl,
          same_items,
          λ m. elim (Bool-cases (p == m)) [ inl e ↦ ground (arith, free, e) | inr e ↦ rw e refl ],
        )
