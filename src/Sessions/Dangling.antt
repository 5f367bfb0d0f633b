-- ===== src/Sessions/Dangling.antt =====
-- What is left of `sessionList` after an older session was removed.
use free_bfd.Base.{
  Bool, ℕ, suc, ◌≡◌, ◌≢◌, ◌⊎◌, refl, arith, ap, ◌∙◌, true, false, inl, inr, none, some, [], ◌∷◌,
  Bool-cases, ◌==◌,
}
use free_bfd.Session.{SessionInt, Ptr, null, detect, xmt, timer, Timers}
use free_bfd.Session.Timeout.{toggle_session}
use free_bfd.Sockets.{Kernel, socket_close}
use free_bfd.Sessions.{done, fault, Heap, store, load, World, mk_hkey, ctx}
use free_bfd.Sessions.Lookup.{Member, discr, Chain, IsTables}
use free_bfd.Sessions.Lifecycle.{rm_from, rm_from_list, rm_session, set_bucket}
use free_bfd.Sessions.Remove.{no_next, rm_from_list_head}
use free_bfd.Sessions.Arrivals.{toggle_admin_down}
use free_bfd.Sessions.Loops.{toggle_session_links, for_all_from_dangles}

same_next :
    (p : Ptr) (h : Heap) (s t : SessionInt)
    → h p ≡ some s
    → h p ≡ some t
    → s.hash_next ≡ null
    → t.hash_next ≡ null
same_next p h s t at_s at_t e = ground arith

-- A session that is not in the list, which has one session as far as `HashNext` goes.
rm_from_list_missing :
    (fuel : ℕ) (q p : Ptr) (h : Heap) (s bfd : SessionInt)
    → q ≢ null
    → h p ≡ some bfd
    → h q ≡ some s
    → (s.local_discr == bfd.local_discr) ≡ false
    → s.hash_next ≡ null
    → rm_from_list (suc (suc fuel)) q p h ≡ done (false, q, h)
unfolding rm_from_list rm_from
rm_from_list_missing fuel q p h s bfd ne at first differ last =
    ground (arith, at, first, differ, last)

module _ {T A : Type 0} (timers : Timers T) (random : ℕ → ℕ) (kernel : Kernel) (receiver : A)
    (calloc : ℕ → Ptr) (w : World T A) where
  rm_session_steps :
      (p : Ptr) (s : SessionInt) (fuel : ℕ) (a b c : Bool × Ptr)
      → let bfd = (socket_close s w.sockets).0 in
        let h = store p (some bfd) w.heap in
        w.heap p ≡ some s
        → rm_from_list fuel (w.session_hash (mk_hkey s.local_discr)) p h ≡ done (a.0, a.1, h)
        → rm_from_list fuel (w.peer_hash (mk_hkey s.sn.peer_addr)) p h ≡ done (b.0, b.1, h)
        → rm_from_list fuel w.session_list p h ≡ done (c.0, c.1, h)
        → rm_session timers random kernel receiver calloc fuel p w
          ≡ done (record w {
            session_hash = set_bucket w.session_hash (mk_hkey s.local_discr) a.1;
            peer_hash = set_bucket w.peer_hash (mk_hkey s.sn.peer_addr) b.1;
            session_list = c.1;
            heap = store p none h;
            sockets = (socket_close s w.sockets).1;
            timers = timers.stop (timer p detect) (timers.stop (timer p xmt) w.timers);
          })
  unfolding rm_session socket_close
  rm_session_steps p s fuel a b c at first second third =
      let loaded : load p w.heap ≡ done s = ground (arith, at) in
      rw (loaded, rm_session, first, second, third) refl

module _ {T A : Type 0} (timers : Timers T) (random : ℕ → ℕ) (kernel : Kernel) (receiver : A)
    (calloc : ℕ → Ptr) (w : World T A) (b a : Member) (fuel : ℕ) where
  -- The facts that the tables give of the two sessions at `b.at` and `a.at`.
  record Two (sb sa : SessionInt) : Type 0 where
    at_b : w.heap b.at ≡ some sb
    at_a : w.heap a.at ≡ some sa
    away : (a.at == b.at) ≡ false
    some_b : b.at ≢ null
    some_a : a.at ≢ null
    list_b : w.session_list ≡ b.at
    to_a : sb.list_next ≡ a.at
    differ : (sb.local_discr == sa.local_discr) ≡ false
    last_b : sb.hash_next ≡ null
    last_a : sa.hash_next ≡ null
    bucket_a : w.session_hash (mk_hkey sa.local_discr) ≡ a.at
    peers :
        (w.peer_hash (mk_hkey sa.sn.peer_addr) ≡ b.at)
        ⊎ (w.peer_hash (mk_hkey sa.sn.peer_addr) ≡ a.at)

  two :
      IsTables w (b ∷ a ∷ [])
      → (mk_hkey (discr b) == mk_hkey (discr a)) ≡ false
      → (sb : SessionInt) × (sa : SessionInt) × Two sb sa
  two good apart =
      let (list_b, some_b, linked_b) = good.all in
      let (sb, at_b, holds_b, rest) = linked_b in
      let (to_a, some_a, linked_a) = rest in
      let (sa, at_a, holds_a, last) = linked_a in
      let k = mk_hkey sa.local_discr in
      let pk = mk_hkey sa.sn.peer_addr in
      let not_b : (mk_hkey (discr b) == k) ≡ false = ground (arith, holds_a, apart) in
      let yes_a : (mk_hkey (discr a) == k) ≡ true = ground (arith, holds_a) in
      let not_a : (mk_hkey (discr a) == mk_hkey (discr b)) ≡ false = ground (arith, apart) in
      let peer_a : (mk_hkey a.sn.peer_addr == pk) ≡ true = ground (arith, holds_a) in
      let d : Chain (λ s. s.hash_next) w.heap (w.session_hash k) (a ∷ []) =
        rw (not_b, yes_a) at (good.by_discr k) in
      let (s1, held, holds, next) = d.2 in
      let q = good.by_peer pk in
      (
        sb,
        sa,
        record {
          at_b = at_b;
          at_a = at_a;
          away = ground (arith, apart);
          some_b = some_b;
          some_a = some_a;
          list_b = list_b;
          to_a = to_a;
          differ = ground (arith, holds_a, holds_b, apart);
          last_b =
              no_next timers random kernel receiver calloc w b (a ∷ []) sb good at_b
                (rw not_a refl);
          last_a = same_next a.at w.heap s1 sa held at_a next;
          bucket_a = d.0;
          peers = elim (Bool-cases (mk_hkey b.sn.peer_addr == pk)) [
            | inl same ↦ inl (rw same at q).0
            | inr other ↦ inr (rw (other, peer_a) at q).0
          ];
        },
      )

  module _ (sb sa : SessionInt) (f : Two sb sa) where
    abbrev bfd : SessionInt
    bfd = (socket_close sa w.sockets).0

    abbrev h : Heap
    h = store a.at (some bfd) w.heap

    from_a : rm_from_list (suc (suc fuel)) a.at a.at h ≡ done (true, bfd.hash_next, h)
    from_a = rm_from_list_head (suc fuel) a.at h bfd f.some_a (ground arith)

    from_b : rm_from_list (suc (suc fuel)) b.at a.at h ≡ done (false, b.at, h)
    unfolding socket_close
    from_b =
        rm_from_list_missing fuel b.at a.at h sb bfd f.some_b (ground arith)
          (ground (arith, f.at_a, f.at_b, f.differ)) f.differ f.last_b

    from_peer :
        (x : Bool × Ptr) × (rm_from_list
            (suc (suc fuel))
            (w.peer_hash (mk_hkey sa.sn.peer_addr))
            a.at
            h
          ≡ done (x.0, x.1, h))
    from_peer = elim f.peers [
      | inl e ↦ ((false, b.at), rw e from_b)
      | inr e ↦ ((true, bfd.hash_next), rw e from_a)
    ]

  -- Where the tables hold two sessions in different buckets of `sessionHash`, and the older one
  -- is removed: the newer one stays in `sessionList` and still leads to the freed one, so that
  -- SIGUSR2, whose handler goes through the list, uses freed memory.
  pub rm_session_dangles :
      IsTables w (b ∷ a ∷ [])
      → (mk_hkey (discr b) == mk_hkey (discr a)) ≡ false
      → (w1 : World T A) × (rm_session timers random kernel receiver calloc (suc (suc fuel)) a.at w
          ≡ done w1)
        × (w1.session_list ≡ b.at)
        × (w1.heap a.at ≡ none)
        × (toggle_admin_down timers random (suc (suc fuel)) w1 ≡ fault)
  unfolding toggle_admin_down ctx
  rm_session_dangles good apart =
      let (sb, sa, f) = two good apart in
      let (x, second) = from_peer sb sa f in
      let w1 : World T A = record w {
        session_hash = set_bucket w.session_hash (mk_hkey sa.local_discr) (bfd sb sa f).hash_next;
        peer_hash = set_bucket w.peer_hash (mk_hkey sa.sn.peer_addr) x.1;
        session_list = b.at;
        heap = store a.at none (h sb sa f);
        sockets = (socket_close sa w.sockets).1;
        timers = timers.stop (timer a.at detect) (timers.stop (timer a.at xmt) w.timers);
      } in
      (
        w1,
        rm_session_steps timers random kernel receiver calloc w a.at sa (suc (suc fuel))
            (true, (bfd sb sa f).hash_next) x (false, b.at) f.at_a
            (ap (λ q. rm_from_list (suc (suc fuel)) q a.at (h sb sa f)) f.bucket_a ∙ from_a sb sa f)
            second (rw f.list_b (from_b sb sa f)),
        refl,
        ground arith,
        for_all_from_dangles (toggle_session timers random) b.at w1 sb fuel f.some_b
            (ground (arith, f.away, f.at_b)) (rw f.to_a f.some_a) (ground (arith, f.away, f.to_a))
            (ground (arith, f.to_a)) (toggle_session_links timers random (ctx b.at sb w1)),
      )
