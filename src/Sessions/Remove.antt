-- ===== src/Sessions/Remove.antt =====
-- Removing a session. The lists are followed and relinked by `HashNext`, which is right for
-- `sessionHash` alone.
use free_bfd.Base.{
  ℕ, suc, ◌≡◌, ◌≢◌, refl, arith, true, inl, inr, none, some, List, [], ◌∷◌, Bool-cases, ◌==◌,
}
use free_bfd.Session.{SessionInt, Ptr, null, detect, xmt, timer, Timers}
use free_bfd.Sockets.{Kernel, socket_close}
use free_bfd.Sessions.{done, Heap, store, load, World, mk_hkey}
use free_bfd.Sessions.Lookup.{Member, discr, Holds, Chain, those, IsTables}
use free_bfd.Sessions.Lifecycle.{rm_from, rm_from_list, rm_session, set_bucket}

-- A session at the head of a list: the list goes on with its `HashNext`.
pub rm_from_list_head :
    (fuel : ℕ) (p : Ptr) (h : Heap) (s : SessionInt)
    → p ≢ null
    → h p ≡ some s
    → rm_from_list (suc fuel) p p h ≡ done (true, s.hash_next, h)
unfolding rm_from_list rm_from
rm_from_list_head fuel p h s ne at = ground arith

-- The bucket of the newest session begins with it.
pub own_first :
    (next : SessionInt → Ptr) (h : Heap) (key : Member → ℕ) (m : Member) (ms : List Member) (k : ℕ)
    (p : Ptr)
    → key m ≡ k
    → Chain next h p (those (λ x. key x == k) (m ∷ ms))
    → Chain next h p (m ∷ those (λ x. key x == k) ms)
own_first next h key m ms k p own c = let e : (key m == k) ≡ true = ground arith in rw e at c

-- A table of one session is empty once the bucket of that session is.
only_bucket :
    (next : SessionInt → Ptr) (h : Heap) (key : Member → ℕ) (m : Member) (table : ℕ → Ptr)
    (k hkey : ℕ) (p : Ptr)
    → key m ≡ hkey
    → p ≡ null
    → Chain next h (table k) (those (λ x. key x == k) (m ∷ []))
    → set_bucket table hkey p k ≡ null
only_bucket next h key m table k hkey p own empty c = elim (Bool-cases (hkey == k)) [
  | inl here ↦ rw here empty
  | inr elsewhere ↦ rw elsewhere (rw (own, elsewhere) at c)
]

module _ {T A : Type 0} (timers : Timers T) (random : ℕ → ℕ) (kernel : Kernel) (receiver : A)
    (calloc : ℕ → Ptr) (w : World T A) (m : Member) where
  -- The world after the session `s` at `m.at` was removed from the head of each list.
  abbrev pub without : SessionInt → World T A
  without s = record w {
    session_hash = set_bucket w.session_hash (mk_hkey s.local_discr) s.hash_next;
    peer_hash = set_bucket w.peer_hash (mk_hkey s.sn.peer_addr) s.hash_next;
    session_list = s.hash_next;
    heap = store m.at none (store m.at (some (socket_close s w.sockets).0) w.heap);
    sockets = (socket_close s w.sockets).1;
    timers = timers.stop (timer m.at detect) (timers.stop (timer m.at xmt) w.timers);
  }

  pub heads :
      (ms : List Member) (s : SessionInt)
      → IsTables w (m ∷ ms)
      → w.heap m.at ≡ some s
      → (m.at ≢ null)
        × Holds m s
        × (w.session_list ≡ m.at)
        × (w.session_hash (mk_hkey s.local_discr) ≡ m.at)
        × (w.peer_hash (mk_hkey s.sn.peer_addr) ≡ m.at)
  heads ms s good at =
      let (l, ne, linked) = good.all in
      let (s1, held, holds1, rest) = linked in
      let holds : Holds m s = ground (arith, held, at, holds1) in
      let hkey = mk_hkey s.local_discr in
      let pkey = mk_hkey s.sn.peer_addr in
      let d =
        own_first (λ x. x.hash_next) w.heap (λ x. mk_hkey (discr x)) m ms hkey (w.session_hash hkey)
          (ground (arith, holds)) (good.by_discr hkey) in
      let q =
        own_first (λ x. x.peer_next) w.heap (λ x. mk_hkey x.sn.peer_addr) m ms pkey
          (w.peer_hash pkey) (ground (arith, holds)) (good.by_peer pkey) in
      (ne, holds, l, d.0, q.0)

  pub rm_session_newest :
      (ms : List Member) (s : SessionInt) (fuel : ℕ)
      → IsTables w (m ∷ ms)
      → w.heap m.at ≡ some s
      → rm_session timers random kernel receiver calloc (suc fuel) m.at w ≡ done (without s)
  unfolding rm_session socket_close
  rm_session_newest ms s fuel good at =
      let (ne, holds, l, d, q) = heads ms s good at in
      let bfd = (socket_close s w.sockets).0 in
      let h = store m.at (some bfd) w.heap in
      let first = rm_from_list_head fuel m.at h bfd ne (ground arith) in
      let loaded : load m.at w.heap ≡ done s = ground (arith, at) in
      rw (loaded, rm_session, d, first, q, first, l, first) refl

  abbrev pub Alone : List Member → Type 0
  Alone ms = those (λ x. mk_hkey (discr x) == mk_hkey (discr m)) ms ≡ []

  pub no_next :
      (ms : List Member) (s : SessionInt)
      → IsTables w (m ∷ ms)
      → w.heap m.at ≡ some s
      → Alone ms
      → s.hash_next ≡ null
  no_next ms s good at single =
      let hkey = mk_hkey (discr m) in
      let c =
        own_first (λ x. x.hash_next) w.heap (λ x. mk_hkey (discr x)) m ms hkey (w.session_hash hkey)
          refl (good.by_discr hkey) in
      let (e, ne, linked) = c in
      let (s1, held, holds, rest) = linked in ground (arith, held, at, rw single at rest)

  -- Where the tables hold some sessions: removing the newest one, if it shares its bucket of
  -- `sessionHash` with no other one, empties `sessionList` and the peer's bucket of `peerHash`,
  -- whatever other sessions are in them.
  pub rm_session_loses :
      (ms : List Member) (fuel : ℕ)
      → IsTables w (m ∷ ms)
      → Alone ms
      → (w1 : World T A) × (rm_session timers random kernel receiver calloc (suc fuel) m.at w
          ≡ done w1)
        × (w1.session_list ≡ null)
        × (w1.peer_hash (mk_hkey m.sn.peer_addr) ≡ null)
  rm_session_loses ms fuel good single =
      let (s, held, holds, rest) = good.all.2 in
      let none_left = no_next ms s good held single in
      (
        without s,
        rm_session_newest ms s fuel good held,
        none_left,
        ground (arith, holds, none_left),
      )

  -- Where the tables hold one session, removing it leaves them empty and the object freed.
  pub rm_session_only :
      (fuel : ℕ)
      → IsTables w (m ∷ [])
      → (w1 : World T A) × (rm_session timers random kernel receiver calloc (suc fuel) m.at w
          ≡ done w1)
        × IsTables w1 []
        × (w1.heap m.at ≡ none)
  rm_session_only fuel good =
      let (s, held, holds, rest) = good.all.2 in
      let none_left = no_next [] s good held refl in
      (
        without s,
        rm_session_newest [] s fuel good held,
        record {
          all = none_left;
          by_discr = λ k.
              only_bucket (λ x. x.hash_next) w.heap (λ x. mk_hkey (discr x)) m w.session_hash k
                (mk_hkey s.local_discr) s.hash_next (ground (arith, holds)) none_left
                (good.by_discr k);
          by_peer = λ k.
              only_bucket (λ x. x.peer_next) w.heap (λ x. mk_hkey x.sn.peer_addr) m w.peer_hash k
                (mk_hkey s.sn.peer_addr) s.hash_next (ground (arith, holds)) none_left
                (good.by_peer k);
        },
        ground arith,
      )
