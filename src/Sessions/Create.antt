-- ===== src/Sessions/Create.antt =====
-- A new session is put in front of each of its lists.
use free_bfd.Base.{
  ℕ, suc, ◌≡◌, ◌≢◌, ◌⊎◌, refl, arith, inl, inr, Option, none, some, List, [], ◌∷◌, u32, Bool-cases,
  ◌==◌,
}
use free_bfd.Session.{down, BfdSession, SessionInt, Ptr, null, Timers}
use free_bfd.Session.Change.{selected_min}
use free_bfd.Session.Output.{send_cpkt, start_xmt_timer}
use free_bfd.Session.Timeout.{xmt_timeout}
use free_bfd.Sockets.{Kernel, SockState, socket_setup}
use free_bfd.Sockets.Fields.{socket_setup-SameSession}
use free_bfd.Sessions.{Heap, store, World, mk_hkey, ctx, put_ctx}
use free_bfd.Sessions.Lookup.{Member, discr, Holds, Chain, those, IsTables}
use free_bfd.Sessions.Lifecycle.{new_session, link_session, create_session_int, set_bucket}

-- A chain does not see what is stored at an address that is free.
pub Chain-store_free :
    (next : SessionInt → Ptr) (h : Heap) (q : Ptr) (v : Option SessionInt) (p : Ptr)
    (ms : List Member)
    → h q ≡ none
    → Chain next h p ms
    → Chain next (store q v h) p ms
Chain-store_free next h q v p [] free c = c
Chain-store_free next h q v p (m ∷ ms) free c =
    let (e, ne, linked) = c in
    let (s, held, holds, rest) = linked in
    (e, ne, (s, ground arith, holds, Chain-store_free next h q v (next s) ms free rest))

-- A session that is put in front of the bucket of its key.
bucket-store :
    (next : SessionInt → Ptr) (h : Heap) (table : ℕ → Ptr) (key : Member → ℕ) (m : Member)
    (s : SessionInt) (ms : List Member) (hkey : ℕ)
    → key m ≡ hkey
    → m.at ≢ null
    → h m.at ≡ none
    → Holds m s
    → next s ≡ table hkey
    → ((k : ℕ) → Chain next h (table k) (those (λ x. key x == k) ms))
    → (k : ℕ)
    → Chain next
        (store m.at (some s) h)
        (set_bucket table hkey m.at k)
        (those (λ x. key x == k) (m ∷ ms))
bucket-store next h table key m s ms hkey own ne free holds link good k =
    let kept =
      Chain-store_free next h m.at (some s) (table k) (those (λ x. key x == k) ms) free (good k) in
    elim (Bool-cases (hkey == k)) [
      | inl here ↦
          let e : hkey ≡ k = ground arith in
          rw (own, here) (refl, ne, (s, ground arith, holds, rw (link, e) kept))
      | inr elsewhere ↦ rw (own, elsewhere) kept
    ]

-- The lists are all that `IsTables` looks at.
pub same-IsTables :
    {T A : Type 0} (w v : World T A) (ms : List Member)
    → v.heap ≡ w.heap
    → v.session_list ≡ w.session_list
    → v.session_hash ≡ w.session_hash
    → v.peer_hash ≡ w.peer_hash
    → IsTables w ms
    → IsTables v ms
same-IsTables w v ms h l d p good = record {
  all = rw (h, l) good.all;
  by_discr = rw (h, d) good.by_discr;
  by_peer = rw (h, p) good.by_peer;
}

module _ {T A : Type 0} (timers : Timers T) (random : ℕ → ℕ) (kernel : Kernel) (receiver : A)
    (calloc : ℕ → Ptr) where
  -- The object that `link_session` leaves at `p`.
  abbrev linked : SessionInt → World T A → SessionInt
  linked s w = record s {
    session_state = down;
    send_desired_min_tx = selected_min s;
    active_desired_min_tx = selected_min s;
    xmt_time = selected_min s;
    list_next = w.session_list;
    local_diag = 0;
    hash_next = w.session_hash (mk_hkey s.local_discr);
    peer_next = w.peer_hash (mk_hkey s.sn.peer_addr);
  }

  link_session_heap :
      (p : Ptr) (s : SessionInt) (w : World T A)
      → (link_session timers random kernel receiver calloc p s w).heap
        ≡ store p (some (linked s w)) w.heap
  unfolding link_session put_ctx ctx xmt_timeout send_cpkt start_xmt_timer
  link_session_heap p s w = refl

  pub link_session-IsTables :
      (p : Ptr) (s : SessionInt) (w : World T A) (ms : List Member)
      → p ≢ null
      → w.heap p ≡ none
      → s.local_discr ≡ u32 p
      → IsTables w ms
      → IsTables
          (link_session timers random kernel receiver calloc p s w)
          (record { at = p; sn = s.sn } ∷ ms)
  unfolding link_session put_ctx ctx xmt_timeout send_cpkt start_xmt_timer
  link_session-IsTables p s w ms ne free own good =
      let kept = λ (next : SessionInt → Ptr) (q : Ptr) (xs : List Member).
        Chain-store_free next w.heap p (some (linked s w)) q xs free in
      record {
        all = (
          refl,
          ne,
          (
            linked s w,
            ground arith,
            (own, refl),
            kept (λ x. x.list_next) w.session_list ms good.all,
          ),
        );
        by_discr =
            bucket-store (λ x. x.hash_next) w.heap w.session_hash (λ x. mk_hkey (discr x))
              (record { at = p; sn = s.sn }) (linked s w) ms (mk_hkey s.local_discr) (ground arith)
              ne free (own, refl) refl good.by_discr;
        by_peer =
            bucket-store (λ x. x.peer_next) w.heap w.peer_hash (λ x. mk_hkey x.sn.peer_addr)
              (record { at = p; sn = s.sn }) (linked s w) ms (mk_hkey s.sn.peer_addr) refl ne free
              (own, refl) refl good.by_peer;
      }

  new_session-setup :
      (p : Ptr) (sn : BfdSession) (socks : SockState A)
      → let bfd = (socket_setup kernel receiver (new_session p sn) socks).1 in
        (bfd.local_discr ≡ u32 p) × (bfd.sn ≡ sn)
  unfolding new_session
  new_session-setup p sn socks = socket_setup-SameSession kernel receiver (new_session p sn) socks

  -- Where the tables hold some sessions and the allocator gives an address that is null or where
  -- no session is: a session is created or not. If so, it is put in front of the others, and the
  -- tables hold it and them; if not, they hold what they held before.
  pub create_session_int-IsTables :
      (sn : BfdSession) (w : World T A) (ms : List Member)
      → w.heap (calloc w.allocs) ≡ none
      → IsTables w ms
      → let (p, w1) = create_session_int timers random kernel receiver calloc sn w in
        ((p ≡ null) × IsTables w1 ms) ⊎ ((p ≢ null) × IsTables w1 (record { at = p; sn = sn } ∷ ms))
  unfolding create_session_int
  create_session_int-IsTables sn w ms free good =
      let p = calloc w.allocs in
      let set_up = socket_setup kernel receiver (new_session p sn) w.sockets in
      let (own, same) = new_session-setup p sn w.sockets in
      let counted : World T A = record w { allocs = suc w.allocs } in
      let opened : World T A = record counted { sockets = set_up.2 } in
      elim (Bool-cases (p == null)) [
        | inl is_null ↦
            let e : p ≡ null = ground arith in
            rw (is_null, create_session_int)
              (inl (refl, same-IsTables w counted ms refl refl refl refl good))
        | inr not_null ↦ elim (Bool-cases set_up.0) [
          | inl ready ↦
              let ne : p ≢ null = ground arith in
              let made =
                link_session-IsTables p set_up.1 opened ms ne free own
                  (same-IsTables w opened ms refl refl refl refl good) in
              rw (not_null, ready, create_session_int) (inr (ne, rw same at made))
          | inr failed ↦
              rw (not_null, failed, create_session_int)
                (inl (refl, same-IsTables w opened ms refl refl refl refl good))
        ]
      ]
