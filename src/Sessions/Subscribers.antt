-- ===== src/Sessions/Subscribers.antt =====
-- Subscribing to a session that is there, and taking the subscription back.
use free_bfd.Base.{
  ℕ, suc, ◌+◌, ◌≡◌, ◌≢◌, ◌<◌, ◌≤◌, refl, arith, true, false, none, some, List, ◌∷◌, length, u8,
  ◌==◌, if◌then◌else◌,
}
use free_bfd.Session.{BfdSession, SessionInt, Ptr, null, notified, Timers}
use free_bfd.Session.Links.{SameLinks}
use free_bfd.Sockets.{Kernel}
use free_bfd.Sessions.{done, store, load, World, mk_hkey}
use free_bfd.Sessions.Lookup.{
  Member, discr, those, first_at, IsTables, AllIds, same_id, match_session_lem,
}
use free_bfd.Utils.Compare.{IsId}
use free_bfd.Sessions.Create.{same-IsTables}
use free_bfd.Sessions.Stored.{Chain-store}
use free_bfd.Sessions.Lifecycle.{
  subscribe, add_notifier, unsubscribe, unlink_notifier, drop_notifier,
}

-- The tables do not see a change of an object that leaves its links.
pub changed-IsTables :
    {T A : Type 0} (w w1 : World T A) (p : Ptr) (ms : List Member) (s t : SessionInt)
    → IsTables w ms
    → w.heap p ≡ some s
    → SameLinks t s
    → w1.heap ≡ store p (some t) w.heap
    → w1.session_list ≡ w.session_list
    → w1.session_hash ≡ w.session_hash
    → w1.peer_hash ≡ w.peer_hash
    → IsTables w1 ms
changed-IsTables w w1 p ms s t good at same h l d q = record {
  all =
      rw (h, l)
        (Chain-store (λ x. x.list_next) w.heap p s t w.session_list ms at same same.list good.all);
  by_discr = λ k.
      rw (h, d)
        (Chain-store (λ x. x.hash_next) w.heap p s t (w.session_hash k)
          (those (λ m. mk_hkey (discr m) == k) ms) at same same.hash (good.by_discr k));
  by_peer = λ k.
      rw (h, q)
        (Chain-store (λ x. x.peer_next) w.heap p s t (w.peer_hash k)
          (those (λ m. mk_hkey m.sn.peer_addr == k) ms) at same same.peer (good.by_peer k));
}

module _ {T A : Type 0} (timers : Timers T) (random : ℕ → ℕ) (kernel : Kernel) (receiver : A)
    (calloc : ℕ → Ptr) (w : World T A) (ms : List Member) (fuel : ℕ) (sn : BfdSession) (cb arg : ℕ)
    (s : SessionInt) where
  abbrev pub n : Ptr
  n = calloc w.allocs

  abbrev pub p : Ptr
  p = first_at (λ m. same_id m.sn sn) ms

  abbrev pub more : SessionInt
  more = record s {
    notify = record { handle = n; cb = cb; cb_arg = arg } ∷ s.notify;
    ref_cnt = u8 (s.ref_cnt + 1);
  }

  abbrev pub counted : World T A
  counted = record w { allocs = suc w.allocs }

  abbrev pub subscribed : World T A
  subscribed = record counted {
    heap = store p (some more) w.heap;
    notifiers = λ q. if n == q then some p else w.notifiers q;
    out = notified cb arg s.session_state ∷ w.out;
  }

  pub subscribe_lem :
      IsTables w ms
      → AllIds ms
      → IsId sn
      → length ms < fuel
      → cb ≢ null
      → n ≢ null
      → p ≢ null
      → w.heap p ≡ some s
      → subscribe timers random kernel receiver calloc fuel sn cb arg w ≡ done (n, subscribed)
  unfolding subscribe add_notifier
  subscribe_lem good ids id enough a_cb a_note there at =
      let found =
        match_session_lem counted ms fuel (same-IsTables w counted ms refl refl refl refl good)
          enough sn ids id in
      let c : (cb == null) ≡ false = ground arith in
      let m : (n == null) ≡ false = ground arith in
      let f : (p == null) ≡ false = ground arith in
      let loaded : load p w.heap ≡ done s = ground (arith, at) in
      rw (c, m, subscribe, found, f, add_notifier, loaded) refl

  abbrev unsubscribed : World T A
  unsubscribed = record subscribed {
    heap =
        store p (some (record more { notify = s.notify; ref_cnt = u8 (u8 (s.ref_cnt + 1) + 255) }))
          subscribed.heap;
    notifiers = λ q. if n == q then none else subscribed.notifiers q;
  }

  drop_lem :
      1 ≤ s.ref_cnt
      → s.ref_cnt < 255
      → drop_notifier timers random kernel receiver calloc fuel n p more subscribed
        ≡ done unsubscribed
  unfolding drop_notifier unlink_notifier
  drop_lem least most =
      let same : (n == n) ≡ true = ground arith in
      let used : (u8 (u8 (s.ref_cnt + 1) + 255) == 0) ≡ false = ground arith in
      rw (same, unlink_notifier, drop_notifier, used) refl

  unsubscribe_lem :
      n ≢ null
      → 1 ≤ s.ref_cnt
      → s.ref_cnt < 255
      → unsubscribe timers random kernel receiver calloc fuel n subscribed ≡ done unsubscribed
  unfolding unsubscribe
  unsubscribe_lem a_note least most =
      let m : (n == null) ≡ false = ground arith in
      let same : (n == n) ≡ true = ground arith in
      let here : (p == p) ≡ true = ground arith in
      let loaded : load p subscribed.heap ≡ done more = ground (arith, here) in
      rw (m, same, unsubscribe, loaded) (drop_lem least most)

  -- Where the tables hold some sessions, one of which has the identity that is asked for: a
  -- subscriber shares that session and is told its state at once; and when it unsubscribes, the
  -- session is as it was, and so are the tables. The session has at least one subscriber and less
  -- than 255, and the call and the allocation are not null.
  pub subscribe-unsubscribe :
      IsTables w ms
      → AllIds ms
      → IsId sn
      → length ms < fuel
      → cb ≢ null
      → n ≢ null
      → p ≢ null
      → w.heap p ≡ some s
      → 1 ≤ s.ref_cnt
      → s.ref_cnt < 255
      → (w1 : World T A) × (w2 : World T A) × (subscribe timers random kernel receiver calloc fuel
            sn cb arg w
          ≡ done (n, w1))
        × (w1.out ≡ notified cb arg s.session_state ∷ w.out)
        × IsTables w1 ms
        × (unsubscribe timers random kernel receiver calloc fuel n w1 ≡ done w2)
        × (w2.heap p ≡ some s)
        × IsTables w2 ms
  subscribe-unsubscribe good ids id enough a_cb a_note there at least most =
      let used : u8 (u8 (s.ref_cnt + 1) + 255) ≡ s.ref_cnt = ground arith in
      let here : (p == p) ≡ true = ground arith in
      let same : SameLinks more s = ground arith in
      let last : SessionInt = record more {
        notify = s.notify;
        ref_cnt = u8 (u8 (s.ref_cnt + 1) + 255);
      } in
      let back : SameLinks last more = ground arith in
      let good1 = changed-IsTables w subscribed p ms s more good at same refl refl refl refl in
      let held : subscribed.heap p ≡ some more = rw here refl in
      (
        subscribed,
        unsubscribed,
        subscribe_lem good ids id enough a_cb a_note there at,
        refl,
        good1,
        unsubscribe_lem a_note least most,
        rw (here, used) refl,
        changed-IsTables subscribed unsubscribed p ms more last good1 held back refl refl refl refl,
      )
