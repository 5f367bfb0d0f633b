-- ===== src/Sessions/Lifecycle.antt =====
-- src/core/bfd.c: making and removing sessions (`bfdCreateSessionInt`, `bfdRmSession`,
-- `bfdRmFromList`), and the calls that do so: `bfdCreateSession`, `bfdDeleteSession`,
-- `bfdSubscribe` and `bfdUnsubscribe`.
use free_bfd.Base.{
  ℕ, zero, suc, ◌+◌, Bool, true, false, not, Option, none, some, List, [], ◌∷◌, pos, u8, u32, ◌==◌,
  if◌then◌else◌,
}
use free_bfd.Session.{
  admin_down, down, BfdSession, Notifier, SessionInt, Ptr, null, detect, xmt, timer, Timers,
  notified,
}
use free_bfd.Session.Change.{selected_min}
use free_bfd.Session.Timeout.{xmt_timeout}
use free_bfd.Sockets.{Kernel, socket_setup, socket_close}
use free_bfd.Sessions.{
  Run, done, fault, out_of_fuel, ◌and_then◌, Heap, store, load, World, mk_hkey, match_session, ctx,
  put_ctx,
}

-- The object that `calloc` gives for `bfd`, with its copy of the parameters and its discriminator.
unfoldable pub new_session : Ptr → BfdSession → SessionInt
new_session p sn = record {
  sn = sn;
  list_next = null;
  hash_next = null;
  peer_next = null;
  notify = [];
  session_state = admin_down;
  remote_session_state = admin_down;
  remote_demand_mode = false;
  local_diag = 0;
  demand_mode_active = false;
  poll_seq_in_progress = false;
  polling = false;
  local_discr = u32 p;
  remote_discr = 0;
  remote_min_rx_interval = 0;
  ref_cnt = 0;
  active_desired_min_tx = 0;
  send_desired_min_tx = 0;
  detect_time = 0;
  xmt_time = 0;
  tx_sock = pos 0;
  rx_sock = pos 0;
}

-- What `bfdRmFromList` does with the head of the list: whether the session was in it, the head, and
-- the heap. The list is followed, and relinked, by `HashNext`, whichever list it is.
unfoldable pub rm_from : ℕ → SessionInt → Ptr → Ptr → Ptr → Heap → Run (Bool × Ptr × Heap)
rm_from zero bfd head prev tmp h = out_of_fuel
rm_from (suc fuel) bfd head prev tmp h =
    if tmp == null then done (false, head, h) else elim (h tmp) [
      | none ↦ fault
      | some s ↦
          let relinked : Run (Bool × Ptr × Heap) = elim (h prev) [
            | none ↦ fault
            | some before ↦
                done (true, head, store prev (some (record before { hash_next = bfd.hash_next })) h)
          ] in
          let rest = rm_from fuel bfd head tmp s.hash_next h in
          if s.local_discr == bfd.local_discr
          then (if prev == null then done (true, bfd.hash_next, h) else relinked)
          else rest
    ]

-- `bfdRmFromList`, of the session at `p`.
unfoldable pub rm_from_list : ℕ → Ptr → Ptr → Heap → Run (Bool × Ptr × Heap)
rm_from_list fuel head p h = load p h and_then λ bfd. rm_from fuel bfd head null head h

abbrev pub set_bucket : (ℕ → Ptr) → ℕ → Ptr → ℕ → Ptr
set_bucket table k p j = if k == j then p else table j

-- The notifier at `n`, taken out of the list; `none` if it is not in it.
unfoldable pub unlink_notifier : Ptr → List Notifier → Option (List Notifier)
unlink_notifier n [] = none
unlink_notifier n (x ∷ xs) =
    let rest = unlink_notifier n xs in
    if x.handle == n then some xs else elim rest [ none ↦ none | some ys ↦ some (x ∷ ys) ]

module _ {T A : Type 0} (timers : Timers T) (random : ℕ → ℕ) (kernel : Kernel) (receiver : A)
    (calloc : ℕ → Ptr) where
  -- The session that was set up, put first in each list, and its first packet.
  unfoldable pub link_session : Ptr → SessionInt → World T A → World T A
  link_session p s w =
      let hkey = mk_hkey s.local_discr in
      let pkey = mk_hkey s.sn.peer_addr in
      let bfd = record s {
        session_state = down;
        send_desired_min_tx = selected_min s;
        active_desired_min_tx = selected_min s;
        xmt_time = selected_min s;
        list_next = w.session_list;
        local_diag = 0;
        hash_next = w.session_hash hkey;
        peer_next = w.peer_hash pkey;
      } in
      put_ctx (xmt_timeout timers random (ctx p bfd w)) (record w {
        session_list = p;
        session_hash = set_bucket w.session_hash hkey p;
        peer_hash = set_bucket w.peer_hash pkey p;
      })

  -- `bfdCreateSessionInt`: the session or null, and the world.
  unfoldable pub create_session_int : BfdSession → World T A → Ptr × World T A
  create_session_int sn w =
      let p = calloc w.allocs in
      let w1 = record w { allocs = suc w.allocs } in
      let (set_up, bfd, sockets) = socket_setup kernel receiver (new_session p sn) w.sockets in
      let w2 = record w1 { sockets = sockets } in
      if p == null
      then (null, w1)
      else if not set_up
      then (null, w2)
      else (p, link_session p bfd w2)

  -- `bfdCreateSession`
  unfoldable pub create_session : BfdSession → World T A → Bool × World T A
  create_session sn w = let (p, w1) = create_session_int sn w in (not (p == null), w1)

  -- `bfdRmSession`. A session that is missing from a list is only logged.
  unfoldable pub rm_session : ℕ → Ptr → World T A → Run (World T A)
  rm_session fuel p w = load p w.heap and_then λ s.
      let (bfd, sockets) = socket_close s w.sockets in
      let hkey = mk_hkey bfd.local_discr in
      let pkey = mk_hkey bfd.sn.peer_addr in
      rm_from_list fuel (w.session_hash hkey) p (store p (some bfd) w.heap) and_then λ a.
      rm_from_list fuel (w.peer_hash pkey) p a.2 and_then λ b.
      rm_from_list fuel w.session_list p b.2 and_then λ c. done (record w {
        session_hash = set_bucket w.session_hash hkey a.1;
        peer_hash = set_bucket w.peer_hash pkey b.1;
        session_list = c.1;
        heap = store p none c.2;
        sockets = sockets;
        timers = timers.stop (timer p detect) (timers.stop (timer p xmt) w.timers);
      })

  -- `bfdDeleteSession`
  unfoldable pub delete_session : ℕ → BfdSession → World T A → Run (Bool × World T A)
  delete_session fuel sn w = match_session fuel sn w and_then λ p.
      if p == null then done (false, w) else rm_session fuel p w and_then λ w1. done (true, w1)

  -- The notifier at `n`, put first in the list of the session at `p`, and its first call.
  unfoldable pub add_notifier : Ptr → ℕ → ℕ → Ptr → World T A → Run (Ptr × World T A)
  add_notifier n cb arg p w = load p w.heap and_then λ s.
      let bfd = record s {
        notify = record { handle = n; cb = cb; cb_arg = arg } ∷ s.notify;
        ref_cnt = u8 (s.ref_cnt + 1);
      } in
      done (
        n,
        record w {
          heap = store p (some bfd) w.heap;
          notifiers = λ q. if n == q then some p else w.notifiers q;
          out = notified cb arg bfd.session_state ∷ w.out;
        },
      )

  -- `bfdSubscribe`: the handle, or null. A callback that is null is refused.
  unfoldable pub subscribe : ℕ → BfdSession → ℕ → ℕ → World T A → Run (Ptr × World T A)
  subscribe fuel sn cb arg w =
      let n = calloc w.allocs in
      let w1 = record w { allocs = suc w.allocs } in
      if cb == null
      then done (null, w)
      else if n == null
      then done (null, w1)
      else match_session fuel sn w1 and_then λ found.
          let (made, w2) = create_session_int sn w1 in
          if found == null
          then (if made == null then done (null, w2) else add_notifier n cb arg made w2)
          else add_notifier n cb arg found w1

  -- The notifier at `n`, removed from the session `s` at `p`, which is removed with its last one. A
  -- session without any notifier has no first one to look behind.
  unfoldable pub drop_notifier : ℕ → Ptr → Ptr → SessionInt → World T A → Run (World T A)
  drop_notifier fuel n p s w = elim s.notify [
    | [] ↦ fault
    | _ ∷ _ ↦ elim (unlink_notifier n s.notify) [
      | none ↦ done w
      | some left ↦
          let bfd = record s { notify = left; ref_cnt = u8 (s.ref_cnt + 255) } in
          let w1 = record w {
            heap = store p (some bfd) w.heap;
            notifiers = λ q. if n == q then none else w.notifiers q;
          } in
          if bfd.ref_cnt == 0 then rm_session fuel p w1 else done w1
    ]
  ]

  -- `bfdUnsubscribe`
  unfoldable pub unsubscribe : ℕ → Ptr → World T A → Run (World T A)
  unsubscribe fuel n w = if n == null then done w else elim (w.notifiers n) [
    | none ↦ fault
    | some p ↦ load p w.heap and_then λ s. drop_notifier fuel n p s w
  ]
