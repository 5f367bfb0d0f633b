-- ===== src/Sockets/Sharing.antt =====
-- Sharing a receive socket: what `setupRxSocket` adds `bfdSocketClose` takes away.
use free_bfd.Base.{
  ℕ, ◌+◌, ◌-◌, ◌^◌, ◌≤◌, ◌<◌, ◌≡◌, refl, true, false, some, none, List, [], ◌∷◌, arith, ℤ,
  Bool-cases, Option-cases, inl, inr, u32, ◌==◌, if◌then◌else◌,
}
use free_bfd.Session.{SessionInt}
use free_bfd.Sockets.{
  SockState, close, SockRec, Kernel, find_sock, update_sock, unlink_sock, is_positive, same_int,
  open_rx, close_rx, setup_rx_socket, socket_close,
}

-- The counters are in use and have room for one more.
abbrev pub AllCounted : List SockRec → Type 0
AllCounted [] = Unit {0}
AllCounted (r ∷ rs) = ((1 ≤ r.ref_cnt) × (r.ref_cnt < 2 ^ 32 - 1)) × AllCounted rs

abbrev inc : ℕ → ℕ
inc n = u32 (n + 1)

abbrev dec : ℕ → ℕ
dec n = u32 (n + (2 ^ 32 - 1))

find-update :
    (port : ℕ) (rs : List SockRec) (r : SockRec)
    → find_sock port rs ≡ some r
    → find_sock port (update_sock inc port rs) ≡ some (record r { ref_cnt = inc r.ref_cnt })
unfolding find_sock update_sock
find-update port [] r h = cc
find-update port (x ∷ rs) r h = ground (arith, find-update port rs r)

update_back :
    (port : ℕ) (rs : List SockRec)
    → AllCounted rs
    → update_sock dec port (update_sock inc port rs) ≡ rs
unfolding update_sock
update_back port [] a = refl
update_back port (x ∷ rs) a = ground (arith, update_back port rs a.1)

counted :
    (port : ℕ) (rs : List SockRec) (r : SockRec)
    → AllCounted rs
    → find_sock port rs ≡ some r
    → (1 ≤ r.ref_cnt) × (r.ref_cnt < 2 ^ 32 - 1)
unfolding find_sock
counted port [] r a h = cc
counted port (x ∷ rs) r a h = ground (arith, counted port rs r a.1)

module _ {A : Type 0} (kernel : Kernel) (receiver : A) (bfd : SessionInt) (s : SockState A) where
  abbrev port : ℕ
  port = bfd.sn.local_port

  -- What `bfdSocketClose` does to the list of receive sockets, once the record is found.
  close_rx_lem :
      (b : SessionInt) (t : SockState A) (r : SockRec)
      → b.sn.local_port ≡ port
      → find_sock port t.rx_socks ≡ some r
      → (close_rx b t).rx_socks ≡ (
          if dec r.ref_cnt == 0
          then unlink_sock port t.rx_socks
          else update_sock dec port t.rx_socks)
  unfolding close_rx
  close_rx_lem b t r e h = ground arith

  socket_close_lem :
      (b : SessionInt) (t : SockState A) (r : SockRec)
      → b.sn.local_port ≡ port
      → is_positive b.rx_sock ≡ true
      → same_int b.tx_sock b.rx_sock ≡ false
      → find_sock port t.rx_socks ≡ some r
      → (socket_close b t).1.rx_socks ≡ (
          if dec r.ref_cnt == 0
          then unlink_sock port t.rx_socks
          else update_sock dec port t.rx_socks)
  unfolding socket_close
  socket_close_lem b t r e p q h = elim (Bool-cases (is_positive b.tx_sock)) [
    | inl tx ↦ rw (p, q, tx, socket_close) (close_rx_lem b (close b.tx_sock t) r e h)
    | inr none_sent ↦ rw (p, q, none_sent, socket_close) (close_rx_lem b t r e h)
  ]

  -- What `setupRxSocket` leaves: a new record in front, or one more user of the old one.
  setup_new :
      (bfd' : SessionInt) (s' : SockState A)
      → find_sock port s.rx_socks ≡ none
      → setup_rx_socket kernel receiver bfd s ≡ (true, bfd', s')
      → (bfd'.sn.local_port ≡ port)
        × (s'.rx_socks ≡ record { sock = bfd'.rx_sock; ref_cnt = 1; port = port } ∷ s.rx_socks)
  unfolding setup_rx_socket open_rx
  setup_new bfd' s' new done = ground arith

  setup_shared :
      (bfd' : SessionInt) (s' : SockState A) (r : SockRec)
      → find_sock port s.rx_socks ≡ some r
      → setup_rx_socket kernel receiver bfd s ≡ (true, bfd', s')
      → (bfd'.sn.local_port ≡ port) × (s'.rx_socks ≡ update_sock inc port s.rx_socks)
  unfolding setup_rx_socket
  setup_shared bfd' s' r shared done = ground arith

  new_first :
      (fd : ℤ)
      → (find_sock port (record { sock = fd; ref_cnt = 1; port = port } ∷ s.rx_socks)
          ≡ some (record { sock = fd; ref_cnt = 1; port = port }))
        × (unlink_sock port (record { sock = fd; ref_cnt = 1; port = port } ∷ s.rx_socks)
            ≡ s.rx_socks)
  unfolding find_sock unlink_sock
  new_first fd = ground arith

  -- For a session that got a receive socket, whether its own or one that others use too, closing
  -- the session's sockets again gives the list of receive sockets back; where the descriptors of
  -- the two sockets are positive and different, and each counter in the list is at least one and
  -- has room for one more.
  pub setup_rx_socket-close :
      (bfd' : SessionInt) (s' : SockState A)
      → AllCounted s.rx_socks
      → setup_rx_socket kernel receiver bfd s ≡ (true, bfd', s')
      → is_positive bfd'.rx_sock ≡ true
      → same_int bfd'.tx_sock bfd'.rx_sock ≡ false
      → (socket_close bfd' s').1.rx_socks ≡ s.rx_socks
  setup_rx_socket-close bfd' s' counts done positive apart =
      elim (Option-cases (find_sock port s.rx_socks)) [
        | inl new ↦
            let fresh : SockRec = record { sock = bfd'.rx_sock; ref_cnt = 1; port = port } in
            let (e, added) = setup_new bfd' s' new done in
            let (found, removed) = new_first bfd'.rx_sock in
            rw (socket_close_lem bfd' s' fresh e positive apart (rw added found)) (rw added removed)
        | inr (r, shared) ↦
            let used : SockRec = record r { ref_cnt = inc r.ref_cnt } in
            let (e, more) = setup_shared bfd' s' r shared done in
            let found = find-update port s.rx_socks r shared in
            let few = counted port s.rx_socks r counts shared in
            rw (socket_close_lem bfd' s' used e positive apart (rw more found))
              (rw more (ground (arith, update_back port s.rx_socks counts)))
      ]
