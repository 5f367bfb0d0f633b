-- ===== src/Sockets.antt =====
-- src/core/bfdSockets.c: the transmit socket of each session, and the receive sockets that sessions
-- with the same local port share. The kernel's answers are an argument.
pub mod Sharing
pub mod Ports
pub mod Fields
use free_bfd.Base.{
  ℕ, zero, suc, ◌+◌, ◌-◌, ◌^◌, ◌<◌, ◌≤◌, ◌≡◌, Bool, true, false, not, ◌&&◌, Option, none, some,
  List, [], ◌∷◌, ℤ, pos, negsuc, pos_part, neg_part, ltb_ℤ, u16, u32, leb, ltb, ◌==◌, if◌then◌else◌,
  arith,
}
use free_bfd.TpSockets.{Skts, set_skt_actor, rm_skt_actor}
use free_bfd.Session.{SessionInt}

-- `BFD_SRCPORTINIT` and `BFD_SRCPORTMAX`
abbrev pub src_port_init : ℕ
src_port_init = 49142

abbrev pub src_port_max : ℕ
src_port_max = 65536

-- `bfdSockRec`
pub record SockRec : Type 0 where
  pub sock : ℤ
  pub ref_cnt : ℕ
  pub port : ℕ

-- The answers of the kernel: what the n-th call gives. A negative number is a failure.
pub record Kernel : Type 0 where
  pub socket : ℕ → ℤ
  pub setsockopt : ℕ → ℤ
  pub bind : ℕ → ℕ → ℤ
  pub calloc : ℕ → Bool

-- `sRxSocks`, the `srcPort` of `setupTxSocket`, the actors, the descriptors that were closed
-- (newest first), and how many calls the kernel answered.
pub record SockState (A : Type 0) : Type 0 where
  pub rx_socks : List SockRec
  pub src_port : ℕ
  pub skts : Skts A
  pub closed : List ℤ
  pub calls : ℕ

abbrev pub is_negative : ℤ → Bool
is_negative (pos n) = false
is_negative (negsuc n) = true

abbrev pub is_positive : ℤ → Bool
is_positive (pos n) = not (n == 0)
is_positive (negsuc n) = false

abbrev pub same_int : ℤ → ℤ → Bool
same_int a b = pos_part a == pos_part b && neg_part a == neg_part b

-- `findSock`: the first record for the session's local port.
unfoldable pub find_sock : ℕ → List SockRec → Option SockRec
find_sock port [] = none
find_sock port (r ∷ rs) = if r.port == port then some r else find_sock port rs

-- `sockRec->refCnt++`, and the decrement, in place. Both are of type `uint32_t`.
unfoldable pub update_sock : (ℕ → ℕ) → ℕ → List SockRec → List SockRec
update_sock f port [] = []
update_sock f port (r ∷ rs) =
    if r.port == port then record r { ref_cnt = f r.ref_cnt } ∷ rs else r ∷ update_sock f port rs

-- The record that `findSock` gives, taken out of the list.
unfoldable pub unlink_sock : ℕ → List SockRec → List SockRec
unlink_sock port [] = []
unlink_sock port (r ∷ rs) = if r.port == port then rs else r ∷ unlink_sock port rs

abbrev pub tick : {A : Type 0} → SockState A → SockState A
tick s = record s { calls = suc s.calls }

abbrev pub close : {A : Type 0} → ℤ → SockState A → SockState A
close fd s = record s { closed = fd ∷ s.closed }

module _ {A : Type 0} where
  -- The receive socket in `bfdSocketClose`.
  close_rx : SessionInt → SockState A → SockState A
  close_rx bfd s = elim (find_sock bfd.sn.local_port s.rx_socks) [
    | none ↦ close bfd.rx_sock s
    | some r ↦
        let n = u32 (r.ref_cnt + (2 ^ 32 - 1)) in
        if n == 0
        then record (close r.sock s) {
          rx_socks = unlink_sock bfd.sn.local_port s.rx_socks;
          skts = (rm_skt_actor r.sock s.skts).1;
        }
        else record s {
          rx_socks = update_sock (λ m. u32 (m + (2 ^ 32 - 1))) bfd.sn.local_port s.rx_socks;
        }
  ]

  -- `bfdSocketClose`, which always succeeds.
  unfoldable pub socket_close : SessionInt → SockState A → SessionInt × SockState A
  unfolding close_rx
  socket_close bfd s =
      let s1 = if is_positive bfd.tx_sock then close bfd.tx_sock s else s in
      let s2 =
        if is_positive bfd.rx_sock && not (same_int bfd.tx_sock bfd.rx_sock)
        then close_rx bfd s1
        else s1 in
      (record bfd { tx_sock = negsuc 0; rx_sock = negsuc 0 }, s2)

module _ {A : Type 0} (kernel : Kernel) (receiver : A) where
  -- A receive socket for a port that has none; `none` if a step fails.
  open_rx : ℕ → SockState A → Option ℤ × SockState A
  open_rx port s =
      let s1 = tick s in
      let sock = kernel.socket s1.calls in
      let s2 = tick s1 in
      let s3 = tick s2 in
      let s4 = tick s3 in
      let r : SockRec = record { sock = sock; ref_cnt = 1; port = port } in
      if not (kernel.calloc s.calls)
      then (none, s1)
      else if is_negative sock
      then (none, s2)
      else if is_negative (kernel.setsockopt s2.calls)
      then (none, close sock s3)
      else if is_negative (kernel.bind s3.calls port)
      then (none, close sock s4)
      else (
        some sock,
        record s4 { rx_socks = r ∷ s.rx_socks; skts = (set_skt_actor sock receiver s.skts).1 },
      )

  -- `setupRxSocket`: success, the session and the sockets.
  unfoldable pub setup_rx_socket : SessionInt → SockState A → Bool × SessionInt × SockState A
  unfolding open_rx
  setup_rx_socket bfd s = elim (find_sock bfd.sn.local_port s.rx_socks) [
    | some r ↦ (
      true,
      record bfd { rx_sock = r.sock },
      record s { rx_socks = update_sock (λ n. u32 (n + 1)) bfd.sn.local_port s.rx_socks },
    )
    | none ↦
        let (opened, s') = open_rx bfd.sn.local_port s in
        elim opened [
          | none ↦ (false, bfd, s')
          | some sock ↦ (true, record bfd { rx_sock = sock }, s')
        ]
  ]

  -- The `do` loop of `setupTxSocket` with so many attempts left: the port that was bound. `srcPort`
  -- is of type `uint16_t`.
  unfoldable pub bind_tx : ℕ → SockState A → Bool × SockState A
  bind_tx zero s = (false, s)
  bind_tx (suc left) s =
      let port = if leb src_port_max s.src_port then src_port_init else s.src_port in
      let s1 = tick (record s { src_port = u16 (port + 1) }) in
      let again = bind_tx left s1 in
      if is_negative (kernel.bind s.calls port) then again else (true, s1)

  -- `setupTxSocket`
  unfoldable pub setup_tx_socket : SessionInt → SockState A → Bool × SessionInt × SockState A
  setup_tx_socket bfd s =
      let sock = kernel.socket s.calls in
      let s1 = tick s in
      let s2 = tick s1 in
      let (bound, s3) = bind_tx (src_port_max - src_port_init) s2 in
      if is_negative sock
      then (false, bfd, s1)
      else if is_negative (kernel.setsockopt s1.calls)
      then (false, bfd, close sock s2)
      else if bound
      then (true, record bfd { tx_sock = sock }, s3)
      else (false, bfd, close sock s3)

  -- `bfdSocketSetup`
  unfoldable pub socket_setup : SessionInt → SockState A → Bool × SessionInt × SockState A
  socket_setup bfd s =
      let (sent, bfd1, s1) = setup_tx_socket bfd s in
      let (received, bfd2, s2) = setup_rx_socket bfd1 s1 in
      let (bfd3, s3) = socket_close bfd2 s2 in
      if not sent
      then (false, bfd1, s1)
      else if not received
      then (false, bfd3, s3)
      else (true, bfd2, s2)
