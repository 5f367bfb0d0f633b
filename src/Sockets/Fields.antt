-- ===== src/Sockets/Fields.antt =====
-- What setting up and closing the sockets leaves of a session: its identity.
use free_bfd.Base.{◌≡◌, refl, arith}
use free_bfd.Session.{SessionInt}
use free_bfd.Sockets.{
  SockState, Kernel, setup_rx_socket, setup_tx_socket, socket_setup, socket_close, open_rx,
}

-- The parameters and the discriminator are the same.
abbrev pub SameSession : SessionInt → SessionInt → Type 0
SameSession a b = (a.local_discr ≡ b.local_discr) × (a.sn ≡ b.sn)

module _ {A : Type 0} where
  pub socket_close-SameSession :
      (bfd : SessionInt) (s : SockState A) → SameSession (socket_close bfd s).0 bfd
  unfolding socket_close
  socket_close-SameSession bfd s = (refl, refl)

module _ {A : Type 0} (kernel : Kernel) (receiver : A) (bfd : SessionInt) (s : SockState A) where
  setup_tx-SameSession : SameSession (setup_tx_socket kernel receiver bfd s).1 bfd
  unfolding setup_tx_socket
  setup_tx-SameSession = ground arith

  setup_rx-SameSession : SameSession (setup_rx_socket kernel receiver bfd s).1 bfd
  unfolding setup_rx_socket open_rx
  setup_rx-SameSession = ground arith

module _ {A : Type 0} (kernel : Kernel) (receiver : A) (bfd : SessionInt) (s : SockState A) where
  pub socket_setup-SameSession : SameSession (socket_setup kernel receiver bfd s).1 bfd
  unfolding socket_setup
  socket_setup-SameSession =
      let t = setup_tx_socket kernel receiver bfd s in
      let r = setup_rx_socket kernel receiver t.1 t.2 in
      ground (
        arith,
        setup_tx-SameSession kernel receiver bfd s,
        setup_rx-SameSession kernel receiver t.1 t.2,
        socket_close-SameSession r.1 r.2,
      )
