-- ===== src/Sockets/Ports.antt =====
-- The source ports that `setupTxSocket` tries.
use free_bfd.Base.{ℕ, suc, ◌≡◌, refl, true, false}
use free_bfd.Sockets.{SockState, Kernel, bind_tx, is_negative}

-- `srcPort` has 16 bits, so the test against 65536 that should send it back to the first port of
-- the range never holds: from port 65535, if that one is taken, the search goes on with port 0,
-- far below the range, and binds it if the kernel lets it.
pub bind_tx_wraps :
    {A : Type 0} (kernel : Kernel) (receiver : A) (left : ℕ) (s : SockState A)
    → s.src_port ≡ 65535
    → is_negative (kernel.bind s.calls 65535) ≡ true
    → is_negative (kernel.bind (suc s.calls) 0) ≡ false
    → bind_tx kernel receiver (suc (suc left)) s
      ≡ (true, record s { src_port = 1; calls = suc (suc s.calls) })
unfolding bind_tx
bind_tx_wraps kernel receiver left s at taken free = rw (at, taken, free) refl
