-- ===== src/Sessions.antt =====
-- src/core/bfd.c: the sessions of a process. They are objects on the heap, linked by `ListNext`,
-- `HashNext` and `PeerNext` from the static variables `sessionList`, `sessionHash` and `peerHash`.
pub mod Lookup
pub mod Lifecycle
pub mod Arrivals
pub mod Create
pub mod Stored
pub mod Kept
pub mod Process
pub mod Subscribers
pub mod Remove
pub mod Loops
pub mod Dangling
use free_bfd.Base.{
  ℕ, zero, suc, ◌%◌, Bool, true, false, Option, none, some, List, ◌==◌, if◌then◌else◌,
}
use free_bfd.Packet.{Bytes, get_your_discr}
use free_bfd.Session.{BfdSession, SessionInt, Ptr, null, Event, Ctx}
use free_bfd.Sockets.{SockState}
use free_bfd.Utils.{session_compare, is_zero}

-- `BFD_HASHSIZE` and `BFD_MKHKEY`
abbrev pub hash_size : ℕ
hash_size = 251

abbrev pub mk_hkey : ℕ → ℕ
mk_hkey val = val % hash_size

-- The outcome of code that follows pointers: a result, the use of a pointer to nothing, or a loop
-- that was given too little fuel.
pub data Run {ℓ} (A : Type ℓ) : Type ℓ where
  done : A → Run A
  fault out_of_fuel : Run A

infixl 10 ◌and_then◌
abbrev pub ◌and_then◌ : {A B : Type 0} → Run A → (A → Run B) → Run B
done a and_then f = f a
fault and_then f = fault
out_of_fuel and_then f = out_of_fuel

abbrev pub Heap : Type 0
Heap = Ptr → Option SessionInt

abbrev pub store : Ptr → Option SessionInt → Heap → Heap
store p v h q = if p == q then v else h q

abbrev pub load : Ptr → Heap → Run SessionInt
load p h = elim (h p) [ none ↦ fault | some s ↦ done s ]

-- The static variables, the sessions, the notifiers (each with the session it is for), and the
-- parts of the other files. `allocs` counts the calls of `calloc`.
pub record World (T A : Type 0) : Type 0 where
  pub session_list : Ptr
  pub session_hash : ℕ → Ptr
  pub peer_hash : ℕ → Ptr
  pub heap : Heap
  pub notifiers : Ptr → Option Ptr
  pub allocs : ℕ
  pub timers : T
  pub out : List Event
  pub draws : ℕ
  pub sockets : SockState A

-- Following the links from `p` to the first session that passes the test; `null` if there is none.
unfoldable pub find_from : (SessionInt → Ptr) → (SessionInt → Bool) → ℕ → Ptr → Heap → Run Ptr
find_from next test zero p h = out_of_fuel
find_from next test (suc fuel) p h = if p == null then done null else elim (h p) [
  | none ↦ fault
  | some s ↦ if test s then done p else find_from next test fuel (next s) h
]

module _ {T A : Type 0} where
  -- `bfdGetSession`, for a packet from the address `addr`.
  unfoldable pub get_session : ℕ → Bytes → ℕ → World T A → Run Ptr
  get_session fuel cp addr w =
      let your = get_your_discr cp in
      if your == 0
      then find_from (λ s. s.peer_next) (λ s. s.sn.peer_addr == addr) fuel
          (w.peer_hash (mk_hkey addr)) w.heap
      else find_from (λ s. s.hash_next) (λ s. s.local_discr == your) fuel
          (w.session_hash (mk_hkey your)) w.heap

  -- `bfdMatchSession`
  unfoldable pub match_session : ℕ → BfdSession → World T A → Run Ptr
  match_session fuel sn w =
      find_from (λ s. s.peer_next) (λ s. is_zero (session_compare s.sn sn)) fuel
        (w.peer_hash (mk_hkey sn.peer_addr)) w.heap

  -- The session `p` at work, and the world after it worked.
  unfoldable pub ctx : Ptr → SessionInt → World T A → Ctx T
  ctx p s w = record { self = p; bfd = s; timers = w.timers; out = w.out; draws = w.draws }

  unfoldable pub put_ctx : Ctx T → World T A → World T A
  put_ctx c w = record w {
    heap = store c.self (some c.bfd) w.heap;
    timers = c.timers;
    out = c.out;
    draws = c.draws;
  }

  -- A handler run on the session at `p`.
  unfoldable pub on_session : (Ctx T → Ctx T) → Ptr → World T A → Run (World T A)
  on_session f p w = load p w.heap and_then λ s. done (put_ctx (f (ctx p s w)) w)
