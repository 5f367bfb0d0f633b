-- ===== src/Sessions/Lookup.antt =====
-- The tables as lists: what is linked where, and that the lookups find what the lists say.
use free_bfd.Base.{
  ℕ, zero, suc, ◌≤◌, ◌<◌, ◌≡◌, ◌≢◌, refl, arith, Bool, true, inl, inr, some, List, [], ◌∷◌, length,
  u32, Bool-cases, ap, ◌∙◌, ◌&&◌, ◌==◌, if◌then◌else◌,
}
use free_bfd.Packet.{Bytes, get_your_discr}
use free_bfd.Session.{BfdSession, SessionInt, Ptr, null}
use free_bfd.Utils.{session_compare, is_zero}
use free_bfd.Utils.Compare.{IsId, session_compare-SameId_iff}
use free_bfd.Sessions.{done, Heap, World, mk_hkey, find_from, get_session, match_session}

-- A session as the tables know it: where it is, and what it was created from.
pub record Member : Type 0 where
  pub at : Ptr
  pub sn : BfdSession

-- The discriminator is the address, cut to 32 bits.
abbrev pub discr : Member → ℕ
discr m = u32 m.at

-- The object at `m.at` is the session `m`.
abbrev pub Holds : Member → SessionInt → Type 0
Holds m s = (s.local_discr ≡ discr m) × (s.sn ≡ m.sn)

-- The links from `p` lead through the sessions of the list, and end with a null pointer.
abbrev pub Chain : (SessionInt → Ptr) → Heap → Ptr → List Member → Type 0
Chain next h p [] = p ≡ null
Chain next h p (m ∷ ms) =
    (p ≡ m.at)
    × (m.at ≢ null)
    × ((s : SessionInt) × (h m.at ≡ some s) × Holds m s × Chain next h (next s) ms)

-- Those of the list that pass the test, in the same order.
abbrev pub those : (Member → Bool) → List Member → List Member
those test [] = []
those test (m ∷ ms) = if test m then m ∷ those test ms else those test ms

-- The first that passes, or null.
abbrev pub first_at : (Member → Bool) → List Member → Ptr
first_at test [] = null
first_at test (m ∷ ms) = if test m then m.at else first_at test ms

-- The tables hold the sessions of the list, from the newest on: all of them in `sessionList`, and
-- each in the bucket of its discriminator and in the one of its peer.
pub record IsTables {T A : Type 0} (w : World T A) (ms : List Member) : Type 0 where
  pub all : Chain (λ s. s.list_next) w.heap w.session_list ms
  pub by_discr :
      (k : ℕ)
      → Chain (λ s. s.hash_next) w.heap (w.session_hash k) (those (λ m. mk_hkey (discr m) == k) ms)
  pub by_peer :
      (k : ℕ)
      → Chain
          (λ s. s.peer_next)
          w.heap
          (w.peer_hash k)
          (those (λ m. mk_hkey m.sn.peer_addr == k) ms)

module _ (next : SessionInt → Ptr) (test : SessionInt → Bool) (wanted : Member → Bool) (h : Heap)
    (agree : (m : Member) (s : SessionInt) → Holds m s → test s ≡ wanted m) where
  pub find_from-first_at :
      (ms : List Member) (p : Ptr) (fuel : ℕ)
      → Chain next h p ms
      → length ms < fuel
      → find_from next test fuel p h ≡ done (first_at wanted ms)
  unfolding find_from
  find_from-first_at ms p zero c enough = absurd (omega arith)
  find_from-first_at [] p (suc fuel) c enough = ground arith
  find_from-first_at (m ∷ ms) p (suc fuel) c enough =
      let (e, ne, linked) = c in
      let (s, held, holds, rest) = linked in
      ground (arith, agree m s, find_from-first_at ms (next s) fuel rest)

pub first_at-those :
    (wanted among : Member → Bool) (ms : List Member)
    → ((m : Member) → wanted m ≡ true → among m ≡ true)
    → first_at wanted (those among ms) ≡ first_at wanted ms
first_at-those wanted among [] imp = refl
first_at-those wanted among (m ∷ ms) imp = ground (arith, imp m, first_at-those wanted among ms imp)

pub length-those : (test : Member → Bool) (ms : List Member) → length (those test ms) ≤ length ms
length-those test [] = omega arith
length-those test (m ∷ ms) = ground (arith, length-those test ms)

abbrev pub same_id : BfdSession → BfdSession → Bool
same_id a b =
    a.peer_addr == b.peer_addr
    && a.local_addr == b.local_addr
    && a.peer_port == b.peer_port
    && a.local_port == b.local_port

abbrev pub AllIds : List Member → Type 0
AllIds [] = Unit {0}
AllIds (m ∷ ms) = IsId m.sn × AllIds ms

same_id-compare : (a b : BfdSession) → IsId a → IsId b → is_zero (session_compare a b) ≡ same_id a b
same_id-compare a b ia ib = ground (arith, session_compare-SameId_iff a b ia ib)

first_at-same :
    (ms : List Member) (sn : BfdSession)
    → AllIds ms
    → IsId sn
    → first_at
        (λ m. is_zero (session_compare m.sn sn))
        (those (λ m. mk_hkey m.sn.peer_addr == mk_hkey sn.peer_addr) ms)
      ≡ first_at (λ m. same_id m.sn sn) ms
first_at-same [] sn ids id = refl
first_at-same (m ∷ ms) sn ids id =
    ground (arith, same_id-compare m.sn sn ids.0 id, first_at-same ms sn ids.1 id)

module _ {T A : Type 0} (w : World T A) (ms : List Member) (fuel : ℕ) (good : IsTables w ms)
    (enough : length ms < fuel) where
  find_from-Chain :
      (next : SessionInt → Ptr) (test : SessionInt → Bool) (wanted among : Member → Bool) (p : Ptr)
      → ((m : Member) (s : SessionInt) → Holds m s → test s ≡ wanted m)
      → ((m : Member) → wanted m ≡ true → among m ≡ true)
      → Chain next w.heap p (those among ms)
      → find_from next test fuel p w.heap ≡ done (first_at wanted ms)
  find_from-Chain next test wanted among p agree imp c =
      find_from-first_at next test wanted w.heap agree (those among ms) p fuel c
        (omega (arith, length-those among ms))
      ∙ ap done (first_at-those wanted among ms imp)

  -- Where the tables hold some sessions, a received packet finds the newest session with the
  -- discriminator that it names; or, if it names none, the newest session with the peer that it
  -- comes from; or no session if there is none such. Fuel for more steps than there are sessions
  -- is enough.
  pub get_session_lem :
      (cp : Bytes) (addr : ℕ)
      → get_session fuel cp addr w
        ≡ done (
            first_at
              (λ m.
                if get_your_discr cp == 0
                then m.sn.peer_addr == addr
                else discr m == get_your_discr cp)
              ms)
  unfolding get_session
  get_session_lem cp addr = elim (Bool-cases (get_your_discr cp == 0)) [
    | inl none_named ↦
        rw (none_named, get_session)
          (find_from-Chain (λ s. s.peer_next) (λ s. s.sn.peer_addr == addr)
            (λ m. m.sn.peer_addr == addr) (λ m. mk_hkey m.sn.peer_addr == mk_hkey addr)
            (w.peer_hash (mk_hkey addr)) (λ m s holds. ground (arith, holds))
            (λ m found. ground arith) (good.by_peer (mk_hkey addr)))
    | inr named ↦
        let your = get_your_discr cp in
        rw (named, get_session)
          (find_from-Chain (λ s. s.hash_next) (λ s. s.local_discr == your) (λ m. discr m == your)
            (λ m. mk_hkey (discr m) == mk_hkey your) (w.session_hash (mk_hkey your))
            (λ m s holds. ground (arith, holds)) (λ m found. ground arith)
            (good.by_discr (mk_hkey your)))
  ]

  -- Where the tables hold some sessions, whose addresses fit 32 bits, a session that is created,
  -- subscribed to or deleted by its identity is found as the newest one with the same four
  -- identifying fields, or not at all if there is none.
  pub match_session_lem :
      (sn : BfdSession)
      → AllIds ms
      → IsId sn
      → match_session fuel sn w ≡ done (first_at (λ m. same_id m.sn sn) ms)
  unfolding match_session
  match_session_lem sn ids id =
      let among = λ (m : Member). mk_hkey m.sn.peer_addr == mk_hkey sn.peer_addr in
      find_from-first_at (λ s. s.peer_next) (λ s. is_zero (session_compare s.sn sn))
        (λ m. is_zero (session_compare m.sn sn)) w.heap
        (λ m s holds. ap (λ x. is_zero (session_compare x sn)) holds.1) (those among ms)
        (w.peer_hash (mk_hkey sn.peer_addr)) fuel (good.by_peer (mk_hkey sn.peer_addr))
        (omega (arith, length-those among ms))
      ∙ ap done (first_at-same ms sn ids id)
