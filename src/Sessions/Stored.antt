-- ===== src/Sessions/Stored.antt =====
-- A handler that leaves the links of a session leaves the tables as they are.
use free_bfd.Base.{
  ℕ, zero, suc, ◌≡◌, ◌<◌, ◌⊎◌, refl, sym, ap, ◌∙◌, arith, true, false, inl, inr, some, List, [],
  ◌∷◌, length, Bool-cases, ◌==◌,
}
use free_bfd.Session.{SessionInt, Ptr, null, Ctx}
use free_bfd.Session.Links.{SameLinks, StaysLinked}
use free_bfd.Sessions.{done, Heap, store, load, World, mk_hkey, on_session, ctx, put_ctx}
use free_bfd.Sessions.Lookup.{Member, discr, Chain, those, IsTables}
use free_bfd.Sessions.Arrivals.{for_all_from}

-- There is a session at the address, in the list.
abbrev pub HasMember : Ptr → List Member → Type 0
HasMember p [] = ⊥
HasMember p (m ∷ ms) = (p ≡ m.at) ⊎ HasMember p ms

pub some_same : (s t : SessionInt) → some s ≡ some t → s ≡ t
some_same s t e = cc

same_object :
    (h : Heap) (p q : Ptr) (s t : SessionInt)
    → (p == q) ≡ true
    → h p ≡ some s
    → h q ≡ some t
    → s ≡ t
same_object h p q s t here at held =
    let e : p ≡ q = ground (arith, here) in some_same s t (sym at ∙ ap h e ∙ held)

-- A chain does not see a change of an object that leaves its links.
pub Chain-store :
    (next : SessionInt → Ptr) (h : Heap) (p : Ptr) (s t : SessionInt) (q : Ptr) (ms : List Member)
    → h p ≡ some s
    → SameLinks t s
    → next t ≡ next s
    → Chain next h q ms
    → Chain next (store p (some t) h) q ms
Chain-store next h p s t q [] at same link c = c
Chain-store next h p s t q (m ∷ ms) at same link c =
    let (e, ne, linked) = c in
    let (s1, held, holds, rest) = linked in
    let kept = Chain-store next h p s t (next s1) ms at same link rest in
    elim (Bool-cases (p == m.at)) [
      | inl here ↦
          let e1 : s ≡ s1 = same_object h p m.at s s1 here at held in
          (e, ne, (t, ground (arith, here), ground (arith, same, e1, holds), rw (link, e1) kept))
      | inr elsewhere ↦ (e, ne, (s1, ground (arith, elsewhere, held), holds, kept))
    ]

-- A member's object.
member_at :
    (next : SessionInt → Ptr) (h : Heap) (q p : Ptr) (ms : List Member)
    → Chain next h q ms
    → HasMember p ms
    → (s : SessionInt) × (h p ≡ some s)
member_at next h q p [] c has = absurd has
member_at next h q p (m ∷ ms) c (inl e) = let (s1, held, holds, rest) = c.2 in (s1, rw e held)
member_at next h q p (m ∷ ms) c (inr has) =
    let (s1, held, holds, rest) = c.2 in member_at next h (next s1) p ms rest has

-- After a handler ran on the session at `p`: the tables hold the same sessions, and `ListNext`
-- leads through the same ones from anywhere.
pub record Ran {T A : Type 0} (p : Ptr) (w w1 : World T A) (ms : List Member) : Type 0 where
  pub tables : IsTables w1 ms
  pub list : w1.session_list ≡ w.session_list
  pub links :
      (q : Ptr) (ns : List Member)
      → Chain (λ x. x.list_next) w.heap q ns
      → Chain (λ x. x.list_next) w1.heap q ns

module _ {T A : Type 0} (f : Ctx T → Ctx T) (stays : (c : Ctx T) → StaysLinked (f c) c) where
  -- A handler that leaves the links, on a session of the tables.
  pub on_session-Ran :
      (p : Ptr) (w : World T A) (ms : List Member)
      → IsTables w ms
      → HasMember p ms
      → (w1 : World T A) × (on_session f p w ≡ done w1) × Ran p w w1 ms
  unfolding on_session ctx put_ctx
  on_session-Ran p w ms good has =
      let (s, at) = member_at (λ x. x.list_next) w.heap w.session_list p ms good.all has in
      let stay = stays (ctx p s w) in
      let t = (f (ctx p s w)).bfd in
      let loaded : load p w.heap ≡ done s = ground (arith, at) in
      let kept = λ (next : SessionInt → Ptr) (link : next t ≡ next s) (q : Ptr) (ns : List Member).
        Chain-store next w.heap p s t q ns at stay.links link in
      (
        put_ctx (f (ctx p s w)) w,
        rw (loaded, on_session) refl,
        record {
          tables = record {
            all = rw stay.self (kept (λ x. x.list_next) stay.links.list w.session_list ms good.all);
            by_discr = λ k. rw stay.self (
                kept (λ x. x.hash_next) stay.links.hash (w.session_hash k)
                  (those (λ m. mk_hkey (discr m) == k) ms) (good.by_discr k));
            by_peer = λ k. rw stay.self (
                kept (λ x. x.peer_next) stay.links.peer (w.peer_hash k)
                  (those (λ m. mk_hkey m.sn.peer_addr == k) ms) (good.by_peer k));
          };
          list = refl;
          links = λ q ns c. rw stay.self (kept (λ x. x.list_next) stay.links.list q ns c);
        },
      )

  -- The loop over a part of `sessionList`, with more fuel than there are sessions in it.
  pub for_all_from-IsTables :
      (ns : List Member) (q : Ptr) (w : World T A) (ms : List Member) (fuel : ℕ)
      → IsTables w ms
      → Chain (λ x. x.list_next) w.heap q ns
      → ((p : Ptr) → HasMember p ns → HasMember p ms)
      → length ns < fuel
      → (w1 : World T A) × (for_all_from f fuel q w ≡ done w1) × IsTables w1 ms
  unfolding for_all_from
  for_all_from-IsTables ns q w ms zero good c sub enough = absurd (omega arith)
  for_all_from-IsTables [] q w ms (suc fuel) good c sub enough =
      (w, rw (c, for_all_from) refl, good)
  for_all_from-IsTables (n ∷ ns) q w ms (suc fuel) good c sub enough =
      let (e, ne, linked) = c in
      let (w1, ran, keeps) = on_session-Ran q w ms good (sub q (inl e)) in
      let (e1, ne1, linked1) = keeps.links q (n ∷ ns) c in
      let (t, held, holds, rest) = linked1 in
      let (w2, finished, good2) =
        for_all_from-IsTables ns t.list_next w1 ms fuel keeps.tables rest (λ p has. sub p (inr has))
          (omega arith) in
      let head : (q == null) ≡ false = ground (arith, e, ne) in
      let loaded : load q w1.heap ≡ done t = ground (arith, e, held) in
      (w2, rw (head, for_all_from, ran, loaded) finished, good2)
