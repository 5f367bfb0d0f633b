-- ===== src/Client/Cycle.antt =====
-- src/libbfdmon/bfdmonClient.c: a subscription of the client, the same one again, and its end.
use Prim.Native.String.{count}
use free_bfd.Base.{ℕ, ◌≡◌, refl, ◌∙◌, Bool, true, none, some, List, ◌∷◌, ◌++◌, pos}
use free_bfd.Session.{BfdSession}
use free_bfd.Utils.Compare.{IsId, session_compare-SameId_iff}
use free_bfd.Texts.{codes}
use free_bfd.Trees.{Index, IsOrder}
use free_bfd.Json.{Inet}
use free_bfd.Json.Read.{IsNamed}
use free_bfd.Streams.{Answer, accepted}
use free_bfd.Client.{
  Subscription, subscription_compare, Client, looked_for, subscribe_text, unsubscribe_text,
  subscribe_session, unsubscribe_session, unsubscribe_sent,
}
use free_bfd.Client.Texts.{subscribe_text-whole, unsubscribe_text-whole}

module _ {T : Type 0} (index : Index Subscription subscription_compare T) (inet : Inet)
    (sn : BfdSession) (good : IsNamed inet sn) (cb arg : ℕ) (c : Client T)
    (absent : index.find (looked_for sn) c.subscription_tree ≡ none) where
  abbrev pub psub : Subscription
  psub = record { sn = sn; notify_cb = cb; cb_arg = arg }

  abbrev pub c1 : Client T
  c1 = record c {
    subscription_tree = index.insert psub c.subscription_tree;
    out = c.out ++ codes (subscribe_text sn);
  }

  abbrev pub c2 : Client T
  c2 = record c1 {
    subscription_tree = (index.delete (looked_for sn) c1.subscription_tree).1;
    out = c1.out ++ codes (unsubscribe_text sn);
  }

  still : index.find psub c.subscription_tree ≡ none
  unfolding subscription_compare
  still = index.find_same psub (looked_for sn) c.subscription_tree (λ x. refl) ∙ absent

  module _
      (order : IsOrder subscription_compare
        (psub ∷ looked_for sn ∷ index.items c.subscription_tree)) where
    found : index.find (looked_for sn) c1.subscription_tree ≡ some psub
    unfolding subscription_compare
    found =
        let id : IsId sn = record { peer = good.peer; here = good.local } in
        let same = (session_compare-SameId_iff sn sn id id).1 (refl, refl, refl, refl) in
        index.find-insert psub (looked_for sn) c.subscription_tree order still same

    -- A client that is not subscribed to a session subscribes, where there is memory and the kernel
    -- takes the request at once: the whole request is sent and the subscription is kept. To
    -- subscribe again does nothing, whatever the kernel would answer. To unsubscribe, where the
    -- kernel takes that request at once, sends it whole, gives 0 and takes just that subscription
    -- back. The comparison has to order the subscriptions that are compared.
    pub subscribe-unsubscribe_session :
        (answers : List Answer)
        → (subscribe_session index true true
              (accepted (count (subscribe_text sn)) ∷ answers)
              sn
              cb
              arg
              c
            ≡ some c1)
          × ((first second : Bool) (others : List Answer) (cb2 arg2 : ℕ)
              → subscribe_session index first second others sn cb2 arg2 c1 ≡ some c1)
          × (unsubscribe_session index (accepted (count (unsubscribe_text sn)) ∷ answers) sn c1
              ≡ some (pos 0, c2))
          × ((xs ys : List Subscription) × (index.items c1.subscription_tree ≡ xs ++ (psub ∷ ys))
              × (index.items c2.subscription_tree ≡ xs ++ ys))
    unfolding subscribe_session unsubscribe_session unsubscribe_sent
    subscribe-unsubscribe_session answers =
        let sent = subscribe_text-whole inet sn good answers in
        let ended = unsubscribe_text-whole inet sn good answers in
        let taken = index.delete-find (looked_for sn) c1.subscription_tree ∙ found in
        (
          rw (absent, subscribe_session, sent) refl,
          λ first second others cb2 arg2. rw (found, subscribe_session) refl,
          rw (taken, unsubscribe_session, unsubscribe_sent, ended) refl,
          index.delete_there (looked_for sn) psub c1.subscription_tree found,
        )
