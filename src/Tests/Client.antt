-- ===== src/Tests/Client.antt =====
-- The theorems on the client library, and on the loop around `send`.
use free_bfd.Base.{ℕ, ◌≡◌, ◌++◌, Bool, refl, arith, true, some, List, [], ◌∷◌, pos, length}
use free_bfd.Session.{up}
use free_bfd.Texts.{codes}
use free_bfd.Utils.{session_compare}
use free_bfd.Streams.{Answer, Sending, accepted, interrupted, failed, sendall}
use free_bfd.Streams.Sent.{IsSent, sendall_lem, sendall_short}
use free_bfd.Monitor.Notify.{notify_text}
use free_bfd.Client.{
  Subscription, subscription_compare, Client, looked_for, subscribe_text, unsubscribe_text,
  subscribe_session, unsubscribe_session,
}
use free_bfd.Client.Notifications.{notify_read_and_dispatch}
use free_bfd.Client.Notifications as Notifications
use free_bfd.Client.Cycle.{subscribe-unsubscribe_session}
use free_bfd.Trees.{IsOrder}
use Prim.Native.String.{count}
use free_bfd.Client.Delivered.{notify_text-notify_read}
use free_bfd.Tests.Trees.{list_index}
use free_bfd.Tests.Messages.{inet, sn, sn-IsNamed, notify_doc, json, notify-Reads}

abbrev pub client : Client (List Subscription)
client = record {
  subscription_tree = record { sn = sn; notify_cb = 7; cb_arg = 8 } ∷ [];
  out = [];
  calls = [];
}

pub sn-found :
    (list_index subscription_compare).find (looked_for sn) client.subscription_tree
    ≡ some (record { sn = sn; notify_cb = 7; cb_arg = 8 })
unfolding subscription_compare session_compare
sn-found = refl

notify_text-notify_read_example :
    notify_read_and_dispatch
      (list_index subscription_compare)
      json
      inet
      (Notifications.bytes (codes (notify_text sn up)))
      sn
      client
    ≡ (
      pos (length (codes (notify_text sn up))),
      0,
      record client { calls = record { cb = 7; sn = sn; state = up; arg = 8 } ∷ [] },
    )
notify_text-notify_read_example =
    notify_text-notify_read (list_index subscription_compare) json inet sn sn sn-IsNamed up
      notify_doc client (record { sn = sn; notify_cb = 7; cb_arg = 8 }) notify-Reads sn-found

-- Five bytes: three, then an interruption, then the rest.
sendall_lem_example :
    (s : Sending) × (sendall
        (1 ∷ 2 ∷ 3 ∷ 4 ∷ 5 ∷ [])
        (accepted 2 ∷ interrupted ∷ accepted 1 ∷ accepted 1 ∷ accepted 1 ∷ failed ∷ [])
      ≡ some s)
    × IsSent (1 ∷ 2 ∷ 3 ∷ 4 ∷ 5 ∷ []) s
sendall_lem_example =
    sendall_lem (1 ∷ 2 ∷ 3 ∷ 4 ∷ 5 ∷ [])
      (accepted 2 ∷ interrupted ∷ accepted 1 ∷ accepted 1 ∷ accepted 1 ∷ failed ∷ [])
      (
        omega arith,
        omega arith,
        (omega arith, omega arith, (omega arith, omega arith, (omega arith, omega arith, tt))),
      )
      (omega arith)

sendall_short_example :
    sendall (1 ∷ 2 ∷ 3 ∷ 4 ∷ 5 ∷ []) (accepted 3 ∷ [])
    ≡ some (record { ok = true; bytes_sent = 3; out = 1 ∷ 2 ∷ 3 ∷ []; left = [] })
sendall_short_example = sendall_short (1 ∷ 2 ∷ 3 ∷ 4 ∷ 5 ∷ []) 3 [] (omega arith) (omega arith)

abbrev fresh : Client (List Subscription)
fresh = record client { subscription_tree = [] }

abbrev psub_here : Subscription
psub_here = record { sn = sn; notify_cb = 7; cb_arg = 8 }

sn-IsOrder : IsOrder subscription_compare (psub_here ∷ looked_for sn ∷ [])
unfolding subscription_compare session_compare
sn-IsOrder = record {
  reflexive = (refl, (refl, tt));
  flips = ((refl, (refl, tt)), ((refl, (refl, tt)), tt));
  chains = (
    (((λ h i. h), ((λ h i. h), tt)), (((λ h i. h), ((λ h i. h), tt)), tt)),
    ((((λ h i. h), ((λ h i. h), tt)), (((λ h i. h), ((λ h i. h), tt)), tt)), tt),
  );
}

abbrev subscribed_here : Client (List Subscription)
subscribed_here = record fresh {
  subscription_tree = psub_here ∷ [];
  out = codes (subscribe_text sn);
}

subscribe-unsubscribe_session_example :
    (subscribe_session
        (list_index subscription_compare)
        true
        true
        (accepted (count (subscribe_text sn)) ∷ [])
        sn
        7
        8
        fresh
      ≡ some subscribed_here)
    × ((first second : Bool) (others : List Answer) (cb2 arg2 : ℕ)
        → subscribe_session
            (list_index subscription_compare)
            first
            second
            others
            sn
            cb2
            arg2
            subscribed_here
          ≡ some subscribed_here)
    × (unsubscribe_session
          (list_index subscription_compare)
          (accepted (count (unsubscribe_text sn)) ∷ [])
          sn
          subscribed_here
        ≡ some (
          pos 0,
          record fresh { out = codes (subscribe_text sn) ++ codes (unsubscribe_text sn) },
        ))
    × ((xs ys : List Subscription) × (psub_here ∷ [] ≡ xs ++ (psub_here ∷ ys)) × ([] ≡ xs ++ ys))
unfolding subscription_compare session_compare
subscribe-unsubscribe_session_example =
    subscribe-unsubscribe_session (list_index subscription_compare) inet sn sn-IsNamed 7 8 fresh
      refl sn-IsOrder []
