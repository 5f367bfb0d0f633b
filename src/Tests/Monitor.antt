-- ===== src/Tests/Monitor.antt =====
-- The theorems on the monitor server, at a connection that asks for a session.
use mathlib.Core.Path.{subst}
use free_bfd.Base.{
  ℕ, zero, suc, Bool-cases, ◌⊎◌, ◌+◌, ◌≡◌, refl, arith, Bool, false, Option, none, some, List, [],
  ◌∷◌, pos, inl, inr, ◌==◌, if◌then◌else◌,
}
use free_bfd.Session.{BfdSession, Ptr, null}
use free_bfd.Sessions.{done, ◌and_then◌}
use free_bfd.Texts.{dec, dec_from, cut, codes}
use free_bfd.Utils.Strings.{session_set_strings}
use free_bfd.Utils.{session_compare}
use free_bfd.Trees.{Index, All, IsOrder}
use free_bfd.Trees.Items.{AllApart}
use free_bfd.Json.{read_session_id, read_identity, read_session_opts}
use free_bfd.Monitor.Owned.{IsOwned, IsConnection, IsServer, Apart}
use free_bfd.Monitor.Repeated.{Requested, subscribe-handler_unsubscribe}
use free_bfd.Monitor.Close.{unsubscribe_all, connection_close_lem, closed_at}
use free_bfd.Monitor.{
  Monitor, Connection, ConnectionItem, monitor_compare, connection_compare, Core, Server, Alloc,
  write, connection_close,
}
use free_bfd.Monitor.Commands.{
  handler_subscribe, handler_unsubscribe, zero_session, bytes, request, subscribe_found, recv_pkt,
}
use free_bfd.Client.{subscribe_text}
use free_bfd.Client.Requests.{subscribe_text-subscribe_found}
use free_bfd.Tests.Trees.{list_index}
use free_bfd.Tests.Messages.{inet, sn, sn-IsNamed, session_doc, request_doc, json, request-Reads}
use free_bfd.Json.Docs.{Doc, empty, with_member}

-- The sessions, as a count of the subscriptions so far; a handle is its number, from 100 on.
abbrev pub core : Core ℕ
core = record {
  subscribe = λ sn p w. done (100 + w, 1 + w);
  unsubscribe = λ h w. done w;
  set_skt_actor = λ sock a w. (pos 0, w);
  rm_skt_actor = λ sock w. (pos 0, w);
}

-- An allocator that looks for a free address, and gives up.
abbrev pub first_free : ℕ → ℕ → (Ptr → Bool) → Ptr
first_free zero p used = null
first_free (suc n) p used = let rest = first_free n (suc p) used in if used p then rest else p

pub first_free-fresh :
    (n p : ℕ) (used : Ptr → Bool)
    → (first_free n p used ≡ null) ⊎ (used (first_free n p used) ≡ false)
first_free-fresh zero p used = inl refl
first_free-fresh (suc n) p used = elim (Bool-cases (used p)) [
  | inl taken ↦ rw taken (first_free-fresh n (suc p) used)
  | inr free ↦ inr (rw free free)
]

abbrev pub alloc : Alloc
alloc = record {
  calloc = λ used k. first_free 50 1000 used;
  fresh = λ used k. first_free-fresh 50 1000 used;
}

abbrev pub monitors : Index Monitor monitor_compare (List Monitor)
monitors = list_index monitor_compare

abbrev pub connections : Index ConnectionItem connection_compare (List ConnectionItem)
connections = list_index connection_compare

abbrev pub conn : Connection (List Monitor)
conn = record { sock = 4; monitor_tree = [] }

abbrev held : Monitor
held = record { at = 1001; sock = 4; sn = sn; bfd_sub_handle = 100 }

abbrev busy : Connection (List Monitor)
busy = record { sock = 4; monitor_tree = held ∷ [] }

-- A server with one connection.
abbrev server :
    Connection (List Monitor)
    → (Ptr → Option Monitor)
    → Server ℕ (List Monitor) (List ConnectionItem)
server c f = record {
  core = 1;
  monitors = f;
  connections = λ q. if q == 1000 then some c else none;
  connection_tree = record { at = 1000; sock = 4 } ∷ [];
  closed = [];
  allocs = 2;
}

abbrev serving : Server ℕ (List Monitor) (List ConnectionItem)
serving = server busy (λ p. if p == 1001 then some held else none)

connection_close_lem_example :
    (connection_close core alloc monitors connections 1000 serving ≡ (
      unsubscribe_all core (held ∷ []) 1 and_then λ w.
      done (closed_at core alloc monitors connections 1000 busy serving w)))
    × ((w : ℕ)
        → All
            (λ m.
              (closed_at core alloc monitors connections 1000 busy serving w).monitors m.at ≡ none)
            (held ∷ []))
connection_close_lem_example =
    connection_close_lem core alloc monitors connections 1000 busy serving (omega arith) refl
      (omega arith, tt)

subscribe_text-subscribe_found_example :
    recv_pkt core alloc monitors connections json inet 1000
      (bytes (codes (subscribe_text sn)))
      (server conn (λ p. none))
    ≡ subscribe_found core alloc monitors connections json inet 1000 conn
        (request 4 sn)
        (server conn (λ p. none))
subscribe_text-subscribe_found_example =
    subscribe_text-subscribe_found core alloc monitors connections json inet sn sn-IsNamed
      request_doc 1000 conn (server conn (λ p. none)) request-Reads refl

abbrev idle : Server ℕ (List Monitor) (List ConnectionItem)
idle = server conn (λ p. none)

idle-IsServer : IsServer monitors (λ p. 1000) idle
idle-IsServer = record { each = λ q c e. idle_at q c e }
  where
    idle_at :
        (q : Ptr) (c : Connection (List Monitor))
        → idle.connections q ≡ some c
        → IsConnection monitors idle.monitors (λ p. 1000) q c
    idle_at q c e = elim (Bool-cases (q == 1000)) [
      | inl here ↦
          let same : conn ≡ c = ground (arith, here, e) in
          record {
            a_conn = ground arith;
            own =
                subst (λ c. All (IsOwned idle.monitors (λ p. 1000) q c.sock) c.monitor_tree) same
                  tt;
            once = subst (λ c. AllApart Apart c.monitor_tree) same tt;
          }
      | inr far ↦ absurd (ground (arith, far, e))
    ]

abbrev again : Doc
again = with_member "SessionID" session_doc empty

abbrev again_sn : BfdSession
again_sn = record zero_session {
  peer_addr = 16_777_226;
  peer_port = 3784;
  local_port = 3784;
  peer_addr_str = "16777226";
  local_addr_str = "0";
  sn_id_str = "peer=16777226:3784 local=0:3784";
}

abbrev first : Monitor
first = record { at = 1001; sock = 4; sn = sn; bfd_sub_handle = 101 }

sn-IsOrder : IsOrder monitor_compare (first ∷ request 4 sn ∷ [])
unfolding monitor_compare session_compare
sn-IsOrder = record {
  reflexive = (refl, (refl, tt));
  flips = ((refl, (refl, tt)), ((refl, (refl, tt)), tt));
  chains = (
    (((λ h i. h), ((λ h i. h), tt)), (((λ h i. h), ((λ h i. h), tt)), tt)),
    ((((λ h i. h), ((λ h i. h), tt)), (((λ h i. h), ((λ h i. h), tt)), tt)), tt),
  );
}

again-IsOrder : IsOrder monitor_compare (first ∷ request 4 again_sn ∷ [])
unfolding monitor_compare session_compare
again-IsOrder = record {
  reflexive = (refl, (refl, tt));
  flips = ((refl, (refl, tt)), ((refl, (refl, tt)), tt));
  chains = (
    (((λ h i. h), ((λ h i. h), tt)), (((λ h i. h), ((λ h i. h), tt)), tt)),
    ((((λ h i. h), ((λ h i. h), tt)), (((λ h i. h), ((λ h i. h), tt)), tt)), tt),
  );
}

sn-Requested :
    Requested core alloc monitors connections json inet
      (λ p. 1000)
      idle
      idle-IsServer
      1000
      conn
      refl
      request_doc
      again
      sn
      again_sn
      101
      2
      2
unfolding read_session_id read_identity read_session_opts session_set_strings dec dec_from cut
sn-Requested = record {
  first = refl;
  second = refl;
  id = record { peer = omega arith; here = omega arith };
  id2 = record { peer = omega arith; here = omega arith };
  same = (refl, refl, refl, refl);
  absent = refl;
  ordered = sn-IsOrder;
  ordered2 = again-IsOrder;
  room = omega arith;
  given = omega arith;
  subscribed = refl;
  unsubscribed = refl;
}

abbrev subscribed : Server ℕ (List Monitor) (List ConnectionItem)
subscribed = record idle {
  core = 2;
  monitors =
      write 1001 (some first)
        (write 1001 (some (record first { bfd_sub_handle = null })) idle.monitors);
  connections = write 1000 (some (record conn { monitor_tree = first ∷ [] })) idle.connections;
  allocs = 3;
}

abbrev left : Server ℕ (List Monitor) (List ConnectionItem)
left = record subscribed {
  monitors = write 1001 none subscribed.monitors;
  connections = write 1000 (some conn) subscribed.connections;
}

subscribe-handler_unsubscribe_example :
    (handler_subscribe core alloc monitors connections json inet 1000 conn request_doc idle
      ≡ done (some subscribed))
    × (handler_subscribe core alloc monitors connections json inet 1000
          (record conn { monitor_tree = first ∷ [] })
          request_doc
          subscribed
        ≡ done (some subscribed))
    × (handler_unsubscribe core alloc monitors connections json inet 1000
          (record conn { monitor_tree = first ∷ [] })
          again
          subscribed
        ≡ done (some left))
    × (left.connections 1000 ≡ some conn)
    × (monitors.items [] ≡ monitors.items conn.monitor_tree)
    × ((m : Ptr) → left.monitors m ≡ idle.monitors m)
unfolding monitor_compare session_compare
subscribe-handler_unsubscribe_example =
    subscribe-handler_unsubscribe core alloc monitors connections json inet (λ p. 1000) idle
      idle-IsServer 1000 conn refl request_doc again sn again_sn 101 2 2 sn-Requested
