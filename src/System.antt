-- ===== src/System.antt =====
-- The monitor's client, the server and the sessions together: from a request of the client
-- (src/libbfdmon/bfdmonClient.c) through the server (src/monitor/bfdmonServer.c) to a session
-- (src/core/bfd.c), and with the first notification back to the client.
use Prim.Native.String.{count}
use free_bfd.Base.{
  ℕ, suc, ◌≡◌, ◌≢◌, ◌<◌, refl, arith, true, false, none, some, List, [], ◌∷◌, pos, length, ◌==◌,
}
use free_bfd.Session.{BfdSession, SessionInt, Ptr, null, Timers, notified}
use free_bfd.Sockets.{Kernel}
use free_bfd.Sessions.{done, World}
use free_bfd.Sessions.Lookup.{Member, IsTables, AllIds, same_id, first_at}
use free_bfd.Sessions.Subscribers.{subscribed, subscribe_lem}
use free_bfd.Utils.Compare.{IsId}
use free_bfd.Texts.{codes}
use free_bfd.Trees.{Index}
use free_bfd.Json.{Json, Inet}
use free_bfd.Json.Read.{IsNamed}
use free_bfd.Json.Docs.{subscription, notification}
use free_bfd.Streams.{accepted, ended}
use free_bfd.Monitor.{
  Monitor, Connection, ConnectionItem, monitor_compare, connection_compare, Server, Alloc, Actor,
  new_at, write, monitor_create_copy,
}
use free_bfd.Monitor.Filled.{session_core}
use free_bfd.Monitor.Commands.{
  bytes, request, subscribe_found, subscribe_new, subscribe_copy, recv_pkt,
}
use free_bfd.Monitor.Notify.{notify_text, monitor_notify}
use free_bfd.Monitor.Texts.{monitor_notify-whole}
use free_bfd.Client.{Subscription, subscription_compare, Client, subscribe_text, looked_for}
use free_bfd.Client.Notifications as Notifications
use free_bfd.Client.Notifications.{notify_read_and_dispatch}
use free_bfd.Client.Requests.{Reads, subscribe_text-subscribe_found}
use free_bfd.Client.Delivered.{notify_text-notify_read}

module _ {T A : Type 0} (timers : Timers T) (random : ℕ → ℕ) (kernel : Kernel) (receiver : A)
    (calloc : ℕ → Ptr) (fuel notify : ℕ) (actor : Actor → A) {M C J : Type 0} (alloc : Alloc)
    (monitors : Index Monitor monitor_compare M)
    (connections : Index ConnectionItem connection_compare C) (json : Json J) (inet : Inet)
    (sn : BfdSession) (good : IsNamed inet sn) (j told : J) (s : Server (World T A) M C) (q : Ptr)
    (conn : Connection M) (ms : List Member) (t : SessionInt) where
  abbrev pub at : Ptr
  at = new_at alloc s

  abbrev pub handle : Ptr
  handle = calloc s.core.allocs

  -- The sessions of the server are in order, and one of them is the one that is asked for; the
  -- connection did not ask for it before, and there is memory.
  pub record IsReady : Type 0 where
    pub tables : IsTables s.core ms
    pub ids : AllIds ms
    pub enough : length ms < fuel
    pub a_session : first_at (λ m. same_id m.sn sn) ms ≢ null
    pub there : s.core.heap (first_at (λ m. same_id m.sn sn) ms) ≡ some t
    pub connected : s.connections q ≡ some conn
    pub absent : monitors.find (request conn.sock sn) conn.monitor_tree ≡ none
    pub room : at ≢ null
    pub more_room : handle ≢ null
    pub callback : notify ≢ null

  -- json-c reads the document that asks for the session, and the one that tells its state.
  pub record IsRead : Type 0 where
    pub asks : Reads json (subscription sn) j
    pub tells : Reads json (notification sn t.session_state) told

  abbrev pub mon : Monitor
  mon = record (request conn.sock sn) { at = at; bfd_sub_handle = handle }

  abbrev pub after : Server (World T A) M C
  after = record s {
    core = subscribed timers random kernel receiver calloc s.core ms fuel sn notify at t;
    monitors =
        write at (some mon)
          (write at (some (record (request conn.sock sn) { at = at })) s.monitors);
    connections =
        write q (some (record conn { monitor_tree = monitors.insert mon conn.monitor_tree }))
          s.connections;
    allocs = suc s.allocs;
  }

  module _ (ready : IsReady) (read : IsRead) where
    served :
        recv_pkt
          (session_core timers random kernel receiver calloc fuel notify actor)
          alloc
          monitors
          connections
          json
          inet
          q
          (bytes (codes (subscribe_text sn)))
          s
        ≡ done (some after)
    unfolding subscribe_found subscribe_new subscribe_copy monitor_create_copy
    served =
        let core = session_core timers random kernel receiver calloc fuel notify actor in
        let found =
          subscribe_text-subscribe_found core alloc monitors connections json inet sn good j q conn
            s read.asks ready.connected in
        let id : IsId sn = record { peer = good.peer; here = good.local } in
        let called =
          subscribe_lem timers random kernel receiver calloc s.core ms fuel sn notify at t
            ready.tables ready.ids id ready.enough ready.callback ready.more_room ready.a_session
            ready.there in
        let off : (at == null) ≡ false = ground (arith, ready.room) in
        let on : (handle == null) ≡ false = ground (arith, ready.more_room) in
        rw
          (
            found, ready.absent, subscribe_found, off, subscribe_new, monitor_create_copy,
            subscribe_copy, called, on,
          )
          refl

    module _ {Tr : Type 0} (index : Index Subscription subscription_compare Tr) (c : Client Tr)
        (garbage : BfdSession) (psub : Subscription)
        (found : index.find (looked_for sn) c.subscription_tree ≡ some psub) where
      abbrev pub line : List ℕ
      line = codes (notify_text sn t.session_state)

      -- A client asks for a session that the server has, on a connection that did not ask for it
      -- before: a monitor for that very session comes to be, the session calls it back at once
      -- with its state, and the notification that is then sent, if the kernel takes it at once,
      -- makes the client call the function of its subscription with the session's state. The
      -- fields of the session are in range, and json-c reads the two documents, of the subscription
      -- and of the notification; the tables of sessions are in order, and no allocation fails.
      pub subscribe_text-notified :
          (recv_pkt
              (session_core timers random kernel receiver calloc fuel notify actor)
              alloc
              monitors
              connections
              json
              inet
              q
              (bytes (codes (subscribe_text sn)))
              s
            ≡ done (some after))
          × (after.monitors at ≡ some mon)
          × (after.core.out ≡ notified notify at t.session_state ∷ s.core.out)
          × (monitor_notify mon t.session_state
                (accepted (count (notify_text sn t.session_state)) ∷ [])
              ≡ ended true (count (notify_text sn t.session_state)) line [])
          × (notify_read_and_dispatch index json inet (Notifications.bytes line) garbage c ≡ (
            pos (length line),
            0,
            record c {
              calls =
                  record {
                    cb = psub.notify_cb;
                    sn = psub.sn;
                    state = t.session_state;
                    arg = psub.cb_arg;
                  }
                  ∷ c.calls;
            },
          ))
      subscribe_text-notified =
          let same : (at == at) ≡ true = ground arith in
          (
            served,
            rw same refl,
            refl,
            monitor_notify-whole inet mon good t.session_state [],
            notify_text-notify_read index json inet sn garbage good t.session_state told c psub
                read.tells found,
          )
