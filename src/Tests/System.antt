-- ===== src/Tests/System.antt =====
-- The theorem on client, server and sessions together, at a server with one session.
use Prim.Native.String.{count}
use free_bfd.Base.{
  ℕ, ◌≡◌, refl, arith, true, none, some, List, [], ◌∷◌, pos, length, ◌==◌, if◌then◌else◌,
}
use free_bfd.Session.{SessionInt, down, notified}
use free_bfd.Session.Timeout.{xmt_timeout}
use free_bfd.Session.Output.{send_cpkt, start_xmt_timer}
use free_bfd.Sessions.{done, World, ctx, put_ctx}
use free_bfd.Sessions.Lookup.{Member, IsTables}
use free_bfd.Sessions.Lifecycle.{new_session, link_session}
use free_bfd.Sessions.Create.{link_session-IsTables}
use free_bfd.Utils.{state_to_str, session_compare}
use free_bfd.Texts.{dec, dec_from, codes}
use free_bfd.Json.{Json}
use free_bfd.Streams.{accepted, ended}
use free_bfd.Monitor.{Monitor, ConnectionItem, Server, monitor_compare}
use free_bfd.Monitor.Filled.{session_core}
use free_bfd.Monitor.Commands.{bytes, recv_pkt}
use free_bfd.Monitor.Notify.{notify_text, monitor_notify}
use free_bfd.Client.{subscription_compare, subscribe_text}
use free_bfd.Client.Notifications as Notifications
use free_bfd.Client.Notifications.{notify_read_and_dispatch}
use free_bfd.Client.Requests.{Reads}
use free_bfd.System.{IsReady, IsRead, after, mon, subscribe_text-notified}
use free_bfd.Tests.{T, timers, random}
use free_bfd.Tests.Tables.{kernel, calloc, empty, empty-IsTables}
use free_bfd.Tests.Trees.{list_index}
use free_bfd.Tests.Messages.{inet, sn, sn-IsNamed, reader, request_doc, request-Means, notify-Means}
use free_bfd.Json.Docs.{Doc, notification}
use free_bfd.Tests.Monitor.{alloc, monitors, connections, conn}
use free_bfd.Tests.Client.{client, sn-found}

abbrev here : Member
here = record { at = 2000; sn = sn }

world : World T ℕ
world = link_session timers random kernel 1 calloc 2000 (new_session 2000 sn) empty

world-IsTables : IsTables world (here ∷ [])
unfolding world new_session
world-IsTables =
    link_session-IsTables timers random kernel 1 calloc 2000 (new_session 2000 sn) empty []
      (λ e. cc) refl refl empty-IsTables

held : SessionInt
unfolding world new_session link_session put_ctx xmt_timeout send_cpkt start_xmt_timer ctx
held = elim (world.heap 2000) [ none ↦ new_session 2000 sn | some s ↦ s ]

held_there : world.heap 2000 ≡ some held
unfolding held
held_there = refl

held_down : held.session_state ≡ down
unfolding held
held_down = refl

abbrev told : Doc
told = notification sn held.session_state

abbrev json : Json Doc
json = reader request_doc told

abbrev server : Server (World T ℕ) (List Monitor) (List ConnectionItem)
server = record {
  core = world;
  monitors = λ p. none;
  connections = λ q. if q == 1000 then some conn else none;
  connection_tree = record { at = 1000; sock = 4 } ∷ [];
  closed = [];
  allocs = 2;
}

ready :
    IsReady timers random kernel 1
      (λ n. 3000)
      2
      8
      (λ a. 9)
      alloc
      monitors
      connections
      json
      inet
      sn
      sn-IsNamed
      request_doc
      told
      server
      1000
      conn
      (here ∷ [])
      held
unfolding session_compare monitor_compare world link_session
ready = record {
  tables = world-IsTables;
  ids = (record { peer = omega arith; here = omega arith }, tt);
  enough = omega arith;
  a_session = λ e. cc;
  there = held_there;
  connected = refl;
  absent = refl;
  room = λ e. cc;
  more_room = λ e. cc;
  callback = λ e. cc;
}

asks : Reads json request_doc request_doc
unfolding dec dec_from held state_to_str
asks = record { whole = refl; parsed = refl; means = request-Means request_doc told }

tells : Reads json told told
unfolding held dec dec_from state_to_str
tells = record {
  whole = refl;
  parsed = refl;
  means = notify-Means request_doc told held.session_state;
}

read :
    IsRead timers random kernel 1
      (λ n. 3000)
      2
      8
      (λ a. 9)
      alloc
      monitors
      connections
      json
      inet
      sn
      sn-IsNamed
      request_doc
      told
      server
      1000
      conn
      (here ∷ [])
      held
read = record { asks = asks; tells = tells }

abbrev line : List ℕ
line = codes (notify_text sn held.session_state)

abbrev monitor : Monitor
monitor =
    mon timers random kernel 1 (λ n. 3000) 2 8 (λ a. 9) alloc monitors connections json inet sn
      sn-IsNamed request_doc told server 1000 conn (here ∷ []) held

abbrev told_server : Server (World T ℕ) (List Monitor) (List ConnectionItem)
told_server =
    after timers random kernel 1 (λ n. 3000) 2 8 (λ a. 9) alloc monitors connections json inet sn
      sn-IsNamed request_doc told server 1000 conn (here ∷ []) held

subscribe_text-notified_example :
    (recv_pkt
        (session_core timers random kernel 1 (λ n. 3000) 2 8 (λ a. 9))
        alloc
        monitors
        connections
        json
        inet
        1000
        (bytes (codes (subscribe_text sn)))
        server
      ≡ done (some told_server))
    × (told_server.monitors 1001 ≡ some monitor)
    × (told_server.core.out ≡ notified 8 1001 held.session_state ∷ world.out)
    × (monitor_notify monitor held.session_state
          (accepted (count (notify_text sn held.session_state)) ∷ [])
        ≡ ended true (count (notify_text sn held.session_state)) line [])
    × (notify_read_and_dispatch
          (list_index subscription_compare)
          json
          inet
          (Notifications.bytes line)
          sn
          client
        ≡ (
          pos (length line),
          0,
          record client {
            calls = record { cb = 7; sn = sn; state = held.session_state; arg = 8 } ∷ [];
          },
        ))
subscribe_text-notified_example =
    subscribe_text-notified timers random kernel 1 (λ n. 3000) 2 8 (λ a. 9) alloc monitors
      connections json inet sn sn-IsNamed request_doc told server 1000 conn (here ∷ []) held ready
      read (list_index subscription_compare) client sn
      (record { sn = sn; notify_cb = 7; cb_arg = 8 }) sn-found
