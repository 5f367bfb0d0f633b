-- ===== src/Lib.antt =====
-- FreeBFD: Bidirectional Forwarding Detection (RFC 5880) for IPv4 single hops (RFC 5881).
--
-- The core of the program is src/core: bfd.c holds the protocol, bfdSockets.c its UDP sockets,
-- and tp-timers.c the timers and the event loop that calls the protocol's handlers. A session
-- sends control packets on a timer, listens for those of its peer, and goes up and down by a state
-- machine; subscribers are told of each change. src/bfd/bfd-main.c is a program with one session;
-- src/bfdd is the daemon, whose sessions come from a configuration file and from the clients of its
-- monitor server (src/monitor/bfdmonServer.c), which talk to it in JSON over TCP through the library
-- src/libbfdmon/bfdmonClient.c.
--
-- Base: numbers of the machine, lists and tests that the other files share.
-- Packet: the control packet, by the macros of src/core/bfdInt.h. A packet is its list of bytes.
-- Session: one session (bfdSession of src/inc/bfd.h, bfdSessionInt of src/core/bfdInt.h) and its
--   handlers in src/core/bfd.c. A handler takes and gives a `Ctx`: the session, the state of the
--   timers, what was sent and told so far, and the count of random numbers drawn. Session.Output is
--   bfdSendCPkt, bfdStartXmtTimer and bfdNotify; Session.Change is bfdSessionDown and bfdSessionUp;
--   Session.Receive is bfdRcvPkt, as the parts that its comments name; Session.Timeout is
--   bfdXmtTimeout, bfdDetectTimeout, and for one session bfdStartPollSequence and
--   bfdToggleAdminDown. Session.Invariant and Session.Handshake are about all handlers at once and
--   about two sessions that talk to each other.
-- Sessions: the sessions of a process in src/core/bfd.c: a `World` is the heap of session objects
--   with the three static tables that link them. The lookups (bfdGetSession, bfdMatchSession) are in
--   Sessions.antt, making and removing sessions and subscriptions in Sessions.Lifecycle, and
--   bfdRcvPkt as a whole, the timer actions and the two signals in Sessions.Arrivals. Following a
--   pointer to nothing is a `fault`. Loops over links have fuel; one step more than there are
--   sessions is enough (Sessions.Process, Sessions.Lookup).
-- Utils: src/core/bfdUtils.c.
-- TpTimers: the timers of src/core/tp-timers.c over a search tree. The sessions use them through
--   the interface `Timers` of Session.antt, which TpTimers.Filled fills.
-- TpLoop: tpCheckTimers of src/core/tp-timers.c, for any state of a program that has the timers as a
--   part, and any actions. Its fuel counts the timers that expire; one more than there are expired
--   timers at the start is enough for actions that start none which has expired already.
-- TpSockets: the table of socket actors of src/core/tp-timers.c.
-- TpEvents: signals and the event loop of src/core/tp-timers.c, for any state of a program that has
--   the timers, the signals and the sockets as parts. A run of the loop is given by the list of what
--   `select` answers; it ends with the list only in so far as the last call has not come back.
-- Sockets: src/core/bfdSockets.c.
-- Texts: decimal numbers and texts of a limited size, as `snprintf` makes them.
-- Streams: the loop around `send`, which the monitor's server and client share. A run is given by the
--   list of what `send` answers; as many answers as the message has bytes, interruptions aside, are
--   enough.
-- Trees: the interface of the AVL library for the monitor code.
-- Json: the interface of json-c and of the address conversions, and the reading of a session from a
--   message. Json.Docs has the documents that are exchanged and how they are spelled; Client.Spelled
--   compares the texts of the code with them.
-- Monitor: src/monitor/bfdmonServer.c: a `Server` has the monitors and connections as objects with
--   addresses, and the state of the sessions as a part, which it changes only through the interface
--   `Core`. Monitor.antt has the objects and connections, Monitor.Commands the requests, and
--   Monitor.Notify the notifications; Monitor.Filled fills the interface with the sessions and the
--   socket actors, and the other files below it have the proofs.
-- Client: src/libbfdmon/bfdmonClient.c: its requests in Client.antt, and the notifications in
--   Client.Notifications.
-- Config: src/bfdd/bfdd-config.c.
-- Programs: src/core/bfdLog.c, and the main functions of src/bfd and src/bfdd.
-- MonTest: src/bfdmontest/bfdmontest.c; what `sscanf` finds in a line is given.
-- System: the client, the server and the sessions together.
-- Tests: concrete sessions, packets and messages, and each theorem at one of them.
--
-- Integers of C are natural numbers with the wrap-around of their type written out (`u8`, `u16`,
-- `u32`); those that can be negative are `ℤ`. Parameters of the model are what the program does
-- not contain: the AVL library (`Avl`, `Index`), json-c (`Json`), what libconfig finds in a file, the
-- clock, `random`, `calloc` (`Alloc` for the server), `inet_aton` and `inet_ntoa` (`Inet`),
-- `gethostbyname`, and the answers of the kernel to calls on sockets. The only loop with a bound of
-- its own is that of setupTxSocket, and the bound is the code's count of attempts. Not modelled: the
-- text of log messages and of usage messages, and what src/bfdmontest prints.
pub mod Base
pub mod Packet
pub mod Session
pub mod Sessions
pub mod Utils
pub mod TpTimers
pub mod TpLoop
pub mod TpSockets
pub mod TpEvents
pub mod Sockets
pub mod Texts
pub mod Streams
pub mod Trees
pub mod Json
pub mod Monitor
pub mod Client
pub mod Config
pub mod Programs
pub mod MonTest
pub mod System
pub mod Tests
