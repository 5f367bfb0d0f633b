-- ===== src/Client/Requests.antt =====
-- A request that src/libbfdmon/bfdmonClient.c sends is what src/monitor/bfdmonServer.c reads.
use mathlib.Core.Path.{subst}
use free_bfd.Base.{
  ℕ, ◌^◌, ◌<◌, ◌≡◌, refl, sym, ap, arith, Bool, true, false, some, String, if◌then◌else◌,
}
use free_bfd.Session.{BfdSession, Ptr}
use free_bfd.Texts.{codes}
use free_bfd.Utils.Strings.{session_set_strings}
use free_bfd.Trees.{Index}
use free_bfd.Json.{Json, Inet, read_session_opts, on_or, byte_or, int_or, same_caseless}
use free_bfd.Json.Read.{
  IsNamed, HasText, HasNumber, HasSession, HasOptions, identified, read_session_id_lem,
}
use free_bfd.Monitor.{
  Monitor, Connection, ConnectionItem, monitor_compare, connection_compare, Core, Server, Alloc,
}
use free_bfd.Monitor.Commands.{
  bytes, c_string, request, default_session, asked, process_cmd, process_pkt, handler_subscribe,
  receive_pkt, recv_pkt, subscribe_found,
}
use free_bfd.Client.{subscribe_text}
use free_bfd.Client.Spelled.{subscribe_text-spell}
use free_bfd.Json.Docs.{
  Doc, spell, Means, subscription, subscription-HasSession, subscription-HasOptions,
}

module _ {J : Type 0} (json : Json J) (inet : Inet) (sn : BfdSession) (good : IsNamed inet sn)
    (j : J) where
  on_lem : (mode : Bool) → same_caseless "on" (if mode then "on" else "off") ≡ mode
  on_lem true = refl
  on_lem false = refl

  int_lem :
      (key : String) (opts : J) (n default : ℕ)
      → HasNumber json key opts n
      → n < 2 ^ 31
      → int_or json default (json.member key opts) ≡ n
  int_lem key opts n default (v, there, number) small =
      rw (there, int_or, number) (omega (arith, small))

  mult_lem :
      (opts : J) (default : ℕ)
      → HasNumber json "DetectMult" opts sn.detect_mult
      → byte_or json default (json.member "DetectMult" opts) ≡ sn.detect_mult
  mult_lem opts default (v, there, number) = rw (there, byte_or, number) (omega (arith, good.mult))

  mode_lem :
      (opts : J) (default : Bool)
      → HasText json "DemandMode" opts (if sn.demand_mode then "on" else "off")
      → on_or json default (json.member "DemandMode" opts) ≡ sn.demand_mode
  mode_lem opts default (v, there, text) = rw (there, on_or, text) (on_lem sn.demand_mode)

  asked_lem :
      (sock : ℕ)
      → HasSession json j sn
      → HasOptions json j sn
      → asked json inet sock j ≡ some (request sock sn)
  unfolding read_session_opts session_set_strings
  asked_lem sock has options =
      let read = read_session_id_lem json inet sn default_session good j has in
      let mode = mode_lem options.opts false options.mode in
      let mult = mult_lem options.opts 2 options.mult in
      let tx =
        int_lem "DesiredMinTxInterval" options.opts sn.desired_min_tx_interval 100_000 options.tx
          good.tx in
      let rx =
        int_lem "RequiredMinRxInterval" options.opts sn.required_min_rx_interval 50_000 options.rx
          good.rx in
      let whole : read_session_opts json j
            (session_set_strings inet.ntoa (identified sn default_session))
          ≡ sn =
        rw (options.there, read_session_opts, mode, mult, tx, rx)
          (rw (sym good.no_auth) good.named) in
      rw (read, asked) (ap (λ s. some (request sock s)) whole)

-- What json-c is expected to do with a document: it reads its text, which has no zero byte, as that
-- document.
pub record Reads {J : Type 0} (json : Json J) (d : Doc) (j : J) : Type 0 where
  pub whole : c_string (spell d) ≡ spell d
  pub parsed : json.parse (spell d) ≡ some j
  pub means : Means json j d

module _ {W M C J : Type 0} (core : Core W) (alloc : Alloc)
    (monitors : Index Monitor monitor_compare M)
    (connections : Index ConnectionItem connection_compare C) (json : Json J) (inet : Inet)
    (sn : BfdSession) (good : IsNamed inet sn) (j : J) (q : Ptr) (conn : Connection M)
    (s : Server W M C) where
  -- Where json-c reads the document for a subscription to a session whose fields are in range: the
  -- request that a client sends for that session makes the server look for, and if need be
  -- subscribe, that very session with the same options.
  pub subscribe_text-subscribe_found :
      Reads json (subscription sn) j
      → s.connections q ≡ some conn
      → recv_pkt core alloc monitors connections json inet q (bytes (codes (subscribe_text sn))) s
        ≡ subscribe_found core alloc monitors connections json inet q conn (request conn.sock sn) s
  unfolding recv_pkt receive_pkt process_pkt process_cmd handler_subscribe
  subscribe_text-subscribe_found reads at =
      let (v, there, text) = reads.means.0 in
      let has = subscription-HasSession json sn j reads.means in
      let options = subscription-HasOptions json sn j reads.means in
      let found = asked_lem json inet sn good j conn.sock has options in
      let spelled = sym (subscribe_text-spell sn) in
      let whole = subst (λ xs. c_string xs ≡ xs) spelled reads.whole in
      let parsed = subst (λ xs. json.parse xs ≡ some j) spelled reads.parsed in
      rw
        (
          at, recv_pkt, receive_pkt, whole, process_pkt, parsed, there, text, process_cmd,
          handler_subscribe, found,
        )
        refl
