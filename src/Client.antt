-- ===== src/Client.antt =====
-- src/libbfdmon/bfdmonClient.c: the library that programs use to talk to the monitor server.
pub mod Spelled
pub mod Notifications
pub mod Requests
pub mod Delivered
pub mod Texts
pub mod Cycle
use Prim.Native.String.{◌++◌, count}
use free_bfd.Base.{
  ℕ, not, ◌&&◌, Bool, true, false, Option, none, some, List, [], ◌∷◌, String, ℤ, pos, negsuc, ◌==◌,
  if◌then◌else◌,
}
use free_bfd.Base as Base
use free_bfd.Session.{State, BfdSession}
use free_bfd.Texts.{dec, snprintf, codes}
use free_bfd.Streams.{Answer, Sending, send_loop}
use free_bfd.Utils.{session_compare}
use free_bfd.Trees.{Index}

-- `BfdMonLogLvl`, and `bfdmonClientLogLvlStr`
pub data LogLvl : Type 0 where
  log_debug log_info log_warn log_err : LogLvl

unfoldable pub log_lvl_str : LogLvl → String
log_lvl_str log_debug = "DEBUG"
log_lvl_str log_info = "INFO"
log_lvl_str log_warn = "WARN"
log_lvl_str log_err = "ERROR"

-- `Subscription`, with the session that it holds.
pub record Subscription : Type 0 where
  pub sn : BfdSession
  pub notify_cb : ℕ
  pub cb_arg : ℕ

-- `bfdmonClient_SubscriptionCompare`
unfoldable pub subscription_compare : Subscription → Subscription → ℤ
subscription_compare s1 s2 = session_compare s1.sn s2.sn

-- A call of the function that a subscription names.
pub record Call : Type 0 where
  pub cb : ℕ
  pub sn : BfdSession
  pub state : State
  pub arg : ℕ

-- `subscriptionTree`, the bytes that went to the server, and the calls (newest first).
pub record Client (T : Type 0) : Type 0 where
  pub subscription_tree : T
  pub out : List ℕ
  pub calls : List Call

-- An address that `getaddrinfo` gave: what `socket` and `connect` answer for it.
pub record Address : Type 0 where
  pub socket : ℤ
  pub connects : Bool

-- The loop of `inetConnect`: the socket, or -1, and the sockets that it closed.
unfoldable pub connect_first : List Address → ℤ × List ℤ
connect_first [] = (negsuc 0, [])
connect_first (a ∷ rest) =
    let (sock, closed) = connect_first rest in
    elim a.socket [
      | negsuc n ↦ (sock, closed)
      | pos fd ↦ if a.connects then (pos fd, []) else (sock, pos fd ∷ closed)
    ]

-- `inetConnect`, where `none` is a failure of `getaddrinfo`.
unfoldable pub inet_connect : Option (List Address) → ℤ × List ℤ
inet_connect none = (negsuc 0, [])
inet_connect (some addresses) = connect_first addresses

-- `BfdSessionOptsFmt` and `BfdJsonMsgFmt` with their values.
abbrev pub options_text : BfdSession → String
options_text sn =
    let mode : String = if sn.demand_mode then "on" else "off" in
    ", \"SessionOpts\": { \"DemandMode\":\""
    ++ (mode
        ++ ("\", \"DetectMult\":"
            ++ (dec sn.detect_mult
                ++ (", \"DesiredMinTxInterval\":"
                    ++ (dec sn.desired_min_tx_interval
                        ++ (", \"RequiredMinRxInterval\":"
                            ++ (dec sn.required_min_rx_interval ++ " }")))))))

abbrev pub message_text : String → BfdSession → String → String
message_text name sn opts =
    "{ \"MsgType\":\""
    ++ (name
        ++ ("\", \"SessionID\": { \"PeerAddr\":\""
            ++ (sn.peer_addr_str
                ++ ("\", \"PeerPort\":"
                    ++ (dec sn.peer_port
                        ++ (", \"LocalAddr\":\""
                            ++ (sn.local_addr_str
                                ++ ("\", \"LocalPort\":"
                                    ++ (dec sn.local_port ++ (" }" ++ (opts ++ " }")))))))))))

-- The requests, of which `opts` has 512 bytes.
unfoldable pub subscribe_text : BfdSession → String
subscribe_text sn = message_text "Subscribe" sn (snprintf 512 (options_text sn))

unfoldable pub unsubscribe_text : BfdSession → String
unsubscribe_text sn = message_text "Unsubscribe" sn ""

-- `sendall(sock, buf, len)` with the text in a buffer of 1024 bytes.
abbrev pub send_text : String → List Answer → Option Sending
send_text text answers = send_loop (codes (snprintf 1024 text)) 0 (count text) [] answers

abbrev pub looked_for : BfdSession → Subscription
looked_for sn = record { sn = sn; notify_cb = 0; cb_arg = 0 }

module _ {T : Type 0} (index : Index Subscription subscription_compare T) where
  -- `bfdmonClient_init`: the tree is made once.
  unfoldable pub client_init : Option (List Address) → Option T → T × (ℤ × List ℤ)
  client_init addresses none = (index.create, inet_connect addresses)
  client_init addresses (some tree) = (tree, inet_connect addresses)

  -- What was sent is with the server, whether all went well or not.
  abbrev pub sent_out : Sending → Client T → Client T
  sent_out r c = record c { out = Base.◌++◌ c.out r.out }

  abbrev pub inserted : Subscription → Client T → Client T
  inserted psub c = record c { subscription_tree = index.insert psub c.subscription_tree }

  -- `bfdmonClient_SubscribeSession`, for what the two calls of `malloc` and those of `send` answer.
  -- `none`: a call of `send` has not come back.
  unfoldable pub subscribe_session :
      Bool → Bool → List Answer → BfdSession → ℕ → ℕ → Client T → Option (Client T)
  subscribe_session first second answers sn cb arg c =
      elim (index.find (looked_for sn) c.subscription_tree) [
        | some psub ↦ some c
        | none ↦
            if not (first && second) then some c else elim (send_text (subscribe_text sn) answers) [
              | none ↦ none
              | some r ↦
                  if r.ok
                  then some
                      (inserted (record { sn = sn; notify_cb = cb; cb_arg = arg }) (sent_out r c))
                  else some (sent_out r c)
            ]
      ]

  -- `bfdmonClient_UnsubscribeSession` for the subscription that it took out of the tree.
  unfoldable pub unsubscribe_sent : List Answer → Subscription → Client T → Option (ℤ × Client T)
  unsubscribe_sent answers psub c = elim (send_text (unsubscribe_text psub.sn) answers) [
    | none ↦ none
    | some r ↦
        if r.ok then some (pos 0, sent_out r c) else some (negsuc 0, inserted psub (sent_out r c))
  ]

  -- `bfdmonClient_UnsubscribeSession`
  unfoldable pub unsubscribe_session : List Answer → BfdSession → Client T → Option (ℤ × Client T)
  unsubscribe_session answers sn c =
      let (found, tree) = index.delete (looked_for sn) c.subscription_tree in
      let c1 : Client T = record c { subscription_tree = tree } in
      elim found [ none ↦ some (negsuc 0, c1) | some psub ↦ unsubscribe_sent answers psub c1 ]
