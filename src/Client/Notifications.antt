-- ===== src/Client/Notifications.antt =====
-- src/libbfdmon/bfdmonClient.c: the notifications that come from the server.
use text.Mathlib.Text.{◌==◌ as str_eq}
use free_bfd.Base.{
  ℕ, Option, none, some, List, [], ◌∷◌, ℤ, pos, negsuc, length, ◌==◌, if◌then◌else◌,
}
use free_bfd.Session.{State, BfdSession}
use free_bfd.Utils.{state_from_str}
use free_bfd.Trees.{Index}
use free_bfd.Json.{Json, Inet, read_session_id}
use free_bfd.Monitor.Commands.{c_string}
use free_bfd.Client.{Subscription, subscription_compare, Client, looked_for}

-- What `read` gives: a failure with its `errno`, or at most 1024 bytes, none at the end of the
-- stream.
pub data Reading : Type 0 where
  failed_with : ℕ → Reading
  bytes : List ℕ → Reading

abbrev pub eintr : ℕ
eintr = 4

-- The bytes without a line feed at their end.
abbrev pub strip : List ℕ → List ℕ
strip [] = []
strip (c ∷ []) = if c == 10 then [] else c ∷ []
strip (c ∷ d ∷ rest) = c ∷ strip (d ∷ rest)

module _ {J : Type 0} (json : Json J) (inet : Inet) where
  -- The state of a notification; `none` is the failure.
  unfoldable pub notify_state : J → Option State
  notify_state jso = elim (json.member "State" jso) [
    | none ↦ none
    | some item ↦ state_from_str (json.get_string item)
  ]

  -- `bfdmonClient_NotifyParseSession`, on a session object whose contents do not matter.
  unfoldable pub notify_parse_session : J → BfdSession → Option (BfdSession × State)
  notify_parse_session jso sn = elim (read_session_id json inet jso sn) [
    | none ↦ none
    | some sn1 ↦ elim (notify_state jso) [ none ↦ none | some state ↦ some (sn1, state) ]
  ]

module _ {T J : Type 0} (index : Index Subscription subscription_compare T) (json : Json J)
    (inet : Inet) where
  -- `bfdmonClient_NotifyDispatch`
  unfoldable pub notify_dispatch : BfdSession → State → Client T → Client T
  notify_dispatch sn state c = elim (index.find (looked_for sn) c.subscription_tree) [
    | none ↦ c
    | some psub ↦ record c {
      calls =
          record { cb = psub.notify_cb; sn = psub.sn; state = state; arg = psub.cb_arg } ∷ c.calls;
    }
  ]

  -- What is done with a notification.
  unfoldable pub notify_object : J → BfdSession → Client T → Client T
  notify_object jso sn c = elim (notify_parse_session json inet jso sn) [
    | none ↦ c
    | some (sn1, state) ↦ notify_dispatch sn1 state c
  ]

  -- `bfdmonClient_NotifyParseAndDispatch`
  unfoldable pub notify_parse_and_dispatch : List ℕ → BfdSession → Client T → Client T
  notify_parse_and_dispatch buf sn c = elim (json.parse buf) [
    | none ↦ c
    | some jso ↦ elim (json.member "MsgType" jso) [
      | none ↦ c
      | some msg_type ↦
          if str_eq "Notify" (json.get_string msg_type) then notify_object jso sn c else c
    ]
  ]

  -- `bfdmonClient_NotifyReadAndDispatch`: the result, what is put in `*p_errno`, and the client.
  unfoldable pub notify_read_and_dispatch : Reading → BfdSession → Client T → ℤ × ℕ × Client T
  notify_read_and_dispatch (failed_with errno) sn c =
      if errno == eintr then (pos 1, 0, c) else (negsuc 0, errno, c)
  notify_read_and_dispatch (bytes []) sn c = (pos 0, 0, c)
  notify_read_and_dispatch (bytes (b ∷ bs)) sn c =
      (pos (length (b ∷ bs)), 0, notify_parse_and_dispatch (c_string (strip (b ∷ bs))) sn c)
