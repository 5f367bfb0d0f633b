-- ===== src/Client/Delivered.antt =====
-- A notification that src/monitor/bfdmonServer.c sends is what src/libbfdmon/bfdmonClient.c hands
-- to the subscriber.
use free_bfd.Base.{ℕ, ◌≡◌, refl, ap, some, List, [], ◌∷◌, ◌++◌, pos, length}
use free_bfd.Session.{State, BfdSession}
use free_bfd.Texts.{codes}
use free_bfd.Utils.{session_compare, state_to_str}
use free_bfd.Utils.Names.{state_from_str_iff}
use free_bfd.Utils.Strings.{session_set_strings}
use free_bfd.Trees.{Index}
use free_bfd.Json.{Json, Inet}
use free_bfd.Json.Read.{IsNamed, HasText, identified, read_session_id_lem}
use free_bfd.Monitor.Notify.{notify_of, notify_text}
use free_bfd.Monitor.Commands.{c_string}
use free_bfd.Client.{Subscription, subscription_compare, Client, looked_for}
use free_bfd.Client.Notifications.{
  bytes, strip, notify_dispatch, notify_state, notify_parse_session, notify_object,
  notify_parse_and_dispatch, notify_read_and_dispatch,
}
use free_bfd.Client.Requests.{Reads}
use free_bfd.Client.Spelled.{notify_of-spell}
use free_bfd.Json.Docs.{spell, notification, notification-HasSession, codes-append}

strip-append : (xs : List ℕ) → strip (xs ++ (10 ∷ [])) ≡ xs
strip-append [] = refl
strip-append (x ∷ []) = refl
strip-append (x ∷ y ∷ xs) = ap (λ ys. x ∷ ys) (strip-append (y ∷ xs))

module _ {T J : Type 0} (index : Index Subscription subscription_compare T) (json : Json J)
    (inet : Inet) (sn garbage : BfdSession) (good : IsNamed inet sn) (state : State) (j : J)
    (c : Client T) where
  read_line :
      (xs : List ℕ)
      → notify_read_and_dispatch index json inet (bytes (xs ++ (10 ∷ []))) garbage c ≡ (
        pos (length (xs ++ (10 ∷ []))),
        0,
        notify_parse_and_dispatch index json inet (c_string xs) garbage c,
      )
  unfolding notify_read_and_dispatch
  read_line [] = refl
  read_line (x ∷ xs) = rw (strip-append (x ∷ xs)) refl

  -- The session object of the client has the identity of `sn`, so it finds the same subscription.
  abbrev found_by : BfdSession
  found_by = session_set_strings inet.ntoa (identified sn garbage)

  same_found :
      index.find (looked_for found_by) c.subscription_tree
      ≡ index.find (looked_for sn) c.subscription_tree
  unfolding subscription_compare session_compare session_set_strings
  same_found = index.find_same (looked_for found_by) (looked_for sn) c.subscription_tree (λ x. refl)

  state_lem : HasText json "State" j (state_to_str state) → notify_state json inet j ≡ some state
  unfolding notify_state
  state_lem (v, there, text) =
      rw (there, notify_state, text) ((state_from_str_iff (state_to_str state) state).1 refl)

  -- Where json-c reads the document that tells the state of a session whose fields are in range:
  -- when a single read brings the server's notification of that state to a client that is
  -- subscribed to the session, the function of that subscription is called once, with the session
  -- and the argument of the subscription and with the state that the server told.
  pub notify_text-notify_read :
      (psub : Subscription)
      → Reads json (notification sn state) j
      → index.find (looked_for sn) c.subscription_tree ≡ some psub
      → notify_read_and_dispatch index json inet (bytes (codes (notify_text sn state))) garbage c
        ≡ (
          pos (length (codes (notify_text sn state))),
          0,
          record c {
            calls =
                record { cb = psub.notify_cb; sn = psub.sn; state = state; arg = psub.cb_arg }
                ∷ c.calls;
          },
        )
  unfolding notify_text notify_parse_and_dispatch notify_object notify_parse_session notify_dispatch
  notify_text-notify_read psub reads found =
      let (v, there, text) = reads.means.0 in
      let has = notification-HasSession json sn j state reads.means in
      let of_state = reads.means.1.1.0 in
      let line : codes (notify_text sn state) ≡ spell (notification sn state) ++ (10 ∷ []) =
        rw (codes-append (notify_of sn state) "\n", notify_of-spell sn state) refl in
      let session = read_session_id_lem json inet sn garbage good j has in
      rw
        (
          line,
          read_line (spell (notification sn state)),
          reads.whole,
          notify_parse_and_dispatch,
          reads.parsed,
          there,
          text,
          notify_object,
          notify_parse_session,
          session,
          state_lem of_state,
          notify_dispatch,
          same_found,
          found,
        )
        refl
