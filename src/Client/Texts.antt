-- ===== src/Client/Texts.antt =====
-- src/libbfdmon/bfdmonClient.c: the buffers of the requests are large enough, and a request is sent
-- whole if the kernel takes it at once.
use mathlib.Core.Path.{subst}
use Prim.Native.String.{count}
use text.Mathlib.TextLemmas.{length-append}
use free_bfd.Base.{◌≡◌, ◌≤◌, ◌<◌, sym, ap, arith, true, String, List, [], ◌∷◌}
use free_bfd.Session.{BfdSession}
use free_bfd.Texts.{snprintf, codes}
use free_bfd.Texts.Decimal.{count-dec, count-cut, cut_all}
use free_bfd.Utils.Strings.{session_set_strings}
use free_bfd.Json.{Inet}
use free_bfd.Json.Read.{IsNamed}
use free_bfd.Streams.{Answer, accepted, ended, send_loop}
use free_bfd.Monitor.Texts.{length-codes, send_loop-whole}
use free_bfd.Client.{options_text, message_text, subscribe_text, unsubscribe_text, send_text}

send_text-whole :
    (t : String) (answers : List Answer)
    → count t ≤ 1023
    → 0 < count t
    → send_text t (accepted (count t) ∷ answers) ≡ ended true (count t) (codes t) answers
send_text-whole t answers fits some_text =
    let size = length-codes t in
    let whole = send_loop-whole (codes t) answers (subst (λ n. 0 < n) (sym size) some_text) in
    subst
      (λ s.
        send_loop (codes s) 0 (count t) [] (accepted (count t) ∷ answers)
        ≡ ended true (count t) (codes t) answers)
      (sym (cut_all 1023 t fits))
      (subst
        (λ n. send_loop (codes t) 0 n [] (accepted n ∷ answers) ≡ ended true n (codes t) answers)
        size whole)

count-message_text :
    (name : String) (sn : BfdSession) (opts : String)
    → count name ≤ 11
    → count sn.peer_addr_str ≤ 19
    → count sn.local_addr_str ≤ 19
    → count opts ≤ 511
    → (count (message_text name sn opts) ≤ 1023) × (0 < count (message_text name sn opts))
count-message_text name sn opts hn hp hl ho = (
  simp length-append
      (omega (arith, hn, hp, hl, ho, count-dec sn.peer_port, count-dec sn.local_port)),
  simp length-append (omega arith),
)

module _ (inet : Inet) (sn : BfdSession) (good : IsNamed inet sn) where
  peer : count sn.peer_addr_str ≤ 19
  unfolding session_set_strings
  peer =
      subst (λ s. count s ≤ 19) (ap (λ s. s.peer_addr_str) good.named)
        (count-cut 19 (inet.ntoa sn.peer_addr))

  local : count sn.local_addr_str ≤ 19
  unfolding session_set_strings
  local =
      subst (λ s. count s ≤ 19) (ap (λ s. s.local_addr_str) good.named)
        (count-cut 19 (inet.ntoa sn.local_addr))

  pub subscribe_text-whole :
      (answers : List Answer)
      → send_text (subscribe_text sn) (accepted (count (subscribe_text sn)) ∷ answers)
        ≡ ended true (count (subscribe_text sn)) (codes (subscribe_text sn)) answers
  unfolding subscribe_text
  subscribe_text-whole answers =
      let opts = snprintf 512 (options_text sn) in
      let (fits, some_text) =
        count-message_text "Subscribe" sn opts (omega arith) peer local
          (count-cut 511 (options_text sn)) in
      send_text-whole (message_text "Subscribe" sn opts) answers fits some_text

  pub unsubscribe_text-whole :
      (answers : List Answer)
      → send_text (unsubscribe_text sn) (accepted (count (unsubscribe_text sn)) ∷ answers)
        ≡ ended true (count (unsubscribe_text sn)) (codes (unsubscribe_text sn)) answers
  unfolding unsubscribe_text
  unsubscribe_text-whole answers =
      let (fits, some_text) =
        count-message_text "Unsubscribe" sn "" (omega arith) peer local (omega arith) in
      send_text-whole (message_text "Unsubscribe" sn "") answers fits some_text
