-- ===== src/Monitor/Texts.antt =====
-- src/monitor/bfdmonServer.c: the buffer of a notification is large enough, and what is sent is the
-- whole text if the kernel takes it at once.
use mathlib.Core.Path.{subst}
use Prim.Native.String.{◌++◌ as append, count}
use Prim.Native.String.count
use text.Mathlib.TextLemmas.{length-append}
use free_bfd.Base.{
  ℕ, suc, ◌+◌, ◌-◌, ◌≡◌, ◌≤◌, ◌<◌, refl, sym, ap, ◌∙◌, arith, true, false, String, List, [], ◌∷◌,
  length, take, ltb,
}
use free_bfd.Session.{State, admin_down, down, init, up}
use free_bfd.Texts.{codes}
use free_bfd.Texts.Decimal.{count-dec, count-cut, cut_all}
use free_bfd.Utils.{state_to_str}
use free_bfd.Utils.Strings.{session_set_strings}
use free_bfd.Json.{Inet}
use free_bfd.Json.Read.{IsNamed}
use free_bfd.Streams.{accepted, Answer, ended, send_loop}
use free_bfd.Streams.Sent.{send_loop-stop}
use free_bfd.Monitor.{Monitor}
use free_bfd.Monitor.Notify.{notify_body, notify_of, notify_text, monitor_notify}

pub length-codes : (s : String) → length (codes s) ≡ count s
length-codes String.[] = refl
length-codes (String.◌∷◌ c s) = ap suc (length-codes s) ∙ sym (count.cons c s)

take_all : (xs : List ℕ) → take (length xs) xs ≡ xs
take_all [] = refl
take_all (x ∷ xs) = ap (λ ys. x ∷ ys) (take_all xs)

pub send_loop-whole :
    (buf : List ℕ) (answers : List Answer)
    → 0 < length buf
    → send_loop buf 0 (length buf) [] (accepted (length buf) ∷ answers)
      ≡ ended true (length buf) buf answers
unfolding send_loop
send_loop-whole buf answers some_bytes =
    let n = length buf in
    let go : ltb 0 n ≡ true = ground arith in
    let sum : 0 + n ≡ n = omega arith in
    let rest : n - n ≡ 0 = omega arith in
    let stop : ltb n 0 ≡ false = ground arith in
    rw (go, send_loop, sum, rest, take_all buf) (send_loop-stop buf n 0 buf answers stop)

count-state_to_str : (s : State) → count (state_to_str s) ≤ 9
unfolding state_to_str
count-state_to_str admin_down = omega arith
count-state_to_str down = omega arith
count-state_to_str init = omega arith
count-state_to_str up = omega arith

count-notify_body :
    (a b s : String) (m n : ℕ)
    → count a ≤ 19
    → count b ≤ 19
    → count s ≤ 9
    → count (append (notify_body a b m n s) "\n") ≤ 511
count-notify_body a b s m n ha hb hs =
    simp length-append (omega (arith, ha, hb, hs, count-dec m, count-dec n))

module _ (inet : Inet) (mon : Monitor) (good : IsNamed inet mon.sn) (state : State) where
  abbrev message : String
  message = notify_text mon.sn state

  fits : count message ≤ 511
  unfolding notify_text session_set_strings
  fits =
      let peer : count mon.sn.peer_addr_str ≤ 19 =
        subst (λ s. count s ≤ 19) (ap (λ s. s.peer_addr_str) good.named)
          (count-cut 19 (inet.ntoa mon.sn.peer_addr)) in
      let local : count mon.sn.local_addr_str ≤ 19 =
        subst (λ s. count s ≤ 19) (ap (λ s. s.local_addr_str) good.named)
          (count-cut 19 (inet.ntoa mon.sn.local_addr)) in
      count-notify_body mon.sn.peer_addr_str mon.sn.local_addr_str (state_to_str state)
        mon.sn.peer_port mon.sn.local_port peer local (count-state_to_str state)

  some_text : 0 < count message
  unfolding notify_text
  some_text =
      let sum : count message ≡ count (notify_of mon.sn state) + count "\n" =
        length-append (notify_of mon.sn state) "\n" in
      omega (arith, sum)

  -- The notification of a session whose fields are in range fits its buffer, and it is sent whole
  -- if the first call of `send` takes it.
  pub monitor_notify-whole :
      (answers : List Answer)
      → monitor_notify mon state (accepted (count (notify_text mon.sn state)) ∷ answers)
        ≡ ended true (count (notify_text mon.sn state)) (codes (notify_text mon.sn state)) answers
  unfolding monitor_notify
  monitor_notify-whole answers =
      let size = length-codes message in
      let all = cut_all 511 message fits in
      let whole =
        send_loop-whole (codes message) answers (subst (λ n. 0 < n) (sym size) some_text) in
      subst
        (λ s.
          send_loop (codes s) 0 (count message) [] (accepted (count message) ∷ answers)
          ≡ ended true (count message) (codes message) answers)
        (sym all)
        (subst
          (λ n.
            send_loop (codes message) 0 n [] (accepted n ∷ answers)
            ≡ ended true n (codes message) answers)
          size whole)
