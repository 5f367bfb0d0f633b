-- ===== src/Client/Spelled.antt =====
-- The texts that src/libbfdmon/bfdmonClient.c and src/monitor/bfdmonServer.c print are documents.
use Prim.Native.String.{count}
use text.Mathlib.TextLemmas.{length-append}
use mathlib.Core.List.{append_assoc}
use free_bfd.Base.{◌≡◌, ◌≤◌, refl, arith, true, false, Bool}
use free_bfd.Session.{State, BfdSession}
use free_bfd.Texts.{codes}
use free_bfd.Texts.Decimal.{count-dec, cut_all}
use free_bfd.Monitor.Notify.{notify_of}
use free_bfd.Client.{options_text, subscribe_text}
use free_bfd.Json.Docs.{spell, on_off, subscription, notification, codes-append}

pub notify_of-spell :
    (sn : BfdSession) (state : State) → codes (notify_of sn state) ≡ spell (notification sn state)
notify_of-spell sn state = simp (codes-append, append_assoc) refl

count-on_off : (mode : Bool) → count (on_off mode) ≤ 3
count-on_off true = omega arith
count-on_off false = omega arith

count-options_text : (sn : BfdSession) → count (options_text sn) ≤ 511
count-options_text sn = simp length-append (
    omega (
      arith,
      count-on_off sn.demand_mode,
      count-dec sn.detect_mult,
      count-dec sn.desired_min_tx_interval,
      count-dec sn.required_min_rx_interval,
    ))

pub subscribe_text-spell : (sn : BfdSession) → codes (subscribe_text sn) ≡ spell (subscription sn)
unfolding subscribe_text
subscribe_text-spell sn =
    rw (cut_all 511 (options_text sn) (count-options_text sn))
      (simp (codes-append, append_assoc) refl)
