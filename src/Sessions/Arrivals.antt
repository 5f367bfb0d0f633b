-- ===== src/Sessions/Arrivals.antt =====
-- src/core/bfd.c: what happens to the sessions of a process as a whole: `bfdRcvPkt` from
-- `recvmsg` on, the expiry of a timer, and the two signals.
use free_bfd.Base.{
  ℕ, zero, suc, Bool, false, none, some, List, [], ◌∷◌, ◌&&◌, ◌||◌, ℤ, pos, negsuc, ◌==◌,
  if◌then◌else◌,
}
use free_bfd.Packet.{Bytes}
use free_bfd.Session.{Ptr, null, Kind, detect, xmt, Timers, Ctx}
use free_bfd.Session.Receive.{check_pkt, receive}
use free_bfd.Session.Timeout.{detect_timeout, xmt_timeout, poll_session, toggle_session}
use free_bfd.Sessions.{Run, done, out_of_fuel, ◌and_then◌, load, World, get_session, on_session}

-- `BFD_1HOPTTLVALUE`, and `IPPROTO_IP` and `IP_TTL` of Linux.
abbrev pub one_hop_ttl : ℕ
one_hop_ttl = 255

abbrev pub ipproto_ip : ℕ
ipproto_ip = 0

abbrev pub ip_ttl : ℕ
ip_ttl = 2

-- A `cmsghdr` with the word behind it.
pub record Cmsg : Type 0 where
  pub level : ℕ
  pub type : ℕ
  pub data_word : ℕ

-- What `recvmsg` gave: its result, the source address, the control messages, the buffer.
pub record Arrival : Type 0 where
  pub mlen : ℤ
  pub addr : ℕ
  pub cmsgs : List Cmsg
  pub buf : Bytes

-- The loop that looks for the TTL.
unfoldable pub good_ttl : List Cmsg → Bool
good_ttl [] = false
good_ttl (c ∷ cs) =
    (c.level == ipproto_ip && c.type == ip_ttl && c.data_word == one_hop_ttl) || good_ttl cs

module _ {T A : Type 0} where
  -- The loops over `sessionList`. A body leaves the links as they are.
  unfoldable pub for_all_from : (Ctx T → Ctx T) → ℕ → Ptr → World T A → Run (World T A)
  for_all_from f zero p w = out_of_fuel
  for_all_from f (suc fuel) p w =
      if p == null
      then done w
      else on_session f p w and_then λ w1.
          load p w1.heap and_then λ s. for_all_from f fuel s.list_next w1

module _ {T A : Type 0} (timers : Timers T) (random : ℕ → ℕ) where
  -- `bfdRcvPkt`. A packet that is dropped is only logged.
  unfoldable pub rcv_pkt : ℕ → Arrival → World T A → Run (World T A)
  rcv_pkt fuel msg w = elim msg.mlen [
    | negsuc _ ↦ done w
    | pos mlen ↦
        if good_ttl msg.cmsgs
        then elim (check_pkt mlen msg.buf) [
          | some why ↦ done w
          | none ↦ get_session fuel msg.buf msg.addr w and_then λ p.
              if p == null then done w else on_session (receive timers random msg.buf) p w
        ]
        else done w
  ]

  -- The action of a timer of the session at `p`.
  unfoldable pub expire_timer : Kind → Ptr → World T A → Run (World T A)
  expire_timer detect p w = on_session (detect_timeout timers random) p w
  expire_timer xmt p w = on_session (xmt_timeout timers random) p w

  -- `bfdStartPollSequence`
  unfoldable pub start_poll_sequence : ℕ → World T A → Run (World T A)
  start_poll_sequence fuel w = for_all_from (poll_session timers random) fuel w.session_list w

  -- `bfdToggleAdminDown`
  unfoldable pub toggle_admin_down : ℕ → World T A → Run (World T A)
  toggle_admin_down fuel w = for_all_from (toggle_session timers random) fuel w.session_list w
