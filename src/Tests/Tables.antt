-- ===== src/Tests/Tables.antt =====
-- The theorems on the tables of sessions at a process with two sessions.
use free_bfd.Base.{
  ℕ, ◌≡◌, ◌≢◌, ◌⊎◌, refl, arith, none, some, true, inl, [], ◌∷◌, List, pos, ◌==◌, if◌then◌else◌,
}
use free_bfd.Packet.{get_your_discr, get_word}
use free_bfd.Session.{SessionInt, notified, Ptr, null, detect}
use free_bfd.Session.Timeout.{xmt_timeout}
use free_bfd.Session.Output.{send_cpkt, start_xmt_timer}
use free_bfd.Sockets.{Kernel}
use free_bfd.TpSockets.{no_skts}
use free_bfd.TpTimers.{init_timers}
use free_bfd.Utils.Compare.{IsId}
use free_bfd.Sessions.{store, done, fault, World, mk_hkey, get_session, match_session, ctx, put_ctx}
use free_bfd.Sessions.Lookup.{Member, IsTables, get_session_lem, match_session_lem}
use free_bfd.Sessions.Lifecycle.{
  subscribe, unsubscribe, new_session, link_session, create_session_int, rm_session,
}
use free_bfd.Sessions.Create.{link_session-IsTables, create_session_int-IsTables}
use free_bfd.Sessions.Arrivals.{Arrival, toggle_admin_down}
use free_bfd.Sessions.Process.{
  Happening, arrives, expires, toggle_request, happen_all, happen_all-IsTables,
}
use free_bfd.Sessions.Remove.{rm_session_loses}
use free_bfd.Sessions.Subscribers.{changed-IsTables, subscribe-unsubscribe}
use free_bfd.Sessions.Dangling.{rm_session_dangles}
use free_bfd.Tests.{T, timers, random, list_avl, clock, sn, hello}

abbrev pub kernel : Kernel
kernel = record {
  socket = λ n. pos 7;
  setsockopt = λ n. pos 0;
  bind = λ n port. pos 0;
  calloc = λ n. true;
}

abbrev pub calloc : ℕ → Ptr
calloc n = if n == 0 then 2000 else 1000

abbrev pub empty : World T ℕ
empty = record {
  session_list = 0;
  session_hash = λ k. 0;
  peer_hash = λ k. 0;
  heap = λ p. none;
  notifiers = λ p. none;
  allocs = 0;
  timers = init_timers list_avl clock;
  out = [];
  draws = 0;
  sockets = record { rx_socks = []; src_port = 49_142; skts = no_skts; closed = []; calls = 0 };
}

pub empty-IsTables : IsTables empty []
empty-IsTables = record { all = refl; by_discr = λ k. refl; by_peer = λ k. refl }

abbrev older : Member
older = record { at = 2000; sn = sn }

abbrev newer : Member
newer = record { at = 1000; sn = record sn { peer_addr = 167_772_163 } }

one : World T ℕ
one = link_session timers random kernel 1 calloc older.at (new_session older.at older.sn) empty

two : World T ℕ
two = link_session timers random kernel 1 calloc newer.at (new_session newer.at newer.sn) one

one-IsTables : IsTables one (older ∷ [])
unfolding one new_session
one-IsTables =
    link_session-IsTables timers random kernel 1 calloc older.at (new_session older.at older.sn)
      empty [] (λ e. cc) refl refl empty-IsTables

two-IsTables : IsTables two (newer ∷ older ∷ [])
unfolding two one new_session link_session put_ctx xmt_timeout send_cpkt start_xmt_timer ctx
two-IsTables =
    link_session-IsTables timers random kernel 1 calloc newer.at (new_session newer.at newer.sn) one
      (older ∷ []) (λ e. cc) refl refl one-IsTables

old-IsId : IsId older.sn
old-IsId = record { peer = omega arith; here = omega arith }

new-IsId : IsId newer.sn
new-IsId = record { peer = omega arith; here = omega arith }

get_session_lem_example : get_session 3 hello 167_772_161 two ≡ done 2000
unfolding get_your_discr get_word
get_session_lem_example =
    get_session_lem two (newer ∷ older ∷ []) 3 two-IsTables (omega arith) hello 167_772_161

match_session_lem_example : match_session 3 newer.sn two ≡ done 1000
match_session_lem_example =
    match_session_lem two (newer ∷ older ∷ []) 3 two-IsTables (omega arith) newer.sn
      (new-IsId, (old-IsId, tt)) new-IsId

create_session_int-IsTables_example :
    let (p, w1) = create_session_int timers random kernel 1 calloc sn empty in
    ((p ≡ null) × IsTables w1 []) ⊎ ((p ≢ null) × IsTables w1 (record { at = p; sn = sn } ∷ []))
create_session_int-IsTables_example =
    create_session_int-IsTables timers random kernel 1 calloc sn empty [] refl empty-IsTables

abbrev arrival : Arrival
arrival = record {
  mlen = pos 24;
  addr = 167_772_161;
  cmsgs = record { level = 0; type = 2; data_word = 255 } ∷ [];
  buf = hello;
}

abbrev happenings : List Happening
happenings = arrives arrival ∷ expires detect 1000 ∷ toggle_request ∷ []

happen_all-IsTables_example :
    (w1 : World T ℕ) × (happen_all timers random 3 happenings two ≡ done w1)
    × IsTables w1 (newer ∷ older ∷ [])
happen_all-IsTables_example =
    happen_all-IsTables timers random (newer ∷ older ∷ []) 3 (omega arith) happenings two
      two-IsTables (tt, (inl refl, (tt, tt)))

rm_session_loses_example :
    (w1 : World T ℕ) × (rm_session timers random kernel 1 calloc 3 1000 two ≡ done w1)
    × (w1.session_list ≡ null)
    × (w1.peer_hash (mk_hkey newer.sn.peer_addr) ≡ null)
rm_session_loses_example =
    rm_session_loses timers random kernel 1 calloc two newer (older ∷ []) 2 two-IsTables refl

rm_session_dangles_example :
    (w1 : World T ℕ) × (rm_session timers random kernel 1 calloc 3 2000 two ≡ done w1)
    × (w1.session_list ≡ 1000)
    × (w1.heap 2000 ≡ none)
    × (toggle_admin_down timers random 3 w1 ≡ fault)
rm_session_dangles_example =
    rm_session_dangles timers random kernel 1 calloc two newer older 1 two-IsTables refl

-- The newer session, with one subscriber.
object : SessionInt
unfolding two one new_session link_session put_ctx xmt_timeout send_cpkt start_xmt_timer ctx
object = elim (two.heap 1000) [ none ↦ new_session 1000 newer.sn | some s ↦ s ]

object_held : two.heap 1000 ≡ some object
unfolding object
object_held = refl

abbrev used : World T ℕ
used = record two { heap = store 1000 (some (record object { ref_cnt = 1 })) two.heap }

used-IsTables : IsTables used (newer ∷ older ∷ [])
used-IsTables =
    changed-IsTables two used 1000 (newer ∷ older ∷ []) object (record object { ref_cnt = 1 })
      two-IsTables object_held (ground arith) refl refl refl refl

subscribe-unsubscribe_example :
    (w1 : World T ℕ) × (w2 : World T ℕ) × (subscribe timers random kernel 1
        (λ n. 3000)
        3
        newer.sn
        8
        5
        used
      ≡ done (3000, w1))
    × (w1.out ≡ notified 8 5 object.session_state ∷ used.out)
    × IsTables w1 (newer ∷ older ∷ [])
    × (unsubscribe timers random kernel 1 (λ n. 3000) 3 3000 w1 ≡ done w2)
    × (w2.heap 1000 ≡ some (record object { ref_cnt = 1 }))
    × IsTables w2 (newer ∷ older ∷ [])
subscribe-unsubscribe_example =
    subscribe-unsubscribe timers random kernel 1 (λ n. 3000) used (newer ∷ older ∷ []) 3 newer.sn 8
      5 (record object { ref_cnt = 1 }) used-IsTables (new-IsId, (old-IsId, tt)) new-IsId
      (omega arith) (λ e. cc) (λ e. cc) (λ e. cc) refl (omega arith) (omega arith)
