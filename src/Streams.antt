-- ===== src/Streams.antt =====
-- The loop that hands a message to `send`, which stands twice in the code: `sendall` of
-- src/libbfdmon/bfdmonClient.c and `bfdMonitorNotify` of src/monitor/bfdmonServer.c.
pub mod Sent
use free_bfd.Base.{
  ℕ, zero, suc, ◌+◌, ◌-◌, Bool, true, false, Option, none, some, List, [], ◌∷◌, ◌++◌, length, take,
  drop, ltb, if◌then◌else◌,
}

-- What a call of `send` answers: how many bytes it took, or that it was interrupted (`EINTR`), or
-- that it failed.
pub data Answer : Type 0 where
  accepted : ℕ → Answer
  interrupted failed : Answer

-- How the loop ends: whether by itself or by a failure, `bytes_sent`, the bytes that `send` took,
-- and the answers that were not used.
pub record Sending : Type 0 where
  pub ok : Bool
  pub bytes_sent : ℕ
  pub out : List ℕ
  pub left : List Answer

abbrev pub ended : Bool → ℕ → List ℕ → List Answer → Option Sending
ended ok n out left = some (record { ok = ok; bytes_sent = n; out = out; left = left })

-- The loop, with the answers that `send` gives one after the other. `none`: the last call has not
-- come back.
unfoldable pub send_loop : List ℕ → ℕ → ℕ → List ℕ → List Answer → Option Sending
send_loop buf bytes_sent bytes_pend out [] =
    if ltb bytes_sent bytes_pend then none else ended true bytes_sent out []
send_loop buf bytes_sent bytes_pend out (accepted n ∷ answers) =
    let rest =
      send_loop buf (bytes_sent + n) (bytes_pend - n) (out ++ take n (drop bytes_sent buf))
        answers in
    if ltb bytes_sent bytes_pend then rest else ended true bytes_sent out (accepted n ∷ answers)
send_loop buf bytes_sent bytes_pend out (interrupted ∷ answers) =
    let rest = send_loop buf bytes_sent bytes_pend out answers in
    if ltb bytes_sent bytes_pend then rest else ended true bytes_sent out (interrupted ∷ answers)
send_loop buf bytes_sent bytes_pend out (failed ∷ answers) =
    if ltb bytes_sent bytes_pend
    then ended false bytes_sent out answers
    else ended true bytes_sent out (failed ∷ answers)

-- `sendall`. The result is `bytes_sent`, or -1 where `ok` is false.
unfoldable pub sendall : List ℕ → List Answer → Option Sending
sendall buf answers = send_loop buf 0 (length buf) [] answers
