-- ===== src/Streams/Sent.antt =====
-- What `sendall` sends, whatever `send` answers.
use free_bfd.Base.{
  ℕ, suc, ◌+◌, ◌-◌, ◌*◌, ◌≤◌, ◌<◌, ◌≡◌, refl, ap, ◌∙◌, arith, true, false, some, List, [], ◌∷◌,
  ◌++◌, inl, inr, length, take, drop, take-take-drop, ltb, Bool-cases,
}
use free_bfd.Streams.{Answer, accepted, interrupted, failed, Sending, ended, send_loop, sendall}

-- `send` takes some of the bytes that it is offered, and no more than those.
abbrev pub Allowed : ℕ → List Answer → Type 0
Allowed pend [] = Unit
Allowed pend (accepted n ∷ answers) = (1 ≤ n) × (n ≤ pend) × Allowed (pend - n) answers
Allowed pend (interrupted ∷ answers) = Allowed pend answers
Allowed pend (failed ∷ answers) = Allowed pend answers

-- How many calls are not interrupted.
abbrev pub answered : List Answer → ℕ
answered [] = 0
answered (accepted n ∷ answers) = suc (answered answers)
answered (interrupted ∷ answers) = answered answers
answered (failed ∷ answers) = suc (answered answers)

-- What is sent is the start of the message, and at least half of it if no call failed.
pub record IsSent (buf : List ℕ) (s : Sending) : Type 0 where
  pub prefix : s.out ≡ take s.bytes_sent buf
  pub within : s.bytes_sent ≤ length buf
  pub half : s.ok ≡ true → length buf ≤ 2 * s.bytes_sent

abbrev Ends : List ℕ → ℕ → ℕ → List ℕ → List Answer → Type 0
Ends buf sent pend out answers =
    (s : Sending) × (send_loop buf sent pend out answers ≡ some s) × IsSent buf s

send_loop_lem :
    (buf : List ℕ) (sent pend : ℕ) (out : List ℕ) (answers : List Answer)
    → Allowed pend answers
    → sent + pend ≡ length buf
    → out ≡ take sent buf
    → pend ≤ answered answers
    → Ends buf sent pend out answers
unfolding send_loop
send_loop_lem buf sent pend out [] ok sum is_prefix enough =
    let stop : ltb sent pend ≡ false = ground arith in
    (
      record { ok = true; bytes_sent = sent; out = out; left = [] },
      rw (stop, send_loop) refl,
      record { prefix = is_prefix; within = omega arith; half = λ _. ground arith },
    )
send_loop_lem buf sent pend out (accepted n ∷ answers) (least, most, ok) sum is_prefix enough =
    elim (Bool-cases (ltb sent pend)) [
      | inl go ↦
          let (s, e, good) =
            send_loop_lem buf (sent + n) (pend - n) (out ++ take n (drop sent buf)) answers ok
              (omega arith)
              (ap (λ o. o ++ take n (drop sent buf)) is_prefix ∙ take-take-drop sent n buf)
              (omega arith) in
          (s, rw (go, send_loop) e, good)
      | inr stop ↦ (
        record { ok = true; bytes_sent = sent; out = out; left = accepted n ∷ answers },
        rw (stop, send_loop) refl,
        record { prefix = is_prefix; within = omega arith; half = λ _. ground arith },
      )
    ]
send_loop_lem buf sent pend out (interrupted ∷ answers) ok sum is_prefix enough =
    elim (Bool-cases (ltb sent pend)) [
      | inl go ↦
          let (s, e, good) = send_loop_lem buf sent pend out answers ok sum is_prefix enough in
          (s, rw (go, send_loop) e, good)
      | inr stop ↦ (
        record { ok = true; bytes_sent = sent; out = out; left = interrupted ∷ answers },
        rw (stop, send_loop) refl,
        record { prefix = is_prefix; within = omega arith; half = λ _. ground arith },
      )
    ]
send_loop_lem buf sent pend out (failed ∷ answers) ok sum is_prefix enough =
    elim (Bool-cases (ltb sent pend)) [
      | inl go ↦ (
        record { ok = false; bytes_sent = sent; out = out; left = answers },
        rw (go, send_loop) refl,
        record { prefix = is_prefix; within = omega arith; half = λ e. cc },
      )
      | inr stop ↦ (
        record { ok = true; bytes_sent = sent; out = out; left = failed ∷ answers },
        rw (stop, send_loop) refl,
        record { prefix = is_prefix; within = omega arith; half = λ _. ground arith },
      )
    ]

-- Where each call of `send` takes at least one byte and no more than it is offered, or fails or is
-- interrupted, and as many calls as the message has bytes come back uninterrupted, the loop ends.
-- What was sent is the first bytes of the message, as many as `bytes_sent` says, and at least half
-- of the message if no call failed.
pub sendall_lem :
    (buf : List ℕ) (answers : List Answer)
    → Allowed (length buf) answers
    → length buf ≤ answered answers
    → (s : Sending) × (sendall buf answers ≡ some s) × IsSent buf s
unfolding sendall
sendall_lem buf answers ok enough =
    send_loop_lem buf 0 (length buf) [] answers ok (omega arith) refl enough

pub send_loop-stop :
    (buf : List ℕ) (sent pend : ℕ) (out : List ℕ) (answers : List Answer)
    → ltb sent pend ≡ false
    → send_loop buf sent pend out answers ≡ ended true sent out answers
unfolding send_loop
send_loop-stop buf sent pend out [] stop = rw (stop, send_loop) refl
send_loop-stop buf sent pend out (accepted n ∷ answers) stop = rw (stop, send_loop) refl
send_loop-stop buf sent pend out (interrupted ∷ answers) stop = rw (stop, send_loop) refl
send_loop-stop buf sent pend out (failed ∷ answers) stop = rw (stop, send_loop) refl

-- A message of which the first call of `send` takes half or more, but not all: the loop ends there
-- without an error, and the rest is not sent.
pub sendall_short :
    (buf : List ℕ) (n : ℕ) (answers : List Answer)
    → n < length buf
    → length buf ≤ 2 * n
    → sendall buf (accepted n ∷ answers)
      ≡ some (record { ok = true; bytes_sent = n; out = take n buf; left = answers })
unfolding sendall send_loop
sendall_short buf n answers part half =
    let go : ltb 0 (length buf) ≡ true = ground arith in
    let stop : ltb n (length buf - n) ≡ false = ground arith in
    let sum : 0 + n ≡ n = omega arith in
    rw (go, sendall, send_loop, sum)
      (send_loop-stop buf n (length buf - n) (take n buf) answers stop)
