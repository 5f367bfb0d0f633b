-- ===== src/TpSockets.antt =====
-- src/core/tp-timers.c, the socket actors: a table of at most twenty, and the set that `select`
-- polls.
use free_bfd.Base.{
  ℕ, ◌+◌, Bool, true, false, Option, none, some, ℤ, pos, negsuc, leb, ◌==◌, if◌then◌else◌,
}

abbrev pub max_skts : ℕ
max_skts = 20

-- `sktActors` with `sktArgs`, `sktSet` and `maxSkt`; an actor of type `A` holds its argument.
pub record Skts (A : Type 0) : Type 0 where
  pub actors : ℕ → Option A
  pub skt_set : ℕ → Bool
  pub max_skt : ℕ

abbrev pub write_at {ℓ} : {B : Type ℓ} → (ℕ → B) → ℕ → B → ℕ → B
write_at f i v j = if i == j then v else f j

module _ {A : Type 0} where
  abbrev pub no_skts : Skts A
  no_skts = record { actors = λ _. none; skt_set = λ _. false; max_skt = 0 }

  -- `tpSetSktActor`: the result and the table. Nobody asks for the old actor.
  unfoldable pub set_skt_actor : ℤ → A → Skts A → ℤ × Skts A
  set_skt_actor (negsuc n) a s = (negsuc 0, s)
  set_skt_actor (pos skt) a s = if leb max_skts skt then (negsuc 0, s) else (
    pos 0,
    record {
      actors = write_at s.actors skt (some a);
      skt_set = write_at s.skt_set skt true;
      max_skt = if leb s.max_skt skt then skt + 1 else s.max_skt;
    },
  )

  -- `tpRmSktActor`
  unfoldable pub rm_skt_actor : ℤ → Skts A → ℤ × Skts A
  rm_skt_actor (negsuc n) s = (negsuc 0, s)
  rm_skt_actor (pos skt) s = if leb max_skts skt then (negsuc 0, s) else (
    pos 0,
    record s { actors = write_at s.actors skt none; skt_set = write_at s.skt_set skt false },
  )
