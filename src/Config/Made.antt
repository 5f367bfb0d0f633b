-- ===== src/Config/Made.antt =====
-- src/bfdd/bfdd-config.c: the sessions that are made of a file.
use free_bfd.Base.{
  ℕ, ◌≡◌, ◌⊎◌, refl, arith, Bool, Option, none, some, List, [], ◌∷◌, String, inl, inr, Option-cases,
}
use free_bfd.Session.{BfdSession}
use free_bfd.Utils.Strings.{session_set_strings}
use free_bfd.Config.{
  Setting, Host, address, session_of, create_sessions, handle_config_file, default_port,
  default_mult, default_tx, default_rx,
}
use free_bfd.Config.Ranges.{
  within_16, within_8, in_range, or_default_lt, IsFitting, IsWanted, made, built-made, address_lt,
}

module _ (inet_ntoa : ℕ → String) (gethostbyname : String → Option Host) (s : Setting) where
  abbrev pub Wanted : Type 0
  Wanted = (name : String) × (addr : ℕ) × IsWanted inet_ntoa gethostbyname s name addr

  made-IsFitting :
      (name : String) (addr : ℕ)
      → IsWanted inet_ntoa gethostbyname s name addr
      → IsFitting (made inet_ntoa gethostbyname s addr)
  unfolding session_set_strings
  made-IsFitting name addr w = record {
    peer = address_lt inet_ntoa gethostbyname name addr w.found;
    peer_port = omega (arith, in_range 0xffff default_port s.peer_port (omega arith) w.peer_port);
    local_port =
        omega (arith, in_range 0xffff default_port s.local_port (omega arith) w.local_port);
    mult = omega (arith, in_range 0xff default_mult s.detect_mult (omega arith) w.mult);
    tx = or_default_lt default_tx s.desired_min_tx_interval (omega arith);
    rx = or_default_lt default_rx s.required_min_rx_interval (omega arith);
  }

  -- An element of "Sessions" either asks for a session, with an address that can be found and
  -- with its ports and its multiplier missing or in range: then the session is made that has what
  -- it says and the defaults in its fields (`made`), and these are in range. Or it does not, and
  -- is skipped.
  pub session_of_lem :
      ((w : Wanted) × (session_of inet_ntoa gethostbyname s
          ≡ some (made inet_ntoa gethostbyname s w.1))
        × IsFitting (made inet_ntoa gethostbyname s w.1))
      ⊎ ((session_of inet_ntoa gethostbyname s ≡ none) × ¬ Wanted)
  unfolding session_of
  session_of_lem = elim (Option-cases s.peer_address) [
    | inl gone ↦ inr (rw (gone, session_of) refl, λ w. ground (arith, gone, w.2.named))
    | inr (name, named) ↦ elim (within_16 default_port s.peer_port) [
      | inr (over, out) ↦ inr (rw (named, session_of, over) refl, λ w. out w.2.peer_port)
      | inl (peer, peer_fits) ↦ elim (within_16 default_port s.local_port) [
        | inr (over, out) ↦ inr (rw (named, session_of, peer, over) refl, λ w. out w.2.local_port)
        | inl (local, local_fits) ↦ elim (within_8 default_mult s.detect_mult) [
          | inr (over, out) ↦
              inr (rw (named, session_of, peer, local, over) refl, λ w. out w.2.mult)
          | inl (mult, mult_fits) ↦ elim (Option-cases (address inet_ntoa gethostbyname name)) [
            | inl lost ↦ inr (
              rw (named, session_of, peer, local, mult, lost) refl,
              λ w. not_found name named lost w,
            )
            | inr (addr, found) ↦
                let w : IsWanted inet_ntoa gethostbyname s name addr = record {
                  named = named;
                  found = found;
                  peer_port = peer_fits;
                  local_port = local_fits;
                  mult = mult_fits;
                } in
                inl (
                  (name, addr, w),
                  rw
                      (
                        named,
                        session_of,
                        peer,
                        local,
                        mult,
                        found,
                        built-made inet_ntoa gethostbyname s addr,
                      )
                      refl,
                  made-IsFitting name addr w,
                )
          ]
        ]
      ]
    ]
  ]
    where
      not_found :
          (name : String)
          → s.peer_address ≡ some name
          → address inet_ntoa gethostbyname name ≡ none
          → ¬ Wanted
      not_found name named lost (name2, addr, w) =
          let same : name ≡ name2 = cc (named, w.named) in ground (arith, same, lost, w.found)

module _ (inet_ntoa : ℕ → String) (gethostbyname : String → Option Host) {W : Type 0}
    (create : BfdSession → W → Bool × W) (Inv : W → Type 0)
    (keeps : (sn : BfdSession) (w : W) → IsFitting sn → Inv w → Inv (create sn w).1) where
  create_sessions-Inv :
      (settings : List Setting) (w : W)
      → Inv w
      → Inv (create_sessions inet_ntoa gethostbyname create settings w)
  unfolding create_sessions
  create_sessions-Inv [] w inv = inv
  create_sessions-Inv (s ∷ rest) w inv = elim (session_of_lem inet_ntoa gethostbyname s) [
    | inr (skipped, out) ↦ rw (skipped, create_sessions) (create_sessions-Inv rest w inv)
    | inl (wanted, is_made, fits) ↦
        let sn = made inet_ntoa gethostbyname s wanted.1 in
        rw (is_made, create_sessions)
          (create_sessions-Inv rest (create sn w).1 (keeps sn w fits inv))
  ]

  -- What making a session whose fields are in range keeps, reading a configuration file keeps,
  -- whatever the file holds: no other session is asked for.
  pub handle_config_file-Inv :
      (file : Option (Option (List Setting))) (w : W)
      → Inv w
      → Inv (handle_config_file inet_ntoa gethostbyname create file w).1
  unfolding handle_config_file
  handle_config_file-Inv none w inv = inv
  handle_config_file-Inv (some none) w inv = inv
  handle_config_file-Inv (some (some settings)) w inv = create_sessions-Inv settings w inv
