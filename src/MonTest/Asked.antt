-- ===== src/MonTest/Asked.antt =====
-- src/bfdmontest/bfdmontest.c: what a line of the file asks for, said without the order in which
-- the code goes about it, and that the code reads it so.
use free_bfd.Base.{
  ℕ, ◌%◌, ◌^◌, ◌≡◌, refl, ap, Bool, false, ◌||◌, Option, none, some, List, [], ◌∷◌, String, inl,
  inr, Bool-cases, Option-cases, ◌==◌, if◌then◌else◌,
}
use free_bfd.Session.{BfdSession}
use free_bfd.Json.{Inet}
use free_bfd.Utils.Strings.{session_set_strings}
use free_bfd.MonTest.{Line, is_comment, apply_options, located, parse_fields, parse_line}
use free_bfd.MonTest.Options.{with_options, apply_options_lem}

abbrev pub behind_blanks : List ℕ → List ℕ
behind_blanks [] = []
behind_blanks (c ∷ rest) = if c == 32 || c == 9 then behind_blanks rest else c ∷ rest

abbrev pub starts_with : ℕ → List ℕ → Bool
starts_with c [] = false
starts_with c (d ∷ rest) = d == c

is_comment_lem : (cs : List ℕ) → is_comment cs ≡ starts_with 35 (behind_blanks cs)
is_comment_lem [] = refl
is_comment_lem (c ∷ rest) = elim (Bool-cases (c == 32 || c == 9)) [
  | inl blank ↦ rw (blank, is_comment, behind_blanks) (is_comment_lem rest)
  | inr other ↦ rw (other, is_comment, behind_blanks) refl
]

module _ (sscanf : String → Option ℕ) (inet : Inet) where
  -- A session with two addresses and ports, the defaults of the daemon and these options.
  abbrev pub described : ℕ → ℕ → ℕ → ℕ → List (String × String) → BfdSession
  described peer peer_port local local_port options = with_options sscanf options (
      session_set_strings inet.ntoa (record {
        peer_addr = peer;
        local_addr = local;
        peer_port = peer_port % 2 ^ 16;
        local_port = local_port % 2 ^ 16;
        peer_addr_str = "";
        local_addr_str = "";
        sn_id_str = "";
        demand_mode = false;
        detect_mult = 2;
        auth_type = 0;
        desired_min_tx_interval = 100_000;
        required_min_rx_interval = 50_000;
      }))

  -- What a line asks for: nothing, if its first character behind blanks is '#', if an address
  -- or a port is missing, or if one of the addresses is none.
  abbrev pub asked_for : Line → Option BfdSession
  asked_for line = if starts_with 35 (behind_blanks line.codes) then none else elim line.fields [
    | none ↦ none
    | some (peer, peer_port, local, local_port) ↦ elim (inet.aton peer) [
      | none ↦ none
      | some p ↦ elim (inet.aton local) [
        | none ↦ none
        | some l ↦ some (described p peer_port l local_port line.options)
      ]
    ]
  ]

  abbrev pub with_line_options : Line → Option BfdSession → Option BfdSession
  with_line_options line none = none
  with_line_options line (some sn) = some (apply_options sscanf line.options sn)

  fields_lem :
      (line : Line) (fields : Option (String × ℕ × String × ℕ))
      → with_line_options line (parse_fields inet fields) ≡ elim fields [
        | none ↦ none
        | some (peer, peer_port, local, local_port) ↦ elim (inet.aton peer) [
          | none ↦ none
          | some p ↦ elim (inet.aton local) [
            | none ↦ none
            | some l ↦ some (described p peer_port l local_port line.options)
          ]
        ]
      ]
  unfolding parse_fields
  fields_lem line none = refl
  fields_lem line (some (peer, peer_port, local, local_port)) =
      elim (Option-cases (inet.aton peer)) [
        | inl bad ↦ rw (bad, parse_fields) refl
        | inr (p, found) ↦ elim (Option-cases (inet.aton local)) [
          | inl bad ↦ rw (found, bad, parse_fields) refl
          | inr (l, known) ↦
              rw (found, known, parse_fields)
                (ap some
                  (apply_options_lem sscanf line.options (located inet p peer_port l local_port)))
        ]
      ]

  pub parse_line_lem :
      (line : Line) → with_line_options line (parse_line inet line) ≡ asked_for line
  unfolding parse_line
  parse_line_lem line = elim (Bool-cases (starts_with 35 (behind_blanks line.codes))) [
    | inl comment ↦ rw (is_comment_lem line.codes, comment, parse_line) refl
    | inr plain ↦ rw (is_comment_lem line.codes, plain, parse_line) (fields_lem line line.fields)
  ]
