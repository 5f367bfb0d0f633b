-- ===== src/Programs/Ports.antt =====
-- src/bfd/bfd-main.c: whatever the options are, the session of bfd has its fields in range.
use mathlib.Core.Path.{subst}
use free_bfd.Base.{
  ℕ, ◌≤◌, ◌≡◌, refl, sym, ◌∙◌, Option, List, [], ◌∷◌, String, ℤ, inl, inr, Option-cases,
}
use free_bfd.Session.{BfdSession}
use free_bfd.Utils.Strings.{session_set_strings}
use free_bfd.Config.{Host, address}
use free_bfd.Config.Ranges.{IsFitting, address_lt}
use free_bfd.Programs.{Opt, exits, goes, all_options}
use free_bfd.Programs.Bfd.{Options, defaults, option, session_for, main_session}
use free_bfd.Programs.Limits.{InBounds, defaults-InBounds, Gone, Exit-cases, option-InBounds}

module _ (sscanf : String → Option ℕ) (strtol : String → ℤ) where
  options-InBounds :
      (xs : List Opt) (o : Options)
      → InBounds o
      → Gone InBounds (all_options (option sscanf strtol) xs o)
  unfolding all_options
  options-InBounds [] o good = good
  options-InBounds (x ∷ xs) o good =
      let set = option-InBounds sscanf strtol x o good in
      elim (Exit-cases (option sscanf strtol x o)) [
        | inl (n, e) ↦ rw (e, all_options) tt
        | inr (o1, e) ↦ rw (e, all_options) (options-InBounds xs o1 (subst (Gone InBounds) e set))
      ]

  module _ (inet_ntoa : ℕ → String) (gethostbyname : String → Option Host) where
    abbrev IsGood : BfdSession → Type 0
    IsGood sn = IsFitting sn × (1 ≤ sn.peer_port) × (1 ≤ sn.local_port)

    session_for-IsGood :
        (o : Options)
        → InBounds o
        → Gone IsGood (session_for sscanf strtol inet_ntoa gethostbyname o)
    unfolding session_for session_set_strings
    session_for-IsGood o good = elim (Option-cases o.connectaddr) [
      | inl gone ↦ rw (gone, session_for) tt
      | inr (name, there) ↦ elim (Option-cases (address inet_ntoa gethostbyname name)) [
        | inl lost ↦ rw (there, session_for, lost) tt
        | inr (addr, found) ↦
            rw (there, session_for, found)
              (
                record {
                  peer = address_lt inet_ntoa gethostbyname name addr found;
                  peer_port = good.peer_top;
                  local_port = good.local_top;
                  mult = good.mult;
                  tx = good.tx;
                  rx = good.rx;
                },
                good.peer,
                good.local,
              )
      ]
    ]

    -- Whatever options bfd is called with: where it comes to make its session, the fields of that
    -- session are in range, and its ports are not zero.
    pub main_session-IsFitting :
        (args : List Opt) (sn : BfdSession)
        → main_session sscanf strtol inet_ntoa gethostbyname args ≡ goes sn
        → IsFitting sn × (1 ≤ sn.peer_port) × (1 ≤ sn.local_port)
    unfolding main_session
    main_session-IsFitting args sn e =
        let set = options-InBounds args defaults defaults-InBounds in
        elim (Exit-cases (all_options (option sscanf strtol) args defaults)) [
          | inl (n, over) ↦
              let ended : main_session sscanf strtol inet_ntoa gethostbyname args ≡ exits n =
                rw (over, main_session) refl in
              absurd (cc (ended, e))
          | inr (o, parsed) ↦
              let rest : main_session sscanf strtol inet_ntoa gethostbyname args
                  ≡ session_for sscanf strtol inet_ntoa gethostbyname o =
                rw (parsed, main_session) refl in
              subst (Gone IsGood) (sym rest ∙ e)
                (session_for-IsGood o (subst (Gone InBounds) parsed set))
        ]
