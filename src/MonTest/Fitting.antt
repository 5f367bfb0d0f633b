-- ===== src/MonTest/Fitting.antt =====
-- src/bfdmontest/bfdmontest.c: the numbers of a session from a line are in the ranges of its
-- fields.
use mathlib.Core.Path.{subst}
use text.Mathlib.Text.{◌==◌ as str_eq}
use free_bfd.Base.{
  ℕ, ◌^◌, ◌<◌, ◌≡◌, arith, Bool, true, false, Option, none, some, List, [], ◌∷◌, String, inl, inr,
  Option-cases, Bool-cases, u8, u32, if◌then◌else◌,
}
use free_bfd.Session.{BfdSession}
use free_bfd.Json.{Inet}
use free_bfd.Utils.Strings.{session_set_strings}
use free_bfd.MonTest.{
  Line, is_comment, scanned, apply_option, apply_options, located, parse_fields, parse_line,
}
use free_bfd.Config.Ranges.{IsFitting}

either : (c : Bool) (x y : BfdSession) → IsFitting x → IsFitting y → IsFitting (if c then x else y)
either true x y p q = p
either false x y p q = q

module _ (sscanf : String → Option ℕ) where
  scanned-fits :
      (cast : ℕ → ℕ) (old top : ℕ) (value : String)
      → old < top
      → ((n : ℕ) → cast n < top)
      → scanned sscanf cast old value < top
  scanned-fits cast old top value h all = elim (Option-cases (sscanf value)) [
    | inl e ↦ rw (e, scanned) h
    | inr (n, e) ↦ rw (e, scanned) (all n)
  ]

  with_mult :
      (opt value : String) (sn : BfdSession)
      → IsFitting sn
      → IsFitting (
          if str_eq "DetectMult" opt
          then record sn { detect_mult = scanned sscanf u8 sn.detect_mult value }
          else sn)
  with_mult opt value sn h =
      either (str_eq "DetectMult" opt) _ sn
        (record {
          peer = h.peer;
          peer_port = h.peer_port;
          local_port = h.local_port;
          mult = scanned-fits u8 sn.detect_mult (2 ^ 8) value h.mult (λ n. omega arith);
          tx = h.tx;
          rx = h.rx;
        })
        h

  with_tx :
      (opt value : String) (sn : BfdSession)
      → IsFitting sn
      → IsFitting (
          if str_eq "DesiredMinTx" opt
          then record sn {
            desired_min_tx_interval = scanned sscanf u32 sn.desired_min_tx_interval value;
          }
          else sn)
  with_tx opt value sn h =
      either (str_eq "DesiredMinTx" opt) _ sn
        (record {
          peer = h.peer;
          peer_port = h.peer_port;
          local_port = h.local_port;
          mult = h.mult;
          tx = scanned-fits u32 sn.desired_min_tx_interval (2 ^ 32) value h.tx (λ n. omega arith);
          rx = h.rx;
        })
        h

  with_rx :
      (opt value : String) (sn : BfdSession)
      → IsFitting sn
      → IsFitting (
          if str_eq "RequiredMinRx" opt
          then record sn {
            required_min_rx_interval = scanned sscanf u32 sn.required_min_rx_interval value;
          }
          else sn)
  with_rx opt value sn h =
      either (str_eq "RequiredMinRx" opt) _ sn
        (record {
          peer = h.peer;
          peer_port = h.peer_port;
          local_port = h.local_port;
          mult = h.mult;
          tx = h.tx;
          rx = scanned-fits u32 sn.required_min_rx_interval (2 ^ 32) value h.rx (λ n. omega arith);
        })
        h

  with_mode :
      (opt value : String) (sn : BfdSession)
      → IsFitting sn
      → IsFitting
          (if str_eq "DemandMode" opt then record sn { demand_mode = str_eq "on" value } else sn)
  with_mode opt value sn h =
      either (str_eq "DemandMode" opt) _ sn
        (record {
          peer = h.peer;
          peer_port = h.peer_port;
          local_port = h.local_port;
          mult = h.mult;
          tx = h.tx;
          rx = h.rx;
        })
        h

  option-IsFitting :
      (opt value : String) (sn : BfdSession)
      → IsFitting sn
      → IsFitting (apply_option sscanf opt value sn)
  unfolding apply_option
  option-IsFitting opt value sn h =
      with_rx opt value _ (with_tx opt value _ (with_mult opt value _ (with_mode opt value sn h)))

  -- Whatever options stand behind the addresses, in any order and repeated, the numbers of the
  -- session stay in the ranges of their fields.
  pub options-IsFitting :
      (options : List (String × String)) (sn : BfdSession)
      → IsFitting sn
      → IsFitting (apply_options sscanf options sn)
  unfolding apply_options
  options-IsFitting [] sn h = h
  options-IsFitting ((opt, value) ∷ rest) sn h =
      options-IsFitting rest (apply_option sscanf opt value sn) (option-IsFitting opt value sn h)

module _ (inet : Inet) (small : (s : String) (a : ℕ) → inet.aton s ≡ some a → a < 2 ^ 32) where
  located-IsFitting :
      (peer : String) (p peer_port l local_port : ℕ)
      → inet.aton peer ≡ some p
      → IsFitting (located inet p peer_port l local_port)
  unfolding session_set_strings
  located-IsFitting peer p peer_port l local_port found = record {
    peer = small peer p found;
    peer_port = omega arith;
    local_port = omega arith;
    mult = omega arith;
    tx = omega arith;
    rx = omega arith;
  }

  fields-IsFitting :
      (fields : Option (String × ℕ × String × ℕ)) (sn : BfdSession)
      → parse_fields inet fields ≡ some sn
      → IsFitting sn
  unfolding parse_fields
  fields-IsFitting none sn e = absurd (ground (arith, e))
  fields-IsFitting (some (peer, peer_port, local, local_port)) sn e =
      elim (Option-cases (inet.aton peer)) [
        | inl bad ↦ absurd (ground (arith, e, bad))
        | inr (p, found) ↦ elim (Option-cases (inet.aton local)) [
          | inl bad ↦ absurd (ground (arith, e, found, bad))
          | inr (l, known) ↦
              let same : located inet p peer_port l local_port ≡ sn =
                ground (arith, e, found, known) in
              subst IsFitting same (located-IsFitting peer p peer_port l local_port found)
        ]
      ]

  pub line-IsFitting :
      (line : Line) (sn : BfdSession) → parse_line inet line ≡ some sn → IsFitting sn
  unfolding parse_line
  line-IsFitting line sn e = elim (Bool-cases (is_comment line.codes)) [
    | inl c ↦ absurd (ground (arith, e, c))
    | inr c ↦ fields-IsFitting line.fields sn (ground (arith, e, c))
  ]
