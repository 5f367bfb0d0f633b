-- ===== src/MonTest/Options.antt =====
-- src/bfdmontest/bfdmontest.c: the options of a line, field by field.
use text.Mathlib.Text.{◌==◌ as str_eq}
use free_bfd.Base.{
  ℕ, ◌%◌, ◌^◌, ◌≡◌, refl, ◌∙◌, ap, Bool, Option, none, some, List, [], ◌∷◌, String, inl, inr,
  Bool-cases, Option-cases, u8, u32, if◌then◌else◌,
}
use free_bfd.Session.{BfdSession}
use free_bfd.MonTest.{scanned, apply_option, apply_options}

-- The last value of an option that can be read, or the one before.
module _ {A : Type 0} (read : String → Option A) (key : String) where
  abbrev pub last_of : List (String × String) → Option A
  last_of [] = none
  last_of ((k, v) ∷ rest) = elim (last_of rest) [
    | some a ↦ some a
    | none ↦ if str_eq key k then read v else none
  ]

abbrev pub or_else : {A : Type 0} → A → Option A → A
or_else old none = old
or_else old (some a) = a

module _ {A : Type 0} (read : String → Option A) (key : String) where
  -- One more option in front.
  last_of-step :
      (old : A) (k v : String) (rest : List (String × String))
      → or_else (if str_eq key k then or_else old (read v) else old) (last_of read key rest)
        ≡ or_else old (last_of read key ((k, v) ∷ rest))
  last_of-step old k v rest = elim (Option-cases (last_of read key rest)) [
    | inr (a, later) ↦ rw (later, last_of) refl
    | inl none_later ↦ elim (Bool-cases (str_eq key k)) [
      | inl same ↦ rw (none_later, last_of, same) refl
      | inr other ↦ rw (none_later, last_of, other) refl
    ]
  ]

module _ (sscanf : String → Option ℕ) where
  abbrev pub number : ℕ → String → Option ℕ
  number w v = elim (sscanf v) [ none ↦ none | some n ↦ some (n % 2 ^ w) ]

  abbrev pub is_on : String → Option Bool
  is_on v = some (str_eq "on" v)

  scanned-number :
      (w old : ℕ) (v : String) → scanned sscanf (λ n. n % 2 ^ w) old v ≡ or_else old (number w v)
  scanned-number w old v = elim (Option-cases (sscanf v)) [
    | inl e ↦ rw (e, scanned, number) refl
    | inr (n, e) ↦ rw (e, scanned, number) refl
  ]

  -- A session with options: each has the last value that can be read, or stays as it is.
  abbrev pub with_options : List (String × String) → BfdSession → BfdSession
  with_options options sn = record sn {
    demand_mode = or_else sn.demand_mode (last_of is_on "DemandMode" options);
    detect_mult = or_else sn.detect_mult (last_of (number 8) "DetectMult" options);
    desired_min_tx_interval =
        or_else sn.desired_min_tx_interval (last_of (number 32) "DesiredMinTx" options);
    required_min_rx_interval =
        or_else sn.required_min_rx_interval (last_of (number 32) "RequiredMinRx" options);
  }

  module _ (k v : String) where
    abbrev set_mode : BfdSession → BfdSession
    set_mode sn = record sn {
      demand_mode =
          if str_eq "DemandMode" k then or_else sn.demand_mode (is_on v) else sn.demand_mode;
    }

    abbrev set_mult : BfdSession → BfdSession
    set_mult sn = record sn {
      detect_mult =
          if str_eq "DetectMult" k then or_else sn.detect_mult (number 8 v) else sn.detect_mult;
    }

    abbrev set_tx : BfdSession → BfdSession
    set_tx sn = record sn {
      desired_min_tx_interval =
          if str_eq "DesiredMinTx" k
          then or_else sn.desired_min_tx_interval (number 32 v)
          else sn.desired_min_tx_interval;
    }

    abbrev set_rx : BfdSession → BfdSession
    set_rx sn = record sn {
      required_min_rx_interval =
          if str_eq "RequiredMinRx" k
          then or_else sn.required_min_rx_interval (number 32 v)
          else sn.required_min_rx_interval;
    }

    mode_lem :
        (sn : BfdSession)
        → (if str_eq "DemandMode" k then record sn { demand_mode = str_eq "on" v } else sn)
          ≡ set_mode sn
    mode_lem sn = elim (Bool-cases (str_eq "DemandMode" k)) [
      | inl e ↦ rw (e, set_mode) refl
      | inr e ↦ rw (e, set_mode) refl
    ]

    mult_lem :
        (sn : BfdSession)
        → (if str_eq "DetectMult" k
            then record sn { detect_mult = scanned sscanf u8 sn.detect_mult v }
            else sn)
          ≡ set_mult sn
    mult_lem sn = elim (Bool-cases (str_eq "DetectMult" k)) [
      | inl e ↦
          rw (e, set_mult)
            (ap (λ n. record sn { detect_mult = n }) (scanned-number 8 sn.detect_mult v))
      | inr e ↦ rw (e, set_mult) refl
    ]

    tx_lem :
        (sn : BfdSession)
        → (if str_eq "DesiredMinTx" k
            then record sn {
              desired_min_tx_interval = scanned sscanf u32 sn.desired_min_tx_interval v;
            }
            else sn)
          ≡ set_tx sn
    tx_lem sn = elim (Bool-cases (str_eq "DesiredMinTx" k)) [
      | inl e ↦
          rw (e, set_tx)
            (ap (λ n. record sn { desired_min_tx_interval = n })
              (scanned-number 32 sn.desired_min_tx_interval v))
      | inr e ↦ rw (e, set_tx) refl
    ]

    rx_lem :
        (sn : BfdSession)
        → (if str_eq "RequiredMinRx" k
            then record sn {
              required_min_rx_interval = scanned sscanf u32 sn.required_min_rx_interval v;
            }
            else sn)
          ≡ set_rx sn
    rx_lem sn = elim (Bool-cases (str_eq "RequiredMinRx" k)) [
      | inl e ↦
          rw (e, set_rx)
            (ap (λ n. record sn { required_min_rx_interval = n })
              (scanned-number 32 sn.required_min_rx_interval v))
      | inr e ↦ rw (e, set_rx) refl
    ]

    abbrev set_one : BfdSession → BfdSession
    set_one sn = set_rx (set_tx (set_mult (set_mode sn)))

    apply_option_lem : (sn : BfdSession) → apply_option sscanf k v sn ≡ set_one sn
    unfolding apply_option
    apply_option_lem sn =
        rx_lem _ ∙ ap set_rx (tx_lem _ ∙ ap set_tx (mult_lem _ ∙ ap set_mult (mode_lem sn)))

  pub apply_options_lem :
      (options : List (String × String)) (sn : BfdSession)
      → apply_options sscanf options sn ≡ with_options options sn
  unfolding apply_options
  apply_options_lem [] sn = refl
  apply_options_lem ((k, v) ∷ rest) sn =
      ap (apply_options sscanf rest) (apply_option_lem k v sn)
      ∙ (apply_options_lem rest (set_one k v sn) ∙ λ i. record sn {
        demand_mode = last_of-step is_on "DemandMode" sn.demand_mode k v rest i;
        detect_mult = last_of-step (number 8) "DetectMult" sn.detect_mult k v rest i;
        desired_min_tx_interval =
            last_of-step (number 32) "DesiredMinTx" sn.desired_min_tx_interval k v rest i;
        required_min_rx_interval =
            last_of-step (number 32) "RequiredMinRx" sn.required_min_rx_interval k v rest i;
      })
