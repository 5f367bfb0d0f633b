-- ===== src/Programs/Limits.antt =====
-- src/bfd/bfd-main.c: each option keeps the variables that the options set in range.
use Prim.Native.String.{len, slice}
use text.Mathlib.Text.{starts_with}
use free_bfd.Base.{
  ℕ, ◌^◌, ◌≤◌, ◌<◌, ◌≡◌, ◌⊎◌, refl, arith, Bool, true, false, not, ◌&&◌, Option, none, some, String,
  ℤ, pos, negsuc, u8, u32, ltb, inl, inr, ◌==◌, Option-cases, if◌then◌else◌,
}
use free_bfd.Programs.{log_more, Opt, Exit, exits, goes}
use free_bfd.Programs.Bfd.{Options, defaults, port_of, extension, number, option}

pub record InBounds (o : Options) : Type 0 where
  pub mult : o.detect_mult < 2 ^ 8
  pub tx : o.desired_min_tx < 2 ^ 32
  pub rx : o.required_min_rx < 2 ^ 32
  pub peer : 1 ≤ o.peer_port
  pub peer_top : o.peer_port < 2 ^ 16
  pub local : 1 ≤ o.local_port
  pub local_top : o.local_port < 2 ^ 16

pub defaults-InBounds : InBounds defaults
defaults-InBounds = record {
  mult = omega arith;
  tx = omega arith;
  rx = omega arith;
  peer = omega arith;
  peer_top = omega arith;
  local = omega arith;
  local_top = omega arith;
}

abbrev pub Gone : {A : Type 0} → (A → Type 0) → Exit A → Type 0
Gone P (exits n) = Unit {0}
Gone P (goes a) = P a

pub Exit-cases : {A : Type 0} (r : Exit A) → ((n : ℕ) × (r ≡ exits n)) ⊎ ((a : A) × (r ≡ goes a))
Exit-cases (exits n) = inl (n, refl)
Exit-cases (goes a) = inr (a, refl)

if-Gone :
    {A : Type 0} (P : A → Type 0) (b : Bool) (x y : Exit A)
    → Gone P x
    → Gone P y
    → Gone P (if b then x else y)
if-Gone P true x y p q = p
if-Gone P false x y p q = q

choose :
    (x y : Exit Options) (b : Bool)
    → Gone InBounds x
    → Gone InBounds y
    → Gone InBounds (if b then x else y)
choose x y b p q = if-Gone InBounds b x y p q

-- The same numbers are in the same ranges.
like :
    (p o : Options)
    → (p.detect_mult ≡ o.detect_mult)
      × (p.desired_min_tx ≡ o.desired_min_tx)
      × (p.required_min_rx ≡ o.required_min_rx)
      × (p.peer_port ≡ o.peer_port)
      × (p.local_port ≡ o.local_port)
    → InBounds o
    → InBounds p
like p o (a, b, c, d, e) good = record {
  mult = omega (arith, good.mult);
  tx = omega (arith, good.tx);
  rx = omega (arith, good.rx);
  peer = omega (arith, good.peer);
  peer_top = omega (arith, good.peer_top);
  local = omega (arith, good.local);
  local_top = omega (arith, good.local_top);
}

port_of-range : (v : ℤ) (n : ℕ) → port_of v ≡ some n → (1 ≤ n) × (n < 2 ^ 16)
port_of-range (negsuc k) n e = absurd (cc e)
port_of-range (pos k) n e = ground arith

module _ (sscanf : String → Option ℕ) (strtol : String → ℤ) where
  port-InBounds :
      (o : Options) (v : ℤ) (put : ℕ → Options)
      → ((n : ℕ) → 1 ≤ n → n < 2 ^ 16 → InBounds (put n))
      → Gone InBounds (elim (port_of v) [ none ↦ exits 1 | some n ↦ goes (put n) ])
  port-InBounds o v put set = elim (Option-cases (port_of v)) [
    | inl e ↦ rw e tt
    | inr (n, e) ↦ let (least, most) = port_of-range v n e in rw e (set n least most)
  ]

  extension-InBounds :
      (s : String) (o : Options) → InBounds o → Gone InBounds (extension sscanf strtol s o)
  unfolding extension
  extension-InBounds s o good =
      let l = len s in
      if-Gone InBounds (ltb 9 l && starts_with s "PeerPort=")
        (elim (port_of (strtol (slice s 9 l))) [
          | none ↦ exits 1
          | some val ↦ goes (record o { peer_port = val })
        ])
        (if ltb 10 l && starts_with s "LocalPort="
          then elim (port_of (strtol (slice s 10 l))) [
            | none ↦ exits 1
            | some val ↦ goes (record o { local_port = val })
          ]
          else exits 1)
        (port-InBounds o (strtol (slice s 9 l)) (λ n. record o { peer_port = n })
          λ n h k. record {
            mult = good.mult;
            tx = good.tx;
            rx = good.rx;
            peer = h;
            peer_top = k;
            local = good.local;
            local_top = good.local_top;
          })
        (if-Gone InBounds (ltb 10 l && starts_with s "LocalPort=")
          (elim (port_of (strtol (slice s 10 l))) [
            | none ↦ exits 1
            | some val ↦ goes (record o { local_port = val })
          ])
          (exits 1)
          (port-InBounds o (strtol (slice s 10 l)) (λ n. record o { local_port = n })
            λ n h k. record {
              mult = good.mult;
              tx = good.tx;
              rx = good.rx;
              peer = good.peer;
              peer_top = good.peer_top;
              local = h;
              local_top = k;
            })
          tt)

  number-InBounds :
      (put : ℕ → Options) (s : String)
      → ((n : ℕ) → InBounds (put n))
      → Gone InBounds (number sscanf strtol put s)
  unfolding number
  number-InBounds put s set = elim (Option-cases (sscanf s)) [
    | inl e ↦ rw (e, number) tt
    | inr (n, e) ↦ rw (e, number) (set n)
  ]

  pub option-InBounds :
      (x : Opt) (o : Options) → InBounds o → Gone InBounds (option sscanf strtol x o)
  unfolding option
  option-InBounds x o good =
      let kept : Options → Type 0 = λ p.
        (p.detect_mult ≡ o.detect_mult)
        × (p.desired_min_tx ≡ o.desired_min_tx)
        × (p.required_min_rx ≡ o.required_min_rx)
        × (p.peer_port ≡ o.peer_port)
        × (p.local_port ≡ o.local_port) in
      let same : (p : Options) → kept p → InBounds p = λ p k. like p o k good in
      let mult =
        number-InBounds (λ n. record o { detect_mult = u8 n }) x.optarg
          λ n. record {
            mult = omega arith;
            tx = good.tx;
            rx = good.rx;
            peer = good.peer;
            peer_top = good.peer_top;
            local = good.local;
            local_top = good.local_top;
          } in
      let rx =
        number-InBounds (λ n. record o { required_min_rx = u32 n }) x.optarg
          λ n. record {
            mult = good.mult;
            tx = good.tx;
            rx = omega arith;
            peer = good.peer;
            peer_top = good.peer_top;
            local = good.local;
            local_top = good.local_top;
          } in
      let tx =
        number-InBounds (λ n. record o { desired_min_tx = u32 n }) x.optarg
          λ n. record {
            mult = good.mult;
            tx = omega arith;
            rx = good.rx;
            peer = good.peer;
            peer_top = good.peer_top;
            local = good.local;
            local_top = good.local_top;
          } in
      let all : (refl_ : Unit {0}) → kept o = λ _. (refl, refl, refl, refl, refl) in
      choose _ _ (x.letter == b'd') (same (record o { demand_mode = not o.demand_mode }) (all tt)) (
        choose _ _ (x.letter == b'h') tt (
          choose _ _ (x.letter == b'm') mult (
            choose _ _ (x.letter == b'p') (same (record o { connectaddr = some x.optarg }) (all tt))
              (choose _ _ (x.letter == b'r') rx (
                choose _ _ (x.letter == b't') tx (
                  choose _ _ (x.letter == b'v')
                    (same (record o { max_level = log_more o.max_level }) (all tt))
                    (choose _ _ (x.letter == b'x') (extension-InBounds x.optarg o good) tt)))))))
