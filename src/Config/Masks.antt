-- ===== src/Config/Masks.antt =====
-- `bit_and` with the masks of src/bfdd/bfdd-config.c, from the digits that it stands for.
use Prim.Native.Nat.{min, digits, bit_and-bitwise}
use free_bfd.Base.{
  ℕ, zero, suc, ◌+◌, ◌*◌, ◌/◌, ◌%◌, ◌≤◌, ◌<◌, bit_and, ◌≡◌, ◌↔◌, refl, sym, ap, ◌∙◌, arith,
}

-- The digits with so much fuel.
abbrev conj : ℕ → ℕ → ℕ → ℕ
conj fuel x y = digits (λ z. zero) min fuel x y

conj-bit_and : (top fuel x y : ℕ) → fuel ≤ top → x ≤ fuel → conj fuel x y ≡ bit_and x y
conj-bit_and top zero zero y h k = sym (bit_and-bitwise 0 y)
conj-bit_and top zero (suc x) y h k = absurd (omega arith)
conj-bit_and top (suc fuel) zero y h k = sym (bit_and-bitwise 0 y)
conj-bit_and zero (suc fuel) (suc x) y h k = absurd (omega arith)
conj-bit_and (suc top) (suc fuel) (suc x) y h k =
    let half = suc x / 2 in
    let deep = conj-bit_and top fuel half (y / 2) (omega arith) (omega arith) in
    let shallow = conj-bit_and top x half (y / 2) (omega arith) (omega arith) in
    omega (arith, deep, shallow, bit_and-bitwise (suc x) y)

halved : (x y : ℕ) → bit_and x y ≡ bit_and (x / 2) (y / 2) * 2 + min (x % 2) (y % 2)
halved zero y = omega (arith, bit_and-bitwise 0 y, bit_and-bitwise 0 (y / 2))
halved (suc x) y = omega (
  arith,
  bit_and-bitwise (suc x) y,
  conj-bit_and x x (suc x / 2) (y / 2) (omega arith) (omega arith),
)

-- A mask with so many zeros at its end, a mask of so many ones, and what they leave of a number.
abbrev pub shifted : ℕ → ℕ → ℕ
shifted zero m = m
shifted (suc k) m = shifted k m * 2

abbrev pub ones : ℕ → ℕ
ones zero = 0
ones (suc k) = ones k * 2 + 1

halves : ℕ → ℕ → ℕ
halves zero x = x
halves (suc k) x = halves k (x / 2)

bit_and-none : (fuel x : ℕ) → x ≤ fuel → bit_and x 0 ≡ 0
bit_and-none zero zero h = bit_and-bitwise 0 0
bit_and-none zero (suc x) h = absurd (omega arith)
bit_and-none (suc fuel) x h =
    let rest = bit_and-none fuel (x / 2) (omega arith) in omega (arith, halved x 0, rest)

bit_and-shifted : (k x m : ℕ) → bit_and x (shifted k m) ≡ shifted k (bit_and (halves k x) m)
unfolding halves
bit_and-shifted zero x m = refl
bit_and-shifted (suc k) x m =
    let even : shifted k m * 2 / 2 ≡ shifted k m = omega arith in
    omega
      (arith, halved x (shifted k m * 2), ap (bit_and (x / 2)) even, bit_and-shifted k (x / 2) m)

-- A number below a mask of ones has a bit in common with it unless it is zero.
bit_and-ones : (k x : ℕ) → x ≤ ones k → bit_and x (ones k) ≡ x
bit_and-ones zero x h = omega (arith, bit_and-none x x (omega arith))
bit_and-ones (suc k) x h =
    let odd : (ones k * 2 + 1) / 2 ≡ ones k = omega arith in
    omega (
      arith,
      halved x (ones k * 2 + 1),
      ap (bit_and (x / 2)) odd,
      bit_and-ones k (x / 2) (omega arith),
    )

shifted_zero : (k v : ℕ) → (shifted k v ≡ 0) ↔ (v ≡ 0)
shifted_zero zero v = omega arith
shifted_zero (suc k) v =
    let rest = shifted_zero k v in
    (λ e. rest.0 (omega (arith, e)), λ e. let none_left = rest.1 e in omega (arith, none_left))

halves_below : (k x c : ℕ) → x < shifted k c → halves k x < c
unfolding halves
halves_below zero x c h = h
halves_below (suc k) x c h = halves_below k (x / 2) c (omega arith)

halves_zero : (k x : ℕ) → halves k x ≡ 0 → x < shifted k 1
unfolding halves
halves_zero zero x h = omega arith
halves_zero (suc k) x h = omega (arith, halves_zero k (x / 2) h)

-- A number has no bit in common with a mask of `j` ones before `k` zeros exactly when it is below
-- the mask's last one, if it has no more than `k + j` bits.
pub bit_and-zero_iff :
    (k j x : ℕ)
    → x < shifted k (ones j + 1)
    → (bit_and x (shifted k (ones j)) ≡ 0) ↔ (x < shifted k 1)
bit_and-zero_iff k j x small =
    let moved = bit_and-shifted k x (ones j) in
    let kept = bit_and-ones j (halves k x) (omega (arith, halves_below k x (ones j + 1) small)) in
    let nothing = shifted_zero k (bit_and (halves k x) (ones j)) in
    (
      λ e. halves_zero k x (sym kept ∙ nothing.0 (sym moved ∙ e)),
      λ h.
          let none_left : halves k x ≡ 0 = omega (arith, halves_below k x 1 h) in
          moved ∙ nothing.1 (kept ∙ none_left),
    )
