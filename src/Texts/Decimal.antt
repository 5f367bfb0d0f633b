-- ===== src/Texts/Decimal.antt =====
-- The decimal numbers of `%d`, and the texts that fit a buffer.
use Prim.Native.Char.{code as char_code}
use Prim.Native.String.{◌++◌, count}
use Prim.Native.String.count
use text.Mathlib.TextLemmas.{length-append, cons-append, nil-append}
use free_bfd.Base.{
  ℕ, zero, suc, ◌+◌, ◌-◌, ◌*◌, ◌/◌, ◌%◌, ◌^◌, ◌≤◌, ◌<◌, ◌≡◌, refl, ap, ◌∙◌, arith, String, inl, inr,
  ltb, Bool-cases,
}
use free_bfd.Texts.{digit, dec_from, dec, cut}

-- The number that a run of digits spells, behind what was read so far.
abbrev pub read_from : ℕ → String → ℕ
read_from acc String.[] = acc
read_from acc (String.◌∷◌ c s) = read_from (acc * 10 + (char_code c - 48)) s

abbrev pub value : String → ℕ
value s = read_from 0 s

read_from-append : (acc : ℕ) (s t : String) → read_from acc (s ++ t) ≡ read_from (read_from acc s) t
read_from-append acc String.[] t = ap (read_from acc) (nil-append t)
read_from-append acc (String.◌∷◌ c s) t =
    ap (read_from acc) (cons-append c s t) ∙ read_from-append (acc * 10 + (char_code c - 48)) s t

read_from-digit : (acc d : ℕ) → d < 10 → read_from acc (digit d) ≡ acc * 10 + d
read_from-digit acc zero h = omega arith
read_from-digit acc (suc zero) h = omega arith
read_from-digit acc (suc (suc zero)) h = omega arith
read_from-digit acc (suc (suc (suc zero))) h = omega arith
read_from-digit acc (suc (suc (suc (suc zero)))) h = omega arith
read_from-digit acc (suc (suc (suc (suc (suc zero))))) h = omega arith
read_from-digit acc (suc (suc (suc (suc (suc (suc zero)))))) h = omega arith
read_from-digit acc (suc (suc (suc (suc (suc (suc (suc zero))))))) h = omega arith
read_from-digit acc (suc (suc (suc (suc (suc (suc (suc (suc zero)))))))) h = omega arith
read_from-digit acc (suc (suc (suc (suc (suc (suc (suc (suc (suc zero))))))))) h = omega arith
read_from-digit acc (suc (suc (suc (suc (suc (suc (suc (suc (suc (suc d)))))))))) h =
    absurd (omega arith)

count-digit : (d : ℕ) → count (digit d) ≤ 1
count-digit zero = omega arith
count-digit (suc zero) = omega arith
count-digit (suc (suc zero)) = omega arith
count-digit (suc (suc (suc zero))) = omega arith
count-digit (suc (suc (suc (suc zero)))) = omega arith
count-digit (suc (suc (suc (suc (suc zero))))) = omega arith
count-digit (suc (suc (suc (suc (suc (suc zero)))))) = omega arith
count-digit (suc (suc (suc (suc (suc (suc (suc zero))))))) = omega arith
count-digit (suc (suc (suc (suc (suc (suc (suc (suc zero)))))))) = omega arith
count-digit (suc (suc (suc (suc (suc (suc (suc (suc (suc zero))))))))) = omega arith
count-digit (suc (suc (suc (suc (suc (suc (suc (suc (suc (suc d)))))))))) = omega arith

value-dec_from : (fuel n : ℕ) → n < 10 ^ fuel → value (dec_from fuel n) ≡ n
unfolding dec_from
value-dec_from zero n h = omega arith
value-dec_from (suc fuel) n h = elim (Bool-cases (ltb n 10)) [
  | inl small ↦ rw (small, dec_from) (omega (arith, read_from-digit 0 n (ground arith)))
  | inr large ↦
      let smaller : n / 10 < 10 ^ fuel = ground arith in
      let before = value-dec_from fuel (n / 10) smaller in
      rw
        (large, dec_from, read_from-append, before, read_from-digit (n / 10) (n % 10) (omega arith))
        (omega arith)
]

-- A number of 32 bits is printed in decimal as digits that spell that number.
pub value-dec : (n : ℕ) → n < 2 ^ 32 → value (dec n) ≡ n
unfolding dec
value-dec n h = value-dec_from 10 n (omega arith)

count-dec_from : (fuel n : ℕ) → count (dec_from fuel n) ≤ fuel
unfolding dec_from
count-dec_from zero n = omega arith
count-dec_from (suc fuel) n = elim (Bool-cases (ltb n 10)) [
  | inl small ↦ rw (small, dec_from) (omega (arith, count-digit n))
  | inr large ↦
      rw (large, dec_from, length-append)
        (omega (arith, count-digit (n % 10), count-dec_from fuel (n / 10)))
]

pub count-dec : (n : ℕ) → count (dec n) ≤ 10
unfolding dec
count-dec n = count-dec_from 10 n

-- A text that is short enough is printed whole.
pub cut_all : (n : ℕ) (s : String) → count s ≤ n → cut n s ≡ s
unfolding cut
cut_all zero String.[] h = refl
cut_all zero (String.◌∷◌ c s) h = absurd (omega (arith, count.cons c s))
cut_all (suc n) String.[] h = refl
cut_all (suc n) (String.◌∷◌ c s) h = ap (String.◌∷◌ c) (cut_all n s (omega (arith, count.cons c s)))

pub count-cut : (n : ℕ) (s : String) → count (cut n s) ≤ n
unfolding cut
count-cut zero s = omega arith
count-cut (suc n) String.[] = omega arith
count-cut (suc n) (String.◌∷◌ c s) = omega (arith, count-cut n s, count.cons c (cut n s))
