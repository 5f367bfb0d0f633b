-- ===== src/Texts.antt =====
-- Texts that the code prints with `snprintf`: decimal numbers, a buffer of a fixed size, and the
-- bytes of a text.
pub mod Decimal
use Prim.Native.Char.{code as char_code}
use Prim.Native.String.{◌++◌}
use free_bfd.Base.{ℕ, zero, suc, ◌-◌, ◌/◌, ◌%◌, String, List, [], ◌∷◌, get_or, ltb, if◌then◌else◌}

abbrev pub digit : ℕ → String
digit d = get_or ("0" ∷ "1" ∷ "2" ∷ "3" ∷ "4" ∷ "5" ∷ "6" ∷ "7" ∷ "8" ∷ "9" ∷ []) d ""

unfoldable pub dec_from : ℕ → ℕ → String
dec_from zero n = ""
dec_from (suc fuel) n =
    let rest = dec_from fuel (n / 10) in if ltb n 10 then digit n else rest ++ digit (n % 10)

-- `%d`, and `%u` of a number of 32 bits, which has at most ten digits.
unfoldable pub dec : ℕ → String
dec n = dec_from 10 n

-- The first characters of a text.
unfoldable pub cut : ℕ → String → String
cut zero s = ""
cut (suc n) String.[] = ""
cut (suc n) (String.◌∷◌ c s) = String.◌∷◌ c (cut n s)

-- What `snprintf` leaves in a buffer of `size` bytes, of which one holds the terminator.
abbrev pub snprintf : ℕ → String → String
snprintf size text = cut (size - 1) text

-- The bytes of a text, without the terminator.
abbrev pub codes : String → List ℕ
codes String.[] = []
codes (String.◌∷◌ c s) = char_code c ∷ codes s
