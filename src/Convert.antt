-- ===== src/Convert.antt =====
-- kernel/main/util/util.c: the conversions between numbers and strings. An int and a long are their
-- 32-bit and 64-bit patterns; a string that is written is the list of its bytes.
pub mod Decimal
pub mod RoundTrip
mod Tests
use mathlib.Core.List.{reverse}
use osfix_operating_system.Base.{
  ℕ, zero, suc, ◌+◌, ◌-◌, ◌*◌, ◌/◌, ◌%◌, ◌^◌, Bool, true, false, ◌&&◌, ◌||◌, List, [], ◌∷◌, ◌++◌,
  ltb, leb, ◌==◌, if◌then◌else◌,
}
use osfix_operating_system.Text.{CString}

-- (rem > 9) ? (rem - 10) + 'a' : rem + '0'
abbrev pub digit_char : ℕ → ℕ
digit_char rem = if ltb 9 rem then (rem - 10) + b'a' else rem + b'0'

-- while (value != 0), lowest digit first; the remainder and the quotient are of unsigned numbers,
-- since the base is one.
unfoldable pub itoa_digits : (fuel value base : ℕ) → List ℕ
itoa_digits zero value base = []
itoa_digits (suc fuel) value base =
    let later = itoa_digits fuel (value / base) base in
    if value == 0 then [] else digit_char (value % base) ∷ later

-- The last loop exchanges the ends of the string until they meet, which turns it round. 32 rounds
-- are enough for 32 bits.
unfoldable pub itoa : (value base : ℕ) → CString
itoa value base =
    if value == 0
    then b'0' ∷ 0 ∷ []
    else if leb (2 ^ 31) value && base == 10
    then reverse (itoa_digits 32 ((2 ^ 32 - value) % 2 ^ 32) base ++ (b'-' ∷ [])) ++ (0 ∷ [])
    else reverse (itoa_digits 32 value base) ++ (0 ∷ [])

abbrev pub is_blank : ℕ → Bool
is_blank c = c == b' ' || c == b'\t' || c == b'\n'

abbrev pub is_digit : ℕ → Bool
is_digit c = leb b'0' c && leb c b'9'

unfoldable pub skip_blanks : CString → CString
skip_blanks [] = []
skip_blanks (c ∷ s) = let later = skip_blanks s in if is_blank c then later else c ∷ s

-- The loop over the digits; the result keeps `modulus` patterns.
unfoldable pub read_digits : (modulus result : ℕ) → CString → ℕ
read_digits modulus result [] = result
read_digits modulus result (c ∷ s) =
    let later = read_digits modulus ((result * 10 + (c - b'0')) % modulus) s in
    if is_digit c then later else result

-- What follows the blanks: a sign, if there is one, and the digits.
unfoldable pub read_signed : (modulus : ℕ) → CString → ℕ
read_signed modulus [] = 0
read_signed modulus (c ∷ s) =
    if c == b'-'
    then (modulus - read_digits modulus 0 s) % modulus
    else if c == b'+'
    then read_digits modulus 0 s
    else read_digits modulus 0 (c ∷ s)

unfoldable pub atoi : CString → ℕ
atoi s = read_signed (2 ^ 32) (skip_blanks s)

unfoldable pub atol : CString → ℕ
atol s = read_signed (2 ^ 64) (skip_blanks s)
