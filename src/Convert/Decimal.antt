-- ===== src/Convert/Decimal.antt =====
-- Decimal digits, as kernel/main/util/util.c and kernel/main/util/print/kprintf.c write and read them.
use mathlib.Core.List.{reverse, reverse-cons}
use osfix_operating_system.Base.{
  ℕ, zero, suc, ◌+◌, ◌-◌, ◌*◌, ◌%◌, ◌^◌, ◌≡◌, refl, sym, ap, ◌∙◌, true, false, List, [], ◌∷◌, ◌++◌,
  ◌==◌, ◌≢◌, replicate, arith,
}
use osfix_operating_system.Text.{CString, first}
use osfix_operating_system.Convert.{is_digit, is_blank, skip_blanks, read_digits, read_signed}

abbrev pub AllDigits : List ℕ → Type 0
AllDigits [] = Unit {0}
AllDigits (c ∷ cs) = (is_digit c ≡ true) × AllDigits cs

-- The value of digits, lowest first, and of digits, highest first, behind those with value `acc`.
abbrev pub low_value : List ℕ → ℕ
low_value [] = 0
low_value (c ∷ cs) = (c - b'0') + 10 * low_value cs

abbrev pub high_value : (acc : ℕ) → List ℕ → ℕ
high_value acc [] = acc
high_value acc (c ∷ cs) = high_value (acc * 10 + (c - b'0')) cs

high_value-snoc :
    (acc : ℕ) (cs : List ℕ) (c : ℕ)
    → high_value acc (cs ++ (c ∷ [])) ≡ high_value acc cs * 10 + (c - b'0')
high_value-snoc acc [] c = refl
high_value-snoc acc (d ∷ cs) c = high_value-snoc (acc * 10 + (d - b'0')) cs c

AllDigits-snoc :
    (cs : List ℕ) (c : ℕ) → AllDigits cs → is_digit c ≡ true → AllDigits (cs ++ (c ∷ []))
AllDigits-snoc [] c all h = (h, tt)
AllDigits-snoc (d ∷ cs) c all h = (all.0, AllDigits-snoc cs c all.1 h)

pub high_value-reverse : (cs : List ℕ) → high_value 0 (reverse cs) ≡ low_value cs
high_value-reverse [] = refl
high_value-reverse (c ∷ cs) =
    ap (high_value 0) (reverse-cons c cs)
    ∙ high_value-snoc 0 (reverse cs) c
    ∙ omega (arith, high_value-reverse cs)

pub AllDigits-reverse : (cs : List ℕ) → AllDigits cs → AllDigits (reverse cs)
AllDigits-reverse [] all = tt
AllDigits-reverse (c ∷ cs) all =
    rw (reverse-cons c cs) (AllDigits-snoc (reverse cs) c (AllDigits-reverse cs all.1) all.0)

-- The patterns of numbers that are multiplied by 10 and added to.
abbrev pub Wraps : (modulus : ℕ) → Type 0
Wraps modulus = (a d : ℕ) → ((a % modulus) * 10 + d) % modulus ≡ (a * 10 + d) % modulus

pub Wraps-32 : Wraps (2 ^ 32)
Wraps-32 a d = omega arith

pub Wraps-64 : Wraps (2 ^ 64)
Wraps-64 a d = omega arith

read_digits-high :
    (modulus acc : ℕ) (cs : List ℕ) (rest : CString)
    → Wraps modulus
    → AllDigits cs
    → is_digit (first rest) ≡ false
    → read_digits modulus (acc % modulus) (cs ++ rest) ≡ high_value acc cs % modulus
unfolding read_digits
read_digits-high modulus acc [] [] wraps all stop = refl
read_digits-high modulus acc [] (c ∷ rest) wraps all stop = rw stop refl
read_digits-high modulus acc (c ∷ cs) rest wraps all stop =
    rw (all.0, wraps acc (c - b'0'))
      (read_digits-high modulus (acc * 10 + (c - b'0')) cs rest wraps all.1 stop)

-- Digits, highest first, are read up to the first byte that is none; blanks and signs in front of
-- them are not theirs.
pub read_digits-value :
    (modulus : ℕ) (cs : List ℕ) (rest : CString)
    → Wraps modulus
    → 0 % modulus ≡ 0
    → AllDigits cs
    → is_digit (first rest) ≡ false
    → read_digits modulus 0 (cs ++ rest) ≡ high_value 0 cs % modulus
read_digits-value modulus cs rest wraps zero_stays all stop =
    ap (λ z. read_digits modulus z (cs ++ rest)) (sym zero_stays)
    ∙ read_digits-high modulus 0 cs rest wraps all stop

pub read_signed-value :
    (modulus : ℕ) (cs : List ℕ) (rest : CString)
    → Wraps modulus
    → 0 % modulus ≡ 0
    → AllDigits cs
    → cs ≢ []
    → is_digit (first rest) ≡ false
    → read_signed modulus (skip_blanks (cs ++ rest)) ≡ high_value 0 cs % modulus
unfolding read_signed skip_blanks
read_signed-value modulus [] rest wraps zero_stays all ne stop = absurd (ne refl)
read_signed-value modulus (c ∷ cs) rest wraps zero_stays all ne stop =
    let no_blank : is_blank c ≡ false = ground (arith, all.0) in
    let no_minus : c == b'-' ≡ false = ground (arith, all.0) in
    let no_plus : c == b'+' ≡ false = ground (arith, all.0) in
    rw (no_blank, no_minus, no_plus)
      (read_digits-value modulus (c ∷ cs) rest wraps zero_stays all stop)

high_value-zeros : (k : ℕ) (cs : List ℕ) → high_value 0 (replicate k b'0' ++ cs) ≡ high_value 0 cs
high_value-zeros zero cs = refl
high_value-zeros (suc k) cs = high_value-zeros k cs

AllDigits-zeros : (k : ℕ) (cs : List ℕ) → AllDigits cs → AllDigits (replicate k b'0' ++ cs)
AllDigits-zeros zero cs all = all
AllDigits-zeros (suc k) cs all = (refl, AllDigits-zeros k cs all)

-- Digits that have the value n, lowest first.
pub record Writes (n : ℕ) (cs : List ℕ) : Type 0 where
  pub digits : AllDigits cs
  pub value : low_value cs ≡ n

-- Such digits turned round, behind any zeros.
module _ (n k : ℕ) (cs : List ℕ) (w : Writes n cs) where
  abbrev pub shown : List ℕ
  shown = replicate k b'0' ++ reverse cs

  pub shown-AllDigits : AllDigits shown
  shown-AllDigits = AllDigits-zeros k (reverse cs) (AllDigits-reverse cs w.digits)

  pub shown-value : high_value 0 shown ≡ n
  shown-value = high_value-zeros k (reverse cs) ∙ high_value-reverse cs ∙ w.value
