-- ===== src/Convert/RoundTrip.antt =====
-- kernel/main/util/util.c: atoi reads what itoa writes.
use native.Mathlib.Nat.{two-pow-succ}
use mathlib.Core.List.{reverse, reverse-append}
use osfix_operating_system.Base.{
  ℕ, zero, suc, ◌-◌, ◌/◌, ◌%◌, ◌^◌, ◌≤◌, ◌<◌, ◌≡◌, ◌≢◌, refl, sym, ap, ◌∙◌, List, [], ◌∷◌, ◌++◌,
  leb, ◌==◌, arith, Bool-cases, ==_iff, inl, inr,
}
use osfix_operating_system.Convert.{itoa, itoa_digits, atoi, read_signed, read_digits, skip_blanks}
use osfix_operating_system.Convert.Decimal.{
  Writes, high_value, Wraps-32, read_digits-value, read_signed-value, high_value-reverse,
  AllDigits-reverse,
}

itoa_digits-Writes : (fuel value : ℕ) → value < 2 ^ fuel → Writes value (itoa_digits fuel value 10)
unfolding itoa_digits
itoa_digits-Writes zero value small = record { digits = tt; value = omega arith }
itoa_digits-Writes (suc fuel) value small = elim (Bool-cases (value == 0)) [
  | inl none_left ↦ rw none_left (record { digits = tt; value = ground (arith, none_left) })
  | inr more ↦
      let later = itoa_digits-Writes fuel (value / 10) (omega (arith, small, two-pow-succ fuel)) in
      rw more
        (record { digits = (ground arith, later.digits); value = ground (arith, later.value) })
]

module _ (n : ℕ) (cs : List ℕ) (w : Writes n cs) (some_value : 0 < n) where
  reverse-ne-nil : reverse cs ≢ []
  reverse-ne-nil e =
      absurd (omega (arith, w.value, sym (high_value-reverse cs) ∙ ap (high_value 0) e))

  read-positive : n < 2 ^ 32 → atoi (reverse cs ++ (0 ∷ [])) ≡ n
  unfolding atoi
  read-positive small =
      read_signed-value (2 ^ 32) (reverse cs) (0 ∷ []) Wraps-32 refl (AllDigits-reverse cs w.digits)
        reverse-ne-nil refl
      ∙ ap (λ v. v % 2 ^ 32) (high_value-reverse cs ∙ w.value)
      ∙ omega arith

  read-negative : n ≤ 2 ^ 31 → atoi (reverse (cs ++ (b'-' ∷ [])) ++ (0 ∷ [])) ≡ 2 ^ 32 - n
  unfolding atoi read_signed skip_blanks
  read-negative small =
      ap (λ s. atoi (s ++ (0 ∷ []))) (reverse-append cs (b'-' ∷ []))
      ∙ ap (λ v. (2 ^ 32 - v) % 2 ^ 32)
          (read_digits-value (2 ^ 32) (reverse cs) (0 ∷ []) Wraps-32 refl
              (AllDigits-reverse cs w.digits) refl
            ∙ ap (λ v. v % 2 ^ 32) (high_value-reverse cs ∙ w.value))
      ∙ omega arith

atoi-zero : atoi (b'0' ∷ 0 ∷ []) ≡ 0
unfolding atoi skip_blanks read_signed read_digits
atoi-zero = refl

-- For every int, the smallest and the negative ones included, atoi reads back the decimal number
-- that itoa writes.
pub atoi-itoa : (value : ℕ) → value < 2 ^ 32 → atoi (itoa value 10) ≡ value
unfolding itoa
atoi-itoa value small = elim (Bool-cases (value == 0)) [
  | inl nothing ↦ rw nothing (atoi-zero ∙ sym ((==_iff value 0).0 nothing))
  | inr more ↦ elim (Bool-cases (leb (2 ^ 31) value)) [
    | inl minus ↦
        let m = (2 ^ 32 - value) % 2 ^ 32 in
        let w = itoa_digits-Writes 32 m (omega arith) in
        rw (more, minus)
          (read-negative m (itoa_digits 32 m 10) w (ground (arith, more, minus))
              (ground (arith, minus))
            ∙ ground (arith, minus))
    | inr natural ↦
        rw (more, natural)
          (read-positive value (itoa_digits 32 value 10) (itoa_digits-Writes 32 value small)
            (ground (arith, more)) small)
  ]
]
