-- ===== src/Base/Bits.antt =====
-- `|` and `&` of the source, digit by digit.
use Prim.Native.Nat.{
  ℕ, zero, suc, ◌+◌, ◌-◌, ◌*◌, ◌/◌, ◌%◌, ◌≤◌, min, max, bit_or, bit_and, digits, bit_or-bitwise,
  bit_and-bitwise,
}
use mathlib.Core.Path.{◌≡◌, refl, ap, ◌∙◌}
use native.Mathlib.Omega.{arith}

-- More rounds than the first number needs change nothing.
module _ (last : ℕ → ℕ) (op : ℕ → ℕ → ℕ) where
  one_round_more :
      (x y rounds : ℕ) → x ≤ rounds → digits last op (suc rounds) x y ≡ digits last op rounds x y
  one_round_more zero y zero le = refl
  one_round_more zero y (suc rounds) le = refl
  one_round_more (suc x) y zero le = absurd (omega arith)
  one_round_more (suc x) y (suc rounds) le =
      ap (λ d. d * 2 + op (suc x % 2) (y % 2))
        (one_round_more (suc x / 2) (y / 2) rounds (omega arith))

  rounds_more : (extra x y : ℕ) → digits last op (x + extra) x y ≡ digits last op x x y
  rounds_more zero x y = let e : x + 0 ≡ x = omega arith in rw e refl
  rounds_more (suc extra) x y =
      let e : x + suc extra ≡ suc (x + extra) = omega arith in
      rw e (one_round_more x y (x + extra) (omega arith) ∙ rounds_more extra x y)

  -- The rounds that are left after the first digit are enough for the half.
  rounds_for_half :
      (x y : ℕ) → digits last op x (suc x / 2) y ≡ digits last op (suc x / 2) (suc x / 2) y
  rounds_for_half x y =
      let e : x ≡ suc x / 2 + (x - suc x / 2) = omega arith in
      ap (λ r. digits last op r (suc x / 2) y) e ∙ rounds_more (x - suc x / 2) (suc x / 2) y

pub bit_or-lowest : (x y : ℕ) → bit_or x y ≡ max (x % 2) (y % 2) + 2 * bit_or (x / 2) (y / 2)
bit_or-lowest zero y = simp bit_or-bitwise (omega arith)
bit_or-lowest (suc x) y =
    simp bit_or-bitwise (omega (arith, rounds_for_half (λ d. d) max x (y / 2)))

pub bit_and-lowest : (x y : ℕ) → bit_and x y ≡ min (x % 2) (y % 2) + 2 * bit_and (x / 2) (y / 2)
bit_and-lowest zero y = simp bit_and-bitwise (omega arith)
bit_and-lowest (suc x) y =
    simp bit_and-bitwise (omega (arith, rounds_for_half (λ d. 0) min x (y / 2)))
