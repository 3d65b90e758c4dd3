-- ===== src/Base/Digits.antt =====
-- The binary digit of a number at a place, and the number with that digit put.
use Prim.Native.Nat.{ℕ, zero, suc, ◌+◌, ◌*◌, ◌/◌, ◌%◌}
use mathlib.Core.Path.{◌≡◌, refl, ap, ◌∙◌}
use mathlib.Core.Bool.{Bool}
use native.Mathlib.Omega.{arith}
use osfix_operating_system.Base.Tests.{◌==◌, if◌then◌else◌}

-- (x >> b) & 1
unfoldable pub bit_at : (b x : ℕ) → ℕ
bit_at zero x = x % 2
bit_at (suc b) x = bit_at b (x / 2)

-- x | (1 << b), or x & ~(1 << b), digit by digit
unfoldable pub put_bit : (set : Bool) → (b x : ℕ) → ℕ
put_bit set zero x = x / 2 * 2 + (if set then 1 else 0)
put_bit set (suc b) x = x % 2 + put_bit set b (x / 2) * 2

-- After a digit is put, it is read back, and every other digit is as before.
pub bit_at-put_bit :
    (set : Bool) (c b x : ℕ)
    → bit_at c (put_bit set b x) ≡ (if c == b then (if set then 1 else 0) else bit_at c x)
unfolding bit_at put_bit
bit_at-put_bit set zero zero x = ground arith
bit_at-put_bit set zero (suc b) x = ground arith
bit_at-put_bit set (suc c) zero x =
    let half : (x / 2 * 2 + (if set then 1 else 0)) / 2 ≡ x / 2 = ground arith in
    ap (bit_at c) half ∙ ground arith
bit_at-put_bit set (suc c) (suc b) x =
    let half : (x % 2 + put_bit set b (x / 2) * 2) / 2 ≡ put_bit set b (x / 2) = omega arith in
    ap (bit_at c) half ∙ bit_at-put_bit set c b (x / 2) ∙ ground arith

pub bit_at-zero : (b : ℕ) → bit_at b 0 ≡ 0
unfolding bit_at
bit_at-zero zero = refl
bit_at-zero (suc b) = bit_at-zero b
