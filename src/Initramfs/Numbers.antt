-- ===== src/Initramfs/Numbers.antt =====
-- kernel/main/fsm/initramfs/initramfs-unpacker.c: the eight hexadecimal digits of a header's field,
-- and the alignment of addresses.
use osfix_operating_system.Base.{
  ℕ, zero, suc, ◌+◌, ◌-◌, ◌*◌, ◌/◌, ◌%◌, ◌^◌, ◌≤◌, ◌<◌, ◌≡◌, refl, List, [], ◌∷◌, ◌++◌, ltb,
  if◌then◌else◌, arith,
}
use osfix_operating_system.Text.{CString, first, rest}
use osfix_operating_system.Initramfs.{hex_digit, hex_from, hex8_to_u32, align4}

-- How a number below 16 and a 32-bit number are written.
abbrev pub digit : ℕ → ℕ
digit d = if ltb d 10 then b'0' + d else b'a' + (d - 10)

abbrev pub hex8 : ℕ → List ℕ
hex8 n =
    digit (n / 0x10000000 % 16)
    ∷ digit (n / 0x1000000 % 16)
    ∷ digit (n / 0x100000 % 16)
    ∷ digit (n / 0x10000 % 16)
    ∷ digit (n / 0x1000 % 16)
    ∷ digit (n / 0x100 % 16)
    ∷ digit (n / 0x10 % 16)
    ∷ digit (n % 16)
    ∷ []

hex_digit-digit : (d v : ℕ) → d < 16 → hex_digit (digit d) v ≡ v + d
unfolding hex_digit
hex_digit-digit d v h = ground arith

hex_step : (a b : ℕ) → b / 16 ≡ a → b < 2 ^ 32 → hex_digit (digit (b % 16)) ((a * 16) % 2 ^ 32) ≡ b
hex_step a b h lt = omega (arith, hex_digit-digit (b % 16) ((a * 16) % 2 ^ 32) (omega arith))

-- hex8_to_u32 reads a number back from its eight digits.
pub hex8_to_u32-hex8 : (n : ℕ) (s : CString) → n < 2 ^ 32 → hex8_to_u32 (hex8 n ++ s) ≡ n
unfolding hex8_to_u32 hex_from
hex8_to_u32-hex8 n s lt =
    rw
      (
        hex_step 0 (n / 0x10000000) (omega arith) (omega arith),
        hex_step (n / 0x10000000) (n / 0x1000000) (omega arith) (omega arith),
        hex_step (n / 0x1000000) (n / 0x100000) (omega arith) (omega arith),
        hex_step (n / 0x100000) (n / 0x10000) (omega arith) (omega arith),
        hex_step (n / 0x10000) (n / 0x1000) (omega arith) (omega arith),
        hex_step (n / 0x1000) (n / 0x100) (omega arith) (omega arith),
        hex_step (n / 0x100) (n / 0x10) (omega arith) (omega arith),
        hex_step (n / 0x10) n (omega arith) (omega arith),
      )
      refl

hex_digit_lt : (c v : ℕ) → hex_digit c ((v * 16) % 2 ^ 32) < 2 ^ 32
unfolding hex_digit
hex_digit_lt c v = ground arith

hex_from_lt : (rounds : ℕ) (s : CString) (v : ℕ) → v < 2 ^ 32 → hex_from rounds s v < 2 ^ 32
unfolding hex_from
hex_from_lt zero s v lt = lt
hex_from_lt (suc rounds) s v lt = hex_from_lt rounds (rest s) _ (hex_digit_lt (first s) v)

pub hex8_to_u32_lt : (s : CString) → hex8_to_u32 s < 2 ^ 32
unfolding hex8_to_u32
hex8_to_u32_lt s = hex_from_lt 8 s 0 (omega arith)

-- align4 gives the least multiple of 4 that is not below its argument.
pub align4_lem : (p : ℕ) → p + 3 < 2 ^ 64 → (p ≤ align4 p) × (align4 p < p + 4) × (align4 p % 4 ≡ 0)
unfolding align4
align4_lem p h = (omega arith, omega arith, omega arith)
