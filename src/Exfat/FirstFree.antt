-- ===== src/Exfat/FirstFree.antt =====
-- fs/exfat/exfat.c: the lowest clear bit, as the loops of exfat_allocate_cluster find it.
use native.Mathlib.Numerals.{unary_clauses}
use native.Mathlib.Nat.{pow-le-pow_right}
use osfix_operating_system.Base.{
  ◌⊎◌, subst, ℕ, zero, suc, ◌+◌, ◌-◌, ◌*◌, ◌/◌, ◌%◌, ◌^◌, ◌≤◌, ◌<◌, ◌≡◌, ◌≢◌, refl, ap, sym, ◌∙◌,
  none, some, ◌==◌, arith, Bool-cases, inl, inr, ==_iff, bit_at,
}
use osfix_operating_system.Memory.{Memory}
use osfix_operating_system.Exfat.Allocate.{first_clear, first_free}

-- The bit of number `n` of a buffer.
abbrev pub bit_of : (n : ℕ) → Memory → ℕ
bit_of n buf = bit_at (n % 8) (buf (n / 8))

at_or_past : (i j : ℕ) → i ≤ j → (j ≡ i) ⊎ (i + 1 ≤ j)
at_or_past i j le = ground arith

-- The lowest clear bit of those from `bit` on.
record IsVacantBit (rounds bit byte : ℕ) : Type 0 where
  at : ℕ
  returns : first_clear rounds bit byte ≡ some at
  before : at < bit + rounds
  clear : bit_at at byte ≡ 0
  lowest : (b : ℕ) → bit ≤ b → b < at → bit_at b byte ≢ 0

-- All the bits from `bit` on are set.
record IsFull (rounds bit byte : ℕ) : Type 0 where
  returns : first_clear rounds bit byte ≡ none
  full : (b : ℕ) → bit ≤ b → b < bit + rounds → bit_at b byte ≢ 0

first_clear-cases : (rounds bit byte : ℕ) → IsFull rounds bit byte ⊎ IsVacantBit rounds bit byte
unfolding first_clear
first_clear-cases zero bit byte =
    inl (record { returns = refl; full = λ b low high. absurd (omega arith) })
first_clear-cases (suc rounds) bit byte = elim (Bool-cases (bit_at bit byte == 0)) [
  | inl hit ↦ inr (record {
    at = bit;
    returns = rw hit refl;
    before = omega arith;
    clear = (==_iff (bit_at bit byte) 0).0 hit;
    lowest = λ b low high e. omega arith;
  })
  | inr miss ↦
      let set : bit_at bit byte ≢ 0 = λ e. ground (arith, miss, e) in
      elim (first_clear-cases rounds (bit + 1) byte) [
        | inl later ↦ inl (record {
          returns = rw miss later.returns;
          full = λ b low high. elim (at_or_past bit b low) [
            | inl same ↦ subst (λ k. bit_at k byte ≢ 0) (sym same) set
            | inr past ↦ later.full b past (omega arith)
          ];
        })
        | inr later ↦ inr (record {
          at = later.at;
          returns = rw miss later.returns;
          before = omega (arith, later.before);
          clear = later.clear;
          lowest = λ b low high. elim (at_or_past bit b low) [
            | inl same ↦ subst (λ k. bit_at k byte ≢ 0) (sym same) set
            | inr past ↦ later.lowest b past high
          ];
        })
      ]
]

pow-positive : (n : ℕ) → 0 < 2 ^ n
pow-positive n =
    let from_one : 2 ^ 0 ≤ 2 ^ n = pow-le-pow_right (omega arith) {i = 0} (omega arith) in
    omega (arith, from_one)

-- The digits of a number that is all ones.
bit_at-ones : (n b : ℕ) → b < n → bit_at b (2 ^ n - 1) ≡ 1
unfolding bit_at
bit_at-ones zero b below = absurd (omega arith)
bit_at-ones (suc n) zero below =
    let twice : 2 ^ suc n ≡ 2 * 2 ^ n = simp unary_clauses (omega arith) in
    omega (arith, twice, pow-positive n)
bit_at-ones (suc n) (suc b) below =
    let twice : 2 ^ suc n ≡ 2 * 2 ^ n = simp unary_clauses (omega arith) in
    let half : (2 ^ suc n - 1) / 2 ≡ 2 ^ n - 1 = omega (arith, twice, pow-positive n) in
    ap (bit_at b) half ∙ bit_at-ones n b (omega arith)

bit_at-full : (b : ℕ) → b < 8 → bit_at b 255 ≢ 0
bit_at-full b below e = omega (arith, bit_at-ones 8 b below, e)

-- The lowest clear bit of the bytes from the one of number `i` on.
pub record IsVacant (rounds i : ℕ) (buf : Memory) : Type 0 where
  pub at : ℕ
  pub bit : ℕ
  pub returns : first_free rounds i buf ≡ some (at, bit)
  pub before : at < i + rounds
  pub bit_before : bit < 8
  pub clear : bit_at bit (buf at) ≡ 0
  pub lowest : (j b : ℕ) → i ≤ j → j < at → b < 8 → bit_at b (buf j) ≢ 0
  pub lowest_bit : (b : ℕ) → b < bit → bit_at b (buf at) ≢ 0

-- All the bits of the bytes from the one of number `i` on are set.
pub record IsUsed (rounds i : ℕ) (buf : Memory) : Type 0 where
  pub returns : first_free rounds i buf ≡ none
  pub used : (j b : ℕ) → i ≤ j → j < i + rounds → b < 8 → bit_at b (buf j) ≢ 0

-- A byte whose bits are all set is passed.
module _ (rounds i : ℕ) (buf : Memory) (set : (b : ℕ) → b < 8 → bit_at b (buf i) ≢ 0)
    (passes : first_free (suc rounds) i buf ≡ first_free rounds (i + 1) buf) where
  used_here :
      (at : ℕ)
      → ((j b : ℕ) → i + 1 ≤ j → j < at → b < 8 → bit_at b (buf j) ≢ 0)
      → (j b : ℕ) → i ≤ j
      → j < at
      → b < 8
      → bit_at b (buf j) ≢ 0
  used_here at later j b low high below = elim (at_or_past i j low) [
    | inl same ↦ subst (λ k. bit_at b (buf k) ≢ 0) (sym same) (set b below)
    | inr past ↦ later j b past high below
  ]

  passed :
      IsUsed rounds (i + 1) buf ⊎ IsVacant rounds (i + 1) buf
      → IsUsed (suc rounds) i buf ⊎ IsVacant (suc rounds) i buf
  passed (inl later) = inl (record {
    returns = passes ∙ later.returns;
    used = λ j b low high below.
        used_here (i + suc rounds) (λ j b low high. later.used j b low (omega arith)) j b low high
          below;
  })
  passed (inr later) = inr (record {
    at = later.at;
    bit = later.bit;
    returns = passes ∙ later.returns;
    before = omega (arith, later.before);
    bit_before = later.bit_before;
    clear = later.clear;
    lowest = used_here later.at later.lowest;
    lowest_bit = later.lowest_bit;
  })

pub first_free-cases : (rounds i : ℕ) (buf : Memory) → IsUsed rounds i buf ⊎ IsVacant rounds i buf
unfolding first_free
first_free-cases zero i buf =
    inl (record { returns = refl; used = λ j b low high below. absurd (omega arith) })
first_free-cases (suc rounds) i buf =
    let later = first_free-cases rounds (i + 1) buf in
    elim (Bool-cases (buf i == 255)) [
      | inl full ↦
          let all : buf i ≡ 255 = (==_iff (buf i) 255).0 full in
          passed rounds i buf
            (λ b below. subst (λ x. bit_at b x ≢ 0) (sym all) (bit_at-full b below)) (rw full refl)
            later
      | inr partly ↦ elim (first_clear-cases 8 0 (buf i)) [
        | inl set ↦
            passed rounds i buf (λ b below. set.full b (omega arith) below)
              (rw (partly, first_free, set.returns) refl) later
        | inr first ↦ inr (record {
          at = i;
          bit = first.at;
          returns = rw (partly, first_free, first.returns) refl;
          before = omega arith;
          bit_before = first.before;
          clear = first.clear;
          lowest = λ j b low high below. absurd (omega arith);
          lowest_bit = λ b below. first.lowest b (omega arith) below;
        })
      ]
    ]

pub lowest-bit_of :
    (rounds n : ℕ) (buf : Memory) (free : IsVacant rounds 0 buf)
    → n < free.at * 8 + free.bit
    → bit_of n buf ≢ 0
lowest-bit_of rounds n buf free below =
    let small : n % 8 < 8 = omega arith in
    elim (at_or_past (n / 8) free.at (omega (arith, free.bit_before))) [
      | inl same ↦
          let byte : buf (n / 8) ≡ buf free.at = ap buf (sym same) in
          subst (λ x. bit_at (n % 8) x ≢ 0) (sym byte)
            (free.lowest_bit (n % 8) (omega (arith, same)))
      | inr before ↦ free.lowest (n / 8) (n % 8) (omega arith) (omega (arith, before)) small
    ]
