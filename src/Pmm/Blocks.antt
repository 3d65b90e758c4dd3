-- ===== src/Pmm/Blocks.antt =====
-- Blocks of pages of kernel/main/mm/pmm.c: the pages that a block covers, and the bitmap's ranges.
use native.Mathlib.Nat.{two-pow-succ, mul-div_left}
use osfix_operating_system.Base.{
  ℕ, zero, suc, ◌+◌, ◌-◌, ◌*◌, ◌/◌, ◌%◌, ◌^◌, ◌<◌, ◌≤◌, ◌≡◌, ◌⊎◌, inl, inr, refl, ap, ◌∙◌, Bool,
  true, false, ◌&&◌, leb, ltb, ◌==◌, if◌then◌else◌, arith, Bool-cases,
}
use osfix_operating_system.Pmm.{
  Bitmap, page_size, bitmap_set, bitmap_clear, set_range, clear_range, buddy_of,
}

-- The page lies among the `n` pages from `idx` on.
abbrev pub within : (idx n page : ℕ) → Bool
within idx n page = leb idx page && ltb page (idx + n)

abbrev pub bit : Bool → ℕ
bit true = 1
bit false = 0

-- The block of 2^order pages at page `idx` starts at a multiple of its size, and its last byte has
-- a 64-bit address.
pub record Aligned (order idx : ℕ) : Type 0 where
  pub quotient : ℕ
  pub multiple : idx ≡ quotient * 2 ^ order
  pub bounded : idx + 2 ^ order ≤ 2 ^ 52

-- The address is that of an aligned block.
pub record IsBlock (order addr : ℕ) : Type 0 where
  pub address : addr ≡ addr / page_size * page_size
  pub aligned : Aligned order (addr / page_size)

pub pow2-suc : (n : ℕ) → 2 ^ suc n ≡ 2 ^ n + 2 ^ n
pow2-suc n = two-pow-succ n

pub pow2_pos : (n : ℕ) → 0 < 2 ^ n
pow2_pos zero = omega arith
pow2_pos (suc n) = omega (arith, pow2-suc n, pow2_pos n)

pub pow2-le : (n k : ℕ) → 2 ^ n ≤ 2 ^ (n + k)
pow2-le n zero = let e : n + 0 ≡ n = omega arith in rw e (omega arith)
pow2-le n (suc k) =
    let e : n + suc k ≡ suc (n + k) = omega arith in
    rw e (omega (arith, pow2-suc (n + k), pow2-le n k))

pub set_range_lem :
    (n idx : ℕ) (b : Bitmap) (p : ℕ) → set_range n idx b p ≡ (if within idx n p then true else b p)
unfolding set_range bitmap_set
set_range_lem zero idx b p = ground arith
set_range_lem (suc n) idx b p = ground (arith, set_range_lem n (idx + 1) (bitmap_set idx b) p)

pub clear_range_lem :
    (n idx : ℕ) (b : Bitmap) (p : ℕ)
    → clear_range n idx b p ≡ (if within idx n p then false else b p)
unfolding clear_range bitmap_clear
clear_range_lem zero idx b p = ground arith
clear_range_lem (suc n) idx b p = ground (arith, clear_range_lem n (idx + 1) (bitmap_clear idx b) p)

-- The upper half of an aligned block is aligned, and so is the lower half.
pub Aligned-lower : (order idx : ℕ) → Aligned (suc order) idx → Aligned order idx
Aligned-lower order idx a = record {
  quotient = a.quotient * 2;
  multiple = omega (arith, a.multiple, ap (λ (t : ℕ). a.quotient * t) (pow2-suc order));
  bounded = omega (arith, a.bounded, pow2-suc order);
}

pub Aligned-upper : (order idx : ℕ) → Aligned (suc order) idx → Aligned order (idx + 2 ^ order)
Aligned-upper order idx a = record {
  quotient = a.quotient * 2 + 1;
  multiple = omega (arith, a.multiple, ap (λ (t : ℕ). a.quotient * t) (pow2-suc order));
  bounded = omega (arith, a.bounded, pow2-suc order);
}

-- A block and its buddy are the two halves of a block of the next order.
pub record Halves (order idx buddy : ℕ) : Type 0 where
  pub lower : ℕ
  pub aligned : Aligned (suc order) lower
  pub sides :
      ((idx ≡ lower) × (buddy ≡ lower + 2 ^ order)) ⊎ ((buddy ≡ lower) × (idx ≡ lower + 2 ^ order))

-- The quotient of a block by its size, split by its parity.
module _ (order idx : ℕ) (a : Aligned order idx) where
  quotient_lem : idx / 2 ^ order ≡ a.quotient
  quotient_lem = ap (λ t. t / 2 ^ order) a.multiple ∙ mul-div_left a.quotient (pow2_pos order)

  even_half : a.quotient % 2 ≡ 0 → idx ≡ a.quotient / 2 * 2 ^ suc order
  even_half e = omega (
    arith,
    a.multiple,
    ap (λ (t : ℕ). t * 2 ^ order) (twice e),
    ap (λ (t : ℕ). a.quotient / 2 * t) (pow2-suc order),
  )
    where
      twice : a.quotient % 2 ≡ 0 → a.quotient ≡ a.quotient / 2 * 2
      twice h = omega arith

  odd_half : a.quotient % 2 ≡ 1 → idx ≡ a.quotient / 2 * 2 ^ suc order + 2 ^ order
  odd_half e = omega (
    arith,
    a.multiple,
    ap (λ (t : ℕ). t * 2 ^ order) (twice e),
    ap (λ (t : ℕ). a.quotient / 2 * t) (pow2-suc order),
  )
    where
      twice : a.quotient % 2 ≡ 1 → a.quotient ≡ a.quotient / 2 * 2 + 1
      twice h = omega arith

pub buddy_of-Halves :
    (order idx : ℕ)
    → Aligned order idx
    → buddy_of idx order + 2 ^ order ≤ 2 ^ 52
    → Halves order idx (buddy_of idx order)
unfolding buddy_of
buddy_of-Halves order idx a h = elim (Bool-cases ((idx / 2 ^ order) % 2 == 0)) [
  | inl even ↦
      let e : a.quotient % 2 ≡ 0 = ground (arith, quotient_lem order idx a) in
      record {
        lower = idx;
        aligned = record {
          quotient = a.quotient / 2;
          multiple = even_half order idx a e;
          bounded = ground (arith, pow2-suc order);
        };
        sides = inl (refl, ground arith);
      }
  | inr odd ↦
      let e : a.quotient % 2 ≡ 1 = ground (arith, quotient_lem order idx a) in
      let half : idx ≡ a.quotient / 2 * 2 ^ suc order + 2 ^ order = odd_half order idx a e in
      record {
        lower = idx - 2 ^ order;
        aligned = record {
          quotient = a.quotient / 2;
          multiple = omega arith;
          bounded = omega (arith, pow2-suc order, a.bounded);
        };
        sides = inr (ground arith, omega arith);
      }
]
