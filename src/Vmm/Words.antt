-- ===== src/Vmm/Words.antt =====
-- The words of kernel/main/mm/vmm.c: what `|` does to the fields of an entry, and what a store to
-- memory leaves.
use Prim.Native.Nat.{bit_or}
use osfix_operating_system.Base.{
  bit_or-lowest, ℕ, zero, suc, ◌+◌, ◌/◌, ◌%◌, ◌≤◌, ◌<◌, ◌≡◌, ◌≢◌, refl, sym, ap, ap₂, ◌∙◌, max,
  arith, ◌⊎◌,
}
use osfix_operating_system.Pmm.{page_size}
use osfix_operating_system.Vmm.{
  pte_present, pte_writable, present, huge, page_of, addr_of, slot, store, clear_page, child_entry,
  leaf_entry,
}

bit_or-half : (a b : ℕ) → bit_or a b / 2 ≡ bit_or (a / 2) (b / 2)
bit_or-half a b = omega (arith, bit_or-lowest a b)

pub bit_or-parity : (a b : ℕ) → bit_or a b % 2 ≡ max (a % 2) (b % 2)
bit_or-parity a b = omega (arith, bit_or-lowest a b)

-- k times a half
abbrev halves : ℕ → ℕ → ℕ
halves zero a = a
halves (suc k) a = halves k (a / 2)

bit_or-halves : (k a b : ℕ) → halves k (bit_or a b) ≡ bit_or (halves k a) (halves k b)
bit_or-halves zero a b = refl
bit_or-halves (suc k) a b = ap (halves k) (bit_or-half a b) ∙ bit_or-halves k (a / 2) (b / 2)

bit_or-zero_below : (n a : ℕ) → a ≤ n → bit_or a 0 ≡ a
bit_or-zero_below n zero h = refl
bit_or-zero_below zero (suc a) h = absurd (omega arith)
bit_or-zero_below (suc n) (suc a) h =
    omega (arith, bit_or-lowest (suc a) 0, bit_or-zero_below n (suc a / 2) (omega arith))

halves_7 : (a : ℕ) → halves 7 a ≡ a / 128
halves_7 a = omega arith

halves_12 : (a : ℕ) → halves 12 a ≡ a / 4096
halves_12 a = omega arith

bit_or-div_128 : (a b : ℕ) → bit_or a b / 128 ≡ bit_or (a / 128) (b / 128)
bit_or-div_128 a b =
    sym (halves_7 (bit_or a b)) ∙ (bit_or-halves 7 a b ∙ ap₂ bit_or (halves_7 a) (halves_7 b))

-- Bits below 4096 leave the page alone.
pub bit_or-page : (a b : ℕ) → b < 4096 → bit_or a b / 4096 ≡ a / 4096
bit_or-page a b h =
    let e : b / 4096 ≡ 0 = omega arith in
    sym (halves_12 (bit_or a b))
    ∙ (bit_or-halves 12 a b
        ∙ (ap₂ bit_or (halves_12 a) (halves_12 b ∙ e)
            ∙ bit_or-zero_below (a / 4096) (a / 4096) (omega arith)))

-- Bits below 128 leave PTE_PS alone.
pub bit_or-huge : (a b : ℕ) → b < 128 → huge (bit_or a b) ≡ huge a
bit_or-huge a b h =
    let e : b / 128 ≡ 0 = omega arith in
    ap (λ x. x % 2)
      (bit_or-div_128 a b
        ∙ (ap (bit_or (a / 128)) e ∙ bit_or-zero_below (a / 128) (a / 128) (omega arith)))

-- An entry that was just made is present, no huge page, and leads to its table.
pub child_entry_lem :
    (child user_bit : ℕ)
    → child % 4096 ≡ 0
    → user_bit < 128
    → (present (child_entry child user_bit) ≡ 1)
      × (huge (child_entry child user_bit) ≡ 0)
      × (page_of (child_entry child user_bit) ≡ child)
child_entry_lem child u aligned small =
    let x = bit_or (page_of child) pte_present in
    let y = bit_or x pte_writable in
    let e0 : page_of child ≡ child = omega arith in
    (
      omega (
        arith,
        bit_or-parity (page_of child) pte_present,
        bit_or-parity x pte_writable,
        bit_or-parity y u,
      ),
      omega (
        arith,
        bit_or-huge (page_of child) pte_present (omega arith),
        bit_or-huge x pte_writable (omega arith),
        bit_or-huge y u small,
      ),
      omega (
        arith,
        bit_or-page (page_of child) pte_present (omega arith),
        bit_or-page x pte_writable (omega arith),
        bit_or-page y u (omega arith),
      ),
    )

-- The entry of a page is present and has the page's address.
pub leaf_entry_lem :
    (phys flags : ℕ)
    → flags < 4096
    → (present (leaf_entry phys flags) ≡ 1) × (addr_of (leaf_entry phys flags) ≡ addr_of phys)
leaf_entry_lem phys flags small =
    let x = bit_or (page_of phys) flags in
    (
      omega (arith, bit_or-parity x pte_present),
      omega
          (arith, bit_or-page (page_of phys) flags small, bit_or-page x pte_present (omega arith)),
    )

-- Two pages of memory that do not overlap.
abbrev pub Apart : ℕ → ℕ → Type 0
Apart p q = (p + page_size ≤ q) ⊎ (q + page_size ≤ p)

pub store-same : (a w : ℕ) (words : ℕ → ℕ) → store a w words a ≡ w
unfolding store
store-same a w words = ground arith

pub store-other : (a w : ℕ) (words : ℕ → ℕ) (b : ℕ) → b ≢ a → store a w words b ≡ words b
unfolding store
store-other a w words b ne = ground arith

pub clear_page-Apart :
    (page : ℕ) (words : ℕ → ℕ) (p i : ℕ)
    → Apart p page
    → i < 512
    → clear_page page words (slot p i) ≡ words (slot p i)
unfolding clear_page
clear_page-Apart page words p i ap lt = ground arith

pub slot-Apart : (p q i j : ℕ) → Apart p q → i < 512 → j < 512 → slot p i ≢ slot q j
slot-Apart p q i j ap lt lt' e = ground arith
