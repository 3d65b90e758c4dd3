-- ===== src/Pmm/Alloc.antt =====
-- kernel/main/mm/pmm.c: what palloc_order does to a sound state.
use osfix_operating_system.Base.{
  ℕ, zero, suc, ◌+◌, ◌-◌, ◌*◌, ◌/◌, ◌^◌, ◌<◌, ◌≤◌, ◌≡◌, ◌⊎◌, refl, true, false, List, [], ◌∷◌, ◌==◌,
  if◌then◌else◌, arith, Bool-cases, inl, inr, subst, List-cases, ==_iff,
}
use osfix_operating_system.Pmm.{
  Pmm, FreeLists, page_size, max_order, add64, sub64, update_list, pmm_list_add, split_block,
  take_block, palloc_from, palloc_order, set_range,
}
use osfix_operating_system.Pmm.Blocks.{
  within, bit, IsBlock, pow2-suc, pow2_pos, pow2-le, set_range_lem, Aligned-lower, Aligned-upper,
}
use osfix_operating_system.Pmm.Owners.{
  count_list, owners, covers, AllBlocks, Listed, IsSound, owners-update, Listed-update,
}

-- The upper half of the block at an address.
abbrev upper : (order addr : ℕ) → ℕ
upper order addr = add64 addr (page_size * 2 ^ order)

upper-page :
    (order addr : ℕ)
    → IsBlock (suc order) addr
    → upper order addr / page_size ≡ addr / page_size + 2 ^ order
upper-page order addr b =
    omega (arith, pow2-suc order, b.address, b.aligned.bounded, pow2_pos order)

upper-IsBlock : (order addr : ℕ) → IsBlock (suc order) addr → IsBlock order (upper order addr)
upper-IsBlock order addr b = record {
  address = omega (arith, pow2-suc order, b.address, b.aligned.bounded, pow2_pos order);
  aligned = rw (upper-page order addr b) (Aligned-upper order (addr / page_size) b.aligned);
}

lower-IsBlock : (order addr : ℕ) → IsBlock (suc order) addr → IsBlock order addr
lower-IsBlock order addr b = record {
  address = b.address;
  aligned = Aligned-lower order (addr / page_size) b.aligned;
}

-- A block added to a list covers its pages.
pub owners-add :
    (i addr : ℕ) (lists : FreeLists) (page : ℕ)
    → i < max_order
    → owners max_order (pmm_list_add i addr lists) page
      ≡ owners max_order lists page + bit (covers i addr page)
unfolding pmm_list_add count_list
owners-add i addr lists page h =
    omega (arith, owners-update max_order i (addr ∷ lists i) lists page h)

pub Listed-add :
    (i addr : ℕ) (lists : FreeLists)
    → IsBlock i addr
    → Listed lists
    → Listed (pmm_list_add i addr lists)
unfolding pmm_list_add
Listed-add i addr lists b h = Listed-update i (addr ∷ lists i) lists h (b, h i)

suc-shift : (order k : ℕ) → order + suc k ≡ suc (order + k)
suc-shift order k = omega arith

split_block-owners :
    (k order addr : ℕ) (lists : FreeLists) (page : ℕ)
    → IsBlock (order + k) addr
    → order + k < max_order
    → owners max_order (split_block k order addr lists) page
      ≡ owners max_order lists page
        + bit (within (addr / page_size + 2 ^ order) (2 ^ (order + k) - 2 ^ order) page)
unfolding split_block
split_block-owners zero order addr lists page b h =
    let e : order + 0 ≡ order = omega arith in rw e (ground arith)
split_block-owners (suc k) order addr lists page b h =
    let b' : IsBlock (suc (order + k)) addr = subst (λ n. IsBlock n addr) (suc-shift order k) b in
    rw (suc-shift order k) (
      ground (
        arith,
        split_block-owners k order addr (pmm_list_add (order + k) (upper (order + k) addr) lists)
            page (lower-IsBlock (order + k) addr b') (omega arith),
        owners-add (order + k) (upper (order + k) addr) lists page (omega arith),
        upper-page (order + k) addr b',
        pow2-suc (order + k),
        pow2-le order k,
      ))

split_block-Listed :
    (k order addr : ℕ) (lists : FreeLists)
    → IsBlock (order + k) addr
    → Listed lists
    → Listed (split_block k order addr lists)
unfolding split_block
split_block-Listed zero order addr lists b h = h
split_block-Listed (suc k) order addr lists b h =
    let b' : IsBlock (suc (order + k)) addr = subst (λ n. IsBlock n addr) (suc-shift order k) b in
    split_block-Listed k order addr (pmm_list_add (order + k) (upper (order + k) addr) lists)
      (lower-IsBlock (order + k) addr b')
      (Listed-add (order + k) (upper (order + k) addr) lists (upper-IsBlock (order + k) addr b') h)

-- The lowest part of a block is a block.
lowest-IsBlock : (k order addr : ℕ) → IsBlock (order + k) addr → IsBlock order addr
lowest-IsBlock zero order addr b =
    let e : order + 0 ≡ order = omega arith in subst (λ n. IsBlock n addr) e b
lowest-IsBlock (suc k) order addr b =
    lowest-IsBlock k order addr
      (lower-IsBlock (order + k) addr (subst (λ n. IsBlock n addr) (suc-shift order k) b))

-- What a successful allocation of 2^order pages at `addr` has done to the state `s`.
pub record Allocated (order addr : ℕ) (s after : Pmm) : Type 0 where
  pub block : IsBlock order addr
  -- none of its pages was in use, and all are now; the other pages are as they were
  pub was_free : (page : ℕ) → covers order addr page ≡ true → s.bitmap page ≡ false
  pub marked :
      (page : ℕ) → after.bitmap page ≡ (if covers order addr page then true else s.bitmap page)
  pub sound : IsSound after
  pub counted : after.free_pages ≡ sub64 s.free_pages (2 ^ order)

-- The list that a block is taken from.
module _ (i addr : ℕ) (next : List ℕ) (lists : FreeLists) (small : i < max_order)
    (e : lists i ≡ addr ∷ next) where
  popped-owners :
      (page : ℕ)
      → owners max_order (update_list lists i next) page + bit (covers i addr page)
        ≡ owners max_order lists page
  unfolding count_list
  popped-owners page =
      let whole : count_list i (lists i) page ≡ bit (covers i addr page) + count_list i next page =
        rw e refl in
      omega (arith, owners-update max_order i next lists page small, whole)

  popped-IsBlock : Listed lists → IsBlock i addr × AllBlocks i next
  popped-IsBlock h = subst (λ l. AllBlocks i l) e (h i)

module _ (k order addr : ℕ) (next : List ℕ) (s : Pmm) (small : order + k < max_order)
    (e : s.free_lists (order + k) ≡ addr ∷ next) (sound : IsSound s) where
  abbrev rest : FreeLists
  rest = update_list s.free_lists (order + k) next

  whole-IsBlock : IsBlock (order + k) addr
  whole-IsBlock = (popped-IsBlock (order + k) addr next s.free_lists small e sound.listed).0

  taken-was_free : (page : ℕ) → covers order addr page ≡ true → s.bitmap page ≡ false
  taken-was_free page c = ground (
    arith,
    popped-owners (order + k) addr next s.free_lists small e page,
    sound.owned page,
    pow2-le order k,
  )

  taken-owned :
      (page : ℕ)
      → owners max_order (split_block k order addr rest) page
          + bit (set_range (2 ^ order) (addr / page_size) s.bitmap page)
        ≡ 1
  taken-owned page = ground (
    arith,
    popped-owners (order + k) addr next s.free_lists small e page,
    split_block-owners k order addr rest page whole-IsBlock small,
    set_range_lem (2 ^ order) (addr / page_size) s.bitmap page,
    sound.owned page,
    pow2-le order k,
  )

  take_block-Allocated : Allocated order addr s (take_block k order addr next s).1
  unfolding take_block
  take_block-Allocated = record {
    block = lowest-IsBlock k order addr whole-IsBlock;
    was_free = taken-was_free;
    marked = set_range_lem (2 ^ order) (addr / page_size) s.bitmap;
    sound = record {
      listed = split_block-Listed k order addr rest whole-IsBlock (
          Listed-update (order + k) next s.free_lists sound.listed
            (popped-IsBlock (order + k) addr next s.free_lists small e sound.listed).1);
      owned = taken-owned;
      addressable = sound.addressable;
    };
    counted = refl;
  }

-- The lists from order + k on are empty.
abbrev pub NoneFree : (k order : ℕ) → Pmm → Type 0
NoneFree k order s = (j : ℕ) → k ≤ j → order + j < max_order → s.free_lists (order + j) ≡ []

NoneFree-cons :
    (k order : ℕ) (s : Pmm)
    → s.free_lists (order + k) ≡ []
    → NoneFree (suc k) order s
    → NoneFree k order s
NoneFree-cons k order s e h j le lt = elim (Bool-cases (k == j)) [
  | inl same ↦ subst (λ i. s.free_lists (order + i) ≡ []) ((==_iff k j).0 same) e
  | inr other ↦ h j (ground arith) lt
]

abbrev pub AllocatedOrNone : (k order : ℕ) → Pmm → ℕ × Pmm → Type 0
AllocatedOrNone k order s r = Allocated order r.0 s r.1 ⊎ ((r ≡ (0, s)) × NoneFree k order s)

palloc_from-Allocated :
    (rounds k order : ℕ) (s : Pmm)
    → order + k + rounds ≡ max_order
    → IsSound s
    → AllocatedOrNone k order s (palloc_from rounds k order s)
unfolding palloc_from
palloc_from-Allocated zero k order s h sound = inr (refl, λ j le lt. absurd (omega arith))
palloc_from-Allocated (suc rounds) k order s h sound =
    elim (List-cases (s.free_lists (order + k))) [
      | inl e ↦
          rw (e, palloc_from)
            (elim (palloc_from-Allocated rounds (suc k) order s (omega arith) sound) [
              | inl a ↦ inl a
              | inr (same, none) ↦ inr (same, NoneFree-cons k order s e none)
            ])
      | inr (addr, next, e) ↦
          rw (e, palloc_from)
            (inl
              (unfold take_block in take_block-Allocated k order addr next s (omega arith) e sound))
    ]

-- On a sound state palloc_order either returns the address of an aligned block of 2^order pages, all
-- of them free before and marked as used after, with the rest of the bitmap unchanged and the state
-- sound again; or no list of that order or a higher one has a block, and it returns 0 and changes
-- nothing.
pub palloc_order-Allocated :
    (order : ℕ) (s : Pmm)
    → order < max_order
    → IsSound s
    → AllocatedOrNone 0 order s (palloc_order order s)
unfolding palloc_order
palloc_order-Allocated order s h sound =
    palloc_from-Allocated (max_order - order) 0 order s (omega arith) sound
