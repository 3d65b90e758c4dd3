-- ===== src/Pmm/Count.antt =====
-- kernel/main/mm/pmm.c: pmm_free_pages against the pages of the free lists.
use osfix_operating_system.Base.{
  ℕ, zero, suc, ◌+◌, ◌-◌, ◌*◌, ◌/◌, ◌%◌, ◌^◌, ◌<◌, ◌≤◌, ◌≡◌, refl, ap, true, false, List, ◌∷◌, ◌==◌,
  arith, Bool-cases, inl, inr, length, List-cases,
}
use osfix_operating_system.Pmm.{
  Pmm, Bitmap, FreeLists, Merge, page_size, max_order, add64, update_list, pmm_list_add,
  pmm_list_contains, split_block, take_block, palloc_from, palloc_order, buddy_of, join, merge,
  merge_freed, pfree_order, clear_range,
}
use osfix_operating_system.Pmm.Blocks.{pow2-suc, pow2-le}

-- The pages of the blocks in the lists of the orders below `n`.
unfoldable pub listed_pages : (n : ℕ) → FreeLists → ℕ
listed_pages zero lists = 0
listed_pages (suc n) lists = length (lists n) * 2 ^ n + listed_pages n lists

-- The counter of free pages is right, and does not wrap.
pub record IsCounted (s : Pmm) : Type 0 where
  pub right : s.free_pages ≡ listed_pages max_order s.free_lists
  pub small : s.free_pages < 2 ^ 64

listed_pages-update_above :
    (n i : ℕ) (l : List ℕ) (lists : FreeLists)
    → n ≤ i
    → listed_pages n (update_list lists i l) ≡ listed_pages n lists
unfolding listed_pages update_list
listed_pages-update_above zero i l lists h = refl
listed_pages-update_above (suc n) i l lists h =
    ground (arith, listed_pages-update_above n i l lists)

listed_pages-update :
    (n i : ℕ) (l : List ℕ) (lists : FreeLists)
    → i < n
    → listed_pages n (update_list lists i l) + length (lists i) * 2 ^ i
      ≡ listed_pages n lists + length l * 2 ^ i
unfolding listed_pages update_list
listed_pages-update zero i l lists h = absurd (omega arith)
listed_pages-update (suc n) i l lists h = elim (Bool-cases (n == i)) [
  | inl hit ↦ ground (arith, listed_pages-update_above n i l lists)
  | inr miss ↦ ground (arith, listed_pages-update n i l lists)
]

listed_pages-add :
    (i addr : ℕ) (lists : FreeLists)
    → i < max_order
    → listed_pages max_order (pmm_list_add i addr lists) ≡ listed_pages max_order lists + 2 ^ i
unfolding pmm_list_add
listed_pages-add i addr lists h =
    omega (arith, listed_pages-update max_order i (addr ∷ lists i) lists h)

split_block-listed_pages :
    (k order addr : ℕ) (lists : FreeLists)
    → order + k < max_order
    → listed_pages max_order (split_block k order addr lists) + 2 ^ order
      ≡ listed_pages max_order lists + 2 ^ (order + k)
unfolding split_block
split_block-listed_pages zero order addr lists h =
    let e : order + 0 ≡ order = omega arith in rw e refl
split_block-listed_pages (suc k) order addr lists h =
    let e : order + suc k ≡ suc (order + k) = omega arith in
    rw e (
      omega (
        arith,
        split_block-listed_pages k order addr
            (pmm_list_add (order + k) (add64 addr (page_size * 2 ^ (order + k))) lists)
            (omega arith),
        listed_pages-add (order + k) (add64 addr (page_size * 2 ^ (order + k))) lists (omega arith),
        pow2-suc (order + k),
      ))

take_block-IsCounted :
    (k order addr : ℕ) (next : List ℕ) (s : Pmm)
    → order + k < max_order
    → s.free_lists (order + k) ≡ addr ∷ next
    → IsCounted s
    → IsCounted (take_block k order addr next s).1
unfolding take_block
take_block-IsCounted k order addr next s h e c =
    let long : length (s.free_lists (order + k)) ≡ suc (length next) = rw e refl in
    let split =
      split_block-listed_pages k order addr (update_list s.free_lists (order + k) next) h in
    let update = listed_pages-update max_order (order + k) next s.free_lists h in
    let power : length (s.free_lists (order + k)) * 2 ^ (order + k)
        ≡ suc (length next) * 2 ^ (order + k) =
      ap (λ (t : ℕ). t * 2 ^ (order + k)) long in
    record {
      right = omega (arith, split, update, power, c.right, c.small, pow2-le order k);
      small = omega arith;
    }

palloc_from-IsCounted :
    (rounds k order : ℕ) (s : Pmm)
    → order + k + rounds ≡ max_order
    → IsCounted s
    → IsCounted (palloc_from rounds k order s).1
unfolding palloc_from
palloc_from-IsCounted zero k order s h c = c
palloc_from-IsCounted (suc rounds) k order s h c = elim (List-cases (s.free_lists (order + k))) [
  | inl e ↦ rw (e, palloc_from) (palloc_from-IsCounted rounds (suc k) order s (omega arith) c)
  | inr (addr, next, e) ↦
      rw (e, palloc_from) (take_block-IsCounted k order addr next s (omega arith) e c)
]

-- If pmm_free_pages is the number of pages in the free lists, it is so after palloc_order.
pub palloc_order-IsCounted :
    (order : ℕ) (s : Pmm) → order < max_order → IsCounted s → IsCounted (palloc_order order s).1
unfolding palloc_order
palloc_order-IsCounted order s h c =
    palloc_from-IsCounted (max_order - order) 0 order s (omega arith) c

merge-order_bounds :
    (rounds max_page : ℕ) (b : Bitmap) (m : Merge)
    → (m.order ≤ (merge rounds max_page b m).order)
      × ((merge rounds max_page b m).order ≤ m.order + rounds)
unfolding merge
merge-order_bounds zero max_page b m = omega arith
merge-order_bounds (suc rounds) max_page b m =
    ground (arith, merge-order_bounds rounds max_page b (join m))

-- The buddy of the block that is freed is free, and in the list of its order.
pub record BuddyFree (order addr : ℕ) (s : Pmm) : Type 0 where
  pub inside : buddy_of (addr / page_size) order < s.max_page
  pub unmarked :
      clear_range (2 ^ order) (addr / page_size) s.bitmap (buddy_of (addr / page_size) order)
      ≡ false
  pub listed :
      pmm_list_contains order
        ((buddy_of (addr / page_size) order * page_size) % 2 ^ 64)
        s.free_lists
      ≡ true

-- The order of the block that is put back, if the freed block's buddy is free.
merge_freed-order :
    (order addr : ℕ) (s : Pmm)
    → suc order < max_order
    → BuddyFree order addr s
    → (suc order ≤ (merge_freed addr order s).order)
      × ((merge_freed addr order s).order < max_order)
unfolding merge_freed
merge_freed-order order addr s h free =
    let e : max_order - 1 - order ≡ suc (max_order - 2 - order) = omega arith in
    rw e (
      unfold merge in
      ground (
        arith,
        free.inside,
        free.unmarked,
        free.listed,
        merge-order_bounds (max_order - 2 - order) s.max_page
            (clear_range (2 ^ order) (addr / page_size) s.bitmap)
            (join (record { order = order; page_idx = addr / page_size; lists = s.free_lists })),
      ))

-- When pfree_order merges the freed block with its buddy, it adds the pages of the merged block to
-- pmm_free_pages, although the buddy's pages are counted there already: the counter grows by at
-- least twice the pages that were freed.
pub pfree_order-overcounts :
    (order addr : ℕ) (s : Pmm)
    → suc order < max_order
    → BuddyFree order addr s
    → s.free_pages < 2 ^ 63
    → s.free_pages + 2 * 2 ^ order ≤ (pfree_order addr order s).free_pages
unfolding pfree_order
pfree_order-overcounts order addr s h free small =
    let (low, high) = merge_freed-order order addr s h free in
    let last = (merge_freed addr order s).order in
    let up : suc order + (last - suc order) ≡ last = omega arith in
    let top : last + (10 - last) ≡ 10 = omega arith in
    omega (
      arith,
      pow2-suc order,
      rw up at (pow2-le (suc order) (last - suc order)),
      rw top at (pow2-le last (10 - last)),
    )
