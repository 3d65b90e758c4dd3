-- ===== src/Pmm.antt =====
-- kernel/main/mm/pmm.c: the physical page allocator, a buddy allocator of blocks of 2^order pages.
-- A free list is the chain of its regions, written as the list of their physical addresses (a
-- region's pointer less hhdm_offset); the bitmap is a function of the bit's index.
pub mod Blocks
pub mod Owners
pub mod Alloc
pub mod Free
pub mod Count
pub mod Init
pub mod Start
pub mod Regions
pub mod Ready
mod Tests
mod StartTests
use osfix_operating_system.Base.{
  ℕ, zero, suc, ◌+◌, ◌-◌, ◌*◌, ◌/◌, ◌%◌, ◌^◌, Bool, true, false, ◌||◌, List, [], ◌∷◌, leb, ltb,
  ◌==◌, if◌then◌else◌, add64, sub64,
}

abbrev pub page_size : ℕ
page_size = 4096

abbrev pub max_order : ℕ
max_order = 11

abbrev pub Bitmap : Type 0
Bitmap = ℕ → Bool

abbrev pub FreeLists : Type 0
FreeLists = ℕ → List ℕ

-- The static variables of pmm.c but hhdm_offset; pmm_bitmap is the bitmap that it points to.
pub record Pmm : Type 0 where
  pub total_pages : ℕ
  pub free_pages : ℕ
  pub bitmap : Bitmap
  pub max_page : ℕ
  pub free_lists : FreeLists

unfoldable pub bitmap_set : ℕ → Bitmap → Bitmap
bitmap_set bit b i = if i == bit then true else b i

unfoldable pub bitmap_clear : ℕ → Bitmap → Bitmap
bitmap_clear bit b i = if i == bit then false else b i

unfoldable pub update_list : FreeLists → ℕ → List ℕ → FreeLists
update_list lists order l i = if i == order then l else lists i

unfoldable pub pmm_list_add : (order phys_addr : ℕ) → FreeLists → FreeLists
unfolding update_list
pmm_list_add order phys_addr lists = update_list lists order (phys_addr ∷ lists order)

-- The first region at the address is unlinked.
unfoldable pub remove_first : ℕ → List ℕ → List ℕ
remove_first a [] = []
remove_first a (curr ∷ next) =
    let later = remove_first a next in if curr == a then next else curr ∷ later

unfoldable pub pmm_list_remove : (order phys_addr : ℕ) → FreeLists → FreeLists
unfolding update_list remove_first
pmm_list_remove order phys_addr lists =
    update_list lists order (remove_first phys_addr (lists order))

unfoldable pub contains : ℕ → List ℕ → Bool
contains a [] = false
contains a (curr ∷ next) = if curr == a then true else contains a next

unfoldable pub pmm_list_contains : (order phys_addr : ℕ) → FreeLists → Bool
unfolding contains
pmm_list_contains order phys_addr lists = contains phys_addr (lists order)

-- for (j = 0; j < n; j++) bitmap_set(page_idx + j)
unfoldable pub set_range : (n page_idx : ℕ) → Bitmap → Bitmap
set_range zero page_idx b = b
set_range (suc n) page_idx b = set_range n (page_idx + 1) (bitmap_set page_idx b)

unfoldable pub clear_range : (n page_idx : ℕ) → Bitmap → Bitmap
clear_range zero page_idx b = b
clear_range (suc n) page_idx b = clear_range n (page_idx + 1) (bitmap_clear page_idx b)

-- while (i > order) { i--; pmm_list_add(i, addr + ((uint64_t)PAGE_SIZE << i)); } from i == order + k
unfoldable pub split_block : (k order addr : ℕ) → FreeLists → FreeLists
split_block zero order addr lists = lists
split_block (suc k) order addr lists =
    split_block k order addr
      (pmm_list_add (order + k) (add64 addr (page_size * 2 ^ (order + k))) lists)

-- The body of palloc_order's loop for a list that is not empty: `i` is order + k.
unfoldable pub take_block : (k order addr : ℕ) → (next : List ℕ) → Pmm → ℕ × Pmm
take_block k order addr next s = (
  addr,
  record s {
    free_lists = split_block k order addr (update_list s.free_lists (order + k) next);
    bitmap = set_range (2 ^ order) (addr / page_size) s.bitmap;
    free_pages = sub64 s.free_pages (2 ^ order);
  },
)

-- The loop from i == order + k on, with `rounds` orders left to try.
unfoldable pub palloc_from : (rounds k order : ℕ) → Pmm → ℕ × Pmm
palloc_from zero k order s = (0, s)
palloc_from (suc rounds) k order s = elim (s.free_lists (order + k)) [
  | [] ↦ palloc_from rounds (suc k) order s
  | addr ∷ next ↦ take_block k order addr next s
]

unfoldable pub palloc_order : ℕ → Pmm → ℕ × Pmm
palloc_order order s = palloc_from (max_order - order) 0 order s

unfoldable pub palloc : Pmm → ℕ × Pmm
palloc s = palloc_order 0 s

-- page_idx ^ (1ULL << order): the bit of weight 2^order is flipped.
unfoldable pub buddy_of : (page_idx order : ℕ) → ℕ
buddy_of page_idx order =
    if (page_idx / 2 ^ order) % 2 == 0 then page_idx + 2 ^ order else page_idx - 2 ^ order

-- What the merging loop of pfree_order works on.
pub record Merge : Type 0 where
  pub order : ℕ
  pub page_idx : ℕ
  pub lists : FreeLists

-- `buddy_idx * PAGE_SIZE` for the buddy of the block
abbrev pub buddy_phys : Merge → ℕ
buddy_phys m = (buddy_of m.page_idx m.order * page_size) % 2 ^ 64

-- The body of the loop once the buddy is known to be free: it leaves its list, and the two make a
-- block of the next order.
abbrev pub join : Merge → Merge
join m = record {
  order = suc m.order;
  page_idx =
      if ltb (buddy_of m.page_idx m.order) m.page_idx
      then buddy_of m.page_idx m.order
      else m.page_idx;
  lists = pmm_list_remove m.order (buddy_phys m) m.lists;
}

-- The loop with `rounds` orders left: it ends at the first buddy that is not a free block.
unfoldable pub merge : (rounds : ℕ) → (max_page : ℕ) → Bitmap → Merge → Merge
merge zero max_page b m = m
merge (suc rounds) max_page b m =
    let buddy_idx = buddy_of m.page_idx m.order in
    let merged = merge rounds max_page b (join m) in
    if leb max_page buddy_idx || b buddy_idx
    then m
    else if pmm_list_contains m.order (buddy_phys m) m.lists
    then merged
    else m

-- Where the block that is freed ends up.
unfoldable pub merge_freed : (phys_addr order : ℕ) → Pmm → Merge
merge_freed phys_addr order s =
    merge (max_order - 1 - order) s.max_page
      (clear_range (2 ^ order) (phys_addr / page_size) s.bitmap)
      (record { order = order; page_idx = phys_addr / page_size; lists = s.free_lists })

unfoldable pub pfree_order : (phys_addr order : ℕ) → Pmm → Pmm
pfree_order phys_addr order s =
    let m = merge_freed phys_addr order s in
    record s {
      bitmap = clear_range (2 ^ order) (phys_addr / page_size) s.bitmap;
      free_lists = pmm_list_add m.order ((m.page_idx * page_size) % 2 ^ 64) m.lists;
      free_pages = add64 s.free_pages (2 ^ m.order);
    }

unfoldable pub pfree : ℕ → Pmm → Pmm
pfree phys_addr s = pfree_order phys_addr 0 s

unfoldable pub pmm_get_total_pages : Pmm → ℕ
pmm_get_total_pages s = s.total_pages

unfoldable pub pmm_get_free_pages : Pmm → ℕ
pmm_get_free_pages s = s.free_pages

unfoldable pub pmm_get_used_pages : Pmm → ℕ
pmm_get_used_pages s = sub64 s.total_pages s.free_pages
