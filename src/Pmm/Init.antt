-- ===== src/Pmm/Init.antt =====
-- kernel/main/mm/pmm.c: pmm_init, on the entries of the boot loader's memory map. The bits of memory
-- behind the bitmap are what `bitmap` held there before.
use osfix_operating_system.Base.{
  ℕ, zero, suc, ◌+◌, ◌-◌, ◌*◌, ◌/◌, ◌%◌, ◌^◌, Bool, true, false, not, ◌||◌, Option, none, some,
  List, [], ◌∷◌, ltb, ◌==◌, if◌then◌else◌, add64,
}
use osfix_operating_system.Pmm.{Pmm, page_size, max_order, clear_range, pmm_list_add}

-- struct limine_memmap_entry
pub record Region : Type 0 where
  pub base : ℕ
  pub length : ℕ
  pub type : ℕ

-- LIMINE_MEMMAP_USABLE
abbrev pub usable : ℕ
usable = 0

abbrev pub is_usable : Region → Bool
is_usable r = r.type == usable

-- ALIGN_UP and ALIGN_DOWN to a page
abbrev pub align_up : ℕ → ℕ
align_up x = add64 x (page_size - 1) / page_size * page_size

abbrev pub align_down : ℕ → ℕ
align_down x = x / page_size * page_size

-- The first loop: the end of the highest entry, or `top`.
unfoldable pub top_addr : List Region → (top : ℕ) → ℕ
top_addr [] top = top
top_addr (r ∷ rs) top =
    let end = add64 r.base r.length in top_addr rs (if ltb top end then end else top)

unfoldable pub bitmap_size : (max_page : ℕ) → ℕ
bitmap_size max_page = align_up (max_page / 8)

-- The loop that takes the bitmap from the first usable entry with room for it. `none` is the halt
-- of the kernel.
unfoldable pub place_bitmap : (size : ℕ) → List Region → Option (List Region)
place_bitmap size [] = none
place_bitmap size (r ∷ rs) = elim (not (is_usable r) || ltb r.length size) [
  | false ↦ some (record r { base = add64 r.base size; length = r.length - size } ∷ rs)
  | true ↦ elim (place_bitmap size rs) [ none ↦ none | some rs' ↦ some (r ∷ rs') ]
]

-- The order of the block at `cur`, from `order` on with `rounds` orders above it.
unfoldable pub order_of : (rounds order cur end : ℕ) → ℕ
order_of zero order cur end = order
order_of (suc rounds) order cur end =
    let size = page_size * 2 ^ (order + 1) in
    let larger = order_of rounds (order + 1) cur end in
    if ltb end (add64 cur size) || not (cur % size == 0) then order else larger

unfoldable pub add_block : (order cur : ℕ) → Pmm → Pmm
add_block order cur s = record s {
  bitmap = clear_range (2 ^ order) (cur / page_size) s.bitmap;
  free_lists = pmm_list_add order cur s.free_lists;
  total_pages = add64 s.total_pages (2 ^ order);
  free_pages = add64 s.free_pages (2 ^ order);
}

-- The loop over the pages of an entry; `none` is the end of the fuel.
unfoldable pub add_blocks : (fuel cur end : ℕ) → Pmm → Option Pmm
add_blocks zero cur end s = none
add_blocks (suc fuel) cur end s = elim (ltb cur end) [
  | false ↦ some s
  | true ↦
      let order = order_of (max_order - 1) 0 cur end in
      add_blocks fuel (add64 cur (page_size * 2 ^ order)) end (add_block order cur s)
]

unfoldable pub add_region : Region → Pmm → Option Pmm
add_region r s =
    let end = align_down (add64 r.base r.length) in
    if is_usable r then add_blocks (end / page_size + 1) (align_up r.base) end s else some s

unfoldable pub add_regions : List Region → Pmm → Option Pmm
add_regions [] s = some s
add_regions (r ∷ rs) s = elim (add_region r s) [ none ↦ none | some s' ↦ add_regions rs s' ]

-- The state before the last loop, for a bitmap that is placed.
unfoldable pub all_used : (max_page : ℕ) → Pmm → Pmm
all_used max_page s = record s {
  max_page = max_page;
  bitmap = λ i. if ltb i (8 * bitmap_size max_page) then true else s.bitmap i;
  free_lists = λ order. [];
}

unfoldable pub pmm_init : List Region → Pmm → Option Pmm
pmm_init memmap s =
    let max_page = top_addr memmap 0 / page_size in
    elim (place_bitmap (bitmap_size max_page) memmap) [
      | none ↦ none
      | some memmap' ↦ add_regions memmap' (all_used max_page s)
    ]
