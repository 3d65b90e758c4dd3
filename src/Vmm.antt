-- ===== src/Vmm.antt =====
-- kernel/main/mm/vmm.c: the page tables. A table is known by its physical address (a pointer to it
-- less hhdm_offset), and a word of physical memory by the address of its first byte.
pub mod Words
pub mod Walk
pub mod Translate
pub mod Unmap
mod Tests
use osfix_operating_system.Base.{
  ℕ, zero, suc, ◌+◌, ◌-◌, ◌*◌, ◌/◌, ◌%◌, ◌^◌, ◌&&◌, Option, none, some, leb, ltb, ◌==◌,
  if◌then◌else◌, add64, sub64,
}
use Prim.Native.Nat.{bit_or}
use osfix_operating_system.Pmm.{Pmm, page_size, palloc}

-- PTE_PRESENT, PTE_WRITABLE and PTE_USER
abbrev pub pte_present : ℕ
pte_present = 1

abbrev pub pte_writable : ℕ
pte_writable = 2

abbrev pub pte_user : ℕ
pte_user = 4

-- USER_STACK_TOP and GUARD_PAGE_SIZE
abbrev pub user_stack_top : ℕ
user_stack_top = 0x0000700000000000

abbrev pub guard_page_size : ℕ
guard_page_size = page_size

-- The allocator, the physical memory, and kernel_pml4.
pub record Machine : Type 0 where
  pub pmm : Pmm
  pub words : ℕ → ℕ
  pub pml4 : ℕ

-- PML4_INDEX, PDPT_INDEX, PD_INDEX and PT_INDEX
abbrev pub pml4_index : ℕ → ℕ
pml4_index v = v / 2 ^ 39 % 512

abbrev pub pdpt_index : ℕ → ℕ
pdpt_index v = v / 2 ^ 30 % 512

abbrev pub pd_index : ℕ → ℕ
pd_index v = v / 2 ^ 21 % 512

abbrev pub pt_index : ℕ → ℕ
pt_index v = v / 2 ^ 12 % 512

-- `w & PTE_PRESENT`, `w & PTE_PS`, `w & ~0xFFF` and `w & PTE_ADDR_MASK`
abbrev pub present : ℕ → ℕ
present w = w % 2

abbrev pub huge : ℕ → ℕ
huge w = w / 128 % 2

abbrev pub page_of : ℕ → ℕ
page_of w = w / 4096 * 4096

abbrev pub addr_of : ℕ → ℕ
addr_of w = w / 4096 % 2 ^ 40 * 4096

-- The address of table[idx].
abbrev pub slot : (table idx : ℕ) → ℕ
slot table idx = table + 8 * idx

unfoldable pub store : (a w : ℕ) → (ℕ → ℕ) → ℕ → ℕ
store a w words b = if b == a then w else words b

-- memset of a page to 0
unfoldable pub clear_page : (page : ℕ) → (ℕ → ℕ) → ℕ → ℕ
clear_page page words b = if leb page b && ltb b (page + page_size) then 0 else words b

-- Without a free page the kernel halts: `none`.
unfoldable pub alloc_table : Machine → Option (ℕ × Machine)
alloc_table m =
    let (phys, pmm') = palloc m.pmm in
    if phys == 0
    then none
    else some (phys, record m { pmm = pmm'; words = clear_page phys m.words })

-- The entry for a table that was just made.
abbrev pub child_entry : (child user_bit : ℕ) → ℕ
child_entry child user_bit =
    bit_or (bit_or (bit_or (page_of child) pte_present) pte_writable) user_bit

abbrev pub write_slot : (table idx w : ℕ) → Machine → Machine
write_slot table idx w m = record m { words = store (slot table idx) w m.words }

unfoldable pub walk_or_alloc : (table idx user_bit : ℕ) → Machine → Option (ℕ × Machine)
walk_or_alloc table idx user_bit m =
    if present (m.words (slot table idx)) == 0
    then elim (alloc_table m) [
      | none ↦ none
      | some (child, m') ↦ some (child, write_slot table idx (child_entry child user_bit) m')
    ]
    else (let w = bit_or (m.words (slot table idx)) user_bit in
        some (page_of w, write_slot table idx w m))

abbrev pub user_bit_of : (flags : ℕ) → ℕ
user_bit_of flags = flags / 4 % 2 * 4

-- (phys & ~0xFFF) | flags | PTE_PRESENT
abbrev pub leaf_entry : (phys flags : ℕ) → ℕ
leaf_entry phys flags = bit_or (bit_or (page_of phys) flags) pte_present

-- The loop that fills the table for a huge page that is split, with `rounds` entries left.
unfoldable pub fill_table : (rounds i pt huge_phys huge_flags user_bit : ℕ) → (ℕ → ℕ) → ℕ → ℕ
fill_table zero i pt huge_phys huge_flags user_bit words = words
fill_table (suc rounds) i pt huge_phys huge_flags user_bit words =
    fill_table rounds (i + 1) pt huge_phys huge_flags user_bit (
      store (slot pt i) (bit_or (bit_or (add64 huge_phys (i * page_size)) huge_flags) user_bit)
        words)

-- The branch of map_page for a huge page `w` in the directory.
unfoldable pub split_huge : (pd virt phys flags w : ℕ) → Machine → Option Machine
split_huge pd virt phys flags w m = elim (alloc_table m) [
  | none ↦ none
  | some (pt, m₁) ↦
      let user_bit = user_bit_of flags in
      let filled =
        fill_table 512 0 pt (w / 2 ^ 21 % 2 ^ 31 * 2 ^ 21) (w % 4096 - 128) user_bit m₁.words in
      let m₂ =
        write_slot pd (pd_index virt) (child_entry pt user_bit) (record m₁ { words = filled }) in
      some (write_slot pt (pt_index virt) (leaf_entry phys flags) m₂)
]

-- map_page from the directory on
unfoldable pub map_in : (pd virt phys flags : ℕ) → Machine → Option Machine
map_in pd virt phys flags m =
    let w = m.words (slot pd (pd_index virt)) in
    if huge w == 1
    then split_huge pd virt phys flags w m
    else elim (walk_or_alloc pd (pd_index virt) (user_bit_of flags) m) [
      | none ↦ none
      | some (pt, m') ↦ some (write_slot pt (pt_index virt) (leaf_entry phys flags) m')
    ]

unfoldable pub map_page : (virt phys flags : ℕ) → Machine → Option Machine
map_page virt phys flags m = elim (walk_or_alloc m.pml4 (pml4_index virt) (user_bit_of flags) m) [
  | none ↦ none
  | some (pdpt, m₁) ↦ elim (walk_or_alloc pdpt (pdpt_index virt) (user_bit_of flags) m₁) [
    | none ↦ none
    | some (pd, m₂) ↦ map_in pd virt phys flags m₂
  ]
]

-- Without a test of PTE_PS, unlike virt_to_phys_user.
unfoldable pub unmap_page : (virt : ℕ) → Machine → Machine
unmap_page virt m =
    let e₄ = m.words (slot m.pml4 (pml4_index virt)) in
    let e₃ = m.words (slot (page_of e₄) (pdpt_index virt)) in
    let e₂ = m.words (slot (page_of e₃) (pd_index virt)) in
    if present e₄ == 0
    then m
    else if present e₃ == 0
    then m
    else if present e₂ == 0
    then m
    else write_slot (page_of e₂) (pt_index virt) 0 m

unfoldable pub virt_to_phys_user : (virt : ℕ) → Machine → ℕ
virt_to_phys_user virt m =
    let e₄ = m.words (slot m.pml4 (pml4_index virt)) in
    let e₃ = m.words (slot (addr_of e₄) (pdpt_index virt)) in
    let e₂ = m.words (slot (addr_of e₃) (pd_index virt)) in
    let e₁ = m.words (slot (addr_of e₂) (pt_index virt)) in
    if present e₄ == 0
    then 0
    else if present e₃ == 0
    then 0
    else if present e₂ == 0
    then 0
    else if huge e₂ == 1
    then add64 (addr_of e₂) (virt % 2 ^ 21)
    else if present e₁ == 0
    then 0
    else add64 (addr_of e₁) (virt % 4096)

-- map_page with a page from palloc, whose 0 is mapped as well
unfoldable pub map_fresh : (virt flags : ℕ) → Machine → Option Machine
map_fresh virt flags m =
    let (phys, pmm') = palloc m.pmm in map_page virt phys flags (record m { pmm = pmm' })

-- Consecutive pages from `virt` on, `pages` of them, for a user.
unfoldable pub map_user_pages : (pages virt : ℕ) → Machine → Option Machine
map_user_pages zero virt m = some m
map_user_pages (suc pages) virt m = elim (map_fresh virt 7 m) [
  | none ↦ none
  | some m' ↦ map_user_pages pages (add64 virt page_size) m'
]

unfoldable pub create_user_stack : (size : ℕ) → Machine → Option (ℕ × Machine)
create_user_stack size m =
    let pages = add64 size (page_size - 1) / page_size in
    elim (map_user_pages pages (sub64 user_stack_top size) m) [
      | none ↦ none
      | some m' ↦ some (user_stack_top, m')
    ]

-- `stack_size` comes without the guard page, which stays unmapped below the pages.
unfoldable pub map_user_stack_with_guard : (stack_size : ℕ) → Machine → Option (ℕ × Machine)
map_user_stack_with_guard stack_size m =
    let stack_bottom = sub64 (sub64 user_stack_top stack_size) guard_page_size in
    let start = add64 stack_bottom guard_page_size in
    elim (map_user_pages ((user_stack_top - start + (page_size - 1)) / page_size) start m) [
      | none ↦ none
      | some m' ↦ some (user_stack_top, m')
    ]
