-- ===== src/Pmm/StartTests.antt =====
-- pmm_init of kernel/main/mm/pmm.c on a memory map with one usable entry of 64 pages.
use osfix_operating_system.Base.{
  ℕ, ◌*◌, ◌/◌, ◌≤◌, ◌≡◌, refl, true, Option, none, some, List, [], ◌∷◌, arith,
}
use osfix_operating_system.Pmm.{
  Pmm, page_size, pmm_list_add, clear_range, bitmap_clear, update_list,
}
use osfix_operating_system.Pmm.Init.{
  Region, top_addr, bitmap_size, place_bitmap, order_of, add_block, add_blocks, add_region,
  add_regions, all_used, pmm_init,
}
use osfix_operating_system.Pmm.Ready.{IsReady, pmm_init-IsReady}
use osfix_operating_system.Pmm.Regions.{offered}

-- A reserved entry, and pages 256 to 319.
abbrev two_entries : List Region
two_entries =
    record { base = 4096; length = 8192; type = 1 }
    ∷ record { base = 1048576; length = 262144; type = 0 }
    ∷ []

-- The bitmap takes the first page of the usable entry.
abbrev entries_left : List Region
entries_left =
    record { base = 4096; length = 8192; type = 1 }
    ∷ record { base = 1052672; length = 258048; type = 0 }
    ∷ []

abbrev before : Pmm
before = record {
  total_pages = 0;
  free_pages = 0;
  bitmap = λ page. true;
  max_page = 0;
  free_lists = λ order. [];
}

abbrev free_after : Option Pmm → ℕ
free_after none = 0
free_after (some s) = s.free_pages

pmm_init_runs : free_after (pmm_init two_entries before) ≡ 63
unfolding pmm_init top_addr bitmap_size place_bitmap order_of add_block add_blocks add_region
    add_regions all_used pmm_list_add clear_range bitmap_clear update_list
pmm_init_runs = refl

two_entries-placed :
    place_bitmap (bitmap_size (top_addr two_entries 0 / page_size)) two_entries ≡ some entries_left
unfolding place_bitmap bitmap_size top_addr
two_entries-placed = refl

two_entries-wide :
    top_addr two_entries 0 / page_size ≤ 8 * bitmap_size (top_addr two_entries 0 / page_size)
unfolding bitmap_size top_addr
two_entries-wide = omega arith

two_entries-once : (page : ℕ) → offered two_entries page ≤ 1
unfolding offered
two_entries-once page = ground arith

pmm_init-IsReady_example : IsReady two_entries before entries_left
pmm_init-IsReady_example =
    pmm_init-IsReady two_entries entries_left before (omega arith, (omega arith, tt))
      two_entries-once two_entries-wide (λ page h. refl) two_entries-placed

-- With 32772 pages, the bitmap has 32768 bits.
