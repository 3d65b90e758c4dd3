-- ===== src/Vmm/Tests.antt =====
-- The theorems about kernel/main/mm/vmm.c at page 1 of an address space with four tables.
use Prim.Native.Nat.{bit_or}
use osfix_operating_system.Base.{
  ℕ, ◌+◌, ◌≡◌, refl, inl, some, [], false, ◌==◌, if◌then◌else◌, arith, ◌%◌, ◌≤◌,
}
use osfix_operating_system.Pmm.{Pmm}
use osfix_operating_system.Vmm.{
  Machine, slot, store, write_slot, walk_or_alloc, map_page, unmap_page, virt_to_phys_user, addr_of,
  pt_index, present, page_of,
}
use osfix_operating_system.Vmm.Translate.{Walks, IsTable, map_page-translates}
use osfix_operating_system.Vmm.Unmap.{Reached, unmap_page-translates, unmap_page-huge}

abbrev no_pages : Pmm
no_pages = record {
  total_pages = 0;
  free_pages = 0;
  bitmap = λ i. false;
  max_page = 0;
  free_lists = λ i. [];
}

-- The tables stand at 4096, 8192, 12288 and 16384; `entry` is that of the directory.
abbrev four_tables : (entry : ℕ) → Machine
four_tables entry = record {
  pmm = no_pages;
  words =
      λ a. if a == 4096 then 8193 else if a == 8192 then 12289 else if a == 12288 then entry else 0;
  pml4 = 4096;
}

abbrev small : Machine
small = four_tables 16385

-- A huge page at 2 MiB.
abbrev large : Machine
large = four_tables 0x200081

abbrev step₁ : Machine
step₁ = write_slot 4096 0 (bit_or 8193 4) small

abbrev step₂ : Machine
step₂ = write_slot 8192 0 (bit_or 12289 4) step₁

small-Walks : Walks 0x1234 7 small
unfolding walk_or_alloc store
small-Walks = record {
  pdpt = 8192;
  pd = 12288;
  pt = 16384;
  m₁ = step₁;
  m₂ = step₂;
  m₃ = write_slot 12288 0 (bit_or 16385 4) step₂;
  to_pdpt = refl;
  to_pd = refl;
  to_pt = refl;
  small = refl;
  tables = ((refl, omega arith), (refl, omega arith), (refl, omega arith));
  apart₄ = (inl (omega arith), inl (omega arith), inl (omega arith));
  apart₃ = (inl (omega arith), inl (omega arith));
  apart₂ = inl (omega arith);
}

map_page-translates_example :
    (m' : Machine) × (map_page 0x1234 0x9000 7 small ≡ some m')
    × (virt_to_phys_user 0x1234 m' ≡ addr_of 0x9000 + 0x1234 % 4096)
map_page-translates_example = map_page-translates 0x1234 0x9000 7 small (omega arith) small-Walks

four_tables-Reached :
    (entry pt : ℕ)
    → present entry ≡ 1
    → page_of entry ≡ pt
    → IsTable pt
    → 16384 ≤ pt
    → Reached 0x1234 (four_tables entry) 8192 12288 pt
four_tables-Reached entry pt there leads table le = record {
  leads = record {
    there₄ = refl;
    leads₄ = refl;
    there₃ = refl;
    leads₃ = refl;
    there₂ = there;
    leads₂ = leads;
    tables = ((refl, omega arith), (refl, omega arith), table);
  };
  apart₄ = inl (omega arith);
  apart₃ = inl (omega arith);
  apart₂ = inl (omega arith);
}

small-Reached : Reached 0x1234 small 8192 12288 16384
small-Reached = four_tables-Reached 16385 16384 refl refl (refl, omega arith) (omega arith)

large-Reached : Reached 0x1234 large 8192 12288 0x200000
large-Reached = four_tables-Reached 0x200081 0x200000 refl refl (refl, omega arith) (omega arith)

unmap_page-translates_example : virt_to_phys_user 0x1234 (unmap_page 0x1234 small) ≡ 0
unmap_page-translates_example =
    unmap_page-translates 0x1234 8192 12288 16384 small small-Reached refl

unmap_page-huge_example :
    (virt_to_phys_user 0x1234 (unmap_page 0x1234 large) ≡ virt_to_phys_user 0x1234 large)
    × ((unmap_page 0x1234 large).words (slot 0x200000 (pt_index 0x1234)) ≡ 0)
unmap_page-huge_example = unmap_page-huge 0x1234 8192 12288 0x200000 large large-Reached refl
