-- ===== src/Pmm/Owners.antt =====
-- The free lists of kernel/main/mm/pmm.c as a count: how many free blocks cover a page.
use osfix_operating_system.Base.{
  ℕ, zero, suc, ◌+◌, ◌/◌, ◌^◌, ◌<◌, ◌≤◌, ◌≡◌, refl, Bool, true, List, [], ◌∷◌, ◌==◌, arith,
  Bool-cases, subst, sym, ==_iff, inl, inr,
}
use osfix_operating_system.Pmm.{
  Pmm, FreeLists, page_size, max_order, update_list, remove_first, contains,
}
use osfix_operating_system.Pmm.Blocks.{within, bit, IsBlock}

-- Whether the block at `addr` covers the page.
abbrev pub covers : (order addr page : ℕ) → Bool
covers order addr page = within (addr / page_size) (2 ^ order) page

unfoldable pub count_list : (order : ℕ) → List ℕ → (page : ℕ) → ℕ
count_list order [] page = 0
count_list order (a ∷ l) page = bit (covers order a page) + count_list order l page

-- The free blocks of the orders below `n` that cover the page.
unfoldable pub owners : (n : ℕ) → FreeLists → (page : ℕ) → ℕ
owners zero lists page = 0
owners (suc n) lists page = count_list n (lists n) page + owners n lists page

abbrev pub AllBlocks : (order : ℕ) → List ℕ → Type 0
AllBlocks order [] = Unit {0}
AllBlocks order (a ∷ l) = IsBlock order a × AllBlocks order l

abbrev pub Listed : FreeLists → Type 0
Listed lists = (order : ℕ) → AllBlocks order (lists order)

-- The state of the allocator is sound: every free block is aligned, every page of the bitmap is
-- either marked as used and in no free block, or not marked and in exactly one, and the pages have
-- 64-bit addresses.
pub record IsSound (s : Pmm) : Type 0 where
  pub listed : Listed s.free_lists
  pub owned : (page : ℕ) → owners max_order s.free_lists page + bit (s.bitmap page) ≡ 1
  pub addressable : s.max_page ≤ 2 ^ 52

owners-update_above :
    (n i : ℕ) (l : List ℕ) (lists : FreeLists) (page : ℕ)
    → n ≤ i
    → owners n (update_list lists i l) page ≡ owners n lists page
unfolding owners update_list
owners-update_above zero i l lists page h = refl
owners-update_above (suc n) i l lists page h = ground (arith, owners-update_above n i l lists page)

-- A list that is replaced: its blocks go, and those of the new list come.
pub owners-update :
    (n i : ℕ) (l : List ℕ) (lists : FreeLists) (page : ℕ)
    → i < n
    → owners n (update_list lists i l) page + count_list i (lists i) page
      ≡ owners n lists page + count_list i l page
unfolding owners update_list
owners-update zero i l lists page h = absurd (omega arith)
owners-update (suc n) i l lists page h = elim (Bool-cases (n == i)) [
  | inl hit ↦ ground (arith, owners-update_above n i l lists page)
  | inr miss ↦ ground (arith, owners-update n i l lists page)
]

pub Listed-update :
    (i : ℕ) (l : List ℕ) (lists : FreeLists)
    → Listed lists
    → AllBlocks i l
    → Listed (update_list lists i l)
unfolding update_list
Listed-update i l lists h k order = elim (Bool-cases (order == i)) [
  | inl hit ↦ rw hit (subst (λ o. AllBlocks o l) (sym ((==_iff order i).0 hit)) k)
  | inr miss ↦ rw miss (h order)
]

pub AllBlocks-remove :
    (order a : ℕ) (l : List ℕ) → AllBlocks order l → AllBlocks order (remove_first a l)
unfolding remove_first
AllBlocks-remove order a [] h = h
AllBlocks-remove order a (x ∷ l) h = elim (Bool-cases (x == a)) [
  | inl hit ↦ rw hit h.1
  | inr miss ↦ rw miss (h.0, AllBlocks-remove order a l h.1)
]

-- A region that is in the list and is removed.
pub count_list-remove :
    (order a : ℕ) (l : List ℕ) (page : ℕ)
    → contains a l ≡ true
    → count_list order (remove_first a l) page + bit (covers order a page) ≡ count_list order l page
unfolding count_list remove_first contains
count_list-remove order a [] page h = cc
count_list-remove order a (x ∷ l) page h = ground (arith, count_list-remove order a l page)
