-- ===== src/Pmm/Free.antt =====
-- kernel/main/mm/pmm.c: what pfree_order does to a sound state.
use osfix_operating_system.Base.{
  ℕ, zero, suc, ◌+◌, ◌-◌, ◌*◌, ◌/◌, ◌%◌, ◌^◌, ◌<◌, ◌≤◌, ◌≡◌, refl, ◌∙◌, sym, true, false, ◌||◌,
  List, [], ◌∷◌, leb, ltb, ◌==◌, if◌then◌else◌, arith, Bool-cases, inl, inr, subst, ==_iff,
}
use osfix_operating_system.Pmm.{
  Pmm, Bitmap, Merge, page_size, max_order, pmm_list_add, pmm_list_remove, remove_first, contains,
  pmm_list_contains, buddy_of, merge, merge_freed, pfree_order, clear_range,
}
use osfix_operating_system.Pmm.Blocks.{
  within, bit, Aligned, IsBlock, Halves, buddy_of-Halves, pow2-suc, pow2_pos, clear_range_lem,
}
use osfix_operating_system.Pmm.Owners.{
  owners, covers, AllBlocks, Listed, IsSound, owners-update, Listed-update, AllBlocks-remove,
  count_list-remove,
}
use osfix_operating_system.Pmm.Alloc.{owners-add, Listed-add}

contains-IsBlock :
    (order a : ℕ) (l : List ℕ) → AllBlocks order l → contains a l ≡ true → IsBlock order a
unfolding contains
contains-IsBlock order a [] h c = cc
contains-IsBlock order a (x ∷ l) h c = elim (Bool-cases (x == a)) [
  | inl hit ↦ subst (λ y. IsBlock order y) ((==_iff x a).0 hit) h.0
  | inr miss ↦ contains-IsBlock order a l h.1 (ground arith)
]

-- A merge in progress: the block so far is aligned, and it and the lists are of the allocator's.
record IsMerge (m : Merge) : Type 0 where
  small : m.order < max_order
  aligned : Aligned m.order m.page_idx
  listed : Listed m.lists

-- The pages that the lists and the block being merged cover.
abbrev merge_owners : Merge → (page : ℕ) → ℕ
merge_owners m page = owners max_order m.lists page + bit (within m.page_idx (2 ^ m.order) page)

-- One round of the loop: the buddy is in the list of its order.
module _ (m : Merge) (max_page : ℕ) (h : IsMerge m) (room : suc m.order < max_order)
    (addressable : max_page ≤ 2 ^ 52) (inside : buddy_of m.page_idx m.order < max_page)
    (listed : pmm_list_contains m.order ((buddy_of m.page_idx m.order * page_size) % 2 ^ 64) m.lists
      ≡ true) where
  abbrev buddy : ℕ
  buddy = buddy_of m.page_idx m.order

  abbrev phys : ℕ
  phys = (buddy * page_size) % 2 ^ 64

  abbrev joined : Merge
  joined = record {
    order = suc m.order;
    page_idx = if ltb buddy m.page_idx then buddy else m.page_idx;
    lists = pmm_list_remove m.order phys m.lists;
  }

  phys-page : phys / page_size ≡ buddy
  phys-page = omega arith

  buddy-IsBlock : IsBlock m.order phys
  unfolding pmm_list_contains
  buddy-IsBlock = contains-IsBlock m.order phys (m.lists m.order) (h.listed m.order) listed

  halves : Halves m.order m.page_idx buddy
  halves =
      buddy_of-Halves m.order m.page_idx h.aligned
        (omega (arith, buddy-IsBlock.aligned.bounded, phys-page))

  joined-page : joined.page_idx ≡ halves.lower
  joined-page = ground (arith, halves.sides, pow2_pos m.order)

  joined-IsMerge : IsMerge joined
  unfolding pmm_list_remove
  joined-IsMerge = record {
    small = room;
    aligned = subst (Aligned (suc m.order)) (sym joined-page) halves.aligned;
    listed =
        Listed-update m.order (remove_first phys (m.lists m.order)) m.lists h.listed
          (AllBlocks-remove m.order phys (m.lists m.order) (h.listed m.order));
  }

  removed-owners :
      (page : ℕ)
      → owners max_order (pmm_list_remove m.order phys m.lists) page
          + bit (covers m.order phys page)
        ≡ owners max_order m.lists page
  unfolding pmm_list_remove pmm_list_contains
  removed-owners page = omega (
    arith,
    owners-update max_order m.order (remove_first phys (m.lists m.order)) m.lists page h.small,
    count_list-remove m.order phys (m.lists m.order) page listed,
  )

  joined-owners : (page : ℕ) → merge_owners joined page ≡ merge_owners m page
  joined-owners page =
      ground (arith, removed-owners page, phys-page, joined-page, halves.sides, pow2-suc m.order)

-- What the merging loop has done to `m`.
record Merged (m r : Merge) : Type 0 where
  merge : IsMerge r
  owned : (page : ℕ) → merge_owners r page ≡ merge_owners m page

merge-Merged :
    (rounds max_page : ℕ) (b : Bitmap) (m : Merge)
    → m.order + rounds ≡ max_order - 1
    → IsMerge m
    → max_page ≤ 2 ^ 52
    → Merged m (merge rounds max_page b m)
unfolding merge
merge-Merged zero max_page b m e h addressable = record { merge = h; owned = λ page. refl }
merge-Merged (suc rounds) max_page b m e h addressable =
    elim (Bool-cases
      (leb max_page (buddy_of m.page_idx m.order) || b (buddy_of m.page_idx m.order))) [
        | inl stop ↦ rw (stop, merge) (record { merge = h; owned = λ page. refl })
        | inr go ↦
            elim (Bool-cases (
              pmm_list_contains m.order ((buddy_of m.page_idx m.order * page_size) % 2 ^ 64)
                m.lists)) [
                  | inr miss ↦ rw (go, merge, miss) (record { merge = h; owned = λ page. refl })
                  | inl hit ↦
                      let room : suc m.order < max_order = omega arith in
                      let inside : buddy_of m.page_idx m.order < max_page = ground arith in
                      let later =
                        merge-Merged rounds max_page b
                          (joined m max_page h room addressable inside hit) (omega arith)
                          (joined-IsMerge m max_page h room addressable inside hit) addressable in
                      rw (go, merge, hit)
                        (record {
                          merge = later.merge;
                          owned = λ page.
                              later.owned page
                              ∙ joined-owners m max_page h room addressable inside hit page;
                        })
                ]
      ]

-- The block of 2^order pages at an address is in use: all its pages are marked.
pub record InUse (order addr : ℕ) (s : Pmm) : Type 0 where
  pub block : IsBlock order addr
  pub marked : (page : ℕ) → covers order addr page ≡ true → s.bitmap page ≡ true

module _ (order addr : ℕ) (s : Pmm) (small : order < max_order) (sound : IsSound s)
    (used : InUse order addr s) where
  abbrev freed : Merge
  freed = record { order = order; page_idx = addr / page_size; lists = s.free_lists }

  merge_freed-Merged : Merged freed (merge_freed addr order s)
  unfolding merge_freed
  merge_freed-Merged =
      merge-Merged (max_order - 1 - order) s.max_page
        (clear_range (2 ^ order) (addr / page_size) s.bitmap) freed (omega arith)
        (record { small = small; aligned = used.block.aligned; listed = sound.listed })
        sound.addressable

  abbrev last : Merge
  last = merge_freed addr order s

  abbrev last_addr : ℕ
  last_addr = (last.page_idx * page_size) % 2 ^ 64

  last-page : last_addr / page_size ≡ last.page_idx
  last-page = omega (arith, merge_freed-Merged.merge.aligned.bounded, pow2_pos last.order)

  last-IsBlock : IsBlock last.order last_addr
  last-IsBlock = record {
    address = omega (arith, merge_freed-Merged.merge.aligned.bounded, pow2_pos last.order);
    aligned = subst (Aligned last.order) (sym last-page) merge_freed-Merged.merge.aligned;
  }

  freed-owned :
      (page : ℕ)
      → owners max_order (pmm_list_add last.order last_addr last.lists) page
          + bit (clear_range (2 ^ order) (addr / page_size) s.bitmap page)
        ≡ 1
  freed-owned page = ground (
    arith,
    owners-add last.order last_addr last.lists page merge_freed-Merged.merge.small,
    last-page,
    merge_freed-Merged.owned page,
    sound.owned page,
    used.marked page,
    clear_range_lem (2 ^ order) (addr / page_size) s.bitmap page,
  )

  -- Freeing a block that is in use, at the order that it was allocated with, keeps the state sound,
  -- whatever buddies are merged: exactly the block's pages are no longer marked as used.
  pub pfree_order-IsSound :
      IsSound (pfree_order addr order s)
      × ((page : ℕ)
          → (pfree_order addr order s).bitmap page
            ≡ (if covers order addr page then false else s.bitmap page))
  unfolding pfree_order
  pfree_order-IsSound = (
    record {
      listed =
          Listed-add last.order last_addr last.lists last-IsBlock merge_freed-Merged.merge.listed;
      owned = freed-owned;
      addressable = sound.addressable;
    },
    clear_range_lem (2 ^ order) (addr / page_size) s.bitmap,
  )
