-- ===== src/Pmm/Tests.antt =====
-- The theorems about kernel/main/mm/pmm.c at a state with one free block of two pages.
use Prim.Native.Nat.{bit_xor}
use osfix_operating_system.Base.{
  ℕ, ◌+◌, ◌*◌, ◌≤◌, ◌≡◌, ◌^◌, inl, inr, refl, false, not, [], ◌∷◌, ◌==◌, if◌then◌else◌, arith,
  Bool-cases, subst, sym, ==_iff,
}
use osfix_operating_system.Pmm.{
  Pmm, palloc_order, palloc_from, take_block, split_block, pmm_list_add, set_range, bitmap_set,
  pfree_order, merge_freed, merge, buddy_of, clear_range, bitmap_clear, pmm_list_contains,
  pmm_list_remove, palloc, pfree,
}
use osfix_operating_system.Pmm.Blocks.{within, IsBlock}
use osfix_operating_system.Pmm.Owners.{IsSound, owners, count_list, covers, Listed}
use osfix_operating_system.Pmm.Alloc.{AllocatedOrNone, palloc_order-Allocated}
use osfix_operating_system.Pmm.Free.{InUse, pfree_order-IsSound}
use osfix_operating_system.Pmm.Count.{
  IsCounted, listed_pages, palloc_order-IsCounted, BuddyFree, pfree_order-overcounts,
}

-- Pages 2 and 3 are free, as one block; the memory has eight pages.
abbrev two_free : Pmm
two_free = record {
  total_pages = 2;
  free_pages = 2;
  bitmap = λ page. not (within 2 2 page);
  max_page = 8;
  free_lists = λ order. if order == 1 then 8192 ∷ [] else [];
}

abbrev halved : Pmm
halved = (palloc_order 0 two_free).1

palloc_runs : (palloc_order 0 two_free).0 ≡ 8192
unfolding palloc_order palloc_from take_block
palloc_runs = refl

-- After one page is allocated and freed, three pages are counted as free and two are.
free_pages_runs : (pfree 8192 (palloc two_free).1).free_pages ≡ 3
unfolding palloc palloc_order palloc_from take_block split_block pmm_list_add set_range bitmap_set
    pfree pfree_order merge_freed merge buddy_of clear_range bitmap_clear pmm_list_contains
    pmm_list_remove
free_pages_runs = refl

buddy_of_runs : buddy_of 6 1 ≡ bit_xor 6 2
unfolding buddy_of
buddy_of_runs = refl

IsBlock-8192 : IsBlock 1 8192
IsBlock-8192 = record {
  address = omega arith;
  aligned = record { quotient = 1; multiple = omega arith; bounded = omega arith };
}

two_free-Listed : Listed two_free.free_lists
two_free-Listed order = elim (Bool-cases (order == 1)) [
  | inl hit ↦ rw hit (subst (λ o. IsBlock o 8192) (sym ((==_iff order 1).0 hit)) IsBlock-8192, tt)
  | inr miss ↦ rw miss tt
]

two_free-IsSound : IsSound two_free
unfolding owners count_list
two_free-IsSound = record {
  listed = two_free-Listed;
  owned = λ page. ground arith;
  addressable = omega arith;
}

palloc_order-Allocated_example : AllocatedOrNone 0 0 two_free (palloc_order 0 two_free)
palloc_order-Allocated_example = palloc_order-Allocated 0 two_free (omega arith) two_free-IsSound

-- The block of page 4 is in use.
page_4 : InUse 0 16384 two_free
page_4 = record {
  block = record {
    address = omega arith;
    aligned = record { quotient = 4; multiple = omega arith; bounded = omega arith };
  };
  marked = λ page c. ground arith;
}

pfree_order-IsSound_example :
    IsSound (pfree_order 16384 0 two_free)
    × ((page : ℕ)
        → (pfree_order 16384 0 two_free).bitmap page
          ≡ (if covers 0 16384 page then false else two_free.bitmap page))
pfree_order-IsSound_example =
    pfree_order-IsSound 0 16384 two_free (omega arith) two_free-IsSound page_4

two_free-IsCounted : IsCounted two_free
unfolding listed_pages
two_free-IsCounted = omega arith

palloc_order-IsCounted_example : IsCounted (palloc_order 0 two_free).1
palloc_order-IsCounted_example = palloc_order-IsCounted 0 two_free (omega arith) two_free-IsCounted

-- Pages 2 and 3 are in use but for page 3.
abbrev one_free : Pmm
one_free = record two_free {
  free_pages = 1;
  bitmap = λ page. not (within 3 1 page);
  free_lists = λ order. if order == 0 then 12288 ∷ [] else [];
}

one_free-BuddyFree : BuddyFree 0 8192 one_free
unfolding buddy_of clear_range bitmap_clear pmm_list_contains
one_free-BuddyFree = record { inside = omega arith; unmarked = refl; listed = refl }

pfree_order-overcounts_example : 1 + 2 * 2 ^ 0 ≤ (pfree_order 8192 0 one_free).free_pages
pfree_order-overcounts_example =
    pfree_order-overcounts 0 8192 one_free (omega arith) one_free-BuddyFree (omega arith)
