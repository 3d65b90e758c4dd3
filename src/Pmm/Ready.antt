-- ===== src/Pmm/Ready.antt =====
-- kernel/main/mm/pmm.c: the state that pmm_init leaves.
use mathlib.Core.Option.{some-injective, none-ne-some}
use osfix_operating_system.Base.{
  ◌↔◌, ◌%◌, ℕ, zero, suc, ◌+◌, ◌-◌, ◌*◌, ◌/◌, ◌^◌, ◌≤◌, ◌<◌, ◌≡◌, inl, inr, refl, sym, ◌∙◌, subst,
  true, false, not, ◌||◌, none, some, List, [], ◌∷◌, ltb, if◌then◌else◌, add64, arith, Bool-cases,
  Option-cases,
}
use osfix_operating_system.Pmm.{Pmm, page_size, max_order}
use osfix_operating_system.Pmm.Blocks.{bit}
use osfix_operating_system.Pmm.Owners.{IsSound, owners, count_list}
use osfix_operating_system.Pmm.Init.{
  Region, is_usable, top_addr, bitmap_size, place_bitmap, all_used, pmm_init,
}
use osfix_operating_system.Pmm.Regions.{AllLow, offers, offered, add_regions-RegionsAdded}

-- For fewer than 2^60 pages, the bitmap has fewer bits than there are pages exactly if their number
-- is 1 to 7 above a multiple of 32768.
bitmap_size-short :
    (max_page : ℕ)
    → max_page < 2 ^ 60
    → (8 * bitmap_size max_page < max_page) ↔ ((0 < max_page % 32768) × (max_page % 32768 < 8))
unfolding bitmap_size
bitmap_size-short max_page small = (λ short. (omega arith, omega arith), λ (low, high). omega arith)

-- The entry that the bitmap is taken from offers no page that it did not offer before.
shrunk-offers :
    (size : ℕ) (r : Region) (page : ℕ)
    → r.base + r.length < 2 ^ 63
    → ltb r.length size ≡ false
    → bit (offers (record r { base = add64 r.base size; length = r.length - size }) page)
      ≤ bit (offers r page)
shrunk-offers size r page low room = ground arith

abbrev take_bitmap : (size : ℕ) → Region → Region
take_bitmap size r = record r { base = add64 r.base size; length = r.length - size }

-- What is offered after the bitmap is taken is offered before.
record IsPlaced (rs rs' : List Region) : Type 0 where
  low : AllLow rs'
  fewer : (page : ℕ) → offered rs' page ≤ offered rs page

place_bitmap-IsPlaced :
    (size : ℕ) (rs rs' : List Region)
    → AllLow rs
    → place_bitmap size rs ≡ some rs'
    → IsPlaced rs rs'
unfolding place_bitmap offered
place_bitmap-IsPlaced size [] rs' low h = absurd (none-ne-some _ h)
place_bitmap-IsPlaced size (r ∷ rs) rs' low h =
    elim (Bool-cases (not (is_usable r) || ltb r.length size)) [
      | inl skip ↦ elim (Option-cases (place_bitmap size rs)) [
        | inl stop ↦
            let e : place_bitmap size (r ∷ rs) ≡ none = rw (skip, place_bitmap, stop) refl in
            absurd (none-ne-some _ (sym e ∙ h))
        | inr (rest, eq) ↦
            let e : place_bitmap size (r ∷ rs) ≡ some (r ∷ rest) =
              rw (skip, place_bitmap, eq) refl in
            let later = place_bitmap-IsPlaced size rs rest low.1 eq in
            subst (IsPlaced (r ∷ rs)) (some-injective _ _ (sym e ∙ h))
              (record { low = (low.0, later.low); fewer = λ page. omega (arith, later.fewer page) })
      ]
      | inr take ↦
          let e : place_bitmap size (r ∷ rs) ≡ some (take_bitmap size r ∷ rs) =
            rw (take, place_bitmap) refl in
          let room : ltb r.length size ≡ false = ground (arith, take) in
          subst (IsPlaced (r ∷ rs)) (some-injective _ _ (sym e ∙ h)) (record {
            low = (ground (arith, room, low.0), low.1);
            fewer = λ page. omega (arith, shrunk-offers size r page low.0 room);
          })
    ]

top_addr-ge : (rs : List Region) (top : ℕ) → top ≤ top_addr rs top
unfolding top_addr
top_addr-ge [] top = omega arith
top_addr-ge (r ∷ rs) top =
    let end = add64 r.base r.length in
    ground (arith, top_addr-ge rs (if ltb top end then end else top))

top_addr-lt : (rs : List Region) (top : ℕ) → top < 2 ^ 64 → top_addr rs top < 2 ^ 64
unfolding top_addr
top_addr-lt [] top h = h
top_addr-lt (r ∷ rs) top h =
    let end = add64 r.base r.length in
    top_addr-lt rs (if ltb top end then end else top) (ground arith)

offered-top :
    (rs : List Region) (top page : ℕ)
    → AllLow rs
    → 0 < offered rs page
    → page * page_size + page_size ≤ top_addr rs top
unfolding top_addr offered
offered-top [] top page low h = absurd (omega arith)
offered-top (r ∷ rs) top page low h =
    let end = add64 r.base r.length in
    let top' = if ltb top end then end else top in
    elim (Bool-cases (offers r page)) [
      | inl here ↦ ground (arith, top_addr-ge rs top', low.0)
      | inr not_here ↦ offered-top rs top' page low.1 (ground arith)
    ]

owners-none : (n page : ℕ) → owners n (λ order. []) page ≡ 0
unfolding owners count_list
owners-none zero page = refl
owners-none (suc n) page = omega (arith, owners-none n page)

all_used-IsSound :
    (max_page : ℕ) (s : Pmm)
    → max_page ≤ 2 ^ 52
    → ((page : ℕ) → 8 * bitmap_size max_page ≤ page → s.bitmap page ≡ true)
    → IsSound (all_used max_page s)
unfolding all_used
all_used-IsSound max_page s small behind = record {
  listed = λ order. tt;
  owned = λ page. ground (arith, owners-none max_order page, behind page);
  addressable = small;
}

-- pmm_init returns, and its state is sound and marks a page as used unless a usable entry of `rs`
-- offers it.
pub record IsReady (memmap : List Region) (s : Pmm) (rs : List Region) : Type 0 where
  result : Pmm
  returns : pmm_init memmap s ≡ some result
  sound : IsSound result
  bitmap : (page : ℕ) → result.bitmap page ≡ not (ltb 0 (offered rs page))

-- If the entries end below 2^63, no page lies within two usable entries, the bitmap has a bit for
-- every page, the memory behind the bitmap reads as pages
-- in use, and an entry has room for the bitmap, which leaves the entries memmap', then pmm_init
-- returns: the free lists cover each page that is not marked exactly once and no other, and the
-- pages that are not marked are those within a usable entry of memmap'.
pub pmm_init-IsReady :
    (memmap memmap' : List Region) (s : Pmm)
    → AllLow memmap
    → ((page : ℕ) → offered memmap page ≤ 1)
    → top_addr memmap 0 / page_size ≤ 8 * bitmap_size (top_addr memmap 0 / page_size)
    → ((page : ℕ) → 8 * bitmap_size (top_addr memmap 0 / page_size) ≤ page → s.bitmap page ≡ true)
    → place_bitmap (bitmap_size (top_addr memmap 0 / page_size)) memmap ≡ some memmap'
    → IsReady memmap s memmap'
unfolding pmm_init all_used
pmm_init-IsReady memmap memmap' s low apart wide behind placed =
    let max_page = top_addr memmap 0 / page_size in
    let is = place_bitmap-IsPlaced (bitmap_size max_page) memmap memmap' low placed in
    let marked : (page : ℕ) → 0 < offered memmap' page → (all_used max_page s).bitmap page ≡ true =
      λ page h. ground (arith, is.fewer page, offered-top memmap 0 page low, wide) in
    let done =
      add_regions-RegionsAdded memmap' (all_used max_page s) is.low
        (λ page. omega (arith, is.fewer page, apart page))
        (all_used-IsSound max_page s (omega (arith, top_addr-lt memmap 0 (omega arith))) behind)
        marked in
    record {
      result = done.result;
      returns = rw (placed, pmm_init) done.returns;
      sound = done.added.sound;
      bitmap = λ page. ground (arith, done.added.bitmap page, behind page);
    }
