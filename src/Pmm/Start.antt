-- ===== src/Pmm/Start.antt =====
-- kernel/main/mm/pmm.c: the loop of pmm_init over the pages of an entry of the memory map.
use native.Mathlib.Nat.{mod-add-div'}
use osfix_operating_system.Base.{
  ℕ, zero, suc, ◌+◌, ◌-◌, ◌*◌, ◌/◌, ◌%◌, ◌^◌, ◌≤◌, ◌<◌, ◌≡◌, inl, inr, refl, subst, true, false,
  not, ◌&&◌, ◌||◌, some, ltb, leb, ◌==◌, if◌then◌else◌, add64, arith, Bool-cases,
}
use osfix_operating_system.Pmm.{Pmm, page_size, max_order, clear_range, pmm_list_add}
use osfix_operating_system.Pmm.Blocks.{bit, IsBlock, pow2_pos, pow2-le, clear_range_lem}
use osfix_operating_system.Pmm.Owners.{IsSound, covers, owners}
use osfix_operating_system.Pmm.Alloc.{owners-add, Listed-add}
use osfix_operating_system.Pmm.Init.{order_of, add_block, add_blocks}

-- The block of an order at `cur` is aligned and ends by `end`.
record IsChosen (order cur end : ℕ) : Type 0 where
  small : order < max_order
  block : IsBlock order cur
  fits : cur + page_size * 2 ^ order ≤ end

-- A multiple of the size of a block, with room up to `end`.
multiple-IsChosen :
    (order cur end : ℕ)
    → order < max_order
    → end < 2 ^ 63
    → cur % (page_size * 2 ^ order) ≡ 0
    → cur + page_size * 2 ^ order ≤ end
    → IsChosen order cur end
multiple-IsChosen order cur end small far multiple fits =
    let size = page_size * 2 ^ order in
    let whole : cur / size * (page_size * 2 ^ order) ≡ cur =
      omega (arith, mod-add-div' cur size, multiple) in
    let pages : cur ≡ page_size * (cur / size * 2 ^ order) = omega (arith, whole) in
    record {
      small = small;
      block = record {
        address = omega (arith, pages);
        aligned = record {
          quotient = cur / size;
          multiple = omega (arith, pages);
          bounded = omega (arith, fits);
        };
      };
      fits = fits;
    }

size-le : (order : ℕ) → order < max_order → 2 ^ order ≤ 2 ^ 10
size-le order small =
    let e : order + (10 - order) ≡ 10 = omega arith in
    omega (arith, subst (λ n. 2 ^ order ≤ 2 ^ n) e (pow2-le order (10 - order)))

order_of-IsChosen :
    (rounds order cur end : ℕ)
    → order + rounds < max_order
    → end < 2 ^ 63
    → IsChosen order cur end
    → IsChosen (order_of rounds order cur end) cur end
unfolding order_of
order_of-IsChosen zero order cur end room small c = c
order_of-IsChosen (suc rounds) order cur end room small c =
    let size = page_size * 2 ^ (order + 1) in
    elim (Bool-cases (ltb end (add64 cur size) || not (cur % size == 0))) [
      | inl stop ↦ rw stop c
      | inr go ↦ rw go (
          order_of-IsChosen rounds (order + 1) cur end (omega arith) small (
            multiple-IsChosen (order + 1) cur end (omega arith) small (ground (arith, go))
              (ground (arith, go, c.fits, size-le (order + 1) (omega arith)))))
    ]

module _ (order cur : ℕ) (s : Pmm) (small : order < max_order) (block : IsBlock order cur)
    (sound : IsSound s)
    (marked : (page : ℕ) → covers order cur page ≡ true → s.bitmap page ≡ true) where
  add_block-owned :
      (page : ℕ)
      → owners max_order (pmm_list_add order cur s.free_lists) page
          + bit (clear_range (2 ^ order) (cur / page_size) s.bitmap page)
        ≡ 1
  add_block-owned page = ground (
    arith,
    owners-add order cur s.free_lists page small,
    sound.owned page,
    marked page,
    clear_range_lem (2 ^ order) (cur / page_size) s.bitmap page,
  )

  add_block-IsSound : IsSound (add_block order cur s)
  unfolding add_block
  add_block-IsSound = record {
    listed = Listed-add order cur s.free_lists block sound.listed;
    owned = add_block-owned;
    addressable = sound.addressable;
  }

-- What adding the pages from page `first` up to page `last` has done to `s`.
pub record IsAdded (first last : ℕ) (s r : Pmm) : Type 0 where
  pub sound : IsSound r
  pub bitmap :
      (page : ℕ)
      → r.bitmap page ≡ (if leb first page && ltb page last then false else s.bitmap page)
  pub kept : r.max_page ≡ s.max_page
  pub counted : r.free_pages % 2 ^ 64 ≡ add64 s.free_pages (last - first)

-- One round of the loop, for the block at `cur` and the address `next` behind it.
module _ (order cur next end : ℕ) (s : Pmm) (chosen : IsChosen order cur end)
    (page : cur ≡ cur / page_size * page_size) (whole : end ≡ end / page_size * page_size)
    (moved : next ≡ cur + page_size * 2 ^ order)
    (marked : (i : ℕ)
      → leb (cur / page_size) i && ltb i (end / page_size) ≡ true
      → s.bitmap i ≡ true) where
  next-page : next / page_size ≡ cur / page_size + 2 ^ order
  next-page = omega arith

  next-bound : cur / page_size + 2 ^ order ≤ end / page_size
  next-bound = omega (arith, chosen.fits)

  block-marked : (i : ℕ) → covers order cur i ≡ true → s.bitmap i ≡ true
  block-marked i c = marked i (ground (arith, next-bound))

  next-marked :
      (i : ℕ)
      → leb (next / page_size) i && ltb i (end / page_size) ≡ true
      → (add_block order cur s).bitmap i ≡ true
  unfolding add_block
  next-marked i c =
      ground (arith, next-page, marked i, clear_range_lem (2 ^ order) (cur / page_size) s.bitmap i)

  step-IsAdded :
      (r : Pmm)
      → IsAdded (next / page_size) (end / page_size) (add_block order cur s) r
      → IsAdded (cur / page_size) (end / page_size) s r
  unfolding add_block
  step-IsAdded r a = record {
    sound = a.sound;
    bitmap = λ i. ground (
      arith,
      next-page,
      next-bound,
      a.bitmap i,
      clear_range_lem (2 ^ order) (cur / page_size) s.bitmap i,
    );
    kept = a.kept;
    counted = omega (arith, a.counted, next-page, next-bound);
  }

-- The loop over the pages of an entry returns, and what it returns.
pub record Added (fuel cur end : ℕ) (s : Pmm) : Type 0 where
  pub result : Pmm
  pub returns : add_blocks fuel cur end s ≡ some result
  pub added : IsAdded (cur / page_size) (end / page_size) s result

module _ (end : ℕ) (far : end < 2 ^ 63) (whole : end ≡ end / page_size * page_size) where
  first-IsChosen : (cur : ℕ) → cur ≡ cur / page_size * page_size → cur < end → IsChosen 0 cur end
  first-IsChosen cur page below =
      multiple-IsChosen 0 cur end (omega arith) far (omega arith) (omega arith)

  pub add_blocks-Added :
      (fuel cur : ℕ) (s : Pmm)
      → end / page_size - cur / page_size < fuel
      → cur ≡ cur / page_size * page_size
      → IsSound s
      → ((page : ℕ)
          → leb (cur / page_size) page && ltb page (end / page_size) ≡ true
          → s.bitmap page ≡ true)
      → Added fuel cur end s
  unfolding add_blocks
  add_blocks-Added zero cur s enough page sound marked = absurd (omega arith)
  add_blocks-Added (suc fuel) cur s enough page sound marked = elim (Bool-cases (ltb cur end)) [
    | inl more ↦
        let order = order_of (max_order - 1) 0 cur end in
        let chosen : IsChosen order cur end =
          order_of-IsChosen (max_order - 1) 0 cur end (omega arith) far
            (first-IsChosen cur page (ground (arith, more))) in
        let next = add64 cur (page_size * 2 ^ order) in
        let moved : next ≡ cur + page_size * 2 ^ order = omega (arith, chosen.fits) in
        let later =
          add_blocks-Added fuel next (add_block order cur s)
            (omega (
              arith,
              next-page order cur next end s chosen page whole moved marked,
              pow2_pos order,
            ))
            (omega (arith, moved))
            (add_block-IsSound order cur s chosen.small chosen.block sound
              (block-marked order cur next end s chosen page whole moved marked))
            (next-marked order cur next end s chosen page whole moved marked) in
        record {
          result = later.result;
          returns = rw (more, add_blocks) later.returns;
          added =
              step-IsAdded order cur next end s chosen page whole moved marked later.result
                later.added;
        }
    | inr done ↦ record {
      result = s;
      returns = rw (done, add_blocks) refl;
      added = record {
        sound = sound;
        bitmap = λ p. ground arith;
        kept = refl;
        counted = ground arith;
      };
    }
  ]
