-- ===== src/Pmm/Regions.antt =====
-- kernel/main/mm/pmm.c: the entries of the memory map that pmm_init adds to the free lists.
use osfix_operating_system.Base.{
  ℕ, ◌+◌, ◌*◌, ◌/◌, ◌^◌, ◌≤◌, ◌<◌, ◌≡◌, inl, inr, refl, ◌∙◌, Bool, true, false, ◌&&◌, some, List,
  [], ◌∷◌, ltb, leb, if◌then◌else◌, add64, arith, Bool-cases,
}
use osfix_operating_system.Pmm.{Pmm, page_size}
use osfix_operating_system.Pmm.Blocks.{bit}
use osfix_operating_system.Pmm.Owners.{IsSound}
use osfix_operating_system.Pmm.Init.{
  Region, is_usable, align_up, align_down, add_region, add_regions,
}
use osfix_operating_system.Pmm.Start.{add_blocks-Added}

-- The entries end below 2^63.
abbrev pub AllLow : List Region → Type 0
AllLow [] = Unit {0}
AllLow (r ∷ rs) = (r.base + r.length < 2 ^ 63) × AllLow rs

-- Whether the page lies within a usable entry.
abbrev pub offers : Region → (page : ℕ) → Bool
offers r page =
    is_usable r
    && leb r.base (page * page_size)
    && leb (page * page_size + page_size) (r.base + r.length)

-- The number of usable entries that the page lies within.
unfoldable pub offered : List Region → (page : ℕ) → ℕ
offered [] page = 0
offered (r ∷ rs) page = bit (offers r page) + offered rs page

-- What the allocator's state is after the usable entries of `rs` are added to `s`.
pub record AllAdded (rs : List Region) (s r : Pmm) : Type 0 where
  pub sound : IsSound r
  pub bitmap :
      (page : ℕ) → r.bitmap page ≡ (if ltb 0 (offered rs page) then false else s.bitmap page)
  pub kept : r.max_page ≡ s.max_page

record RegionAdded (x : Region) (s : Pmm) : Type 0 where
  result : Pmm
  returns : add_region x s ≡ some result
  sound : IsSound result
  bitmap : (page : ℕ) → result.bitmap page ≡ (if offers x page then false else s.bitmap page)
  kept : result.max_page ≡ s.max_page

module _ (x : Region) (low : x.base + x.length < 2 ^ 63) where
  abbrev start : ℕ
  start = align_up x.base

  abbrev stop : ℕ
  stop = align_down (add64 x.base x.length)

  offers_lem :
      is_usable x ≡ true
      → (page : ℕ) → offers x page ≡ (leb (start / page_size) page && ltb page (stop / page_size))
  offers_lem u page = rw u (ground arith)

  add_region-RegionAdded :
      (s : Pmm)
      → IsSound s
      → ((page : ℕ) → offers x page ≡ true → s.bitmap page ≡ true)
      → RegionAdded x s
  unfolding add_region
  add_region-RegionAdded s sound marked = elim (Bool-cases (is_usable x)) [
    | inl u ↦
        let done =
          add_blocks-Added stop (omega arith) (omega arith) (stop / page_size + 1) start s
            (omega arith) (omega arith) sound (λ page h. marked page (offers_lem u page ∙ h)) in
        record {
          result = done.result;
          returns = rw (u, add_region) done.returns;
          sound = done.added.sound;
          bitmap = λ page. rw (offers_lem u page) (done.added.bitmap page);
          kept = done.added.kept;
        }
    | inr n ↦ record {
      result = s;
      returns = rw (n, add_region) refl;
      sound = sound;
      bitmap = λ page. ground (arith, n);
      kept = refl;
    }
  ]

pub record RegionsAdded (rs : List Region) (s : Pmm) : Type 0 where
  pub result : Pmm
  pub returns : add_regions rs s ≡ some result
  pub added : AllAdded rs s result

pub add_regions-RegionsAdded :
    (rs : List Region) (s : Pmm)
    → AllLow rs
    → ((page : ℕ) → offered rs page ≤ 1)
    → IsSound s
    → ((page : ℕ) → 0 < offered rs page → s.bitmap page ≡ true)
    → RegionsAdded rs s
unfolding add_regions offered
add_regions-RegionsAdded [] s low apart sound marked = record {
  result = s;
  returns = refl;
  added = record { sound = sound; bitmap = λ page. refl; kept = refl };
}
add_regions-RegionsAdded (x ∷ rs) s low apart sound marked =
    let one = add_region-RegionAdded x low.0 s sound (λ page h. marked page (ground arith)) in
    let rest =
      add_regions-RegionsAdded rs one.result low.1 (λ page. omega (arith, apart page)) one.sound
        (λ page h. ground (arith, one.bitmap page, marked page, apart page)) in
    record {
      result = rest.result;
      returns = rw (one.returns, add_regions) rest.returns;
      added = record {
        sound = rest.added.sound;
        bitmap = λ page. ground (arith, rest.added.bitmap page, one.bitmap page);
        kept = rest.added.kept ∙ one.kept;
      };
    }
