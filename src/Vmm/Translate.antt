-- ===== src/Vmm/Translate.antt =====
-- kernel/main/mm/vmm.c: what virt_to_phys_user finds after map_page and after unmap_page.
use osfix_operating_system.Base.{
  ℕ, ◌+◌, ◌%◌, ◌^◌, ◌<◌, ◌≡◌, refl, ap, ◌∙◌, arith, false, ◌==◌, some, if◌then◌else◌, add64,
}
use osfix_operating_system.Vmm.{
  Machine, present, huge, page_of, addr_of, slot, leaf_entry, user_bit_of, write_slot, pml4_index,
  pdpt_index, pd_index, pt_index, walk_or_alloc, map_in, map_page, virt_to_phys_user,
}
use osfix_operating_system.Vmm.Words.{leaf_entry_lem, Apart, store-same, store-other, slot-Apart}
use osfix_operating_system.Vmm.Walk.{walk-Walked}

abbrev pub IsTable : ℕ → Type 0
IsTable p = (p % 4096 ≡ 0) × (p < 2 ^ 52)

-- The walk of map_page succeeds, through four tables that are different pages, and the page is no
-- part of a huge one.
pub record Walks (virt flags : ℕ) (m : Machine) : Type 0 where
  pub pdpt : ℕ
  pub pd : ℕ
  pub pt : ℕ
  pub m₁ : Machine
  pub m₂ : Machine
  pub m₃ : Machine
  pub to_pdpt : walk_or_alloc m.pml4 (pml4_index virt) (user_bit_of flags) m ≡ some (pdpt, m₁)
  pub to_pd : walk_or_alloc pdpt (pdpt_index virt) (user_bit_of flags) m₁ ≡ some (pd, m₂)
  pub to_pt : walk_or_alloc pd (pd_index virt) (user_bit_of flags) m₂ ≡ some (pt, m₃)
  pub small : huge (m₂.words (slot pd (pd_index virt))) ≡ 0
  pub tables : IsTable pdpt × IsTable pd × IsTable pt
  pub apart₄ : Apart m.pml4 pdpt × Apart m.pml4 pd × Apart m.pml4 pt
  pub apart₃ : Apart pdpt pd × Apart pdpt pt
  pub apart₂ : Apart pd pt

map_page-Walks :
    (virt phys flags : ℕ) (m : Machine) (w : Walks virt flags m)
    → map_page virt phys flags m
      ≡ some (write_slot w.pt (pt_index virt) (leaf_entry phys flags) w.m₃)
unfolding map_page map_in
map_page-Walks virt phys flags m w =
    let e : (huge (w.m₂.words (slot w.pd (pd_index virt))) == 1) ≡ false =
      ground (arith, w.small) in
    rw (w.to_pdpt, map_page, w.to_pd, e, w.to_pt, map_in) refl

-- What virt_to_phys_user needs of the entries of a page that is not huge.
pub record Leads (virt : ℕ) (m : Machine) (pdpt pd pt : ℕ) : Type 0 where
  pub there₄ : present (m.words (slot m.pml4 (pml4_index virt))) ≡ 1
  pub leads₄ : page_of (m.words (slot m.pml4 (pml4_index virt))) ≡ pdpt
  pub there₃ : present (m.words (slot pdpt (pdpt_index virt))) ≡ 1
  pub leads₃ : page_of (m.words (slot pdpt (pdpt_index virt))) ≡ pd
  pub there₂ : present (m.words (slot pd (pd_index virt))) ≡ 1
  pub leads₂ : page_of (m.words (slot pd (pd_index virt))) ≡ pt
  pub tables : IsTable pdpt × IsTable pd × IsTable pt

page-addr : (w p : ℕ) → page_of w ≡ p → p < 2 ^ 52 → addr_of w ≡ p
page-addr w p e lt = omega (arith, e)

-- The translation is decided by the entry in the last table.
pub translate-Leads :
    (virt pdpt pd pt : ℕ) (m : Machine)
    → Leads virt m pdpt pd pt
    → huge (m.words (slot pd (pd_index virt))) ≡ 0
    → virt_to_phys_user virt m ≡ (
        if present (m.words (slot pt (pt_index virt))) == 0
        then 0
        else add64 (addr_of (m.words (slot pt (pt_index virt)))) (virt % 4096))
unfolding virt_to_phys_user
translate-Leads virt pdpt pd pt m l small =
    let (t₃, t₂, t₁) = l.tables in
    let a₄ = page-addr (m.words (slot m.pml4 (pml4_index virt))) pdpt l.leads₄ t₃.1 in
    let a₃ = page-addr (m.words (slot pdpt (pdpt_index virt))) pd l.leads₃ t₂.1 in
    let a₂ = page-addr (m.words (slot pd (pd_index virt))) pt l.leads₂ t₁.1 in
    rw (a₄, a₃, a₂, l.there₄, l.there₃, l.there₂, small) refl

-- A huge page is translated by its directory's entry.
pub translate-huge :
    (virt pdpt pd pt : ℕ) (m : Machine)
    → Leads virt m pdpt pd pt
    → huge (m.words (slot pd (pd_index virt))) ≡ 1
    → virt_to_phys_user virt m ≡ add64 pt (virt % 2 ^ 21)
unfolding virt_to_phys_user
translate-huge virt pdpt pd pt m l big =
    let (t₃, t₂, t₁) = l.tables in
    let a₄ = page-addr (m.words (slot m.pml4 (pml4_index virt))) pdpt l.leads₄ t₃.1 in
    let a₃ = page-addr (m.words (slot pdpt (pdpt_index virt))) pd l.leads₃ t₂.1 in
    let a₂ = page-addr (m.words (slot pd (pd_index virt))) pt l.leads₂ t₁.1 in
    rw (a₄, a₃, a₂, l.there₄, l.there₃, l.there₂, big) refl

-- After the walk and a write to the last table the entries lead from one table to the next.
Walks-Leads :
    (virt flags : ℕ) (m : Machine) (w : Walks virt flags m) (e : ℕ)
    → Leads virt (write_slot w.pt (pt_index virt) e w.m₃) w.pdpt w.pd w.pt
      × (huge ((write_slot w.pt (pt_index virt) e w.m₃).words (slot w.pd (pd_index virt))) ≡ 0)
Walks-Leads virt flags m w e =
    let (t₃, t₂, t₁) = w.tables in
    let (a₄₃, a₄₂, a₄₁) = w.apart₄ in
    let (a₃₂, a₃₁) = w.apart₃ in
    let u_lt : user_bit_of flags < 128 = omega arith in
    let l₄ =
      walk-Walked m.pml4 (pml4_index virt) (user_bit_of flags) w.pdpt m w.m₁ w.to_pdpt u_lt t₃.0
        (omega arith) in
    let l₃ =
      walk-Walked w.pdpt (pdpt_index virt) (user_bit_of flags) w.pd w.m₁ w.m₂ w.to_pd u_lt t₂.0
        (omega arith) in
    let l₂ =
      walk-Walked w.pd (pd_index virt) (user_bit_of flags) w.pt w.m₂ w.m₃ w.to_pt u_lt t₁.0
        (omega arith) in
    let m' = write_slot w.pt (pt_index virt) e w.m₃ in
    let last : (p i : ℕ) → i < 512 → Apart p w.pt → m'.words (slot p i) ≡ w.m₃.words (slot p i) =
      λ p i lt ap.
        store-other (slot w.pt (pt_index virt)) e w.m₃.words (slot p i)
          (slot-Apart p w.pt i (pt_index virt) ap lt (omega arith)) in
    let e₄ : m'.words (slot m.pml4 (pml4_index virt)) ≡ w.m₁.words (slot m.pml4 (pml4_index virt)) =
      last m.pml4 (pml4_index virt) (omega arith) a₄₁
      ∙ (l₂.kept m.pml4 (pml4_index virt) (omega arith) a₄₂ a₄₁
          ∙ l₃.kept m.pml4 (pml4_index virt) (omega arith) a₄₃ a₄₂) in
    let e₃ : m'.words (slot w.pdpt (pdpt_index virt)) ≡ w.m₂.words (slot w.pdpt (pdpt_index virt)) =
      last w.pdpt (pdpt_index virt) (omega arith) a₃₁
      ∙ l₂.kept w.pdpt (pdpt_index virt) (omega arith) a₃₂ a₃₁ in
    let e₂ : m'.words (slot w.pd (pd_index virt)) ≡ w.m₃.words (slot w.pd (pd_index virt)) =
      last w.pd (pd_index virt) (omega arith) w.apart₂ in
    let root : m'.pml4 ≡ m.pml4 = l₂.pml4 ∙ (l₃.pml4 ∙ l₄.pml4) in
    let at_root : m'.words (slot m'.pml4 (pml4_index virt))
        ≡ w.m₁.words (slot m.pml4 (pml4_index virt)) =
      ap (λ p. m'.words (slot p (pml4_index virt))) root ∙ e₄ in
    (
      record {
        there₄ = ap present at_root ∙ l₄.there;
        leads₄ = ap page_of at_root ∙ l₄.leads;
        there₃ = ap present e₃ ∙ l₃.there;
        leads₃ = ap page_of e₃ ∙ l₃.leads;
        there₂ = ap present e₂ ∙ l₂.there;
        leads₂ = ap page_of e₂ ∙ l₂.leads;
        tables = w.tables;
      },
      ap huge e₂ ∙ l₂.same_size w.small,
    )

-- map_page at a page that is no part of a huge one, with flags below 4096: if the walk, which makes
-- the tables that are missing, meets four different pages, then the address translates to the
-- physical page that was asked for, with the offset in it.
pub map_page-translates :
    (virt phys flags : ℕ) (m : Machine)
    → flags < 4096
    → Walks virt flags m
    → (m' : Machine) × (map_page virt phys flags m ≡ some m')
      × (virt_to_phys_user virt m' ≡ addr_of phys + virt % 4096)
map_page-translates virt phys flags m small w =
    let leaf = leaf_entry phys flags in
    let m' = write_slot w.pt (pt_index virt) leaf w.m₃ in
    let (leads, size) = Walks-Leads virt flags m w leaf in
    let (there, addr) = leaf_entry_lem phys flags small in
    let at_leaf : m'.words (slot w.pt (pt_index virt)) ≡ leaf =
      store-same (slot w.pt (pt_index virt)) leaf w.m₃.words in
    (
      m',
      map_page-Walks virt phys flags m w,
      translate-Leads virt w.pdpt w.pd w.pt m' leads size ∙ rw (at_leaf, there, addr) (omega arith),
    )
