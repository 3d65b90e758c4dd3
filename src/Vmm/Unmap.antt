-- ===== src/Vmm/Unmap.antt =====
-- kernel/main/mm/vmm.c: what unmap_page leaves, for pages in a table and for huge pages.
use osfix_operating_system.Base.{ℕ, ◌≡◌, refl, ap, ◌∙◌, sym, arith}
use osfix_operating_system.Vmm.{
  Machine, present, huge, page_of, slot, write_slot, pml4_index, pdpt_index, pd_index, pt_index,
  unmap_page, virt_to_phys_user,
}
use osfix_operating_system.Vmm.Words.{Apart, store-same, store-other, slot-Apart}
use osfix_operating_system.Vmm.Translate.{Leads, translate-Leads, translate-huge}

-- The four tables on the way to an address, all different pages.
pub record Reached (virt : ℕ) (m : Machine) (pdpt pd pt : ℕ) : Type 0 where
  pub leads : Leads virt m pdpt pd pt
  pub apart₄ : Apart m.pml4 pt
  pub apart₃ : Apart pdpt pt
  pub apart₂ : Apart pd pt

unmap_page_lem :
    (virt pdpt pd pt : ℕ) (m : Machine)
    → Leads virt m pdpt pd pt
    → unmap_page virt m ≡ write_slot pt (pt_index virt) 0 m
unfolding unmap_page
unmap_page_lem virt pdpt pd pt m l =
    rw (l.leads₄, l.leads₃, l.leads₂, l.there₄, l.there₃, l.there₂) refl

-- A write to the last table leaves the way to it.
write-Leads :
    (virt pdpt pd pt e : ℕ) (m : Machine)
    → Reached virt m pdpt pd pt
    → Leads virt (write_slot pt (pt_index virt) e m) pdpt pd pt
      × (huge ((write_slot pt (pt_index virt) e m).words (slot pd (pd_index virt)))
          ≡ huge (m.words (slot pd (pd_index virt))))
write-Leads virt pdpt pd pt e m w =
    let l = w.leads in
    let e₄ = store-other (slot pt (pt_index virt)) e m.words (slot m.pml4 (pml4_index virt)) (
      slot-Apart m.pml4 pt (pml4_index virt) (pt_index virt) w.apart₄ (omega arith)
        (omega arith)) in
    let e₃ =
      store-other (slot pt (pt_index virt)) e m.words (slot pdpt (pdpt_index virt)) (
        slot-Apart pdpt pt (pdpt_index virt) (pt_index virt) w.apart₃ (omega arith)
          (omega arith)) in
    let e₂ =
      store-other (slot pt (pt_index virt)) e m.words (slot pd (pd_index virt))
        (slot-Apart pd pt (pd_index virt) (pt_index virt) w.apart₂ (omega arith) (omega arith)) in
    (
      record {
        there₄ = ap present e₄ ∙ l.there₄;
        leads₄ = ap page_of e₄ ∙ l.leads₄;
        there₃ = ap present e₃ ∙ l.there₃;
        leads₃ = ap page_of e₃ ∙ l.leads₃;
        there₂ = ap present e₂ ∙ l.there₂;
        leads₂ = ap page_of e₂ ∙ l.leads₂;
        tables = l.tables;
      },
      ap huge e₂,
    )

-- After unmap_page an address whose page stands in a table, no part of a huge page, translates
-- to 0, if the table is not one of the upper ones.
pub unmap_page-translates :
    (virt pdpt pd pt : ℕ) (m : Machine)
    → Reached virt m pdpt pd pt
    → huge (m.words (slot pd (pd_index virt))) ≡ 0
    → virt_to_phys_user virt (unmap_page virt m) ≡ 0
unmap_page-translates virt pdpt pd pt m w small =
    let m' = write_slot pt (pt_index virt) 0 m in
    let (leads, size) = write-Leads virt pdpt pd pt 0 m w in
    let gone : m'.words (slot pt (pt_index virt)) ≡ 0 =
      store-same (slot pt (pt_index virt)) 0 m.words in
    ap (virt_to_phys_user virt) (unmap_page_lem virt pdpt pd pt m w.leads)
    ∙ (translate-Leads virt pdpt pd pt m' leads (size ∙ small) ∙ rw gone refl)

-- On a part of a huge page unmap_page fails silently: the address translates as before, and a
-- word of the memory that the huge page maps is set to 0.
pub unmap_page-huge :
    (virt pdpt pd pt : ℕ) (m : Machine)
    → Reached virt m pdpt pd pt
    → huge (m.words (slot pd (pd_index virt))) ≡ 1
    → (virt_to_phys_user virt (unmap_page virt m) ≡ virt_to_phys_user virt m)
      × ((unmap_page virt m).words (slot pt (pt_index virt)) ≡ 0)
unmap_page-huge virt pdpt pd pt m w big =
    let m' = write_slot pt (pt_index virt) 0 m in
    let (leads, size) = write-Leads virt pdpt pd pt 0 m w in
    let e = unmap_page_lem virt pdpt pd pt m w.leads in
    (
      ap (virt_to_phys_user virt) e
          ∙ (translate-huge virt pdpt pd pt m' leads (size ∙ big)
              ∙ sym (translate-huge virt pdpt pd pt m w.leads big)),
      ap (λ n. n.words (slot pt (pt_index virt))) e
          ∙ store-same (slot pt (pt_index virt)) 0 m.words,
    )
