-- ===== src/Vmm/Walk.antt =====
-- kernel/main/mm/vmm.c: one level of the walk that makes the tables it needs.
use osfix_operating_system.Base.{
  ℕ, ◌%◌, ◌<◌, ◌≡◌, refl, sym, ap, ◌∙◌, subst, arith, Bool-cases, Option-cases, inl, inr, true,
  false, ◌==◌, Option, none, some,
}
use mathlib.Core.Option.{some-injective, none-ne-some}
use Prim.Native.Nat.{bit_or}
use osfix_operating_system.Pmm.{palloc}
use osfix_operating_system.Vmm.{
  Machine, present, huge, page_of, slot, clear_page, child_entry, write_slot, alloc_table,
  walk_or_alloc,
}
use osfix_operating_system.Vmm.Words.{
  bit_or-parity, bit_or-huge, child_entry_lem, Apart, store-same, store-other, clear_page-Apart,
  slot-Apart,
}

-- One level of the walk: the entry leads to `child`, and other tables keep their entries.
pub record Walked (table idx child : ℕ) (m m' : Machine) : Type 0 where
  pub there : present (m'.words (slot table idx)) ≡ 1
  pub leads : page_of (m'.words (slot table idx)) ≡ child
  pub same_size : huge (m.words (slot table idx)) ≡ 0 → huge (m'.words (slot table idx)) ≡ 0
  pub pml4 : m'.pml4 ≡ m.pml4
  pub kept :
      (p i : ℕ) → i < 512 → Apart p table → Apart p child → m'.words (slot p i) ≡ m.words (slot p i)

alloc_table-out : (m : Machine) → ((palloc m.pmm).0 == 0) ≡ true → alloc_table m ≡ none
unfolding alloc_table
alloc_table-out m out = rw out refl

alloc_table-got :
    (m : Machine)
    → ((palloc m.pmm).0 == 0) ≡ false
    → alloc_table m
      ≡ some (
        (palloc m.pmm).0,
        record m { pmm = (palloc m.pmm).1; words = clear_page (palloc m.pmm).0 m.words },
      )
unfolding alloc_table
alloc_table-got m got = rw got refl

-- A table that was made is cleared.
alloc_table-some :
    (m : Machine) (child : ℕ) (m' : Machine)
    → alloc_table m ≡ some (child, m')
    → (m'.words ≡ clear_page child m.words) × (m'.pml4 ≡ m.pml4)
unfolding alloc_table
alloc_table-some m child m' h = elim (Bool-cases ((palloc m.pmm).0 == 0)) [
  | inl out ↦ absurd (none-ne-some _ (sym (alloc_table-out m out) ∙ h))
  | inr got ↦
      subst (λ r. (r.1.words ≡ clear_page r.0 m.words) × (r.1.pml4 ≡ m.pml4))
        (some-injective _ _ (sym (alloc_table-got m got) ∙ h)) (refl, refl)
]

fresh-Walked :
    (table idx user_bit child : ℕ) (m m₁ : Machine)
    → m₁.words ≡ clear_page child m.words
    → m₁.pml4 ≡ m.pml4
    → user_bit < 128
    → child % 4096 ≡ 0
    → idx < 512
    → Walked table idx child m (write_slot table idx (child_entry child user_bit) m₁)
fresh-Walked table idx u child m m₁ e e' small aligned lt =
    let w = child_entry child u in
    let (there, size, leads) = child_entry_lem child u aligned small in
    let written : (write_slot table idx w m₁).words (slot table idx) ≡ w =
      store-same (slot table idx) w m₁.words in
    record {
      there = ap present written ∙ there;
      leads = ap page_of written ∙ leads;
      same_size = λ _. ap huge written ∙ size;
      pml4 = e';
      kept = λ p i lt' apart apart'.
          store-other (slot table idx) w m₁.words (slot p i) (slot-Apart p table i idx apart lt' lt)
          ∙ (ap (λ f. f (slot p i)) e ∙ clear_page-Apart child m.words p i apart' lt');
    }

old-Walked :
    (table idx user_bit : ℕ) (m : Machine)
    → (present (m.words (slot table idx)) == 0) ≡ false
    → user_bit < 128
    → idx < 512
    → Walked table idx
        (page_of (bit_or (m.words (slot table idx)) user_bit))
        m
        (write_slot table idx (bit_or (m.words (slot table idx)) user_bit) m)
old-Walked table idx u m old small lt =
    let v = m.words (slot table idx) in
    let w = bit_or v u in
    let written : (write_slot table idx w m).words (slot table idx) ≡ w =
      store-same (slot table idx) w m.words in
    let one : present v ≡ 1 = ground arith in
    record {
      there = ap present written ∙ omega (arith, bit_or-parity v u);
      leads = ap page_of written;
      same_size = λ e. ap huge written ∙ (bit_or-huge v u small ∙ e);
      pml4 = refl;
      kept = λ p i lt' apart _.
          store-other (slot table idx) w m.words (slot p i) (slot-Apart p table i idx apart lt' lt);
    }

walk-old :
    (table idx user_bit : ℕ) (m : Machine)
    → (present (m.words (slot table idx)) == 0) ≡ false
    → walk_or_alloc table idx user_bit m
      ≡ some (
        page_of (bit_or (m.words (slot table idx)) user_bit),
        write_slot table idx (bit_or (m.words (slot table idx)) user_bit) m,
      )
unfolding walk_or_alloc
walk-old table idx u m old = rw old refl

walk-fresh :
    (table idx user_bit : ℕ) (m : Machine) (o : Option (ℕ × Machine))
    → (present (m.words (slot table idx)) == 0) ≡ true
    → alloc_table m ≡ o
    → walk_or_alloc table idx user_bit m ≡ elim o as (λ _. Option (ℕ × Machine)) [
      | none ↦ none
      | some (child, m') ↦ some (child, write_slot table idx (child_entry child user_bit) m')
    ]
unfolding walk_or_alloc
walk-fresh table idx u m o fresh e = rw (fresh, e) refl

pub walk-Walked :
    (table idx user_bit child : ℕ) (m m' : Machine)
    → walk_or_alloc table idx user_bit m ≡ some (child, m')
    → user_bit < 128
    → child % 4096 ≡ 0
    → idx < 512
    → Walked table idx child m m'
walk-Walked table idx u child m m' h small aligned lt =
    elim (Bool-cases (present (m.words (slot table idx)) == 0)) [
      | inl fresh ↦ elim (Option-cases (alloc_table m)) [
        | inl out ↦ absurd (none-ne-some _ (sym (walk-fresh table idx u m none fresh out) ∙ h))
        | inr ((c, m₁), got) ↦
            let (cleared, same) = alloc_table-some m c m₁ got in
            subst (λ r. r.0 % 4096 ≡ 0 → Walked table idx r.0 m r.1)
              (some-injective _ _ (sym (walk-fresh table idx u m (some (c, m₁)) fresh got) ∙ h))
              (λ al. fresh-Walked table idx u c m m₁ cleared same small al lt) aligned
      ]
      | inr old ↦
          subst (λ r. Walked table idx r.0 m r.1)
            (some-injective _ _ (sym (walk-old table idx u m old) ∙ h))
            (old-Walked table idx u m old small lt)
    ]
