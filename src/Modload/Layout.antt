-- ===== src/Modload/Layout.antt =====
-- kernel/main/util/elf/elf_loader.c: mod_align_up, and where elf_load_module places the sections.
use Prim.Native.Nat.{bit_and, min}
use native.Mathlib.Nat.{pow-suc, one-le-pow}
use osfix_operating_system.Base.{
  bit_and-lowest, ℕ, zero, suc, ◌+◌, ◌-◌, ◌*◌, ◌/◌, ◌%◌, ◌^◌, ◌≤◌, ◌<◌, ◌≡◌, refl, sym, ap, ◌∙◌,
  subst, arith, Bool-cases, inl, inr, true, false, List, [], ◌∷◌, ◌⊎◌, add64, leb, ◌==◌,
}
use osfix_operating_system.Elf.{Shdr, shf_alloc}
use osfix_operating_system.Modload.{mod_align_up, layout}

-- A mask of j ones keeps a number of j bits.
bit_and-ones : (j a : ℕ) → a < 2 ^ j → bit_and a (2 ^ j - 1) ≡ a
bit_and-ones zero zero h = refl
bit_and-ones zero (suc a) h = absurd (omega arith)
bit_and-ones (suc j) a h =
    let e : (2 ^ suc j - 1) / 2 ≡ 2 ^ j - 1 = omega (arith, pow-suc 2 j, one-le-pow j 2) in
    let step = bit_and-lowest a (2 ^ suc j - 1) in
    let ih = bit_and-ones j (a / 2) (omega (arith, pow-suc 2 j)) in
    let half : bit_and (a / 2) ((2 ^ suc j - 1) / 2) ≡ a / 2 = ap (bit_and (a / 2)) e ∙ ih in
    omega (arith, step, half, pow-suc 2 j, one-le-pow j 2)

-- A multiple of 2^k that is at most 2^k - 1 below a.
pub record IsRounded (k a r : ℕ) : Type 0 where
  pub low : r ≤ a
  pub near : a < r + 2 ^ k
  pub quotient : ℕ
  pub multiple : r ≡ quotient * 2 ^ k

-- A mask of ones above k zeros rounds down.
bit_and-IsRounded : (k j a : ℕ) → a < 2 ^ (k + j) → IsRounded k a (bit_and a (2 ^ (k + j) - 2 ^ k))
bit_and-IsRounded zero j a h =
    let e : 0 + j ≡ j = omega arith in
    let lt : a < 2 ^ j = subst (λ n. a < 2 ^ n) e h in
    let same : bit_and a (2 ^ (0 + j) - 1) ≡ a =
      ap (λ n. bit_and a (2 ^ n - 1)) e ∙ bit_and-ones j a lt in
    rw same (record { low = omega arith; near = omega arith; quotient = a; multiple = omega arith })
bit_and-IsRounded (suc k) j a h =
    let e : suc k + j ≡ suc (k + j) = omega arith in
    let p : 2 ^ (suc k + j) ≡ 2 * 2 ^ (k + j) =
      ap (λ n. 2 ^ n) e ∙ omega (arith, pow-suc 2 (k + j)) in
    let half : (2 ^ (suc k + j) - 2 ^ suc k) / 2 ≡ 2 ^ (k + j) - 2 ^ k =
      omega (arith, p, pow-suc 2 k) in
    let ih = bit_and-IsRounded k j (a / 2) (omega (arith, p)) in
    let step : bit_and a (2 ^ (suc k + j) - 2 ^ suc k) ≡ bit_and (a / 2) (2 ^ (k + j) - 2 ^ k) * 2 =
      bit_and-lowest a (2 ^ (suc k + j) - 2 ^ suc k)
      ∙ (ap (λ n. min (a % 2) ((2 ^ (suc k + j) - 2 ^ suc k) % 2) + 2 * bit_and (a / 2) n) half
          ∙ omega (arith, p, pow-suc 2 k)) in
    let double : ih.quotient * 2 ^ suc k ≡ ih.quotient * 2 ^ k * 2 =
      omega (arith, ap (λ n. ih.quotient * n) (pow-suc 2 k)) in
    rw step (record {
      low = omega (arith, ih.low);
      near = omega (arith, ih.near, pow-suc 2 k);
      quotient = ih.quotient;
      multiple = omega (arith, ih.multiple, double);
    })

-- An alignment that the loader takes: none, or a power of two.
pub record IsAlign (align : ℕ) : Type 0 where
  pub log : ℕ
  pub small : log < 64
  pub power : (align ≡ 2 ^ log) ⊎ ((align ≡ 0) × (log ≡ 0))

-- mod_align_up gives the least multiple of the alignment that is not below the value.
pub record IsAligned (val log r : ℕ) : Type 0 where
  pub above : val ≤ r
  pub near : r < val + 2 ^ log
  pub quotient : ℕ
  pub multiple : r ≡ quotient * 2 ^ log

pow2-le : (k n : ℕ) → k ≤ n → 2 ^ k ≤ 2 ^ n
pow2-le k zero h = let e : k ≡ 0 = omega arith in rw e (omega arith)
pow2-le k (suc n) h = elim (Bool-cases (k == suc n)) [
  | inl same ↦ let e : k ≡ suc n = ground arith in rw e (omega arith)
  | inr less ↦ omega (arith, pow2-le k n (ground arith), pow-suc 2 n)
]

align-one : (align : ℕ) (w : IsAlign align) → align ≤ 1 → 2 ^ w.log ≡ 1
align-one align w h = elim w.power [
  | inl e ↦ omega (arith, e, one-le-pow w.log 2)
  | inr (e, e') ↦ ap (λ n. 2 ^ n) e'
]

align-power : (align : ℕ) (w : IsAlign align) → 1 < align → align ≡ 2 ^ w.log
align-power align w h = elim w.power [ inl e ↦ e | inr (e, e') ↦ absurd (omega (arith, e)) ]

pub mod_align_up-IsAligned :
    (val align : ℕ) (w : IsAlign align)
    → val + 2 ^ w.log ≤ 2 ^ 64
    → val < 2 ^ 64
    → IsAligned val w.log (mod_align_up val align)
unfolding mod_align_up
mod_align_up-IsAligned val align w room lt = elim (Bool-cases (leb align 1)) [
  | inl tiny ↦
      let one = align-one align w (ground arith) in
      rw tiny (record {
        above = omega arith;
        near = omega (arith, one);
        quotient = val;
        multiple = omega (arith, ap (λ n. val * n) one);
      })
  | inr big ↦
      let e = align-power align w (ground arith) in
      let full : w.log + (64 - w.log) ≡ 64 = omega arith in
      let sum : ((val + align) % 2 ^ 64 + 2 ^ 64 - 1) % 2 ^ 64 ≡ val + align - 1 =
        omega (arith, e, one-le-pow w.log 2) in
      let mask : 2 ^ 64 - 1 - (align - 1) ≡ 2 ^ (w.log + (64 - w.log)) - 2 ^ w.log =
        omega (arith, e, ap (λ n. 2 ^ n) full, one-le-pow w.log 2) in
      let r =
        bit_and-IsRounded w.log (64 - w.log) (val + align - 1)
          (omega (arith, e, ap (λ n. 2 ^ n) full, one-le-pow w.log 2)) in
      rw (big, sum, mask)
        (record {
          above = omega (arith, r.near, e, one-le-pow w.log 2);
          near = omega (arith, r.low, e, one-le-pow w.log 2);
          quotient = r.quotient;
          multiple = r.multiple;
        })
]

-- The sections lie one behind the other from `from` to `size`: those that are allocated, each at
-- the next address of its alignment.
abbrev pub IsPlaced : (from : ℕ) → List Shdr → (size : ℕ) → Type 0
IsPlaced from [] size = from ≡ size
IsPlaced from (s ∷ ss) size = elim (shf_alloc s.sh_flags) [
  | false ↦ IsPlaced from ss size
  | true ↦
      ((w : IsAlign s.sh_addralign) × IsAligned from w.log s.sh_addr)
      × IsPlaced (s.sh_addr + s.sh_size) ss size
]

abbrev pub AllAlign : List Shdr → Type 0
AllAlign [] = Unit
AllAlign (s ∷ ss) = IsAlign s.sh_addralign × AllAlign ss

-- More than the sections can take.
abbrev pub extent : List Shdr → ℕ
extent [] = 0
extent (s ∷ ss) = s.sh_size + s.sh_addralign + extent ss

align-le : (align : ℕ) (w : IsAlign align) → 2 ^ w.log ≤ align + 1
align-le align w = elim w.power [
  | inl e ↦ omega (arith, e)
  | inr (e, e') ↦ omega (arith, ap (λ n. 2 ^ n) e')
]

IsPlaced-alloc :
    (from : ℕ) (s : Shdr) (ss : List Shdr) (size : ℕ)
    → shf_alloc s.sh_flags ≡ true
    → ((w : IsAlign s.sh_addralign) × IsAligned from w.log s.sh_addr)
    → IsPlaced (s.sh_addr + s.sh_size) ss size
    → IsPlaced from (s ∷ ss) size
IsPlaced-alloc from s ss size e here later =
    subst
      (λ b. elim b as (λ _. Type 0) [
        | false ↦ IsPlaced from ss size
        | true ↦
            ((w : IsAlign s.sh_addralign) × IsAligned from w.log s.sh_addr)
            × IsPlaced (s.sh_addr + s.sh_size) ss size
      ])
      (sym e) (here, later)

IsPlaced-skip :
    (from : ℕ) (s : Shdr) (ss : List Shdr) (size : ℕ)
    → shf_alloc s.sh_flags ≡ false
    → IsPlaced from ss size
    → IsPlaced from (s ∷ ss) size
IsPlaced-skip from s ss size e later =
    subst
      (λ b. elim b as (λ _. Type 0) [
        | false ↦ IsPlaced from ss size
        | true ↦
            ((w : IsAlign s.sh_addralign) × IsAligned from w.log s.sh_addr)
            × IsPlaced (s.sh_addr + s.sh_size) ss size
      ])
      (sym e) later

layout-alloc :
    (s : Shdr) (ss : List Shdr) (from : ℕ)
    → shf_alloc s.sh_flags ≡ true
    → layout (s ∷ ss) from ≡ (
      record s { sh_addr = mod_align_up from s.sh_addralign }
          ∷ (layout ss (add64 (mod_align_up from s.sh_addralign) s.sh_size)).0,
      (layout ss (add64 (mod_align_up from s.sh_addralign) s.sh_size)).1,
    )
unfolding layout
layout-alloc s ss from e = rw e refl

layout-skip :
    (s : Shdr) (ss : List Shdr) (from : ℕ)
    → shf_alloc s.sh_flags ≡ false
    → layout (s ∷ ss) from ≡ (s ∷ (layout ss from).0, (layout ss from).1)
unfolding layout
layout-skip s ss from e = rw e refl

-- The loader gives the allocated sections of a file places that do not overlap, each at its
-- alignment and in the order of the headers, and the image is as large as they need, if the sizes
-- and alignments add up to less than 2^63 and the alignments are powers of two (0 for none).
pub layout-IsPlaced :
    (ss : List Shdr) (from : ℕ)
    → AllAlign ss
    → from + extent ss < 2 ^ 63
    → IsPlaced from (layout ss from).0 (layout ss from).1
unfolding layout
layout-IsPlaced [] from ok room = refl
layout-IsPlaced (s ∷ ss) from (w, ok) room = elim (Bool-cases (shf_alloc s.sh_flags)) [
  | inr out ↦
      subst (λ r. IsPlaced from r.0 r.1) (sym (layout-skip s ss from out))
        (IsPlaced-skip from s (layout ss from).0 (layout ss from).1 out
          (layout-IsPlaced ss from ok (omega arith)))
  | inl here ↦
      let place =
        mod_align_up-IsAligned from s.sh_addralign w (omega (arith, align-le s.sh_addralign w))
          (omega arith) in
      let start = mod_align_up from s.sh_addralign in
      let bound : start ≤ from + s.sh_addralign =
        omega (arith, place.near, align-le s.sh_addralign w) in
      let e : add64 start s.sh_size ≡ start + s.sh_size = omega (arith, bound) in
      let next = layout ss (add64 start s.sh_size) in
      let later : IsPlaced (start + s.sh_size) next.0 next.1 =
        subst (λ n. IsPlaced (start + s.sh_size) (layout ss n).0 (layout ss n).1) (sym e)
          (layout-IsPlaced ss (start + s.sh_size) ok (omega (arith, bound))) in
      subst (λ r. IsPlaced from r.0 r.1) (sym (layout-alloc s ss from here))
        (IsPlaced-alloc from (record s { sh_addr = start }) next.0 next.1 here (w, place) later)
]
