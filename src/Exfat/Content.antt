-- ===== src/Exfat/Content.antt =====
-- fs/exfat/exfat.c: what exfat_read returns of a file whose clusters follow each other.
use native.Mathlib.Nat.{add-mul-div_right, add-mul-mod_self_right}
use native.Mathlib.Numerals.{unary_clauses}
use osfix_operating_system.Base.{
  subst, ℕ, zero, suc, ◌+◌, ◌-◌, ◌*◌, ◌/◌, ◌%◌, ◌^◌, ◌≤◌, ◌<◌, ◌≡◌, refl, ap, ap₂, ◌∙◌, false,
  Option, none, some, [], ◌∷◌, ◌++◌, ltb, arith, Bool-cases, inl, inr,
}
use osfix_operating_system.Memory.{Memory}
use osfix_operating_system.Exfat.{ExfatFs, Device, exfat_cluster_to_sector}
use osfix_operating_system.Exfat.Disk.{Holds}
use osfix_operating_system.Exfat.Read.{order_for, bytes_from}

-- The buffer has room for a cluster.
pub order_for-room :
    (rounds order size : ℕ)
    → size ≤ 4096 * 2 ^ (order + rounds)
    → size ≤ 4096 * 2 ^ order_for rounds order size
unfolding order_for
order_for-room zero order size room = simp unary_clauses at room
order_for-room (suc rounds) order size room = elim (Bool-cases (ltb (4096 * 2 ^ order) size)) [
  | inl more ↦
      let next : order + suc rounds ≡ order + 1 + rounds = omega arith in
      rw more (order_for-room rounds (order + 1) size (subst (λ n. size ≤ 4096 * 2 ^ n) next room))
  | inr enough ↦ rw enough (ground (arith, enough))
]

pub bytes_from-agree :
    (n p q : ℕ) (a b : Memory)
    → ((i : ℕ) → i < n → a (p + i) ≡ b (q + i))
    → bytes_from n p a ≡ bytes_from n q b
unfolding bytes_from
bytes_from-agree zero p q a b same = refl
bytes_from-agree (suc n) p q a b same =
    ap₂ (λ x l. x ∷ l) (ap a (omega arith) ∙ same 0 (omega arith) ∙ ap b (omega arith))
      (bytes_from-agree n (p + 1) (q + 1) a b
        (λ i below. ap a (omega arith) ∙ same (suc i) (omega arith) ∙ ap b (omega arith)))

pub bytes_from-add :
    (n k p : ℕ) (a : Memory) → bytes_from n p a ++ bytes_from k (p + n) a ≡ bytes_from (n + k) p a
unfolding bytes_from
bytes_from-add zero k p a =
    let here : p + 0 ≡ p = omega arith in let all : 0 + k ≡ k = omega arith in rw (here, all) refl
bytes_from-add (suc n) k p a =
    let here : p + suc n ≡ p + 1 + n = omega arith in
    let all : suc n + k ≡ suc (n + k) = omega arith in
    rw (here, all, bytes_from) (ap (λ l. a p ∷ l) (bytes_from-add n k (p + 1) a))

pub bytes_from-none : {n : ℕ} (p : ℕ) (a : Memory) → n ≡ 0 → bytes_from n p a ≡ []
unfolding bytes_from
bytes_from-none p a none_left = rw none_left refl

-- A buffer that was read, and what it holds.
pub record Got (size : ℕ) (got : Option Memory) (b : Memory) : Type 0 where
  pub buf : Memory
  pub is_some : got ≡ some buf
  pub same : (i : ℕ) → i < size → buf i ≡ b i

pub Holds-Got : (size : ℕ) (got : Option Memory) (b : Memory) → Holds size got b → Got size got b
Holds-Got size none b holds = absurd holds
Holds-Got size (some c) b holds = record { buf = c; is_some = refl; same = holds }

-- The sectors below `last` can be read, and hold the bytes of `disk`.
pub record IsReadable {W : Type 0} (d : Device W) (size last : ℕ) (disk : ℕ → Memory) (w : W)
    : Type 0 where
  pub reads :
      (sector count : ℕ)
      → sector + count ≤ last
      → Holds
          (count * size)
          (d.read_sectors w sector count)
          (λ i. disk (sector + i / size) (i % size))

-- The bytes of a file from its first cluster on.
abbrev pub content : ExfatFs → (disk : ℕ → Memory) → (first_cluster : ℕ) → Memory
content fs disk first_cluster p =
    disk
      (fs.cluster_heap_offset
        + (first_cluster - 2) * fs.sectors_per_cluster
        + p / fs.bytes_per_sector)
      (p % fs.bytes_per_sector)

module _ {W : Type 0} (d : Device W) (fs : ExfatFs) (disk : ℕ → Memory) (last : ℕ)
    (positive : 0 < fs.bytes_per_sector)
    (whole : fs.bytes_per_cluster ≡ fs.sectors_per_cluster * fs.bytes_per_sector) where
  pub sector-at :
      (first k : ℕ)
      → 2 ≤ first
      → exfat_cluster_to_sector fs (first + k)
        ≡ fs.cluster_heap_offset + (first - 2 + k) * fs.sectors_per_cluster
  unfolding exfat_cluster_to_sector
  sector-at first k low =
      let inside : ltb (first + k) 2 ≡ false = ground arith in
      let past : (first + k - 2) ≡ (first - 2) + k = omega arith in rw (inside, past) refl

  -- The bytes of the file's cluster of number `k`.
  pub cluster-content :
      (first k i : ℕ)
      → 2 ≤ first
      → disk
          (exfat_cluster_to_sector fs (first + k) + i / fs.bytes_per_sector)
          (i % fs.bytes_per_sector)
        ≡ content fs disk first (k * fs.bytes_per_cluster + i)
  cluster-content first k i low =
      let at : k * fs.bytes_per_cluster + i ≡ i + k * fs.sectors_per_cluster * fs.bytes_per_sector =
        rw whole (grind arith) in
      ap₂ disk
        (rw (sector-at first k low, at, add-mul-div_right i (k * fs.sectors_per_cluster) positive)
          (grind arith))
        (rw (at, add-mul-mod_self_right i (k * fs.sectors_per_cluster) fs.bytes_per_sector) refl)
