-- ===== src/Exfat/Disk.antt =====
-- What fs/exfat/exfat.c relies on of a storage device, and the numbers in its sectors.
use native.Mathlib.Nat.{mod-add-div', mod-lt}
use osfix_operating_system.Base.{
  ℕ, zero, suc, ◌+◌, ◌*◌, ◌/◌, ◌%◌, ◌≤◌, ◌<◌, ◌≡◌, ◌≢◌, refl, ap, sym, ◌∙◌, Bool-cases,
  Option-cases, ◌==◌, true, false, Option, none, some, arith, inl, inr, ◌⊎◌,
}
use osfix_operating_system.Memory.{Memory}
use osfix_operating_system.Elf.{read_le, write_le}
use osfix_operating_system.Elf.Bytes.{write_le-other}
use osfix_operating_system.Pmm.{palloc}
use osfix_operating_system.Exfat.{ExfatFs, Device, Volume, update_sector}

-- The first `size` bytes of a buffer that was read are those of `b`.
abbrev pub Holds : (size : ℕ) → Option Memory → Memory → Type 0
Holds size none b = ⊥
Holds size (some c) b = (i : ℕ) → i < size → c i ≡ b i

-- A device that works: a sector that is written without an error is read back, and no other sector
-- changes.
pub record IsDisk {W : Type 0} (d : Device W) (size : ℕ) : Type 0 where
  pub reads_back :
      (w : W) (sector : ℕ) (b : Memory)
      → (d.write_sector w sector b).0 ≡ true
      → Holds size (d.read_sector (d.write_sector w sector b).1 sector) b
  pub keeps_others :
      (w : W) (sector other : ℕ) (b : Memory)
      → other ≢ sector
      → d.read_sector (d.write_sector w sector b).1 other ≡ d.read_sector w other

pub read_le-agree :
    (n p size : ℕ) (a b : Memory)
    → ((i : ℕ) → i < size → a i ≡ b i)
    → p + n ≤ size
    → read_le n p a ≡ read_le n p b
unfolding read_le
read_le-agree zero p size a b same room = refl
read_le-agree (suc n) p size a b same room =
    omega (arith, same p (omega arith), read_le-agree n (p + 1) size a b same (omega arith))

-- A number that is written leaves those beside it.
pub read_le-apart :
    (n k p q v : ℕ) (m : Memory)
    → (q + n ≤ p) ⊎ (p + k ≤ q)
    → read_le n q (write_le k p v m) ≡ read_le n q m
unfolding read_le
read_le-apart zero k p q v m apart = refl
read_le-apart (suc n) k p q v m apart =
    omega (
      arith,
      write_le-other k p v q m (ground arith),
      read_le-apart n k p (q + 1) v m (ground arith),
    )

-- The place of the cluster's number in its sector: within it, and at a multiple of 4.
module _ (size : ℕ) (positive : 0 < size) (fours : size % 4 ≡ 0) (cluster : ℕ) where
  abbrev quotient : ℕ
  quotient = cluster * 4 / size

  pub place : (cluster * 4) % size + quotient * size ≡ cluster * 4
  place = mod-add-div' (cluster * 4) size

  size-fours : size ≡ 4 * (size / 4)
  size-fours = omega arith

  pub place-fours : (cluster * 4) % size % 4 ≡ 0
  place-fours = omega (arith, place, ap (λ (s : ℕ). quotient * s) size-fours)

  place-below : (cluster * 4) % size < size
  place-below = mod-lt (cluster * 4) positive

  pub place-fits : (cluster * 4) % size + 4 ≤ size
  place-fits = omega (arith, place-fours, place-below)

module _ {W : Type 0} (d : Device W) (fs : ExfatFs) where
  -- A sector is updated only with a scratch page, after it is read and written.
  pub record IsUpdated (sector : ℕ) (change : Memory → Memory) (v : Volume W) : Type 0 where
    pub page : (palloc v.pmm).0 ≢ 0
    pub buf : Memory
    pub read : d.read_sector v.device sector ≡ some buf
    pub ok : (d.write_sector v.device sector (change buf)).0 ≡ true
    pub after :
        (update_sector d fs sector change v).1.device
        ≡ (d.write_sector v.device sector (change buf)).1

  pub update_sector-IsUpdated :
      (sector : ℕ) (change : Memory → Memory) (v : Volume W)
      → (update_sector d fs sector change v).0 ≡ true
      → IsUpdated sector change v
  unfolding update_sector
  update_sector-IsUpdated sector change v ok = elim (Bool-cases ((palloc v.pmm).0 == 0)) [
    | inl out ↦ absurd (ground (arith, ok))
    | inr taken ↦ elim (Option-cases (d.read_sector v.device sector)) [
      | inl failed ↦
          let e : (update_sector d fs sector change v).0 ≡ false =
            rw (taken, update_sector, failed) refl in
          absurd (ground (arith, e, ok))
      | inr (buf, read) ↦
          let e : (update_sector d fs sector change v).0
              ≡ (d.write_sector v.device sector (change buf)).0 =
            rw (taken, update_sector, read) refl in
          record {
            page = ground (arith, taken);
            buf = buf;
            read = read;
            ok = sym e ∙ ok;
            after = rw (taken, update_sector, read) refl;
          }
    ]
  ]
