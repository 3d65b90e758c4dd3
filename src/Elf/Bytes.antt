-- ===== src/Elf/Bytes.antt =====
-- Numbers in memory, lowest byte first, as the structures of kernel/includes/main/util/elf/elf.h
-- are read and written.
use osfix_operating_system.Base.{
  ℕ, zero, suc, ◌+◌, ◌*◌, ◌/◌, ◌%◌, ◌^◌, ◌≤◌, ◌<◌, ◌≡◌, refl, ap, ◌∙◌, arith, ◌⊎◌,
}
use osfix_operating_system.Memory.{Memory, write}
use osfix_operating_system.Elf.{read_le, write_le}

write-same : (m : Memory) (p v : ℕ) → write m p v p ≡ v
unfolding write
write-same m p v = ground arith

write_le-below : (n p v q : ℕ) (m : Memory) → q < p → write_le n p v m q ≡ m q
unfolding write_le write
write_le-below zero p v q m lt = refl
write_le-below (suc n) p v q m lt =
    write_le-below n (p + 1) (v / 256) q _ (omega arith) ∙ ground arith

-- The number that the n lowest bytes make.
abbrev low_bytes : (n v : ℕ) → ℕ
low_bytes zero v = 0
low_bytes (suc n) v = v % 256 + 256 * low_bytes n (v / 256)

read_le-write_le : (n p v : ℕ) (m : Memory) → read_le n p (write_le n p v m) ≡ low_bytes n v
unfolding read_le write_le
read_le-write_le zero p v m = refl
read_le-write_le (suc n) p v m =
    let at_p : write_le n (p + 1) (v / 256) (write m p (v % 256)) p ≡ v % 256 =
      write_le-below n (p + 1) (v / 256) p (write m p (v % 256)) (omega arith)
      ∙ write-same m p (v % 256) in
    rw at_p
      (ap (λ r. v % 256 + 256 * r) (read_le-write_le n (p + 1) (v / 256) (write m p (v % 256))))

-- A 32-bit and a 64-bit number written and read back.
pub read_le-write_le_4 : (p v : ℕ) (m : Memory) → read_le 4 p (write_le 4 p v m) ≡ v % 2 ^ 32
read_le-write_le_4 p v m = read_le-write_le 4 p v m ∙ omega arith

pub read_le-write_le_8 : (p v : ℕ) (m : Memory) → read_le 8 p (write_le 8 p v m) ≡ v % 2 ^ 64
read_le-write_le_8 p v m = read_le-write_le 8 p v m ∙ omega arith

-- The bytes outside of the number stay.
pub write_le-other : (n p v q : ℕ) (m : Memory) → (q < p) ⊎ (p + n ≤ q) → write_le n p v m q ≡ m q
unfolding write_le write
write_le-other zero p v q m h = refl
write_le-other (suc n) p v q m h =
    write_le-other n (p + 1) (v / 256) q (write m p (v % 256)) (ground arith) ∙ ground arith
