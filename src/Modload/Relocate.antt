-- ===== src/Modload/Relocate.antt =====
-- kernel/main/util/elf/elf_loader.c: what mod_apply_rela leaves at the place that it patches.
use osfix_operating_system.Base.{
  ℕ, ◌+◌, ◌%◌, ◌^◌, ◌≤◌, ◌<◌, ◌≡◌, refl, ap, ◌∙◌, arith, ◌⊎◌, inl, inr, add64, sub64,
}
use osfix_operating_system.Memory.{Memory}
use osfix_operating_system.Elf.{read_le, write_le}
use osfix_operating_system.Elf.Bytes.{read_le-write_le_4, read_le-write_le_8, write_le-other}
use osfix_operating_system.Modload.{mod_apply_rela}

-- A relative relocation (R_X86_64_PC32 or PLT32) leaves a displacement that leads from the place
-- to the symbol plus addend, modulo 2^32, as the processor adds it.
pub mod_apply_rela-relative :
    (patch s a r_type : ℕ) (m : Memory)
    → (r_type ≡ 2) ⊎ (r_type ≡ 4)
    → s < 2 ^ 64
    → a < 2 ^ 64
    → patch < 2 ^ 64
    → (patch + read_le 4 patch (mod_apply_rela patch s a r_type m)) % 2 ^ 32 ≡ (s + a) % 2 ^ 32
unfolding mod_apply_rela
mod_apply_rela-relative patch s a r_type m h s_lt a_lt p_lt =
    let v = sub64 (add64 s a) patch % 2 ^ 32 in
    let e : mod_apply_rela patch s a r_type m ≡ write_le 4 patch v m = elim h [
      | inl two ↦ rw two refl
      | inr four ↦ rw four refl
    ] in
    let r : read_le 4 patch (mod_apply_rela patch s a r_type m) ≡ v % 2 ^ 32 =
      ap (read_le 4 patch) e ∙ read_le-write_le_4 patch v m in
    omega (arith, r)

-- An absolute relocation (R_X86_64_64) leaves the symbol plus addend.
pub mod_apply_rela-absolute :
    (patch s a : ℕ) (m : Memory) → read_le 8 patch (mod_apply_rela patch s a 1 m) ≡ (s + a) % 2 ^ 64
unfolding mod_apply_rela
mod_apply_rela-absolute patch s a m = read_le-write_le_8 patch (add64 s a) m ∙ omega arith

-- No relocation changes a byte outside of the eight from the place on.
pub mod_apply_rela-other :
    (patch s a r_type q : ℕ) (m : Memory)
    → (q < patch) ⊎ (patch + 8 ≤ q)
    → mod_apply_rela patch s a r_type m q ≡ m q
unfolding mod_apply_rela
mod_apply_rela-other patch s a r_type q m h =
    let four : (q < patch) ⊎ (patch + 4 ≤ q) = ground arith in
    ground (
      arith,
      write_le-other 8 patch (add64 s a) q m h,
      write_le-other 4 patch (add64 s a % 2 ^ 32) q m four,
      write_le-other 4 patch (sub64 (add64 s a) patch % 2 ^ 32) q m four,
    )
