-- ===== src/Elf.antt =====
-- kernel/includes/main/util/elf/elf.h: the structures of ELF files, read from the bytes of a flat
-- memory, lowest byte first.
pub mod Bytes
use osfix_operating_system.Base.{
  ℕ, zero, suc, ◌+◌, ◌*◌, ◌/◌, ◌%◌, ◌^◌, Bool, true, false, ◌&&◌, List, [], ◌∷◌, ◌==◌,
}
use osfix_operating_system.Text.{CString}
use osfix_operating_system.Memory.{Memory, write}

-- An unsigned number of n bytes at p.
unfoldable pub read_le : (n p : ℕ) → Memory → ℕ
read_le zero p m = 0
read_le (suc n) p m = m p + 256 * read_le n (p + 1) m

unfoldable pub write_le : (n p v : ℕ) → Memory → Memory
write_le zero p v m = m
write_le (suc n) p v m = write_le n (p + 1) (v / 256) (write m p (v % 256))

-- The string at p, of at most n bytes.
unfoldable pub string_at : (n p : ℕ) → Memory → CString
string_at zero p m = []
string_at (suc n) p m = m p ∷ string_at n (p + 1) m

-- The fields of Elf64_Ehdr and Elf32_Ehdr that the loaders read.
pub record Ehdr : Type 0 where
  pub e_type : ℕ
  pub e_entry : ℕ
  pub e_phoff : ℕ
  pub e_shoff : ℕ
  pub e_phentsize : ℕ
  pub e_phnum : ℕ
  pub e_shnum : ℕ

abbrev pub ehdr64 : ℕ → Memory → Ehdr
ehdr64 p m = record {
  e_type = read_le 2 (p + 16) m;
  e_entry = read_le 8 (p + 24) m;
  e_phoff = read_le 8 (p + 32) m;
  e_shoff = read_le 8 (p + 40) m;
  e_phentsize = read_le 2 (p + 54) m;
  e_phnum = read_le 2 (p + 56) m;
  e_shnum = read_le 2 (p + 60) m;
}

abbrev pub ehdr32 : ℕ → Memory → Ehdr
ehdr32 p m = record {
  e_type = read_le 2 (p + 16) m;
  e_entry = read_le 4 (p + 24) m;
  e_phoff = read_le 4 (p + 28) m;
  e_shoff = read_le 4 (p + 32) m;
  e_phentsize = read_le 2 (p + 42) m;
  e_phnum = read_le 2 (p + 44) m;
  e_shnum = read_le 2 (p + 48) m;
}

-- The fields of Elf64_Phdr and Elf32_Phdr that the loaders read.
pub record Phdr : Type 0 where
  pub p_type : ℕ
  pub p_offset : ℕ
  pub p_vaddr : ℕ
  pub p_filesz : ℕ
  pub p_memsz : ℕ

abbrev pub phdr64 : ℕ → Memory → Phdr
phdr64 p m = record {
  p_type = read_le 4 p m;
  p_offset = read_le 8 (p + 8) m;
  p_vaddr = read_le 8 (p + 16) m;
  p_filesz = read_le 8 (p + 32) m;
  p_memsz = read_le 8 (p + 40) m;
}

abbrev pub phdr32 : ℕ → Memory → Phdr
phdr32 p m = record {
  p_type = read_le 4 p m;
  p_offset = read_le 4 (p + 4) m;
  p_vaddr = read_le 4 (p + 8) m;
  p_filesz = read_le 4 (p + 16) m;
  p_memsz = read_le 4 (p + 20) m;
}

-- The fields of Elf64_Shdr that the module loader reads.
pub record Shdr : Type 0 where
  pub sh_type : ℕ
  pub sh_flags : ℕ
  pub sh_addr : ℕ
  pub sh_offset : ℕ
  pub sh_size : ℕ
  pub sh_link : ℕ
  pub sh_info : ℕ
  pub sh_addralign : ℕ

abbrev pub shdr_at : ℕ → Memory → Shdr
shdr_at p m = record {
  sh_type = read_le 4 (p + 4) m;
  sh_flags = read_le 8 (p + 8) m;
  sh_addr = read_le 8 (p + 16) m;
  sh_offset = read_le 8 (p + 24) m;
  sh_size = read_le 8 (p + 32) m;
  sh_link = read_le 4 (p + 40) m;
  sh_info = read_le 4 (p + 44) m;
  sh_addralign = read_le 8 (p + 48) m;
}

-- `n` headers from p on
unfoldable pub shdrs_at : (n p : ℕ) → Memory → List Shdr
shdrs_at zero p m = []
shdrs_at (suc n) p m = shdr_at p m ∷ shdrs_at n (p + 64) m

pub record Sym : Type 0 where
  pub st_name : ℕ
  pub st_info : ℕ
  pub st_shndx : ℕ
  pub st_value : ℕ

-- symtab[j]
abbrev pub sym_at : (symtab j : ℕ) → Memory → Sym
sym_at symtab j m = record {
  st_name = read_le 4 (symtab + 24 * j) m;
  st_info = read_le 1 (symtab + 24 * j + 4) m;
  st_shndx = read_le 2 (symtab + 24 * j + 6) m;
  st_value = read_le 8 (symtab + 24 * j + 8) m;
}

pub record Rela : Type 0 where
  pub r_offset : ℕ
  pub r_info : ℕ
  pub r_addend : ℕ

-- relas[j]; the addend is its two's complement.
abbrev pub rela_at : (relas j : ℕ) → Memory → Rela
rela_at relas j m = record {
  r_offset = read_le 8 (relas + 24 * j) m;
  r_info = read_le 8 (relas + 24 * j + 8) m;
  r_addend = read_le 8 (relas + 24 * j + 16) m;
}

abbrev pub ehdr_size : ℕ
ehdr_size = 64

-- ELF64_ST_BIND, ELF64_R_SYM and ELF64_R_TYPE
abbrev pub st_bind : ℕ → ℕ
st_bind info = info / 16

abbrev pub r_sym : ℕ → ℕ
r_sym info = info / 2 ^ 32

abbrev pub r_type_of : ℕ → ℕ
r_type_of info = info % 2 ^ 32

abbrev pub shf_alloc : ℕ → Bool
shf_alloc flags = flags / 2 % 2 == 1

abbrev pub shn_undef : ℕ
shn_undef = 0

abbrev pub shn_abs : ℕ
shn_abs = 0xFFF1

-- memcmp(p, "\x7f\x45\x4c\x46", 4) == 0
unfoldable pub has_magic : ℕ → Memory → Bool
has_magic p m = m p == 0x7F && m (p + 1) == 0x45 && m (p + 2) == 0x4C && m (p + 3) == 0x46
