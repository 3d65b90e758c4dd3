-- ===== src/Modload.antt =====
-- kernel/main/util/elf/elf_loader.c: elf_load_module, which loads a relocatable file into one image
-- of the heap; and modsym_register of kernel/main/module/modsym.c. Pointers are addresses of a flat
-- memory. The section headers are read once into a list, in which sh_addr is filled in.
pub mod Load
pub mod Layout
pub mod Relocate
pub mod Errors
mod Tests
use Prim.Native.Nat.{bit_and}
use osfix_operating_system.Base.{
  ℕ, zero, suc, ◌+◌, ◌-◌, ◌*◌, ◌/◌, ◌%◌, ◌^◌, Bool, true, false, not, ◌&&◌, ◌||◌, Option, none,
  some, List, [], ◌∷◌, leb, ltb, ◌==◌, if◌then◌else◌, length, get_elem?, add64, sub64,
}
use osfix_operating_system.Base.Int.{ℤ, pos, negsuc, minus_one}
use osfix_operating_system.Text.{CString, strcmp, first}
use osfix_operating_system.Memory.{Memory, write, memcpy, memset}
use osfix_operating_system.Vfs.{Vfs, Mount, Stat, is_zero, vfs_get_root_mount}
use osfix_operating_system.Vfs.Calls.{vfs_path_to_inode, vfs_stat, vfs_read}
use osfix_operating_system.Elf.{
  Ehdr, Shdr, Sym, Rela, ehdr64, ehdr_size, shdrs_at, sym_at, rela_at, string_at, st_bind, r_sym,
  r_type_of, shf_alloc, shn_undef, shn_abs, has_magic, write_le,
}
use osfix_operating_system.Symbols.{Modsym, SymHeap, codes, ksym_lookup, modsym_lookup, push_sym}

abbrev pub et_rel : ℕ
et_rel = 1

abbrev pub sht_symtab : ℕ
sht_symtab = 2

abbrev pub sht_rela : ℕ
sht_rela = 4

abbrev pub sht_nobits : ℕ
sht_nobits = 8

unfoldable pub mod_align_up : (val align : ℕ) → ℕ
mod_align_up val align =
    if leb align 1 then val else bit_and (sub64 (add64 val align) 1) (2 ^ 64 - 1 - (align - 1))

-- The first loop: each section that is allocated gets its place behind the ones before it.
unfoldable pub layout : List Shdr → (image_size : ℕ) → List Shdr × ℕ
layout [] image_size = ([], image_size)
layout (s ∷ ss) image_size =
    let start = mod_align_up image_size s.sh_addralign in
    let (placed, size) = layout ss (add64 start s.sh_size) in
    let (others, size') = layout ss image_size in
    if shf_alloc s.sh_flags
    then (record s { sh_addr = start } ∷ placed, size)
    else (s ∷ others, size')

unfoldable pub copy_sections : (image buf : ℕ) → List Shdr → Memory → Memory
copy_sections image buf [] m = m
copy_sections image buf (s ∷ ss) m = copy_sections image buf ss (
    if shf_alloc s.sh_flags && not (s.sh_type == sht_nobits)
    then memcpy (image + s.sh_addr) (buf + s.sh_offset) s.sh_size m
    else m)

-- What stays the same while a module is linked: the image, the file and its size, the sections,
-- and the tables of symbols.
pub record Linking : Type 0 where
  pub image : ℕ
  pub buf : ℕ
  pub file_size : ℕ
  pub shdrs : List Shdr
  pub address : ℕ → ℕ
  pub modsym : Modsym

-- A name of the file; one without a terminator is cut at the file's size.
abbrev pub name_at : Linking → ℕ → Memory → CString
name_at l p m = string_at l.file_size p m

abbrev pub lookup_either : (ksym modsym : ℕ) → Option ℕ
lookup_either k s = let addr = if k == 0 then s else k in if addr == 0 then none else some addr

-- `none` is an error.
unfoldable pub mod_resolve_sym : Linking → Sym → (strtab : ℕ) → Memory → Option ℕ
mod_resolve_sym l s strtab m =
    let name = name_at l (strtab + s.st_name) m in
    if s.st_shndx == shn_undef
    then lookup_either (ksym_lookup l.address name) (modsym_lookup name l.modsym)
    else if s.st_shndx == shn_abs
    then some s.st_value
    else elim (get_elem? l.shdrs s.st_shndx) [
      | none ↦ none
      | some section ↦ some (add64 (add64 l.image section.sh_addr) s.st_value)
    ]

-- The relocation types R_X86_64_64, PC32, PLT32, 32 and 32S; the others do nothing.
unfoldable pub mod_apply_rela : (patch s a r_type : ℕ) → Memory → Memory
mod_apply_rela patch s a r_type m =
    if r_type == 1
    then write_le 8 patch (add64 s a) m
    else if r_type == 10 || r_type == 11
    then write_le 4 patch (add64 s a % 2 ^ 32) m
    else if r_type == 2 || r_type == 4
    then write_le 4 patch (sub64 (add64 s a) patch % 2 ^ 32) m
    else m

-- The relocations from j on, `rounds` of them.
unfoldable pub apply_relas :
    (rounds j : ℕ) → Linking → (target symtab strtab relas : ℕ) → Memory → Option Memory
apply_relas zero j l target symtab strtab relas m = some m
apply_relas (suc rounds) j l target symtab strtab relas m =
    let r = rela_at relas j m in
    let sym_val =
      if r_sym r.r_info == 0
      then some 0
      else mod_resolve_sym l (sym_at symtab (r_sym r.r_info) m) strtab m in
    elim sym_val [
      | none ↦ none
      | some s ↦
          apply_relas rounds (j + 1) l target symtab strtab relas
            (mod_apply_rela (l.image + target + r.r_offset) s r.r_addend (r_type_of r.r_info) m)
    ]

-- One section of relocations, for the headers of its target, its symbols and their names.
unfoldable pub relocate_with : Linking → (s target symtab strtab : Shdr) → Memory → Option Memory
relocate_with l s target symtab strtab m =
    if not (shf_alloc target.sh_flags)
    then some m
    else apply_relas (s.sh_size / 24) 0 l target.sh_addr (l.buf + symtab.sh_offset)
        (l.buf + strtab.sh_offset) (l.buf + s.sh_offset) m

unfoldable pub relocate_section : Linking → Shdr → Memory → Option Memory
relocate_section l s m =
    if not (s.sh_type == sht_rela) then some m else elim (get_elem? l.shdrs s.sh_info) [
      | none ↦ some m
      | some target ↦ elim (get_elem? l.shdrs s.sh_link) [
        | none ↦ some m
        | some symtab ↦ elim (get_elem? l.shdrs symtab.sh_link) [
          | none ↦ some m
          | some strtab ↦ relocate_with l s target symtab strtab m
        ]
      ]
    ]

unfoldable pub relocate : Linking → List Shdr → Memory → Option Memory
relocate l [] m = some m
relocate l (s ∷ ss) m = elim (relocate_section l s m) [ none ↦ none | some m' ↦ relocate l ss m' ]
